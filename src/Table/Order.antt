-- ===== src/Table/Order.antt =====
-- `ORDER BY key DESC`: a stable sort.
use whats_app_poke.Prelude.{
  ℕ, ◌≡◌, inl, inr, Bool, true, List, [], ◌∷◌, ltb, if◌then◌else◌, Bool-cases,
}
use whats_app_poke.Table.Defs.{All, select}

module _ {ℓ} {A : Type ℓ} (key : A → ℕ) where
  abbrev insert_desc : A → List A → List A
  insert_desc r [] = r ∷ []
  insert_desc r (s ∷ rows) =
      let rest = insert_desc r rows in if ltb (key r) (key s) then s ∷ rest else r ∷ s ∷ rows

  unfoldable pub sort_desc : List A → List A
  sort_desc [] = []
  sort_desc (r ∷ rows) = insert_desc r (sort_desc rows)

  module _ {κ} (P : A → Type κ) where
    All-insert_desc : (r : A) (rows : List A) → P r → All P rows → All P (insert_desc r rows)
    All-insert_desc r [] p h = (p, tt)
    All-insert_desc r (s ∷ rows) p h = elim (Bool-cases (ltb (key r) (key s))) [
      | inl e ↦ rw e (h.0, All-insert_desc r rows p h.1)
      | inr e ↦ rw e (p, h)
    ]

    pub All-sort_desc : (rows : List A) → All P rows → All P (sort_desc rows)
    unfolding sort_desc
    All-sort_desc [] h = tt
    All-sort_desc (r ∷ rows) h = All-insert_desc r (sort_desc rows) h.0 (All-sort_desc rows h.1)

-- Every selected row meets the condition, and what holds of all rows holds of the selected ones.
pub All-select {ℓ κ} :
    {A : Type ℓ} (P : A → Type κ) (p : A → Bool) (rows : List A)
    → All P rows
    → All (λ r. P r × (p r ≡ true)) (select p rows)
unfolding select
All-select P p [] h = tt
All-select P p (r ∷ rows) h = elim (Bool-cases (p r)) [
  | inl e ↦ rw e ((h.0, e), All-select P p rows h.1)
  | inr e ↦ rw e (All-select P p rows h.1)
]
