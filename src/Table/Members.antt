-- ===== src/Table/Members.antt =====
-- What a row that a query returns has in common with the table.
use whats_app_poke.Prelude.{
  ℕ, ◌≡◌, sym, ap, ◌∙◌, inl, inr, subst, Bool, true, false, if◌then◌else◌, none, some, List, [],
  ◌∷◌, arith, ◌==◌, Bool-cases, some_injective, ==→eq,
}
use whats_app_poke.Table.Least.{All-map}
use whats_app_poke.Table.Defs.{All, find, get, Unique}

-- The first row that meets a condition does so, and has what all rows have.
pub All-find {ℓ κ} :
    {A : Type ℓ} (P : A → Type κ) (p : A → Bool) (rows : List A) {s : A}
    → All P rows
    → find p rows ≡ some s
    → P s × (p s ≡ true)
unfolding find
All-find P p [] h e = absurd (ground arith)
All-find P p (r ∷ rows) {s} h e = elim (Bool-cases (p r)) [
  | inl met ↦ subst (λ x. P x × (p x ≡ true)) (found_head met) (h.0, met)
  | inr unmet ↦ All-find P p rows h.1 (found_tail unmet)
]
  where
    if_true : p r ≡ true → (if p r then some r else find p rows) ≡ some r
    if_true met = rw met

    if_false : p r ≡ false → (if p r then some r else find p rows) ≡ find p rows
    if_false unmet = rw unmet

    found_head : p r ≡ true → r ≡ s
    found_head met = some_injective (sym (if_true met) ∙ e)

    found_tail : p r ≡ false → find p rows ≡ some s
    found_tail unmet = sym (if_false unmet) ∙ e

module _ {ℓ} {A : Type ℓ} (id : A → ℕ) where
  other_key :
      (rows : List A) (r s : A)
      → get id (id r) rows ≡ none
      → get id (id s) rows ≡ some s
      → get id (id s) (r ∷ rows) ≡ some s
  unfolding get
  other_key rows r s fresh at = elim (Bool-cases (id r == id s)) [
    | inr ne ↦ rw ne at
    | inl same ↦
        absurd (clash (sym fresh ∙ ap (λ k. get id k rows) (==→eq (id r) (id s) same) ∙ at))
  ]
    where
      clash : none ≡ some s → ⊥
      clash e = cc

  self_key : (rows : List A) (r : A) → get id (id r) (r ∷ rows) ≡ some r
  unfolding get
  self_key rows r = ground arith

  -- Every row of a table with unique ids is the one that its id gets.
  pub stored_rows : (rows : List A) → Unique id rows → All (λ r. get id (id r) rows ≡ some r) rows
  stored_rows [] u = tt
  stored_rows (r ∷ rows) u =
      (self_key rows r, All-map rows (stored_rows rows u.1) (λ s at. other_key rows r s u.0 at))
