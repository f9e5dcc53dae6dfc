-- ===== src/Table/Least.antt =====
-- `ORDER BY … LIMIT 1`, and conditions that every row meets.
use whats_app_poke.Prelude.{
  ℕ, ◌≤◌, ◌≡◌, inl, inr, Bool, true, false, none, some, List, [], ◌∷◌, ◌++◌, arith, ◌==◌,
  Bool-cases, Option-cases,
}
use whats_app_poke.Table.Defs.{update_where, All, least, update_by_id, get, Unique}

module _ {ℓ κ} {A : Type ℓ} (P : A → Type κ) where
  pub All-append : (rows : List A) (r : A) → All P rows → P r → All P (rows ++ r ∷ [])
  All-append [] r h p = (p, tt)
  All-append (s ∷ rows) r h p = (h.0, All-append rows r h.1 p)

  pub All-update_where :
      (p : A → Bool) (f : A → A) (keeps : (r : A) → P r → p r ≡ true → P (f r)) (rows : List A)
      → All P rows
      → All P (update_where p f rows)
  unfolding update_where
  All-update_where p f keeps [] h = tt
  All-update_where p f keeps (r ∷ rows) h = elim (Bool-cases (p r)) [
    | inl e ↦ rw e (keeps r h.0 e, All-update_where p f keeps rows h.1)
    | inr e ↦ rw e (h.0, All-update_where p f keeps rows h.1)
  ]

  pub All-update_by_id :
      (id : A → ℕ) (i : ℕ) (c : A → Bool) (f : A → A) (keeps : (r : A) → P r → c r ≡ true → P (f r))
      (rows : List A)
      → All P rows
      → All P (update_by_id id i c f rows).0
  unfolding update_by_id
  All-update_by_id id i c f keeps rows h =
      All-update_where _ f (λ r good both. keeps r good (ground arith)) rows h

  pub All-get :
      (id : A → ℕ) (i : ℕ) (rows : List A) {r : A} → All P rows → get id i rows ≡ some r → P r
  unfolding get
  All-get id i [] h e = cc
  All-get id i (s ∷ rows) {r} h e = elim (Bool-cases (id s == i)) [
    | inl same ↦ rw (← (some-inj (rw same at e))) h.0
    | inr other ↦ All-get id i rows h.1 (rw other at e)
  ]
    where
      some-inj : {x y : A} → some x ≡ some y → x ≡ y
      some-inj q = cc

module _ {ℓ} {A : Type ℓ} where
  pub All-map {κ μ} :
      {P : A → Type κ} {Q : A → Type μ} (rows : List A)
      → All P rows
      → ((r : A) → P r → Q r)
      → All Q rows
  All-map [] h f = tt
  All-map (r ∷ rows) h f = (f r h.0, All-map rows h.1 f)

module _ {ℓ} {A : Type ℓ} (key : A → ℕ) (p : A → Bool) where
  -- The least row meets the condition.
  pub least-meets : (rows : List A) {r : A} → least key p rows ≡ some r → p r ≡ true
  unfolding least
  least-meets [] e = cc
  least-meets (s ∷ rows) {r} e = elim (Option-cases (least key p rows)) [
    | inl none_left ↦ ground arith
    | inr (t, found) ↦ ground (arith, least-meets rows {r = t} found)
  ]

  pub least-none : (rows : List A) → least key p rows ≡ none → All (λ s. p s ≡ false) rows
  unfolding least
  least-none [] e = tt
  least-none (s ∷ rows) e = (ground arith, least-none rows (ground arith))

  -- No row that meets the condition has a smaller key.
  pub least-le :
      (rows : List A) {r : A}
      → least key p rows ≡ some r
      → All (λ s. p s ≡ true → key r ≤ key s) rows
  unfolding least
  least-le [] e = tt
  least-le (s ∷ rows) {r} e = elim (Option-cases (least key p rows)) [
    | inl none_left ↦ (
      λ h. ground arith,
      All-map rows (least-none rows none_left) (λ a not_p yes_p. absurd (ground arith)),
    )
    | inr (t, found) ↦ (
      λ h. ground arith,
      All-map rows (least-le rows found) (λ a le yes_p. omega (arith, le yes_p, r_le t found)),
    )
  ]
    where
      r_le : (t : A) → least key p rows ≡ some t → key r ≤ key t
      r_le t found = ground arith

  -- The least row stands in the table: it is what its primary key finds.
  pub get-least :
      (id : A → ℕ) (rows : List A) {r : A}
      → Unique id rows
      → least key p rows ≡ some r
      → get id (id r) rows ≡ some r
  unfolding least get
  get-least id [] u e = cc
  get-least id (s ∷ rows) {r} u e = elim (Option-cases (least key p rows)) [
    | inl none_left ↦ ground arith
    | inr (t, found) ↦ ground (arith, get-least id rows {r = t} u.1 found)
  ]
