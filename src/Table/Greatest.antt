-- ===== src/Table/Greatest.antt =====
-- `ORDER BY … DESC LIMIT 1`.
use whats_app_poke.Prelude.{
  ℕ, ◌≡◌, inl, inr, Bool, true, false, none, some, List, [], ◌∷◌, arith, Option-cases,
}
use whats_app_poke.Table.Defs.{All, greatest, get, Unique}

module _ {ℓ} {A : Type ℓ} (key : A → ℕ) (p : A → Bool) where
  -- The row with the greatest key meets the condition.
  pub greatest-meets : (rows : List A) {r : A} → greatest key p rows ≡ some r → p r ≡ true
  unfolding greatest
  greatest-meets [] e = cc
  greatest-meets (s ∷ rows) {r} e = elim (Option-cases (greatest key p rows)) [
    | inl none_left ↦ ground arith
    | inr (t, found) ↦ ground (arith, greatest-meets rows {r = t} found)
  ]

  pub greatest-none : (rows : List A) → greatest key p rows ≡ none → All (λ s. p s ≡ false) rows
  unfolding greatest
  greatest-none [] e = tt
  greatest-none (s ∷ rows) e = (ground arith, greatest-none rows (ground arith))

  -- The row with the greatest key stands in the table: it is what its primary key finds.
  pub get-greatest :
      (id : A → ℕ) (rows : List A) {r : A}
      → Unique id rows
      → greatest key p rows ≡ some r
      → get id (id r) rows ≡ some r
  unfolding greatest get
  get-greatest id [] u e = cc
  get-greatest id (s ∷ rows) {r} u e = elim (Option-cases (greatest key p rows)) [
    | inl none_left ↦ ground arith
    | inr (t, found) ↦ ground (arith, get-greatest id rows {r = t} u.1 found)
  ]
