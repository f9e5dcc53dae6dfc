-- ===== src/Table/Find.antt =====
-- Queries for one row, in a table that grows and is updated.
use mathlib.Core.Option
use whats_app_poke.Prelude.{
  ◌≡◌, refl, ◌∙◌, inl, inr, Bool, true, false, none, some, List, [], ◌∷◌, ◌++◌, arith, Bool-cases,
  if◌then◌else◌,
}
use whats_app_poke.Table.Defs.{find, update_where, count}

module _ {ℓ} {A : Type ℓ} (p : A → Bool) where
  -- a row that is appended is found, if none was
  pub find-append_new :
      (rows : List A) (r : A) → find p rows ≡ none → p r ≡ true → find p (rows ++ r ∷ []) ≡ some r
  unfolding find
  find-append_new [] r e met = rw met
  find-append_new (s ∷ rows) r e met = elim (Bool-cases (p s)) [
    | inl yes_s ↦ absurd (ground arith)
    | inr no_s ↦ rw no_s (find-append_new rows r (rest_none no_s) met)
  ]
    where
      rest_none : p s ≡ false → find p rows ≡ none
      rest_none no_s = ground arith

  -- what was found is still found
  pub find-append_old :
      (rows added : List A) {s : A} → find p rows ≡ some s → find p (rows ++ added) ≡ some s
  unfolding find
  find-append_old [] added e = absurd (ground arith)
  find-append_old (r ∷ rows) added {s} e = elim (Bool-cases (p r)) [
    | inl yes_r ↦ rw yes_r (ground arith)
    | inr no_r ↦ rw no_r (find-append_old rows added (rest_some no_r))
  ]
    where
      rest_some : p r ≡ false → find p rows ≡ some s
      rest_some no_r = ground arith

  -- an update of the rows that meet the condition, which keeps them meeting it
  pub find-update_where :
      (f : A → A) (keeps : (r : A) → p r ≡ true → p (f r) ≡ true) (rows : List A)
      → find p (update_where p f rows) ≡ Option.map f (find p rows)
  unfolding find update_where
  find-update_where f keeps [] = refl
  find-update_where f keeps (r ∷ rows) = elim (Bool-cases (p r)) [
    | inl yes_r ↦ rw (yes_r, keeps r yes_r)
    | inr no_r ↦ rw no_r (rw no_r (find-update_where f keeps rows))
  ]

  pub count-none : (rows : List A) → find p rows ≡ none → count p rows ≡ 0
  unfolding find count
  count-none [] e = refl
  count-none (r ∷ rows) e = elim (Bool-cases (p r)) [
    | inl yes_r ↦ absurd (ground arith)
    | inr no_r ↦ rw no_r (count-none rows (rest_none no_r))
  ]
    where
      rest_none : p r ≡ false → find p rows ≡ none
      rest_none no_r = ground arith

  pub find-meets : (rows : List A) {r : A} → find p rows ≡ some r → p r ≡ true
  unfolding find
  find-meets [] e = absurd (ground arith)
  find-meets (s ∷ rows) {r} e = elim (Bool-cases (p s)) [
    | inl yes_s ↦ ground arith
    | inr no_s ↦ find-meets rows (rest_some no_s)
  ]
    where
      rest_some : p s ≡ false → find p rows ≡ some r
      rest_some no_s = ground arith

  -- an update that makes no difference to the condition
  pub find-update :
      (q : A → Bool) (f : A → A) (keeps : (r : A) → p (f r) ≡ p r) (rows : List A)
      → find p (update_where q f rows) ≡ Option.map (λ r. if q r then f r else r) (find p rows)
  unfolding find update_where
  find-update q f keeps [] = refl
  find-update q f keeps (r ∷ rows) = elim (Bool-cases (p r)) [
    | inl own ↦ elim (Bool-cases (q r)) [
      | inl met ↦ rw met (rw (keeps r ∙ own) (rw own (rw met refl)))
      | inr unmet ↦ rw unmet (rw own (rw unmet refl))
    ]
    | inr other ↦ elim (Bool-cases (q r)) [
      | inl met ↦ rw met (rw (keeps r ∙ other) (rw other (find-update q f keeps rows)))
      | inr unmet ↦ rw unmet (rw other (find-update q f keeps rows))
    ]
  ]
