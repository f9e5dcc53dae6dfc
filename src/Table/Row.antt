-- ===== src/Table/Row.antt =====
-- The row under one primary key, before and after a statement.
use native.Mathlib.Decide.{ℕ_discrete}
use whats_app_poke.Prelude.{
  ℕ, ◌≡◌, refl, ◌∙◌, ◌⊎◌, inl, inr, Bool, true, false, some, List, if◌then◌else◌, Bool-cases,
}
use whats_app_poke.Table.Defs.{get, update_where, update_by_id}
use whats_app_poke.Table.Keyed.{get-update_where, get-update_by_id_self, get-update_by_id_ne}

module _ {ℓ} {A : Type ℓ} (id : A → ℕ) (i : ℕ) (rows : List A) {r : A}
    (found : get id i rows ≡ some r) where
  pub row-update_where :
      (p : A → Bool) (f : A → A) (keeps : (x : A) → id (f x) ≡ id x)
      → get id i (update_where p f rows) ≡ some (if p r then f r else r)
  row-update_where p f keeps = rw (get-update_where id p f keeps i rows, found) refl

  module _ (j : ℕ) (c : A → Bool) (f : A → A) (keeps : (x : A) → id (f x) ≡ id x) where
    -- An update by primary key leaves the row alone, or names it and meets its condition.
    pub row-update_by_id :
        (get id i (update_by_id id j c f rows).0 ≡ some r)
        ⊎ ((i ≡ j) × (c r ≡ true) × (get id i (update_by_id id j c f rows).0 ≡ some (f r)))
    row-update_by_id = elim (ℕ_discrete i j) [
      | yes e ↦ elim (Bool-cases (c r)) [
        | inl met ↦ inr (e, met, rw (← e) (at_self met))
        | inr unmet ↦ inl (rw (← e) (at_self_not unmet))
      ]
      | no ne ↦ inl (get-update_by_id_ne id j c f keeps i rows ne ∙ found)
    ]
      where
        at_self : c r ≡ true → get id i (update_by_id id i c f rows).0 ≡ some (f r)
        at_self met = rw (get-update_by_id_self id i c f keeps rows, found) (rw met)

        at_self_not : c r ≡ false → get id i (update_by_id id i c f rows).0 ≡ some r
        at_self_not unmet = rw (get-update_by_id_self id i c f keeps rows, found) (rw unmet)

  -- The same with the new row named.
  pub step-update_by_id :
      (j : ℕ) (c : A → Bool) (f : A → A) (keeps : (x : A) → id (f x) ≡ id x)
      → (s : A) × (get id i (update_by_id id j c f rows).0 ≡ some s)
        × ((s ≡ r) ⊎ ((i ≡ j) × (c r ≡ true) × (s ≡ f r)))
  step-update_by_id j c f keeps = elim (row-update_by_id j c f keeps) [
    | inl stays ↦ (r, stays, inl refl)
    | inr (e, met, written) ↦ (f r, written, inr (e, met, refl))
  ]

  pub step-update_where :
      (p : A → Bool) (f : A → A) (keeps : (x : A) → id (f x) ≡ id x)
      → (s : A) × (get id i (update_where p f rows) ≡ some s)
        × ((s ≡ r) ⊎ ((p r ≡ true) × (s ≡ f r)))
  step-update_where p f keeps = elim (Bool-cases (p r)) [
    | inl e ↦ (f r, rw (row-update_where p f keeps, e) refl, inr (e, refl))
    | inr e ↦ (r, rw (row-update_where p f keeps, e) refl, inl refl)
  ]
