-- ===== src/Table/Defs.antt =====
-- The statements.
use mathlib.Core.Option
use whats_app_poke.Prelude.{
  ℕ, suc, ◌≡◌, Bool, ◌&&◌, Option, none, some, List, [], ◌∷◌, ltb, ◌==◌, if◌then◌else◌,
}

module _ {ℓ} {A : Type ℓ} where
  -- `UPDATE t SET f WHERE p`
  unfoldable pub update_where : (A → Bool) → (A → A) → List A → List A
  update_where p f [] = []
  update_where p f (r ∷ rows) = (if p r then f r else r) ∷ update_where p f rows

  -- `SELECT * FROM t WHERE p LIMIT 1`, in table order
  unfoldable pub find : (A → Bool) → List A → Option A
  find p [] = none
  find p (r ∷ rows) = if p r then some r else find p rows

  -- `SELECT * FROM t WHERE p`, in table order
  unfoldable pub select : (A → Bool) → List A → List A
  select p [] = []
  select p (r ∷ rows) = let rest = select p rows in if p r then r ∷ rest else rest

  -- `SELECT count(*) FROM t WHERE p`, and the `rowcount` of an update
  unfoldable pub count : (A → Bool) → List A → ℕ
  count p [] = 0
  count p (r ∷ rows) = let rest = count p rows in if p r then suc rest else rest

  -- the row with the smaller key, the earlier one if they tie
  abbrev pub lesser : (A → ℕ) → A → Option A → A
  lesser key r none = r
  lesser key r (some s) = if ltb (key s) (key r) then s else r

  -- `SELECT * FROM t WHERE p ORDER BY key LIMIT 1`
  unfoldable pub least : (A → ℕ) → (A → Bool) → List A → Option A
  least key p [] = none
  least key p (r ∷ rows) =
      let rest = least key p rows in if p r then some (lesser key r rest) else rest

  -- the row with the larger key, the earlier one if they tie
  abbrev pub greater : (A → ℕ) → A → Option A → A
  greater key r none = r
  greater key r (some s) = if ltb (key r) (key s) then s else r

  -- `SELECT * FROM t WHERE p ORDER BY key DESC LIMIT 1`
  unfoldable pub greatest : (A → ℕ) → (A → Bool) → List A → Option A
  greatest key p [] = none
  greatest key p (r ∷ rows) =
      let rest = greatest key p rows in if p r then some (greater key r rest) else rest

  -- `session.get(T, id)`: the row with a primary key
  unfoldable pub get : (A → ℕ) → ℕ → List A → Option A
  get id i [] = none
  get id i (r ∷ rows) = if id r == i then some r else get id i rows

  -- the row, if it meets a further condition
  abbrev pub guard_row : (A → Bool) → Option A → Option A
  guard_row c none = none
  guard_row c (some r) = if c r then some r else none

  -- `UPDATE t SET f WHERE id = i AND c RETURNING *`, by the primary key: at most one row matches
  unfoldable pub update_by_id : (A → ℕ) → ℕ → (A → Bool) → (A → A) → List A → List A × Option A
  unfolding update_where get
  update_by_id id i c f rows =
      (update_where (λ r. id r == i && c r) f rows, Option.map f (guard_row c (get id i rows)))

  -- no two rows have the same primary key
  abbrev pub Unique : (A → ℕ) → List A → Type ℓ
  Unique id [] = Unit
  Unique id (r ∷ rows) = (get id (id r) rows ≡ none) × Unique id rows

  -- a property of every row
  abbrev pub All {κ} : (A → Type κ) → List A → Type κ
  All P [] = Unit
  All P (r ∷ rows) = P r × All P rows
