-- ===== src/Table/Keyed.antt =====
-- What a statement does to the row with a given primary key, and to a property of every row.
use mathlib.Core.Option
use native.Mathlib.Decide.{ℕ_discrete}
use whats_app_poke.Prelude.{
  ℕ, ◌≡◌, refl, sym, subst, ap, ◌≢◌, inl, inr, Bool, true, false, ◌&&◌, none, some, List, [], ◌∷◌,
  ◌++◌, arith, ◌==◌, if◌then◌else◌, Bool-cases, Option-cases,
}
use whats_app_poke.Table.Defs.{update_where, get, update_by_id, Unique}

module _ {ℓ} {A : Type ℓ} (id : A → ℕ) (p : A → Bool) (f : A → A)
    (keeps : (r : A) → id (f r) ≡ id r) where
  -- An update that keeps the keys acts on the row found under a key by itself.
  pub get-update_where :
      (i : ℕ) (rows : List A)
      → get id i (update_where p f rows) ≡ Option.map (λ r. if p r then f r else r) (get id i rows)
  unfolding get update_where
  get-update_where i [] = refl
  get-update_where i (r ∷ rows) = elim (Bool-cases (p r)) [
    | inl yes_p ↦
        rw (yes_p, keeps r)
          (elim (Bool-cases (id r == i)) [
            | inl e ↦ rw (e, yes_p)
            | inr e ↦ rw e (get-update_where i rows)
          ])
    | inr no_p ↦ rw no_p (elim (Bool-cases (id r == i)) [
      | inl e ↦ rw (e, no_p)
      | inr e ↦ rw e (get-update_where i rows)
    ])
  ]

  pub Unique-update_where : (rows : List A) → Unique id rows → Unique id (update_where p f rows)
  unfolding update_where
  Unique-update_where [] u = tt
  Unique-update_where (r ∷ rows) u = elim (Bool-cases (p r)) [
    | inl e ↦
        rw (e, keeps r) (rw (get-update_where (id r) rows, u.0) refl, Unique-update_where rows u.1)
    | inr e ↦ rw e (rw (get-update_where (id r) rows, u.0) refl, Unique-update_where rows u.1)
  ]

module _ {ℓ} {A : Type ℓ} (id : A → ℕ) where
  -- the row that is found has the key
  pub get-key : (i : ℕ) (rows : List A) {r : A} → get id i rows ≡ some r → id r ≡ i
  unfolding get
  get-key i [] e = cc
  get-key i (s ∷ rows) {r} e = ground (arith, get-key i rows {r = r})

  pub get_self :
      (i : ℕ) (rows : List A) {r : A} → get id i rows ≡ some r → get id (id r) rows ≡ some r
  get_self i rows {r} e = subst (λ k. get id k rows ≡ some r) (sym (get-key i rows e)) e

  pub get-append :
      (i : ℕ) (rows : List A) (r : A)
      → get id i (rows ++ r ∷ [])
        ≡ elim (get id i rows) [ none ↦ if id r == i then some r else none | some s ↦ some s ]
  unfolding get
  get-append i [] r = refl
  get-append i (s ∷ rows) r = elim (Bool-cases (id s == i)) [
    | inl e ↦ rw e
    | inr e ↦ rw e (get-append i rows r)
  ]

  pub get-append_new :
      (i : ℕ) (rows : List A) (r : A)
      → id r ≡ i
      → get id i rows ≡ none
      → get id i (rows ++ r ∷ []) ≡ some r
  get-append_new i rows r e fresh = rw (get-append i rows r, fresh) (ground arith)

  pub get-append_old :
      (i : ℕ) (rows : List A) (r : A) {s : A}
      → get id i rows ≡ some s
      → get id i (rows ++ r ∷ []) ≡ some s
  get-append_old i rows r e = rw (get-append i rows r, e)

  pub Unique-append :
      (rows : List A) (r : A)
      → Unique id rows
      → get id (id r) rows ≡ none
      → Unique id (rows ++ r ∷ [])
  unfolding get
  Unique-append [] r u fresh = (refl, tt)
  Unique-append (s ∷ rows) r u fresh =
      (rw (get-append (id s) rows r, u.0) (ground arith), Unique-append rows r u.1 (ground arith))

module _ {ℓ} {A : Type ℓ} (id : A → ℕ) (i : ℕ) (c : A → Bool) (f : A → A)
    (keeps : (r : A) → id (f r) ≡ id r) where
  ne_test : (a : ℕ) → a ≢ i → (a == i) ≡ false
  ne_test a ne = ground arith

  -- An update by primary key of the row that it names.
  pub get-update_by_id_self :
      (rows : List A)
      → get id i (update_by_id id i c f rows).0
        ≡ Option.map (λ r. if c r then f r else r) (get id i rows)
  unfolding update_by_id
  get-update_by_id_self rows =
      rw (get-update_where id (λ r. id r == i && c r) f keeps i rows)
        (elim (Option-cases (get id i rows)) [
          | inl e ↦ rw e
          | inr (r, e) ↦ rw (e, get-key id i rows e) (ground arith)
        ])

  -- An update by primary key leaves every other row alone.
  pub get-update_by_id_ne :
      (j : ℕ) (rows : List A) → j ≢ i → get id j (update_by_id id i c f rows).0 ≡ get id j rows
  unfolding update_by_id
  get-update_by_id_ne j rows ne =
      rw (get-update_where id (λ r. id r == i && c r) f keeps j rows)
        (elim (Option-cases (get id j rows)) [
          | inl e ↦ rw e
          | inr (r, e) ↦ rw (e, ne_test (id r) (rw (get-key id j rows e) ne))
        ])

  pub Unique-update_by_id :
      (rows : List A) → Unique id rows → Unique id (update_by_id id i c f rows).0
  unfolding update_by_id
  Unique-update_by_id = Unique-update_where id (λ r. id r == i && c r) f keeps

  -- What an update by primary key returns is the row that it wrote, if it wrote one.
  pub update_by_id-some :
      (rows : List A) {s : A}
      → (update_by_id id i c f rows).1 ≡ some s
      → (r : A) × (get id i rows ≡ some r) × (c r ≡ true) × (s ≡ f r)
  unfolding update_by_id
  update_by_id-some rows e = elim (Option-cases (get id i rows)) [
    | inl no_row ↦ absurd (ground arith)
    | inr (r, found) ↦ elim (Bool-cases (c r)) [
      | inl yes_c ↦ (r, found, yes_c, ground arith)
      | inr no_c ↦ absurd (ground arith)
    ]
  ]

  -- and it stands in the table.
  pub update_by_id-stored :
      (rows : List A) {s : A}
      → (update_by_id id i c f rows).1 ≡ some s
      → get id i (update_by_id id i c f rows).0 ≡ some s
  update_by_id-stored rows {s} e =
      let (r, found, met, eq) = update_by_id-some rows e in
      rw (get-update_by_id_self rows, found, met) (ap some (sym eq))

  -- If it returns nothing, it wrote nothing.
  pub update_by_id-none :
      (j : ℕ) (rows : List A)
      → (update_by_id id i c f rows).1 ≡ none
      → get id j (update_by_id id i c f rows).0 ≡ get id j rows
  unfolding update_by_id
  update_by_id-none j rows e = elim (ℕ_discrete j i) [
    | yes same ↦
        rw (same, get-update_by_id_self rows)
          (elim (Option-cases (get id i rows)) [
            | inl no_row ↦ rw no_row
            | inr (r, found) ↦
                rw found (elim (Bool-cases (c r)) [
                  | inl yes_c ↦ absurd (ground arith)
                  | inr no_c ↦ rw no_c
                ])
          ])
    | no ne ↦ get-update_by_id_ne j rows ne
  ]
