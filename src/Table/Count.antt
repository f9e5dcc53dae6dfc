-- ===== src/Table/Count.antt =====
-- How a statement changes the number of rows that meet a condition.
use whats_app_poke.Prelude.{
  ℕ, ◌+◌, ◌≤◌, ◌≡◌, refl, Bool, true, false, none, List, [], ◌∷◌, ◌++◌, arith, if◌then◌else◌,
}
use whats_app_poke.Table.Defs.{update_where, count, greatest, update_by_id}

module _ {ℓ} {A : Type ℓ} (q : A → Bool) where
  pub count-append :
      (rows : List A) (r : A) → count q (rows ++ r ∷ []) ≡ count q rows + (if q r then 1 else 0)
  unfolding count
  count-append [] r = ground arith
  count-append (s ∷ rows) r = ground (arith, count-append rows r)

  module _ (p : A → Bool) (f : A → A) where
    -- An update that makes no row meet the condition anew does not raise the count.
    pub count-update_where-le :
        (stays : (r : A) → p r ≡ true → q (f r) ≡ true → q r ≡ true) (rows : List A)
        → count q (update_where p f rows) ≤ count q rows
    unfolding count update_where
    count-update_where-le stays [] = omega arith
    count-update_where-le stays (r ∷ rows) =
        ground (arith, stays r, count-update_where-le stays rows)

    -- An update after which no row meets the condition.
    pub count-update_where-zero :
        (clears : (r : A) → q (if p r then f r else r) ≡ false) (rows : List A)
        → count q (update_where p f rows) ≡ 0
    unfolding count update_where
    count-update_where-zero clears [] = refl
    count-update_where-zero clears (r ∷ rows) = rw (clears r, count-update_where-zero clears rows)

    -- An update that makes no difference to the condition keeps the count.
    pub count-update_where_same :
        (same : (r : A) → q (f r) ≡ q r) (rows : List A)
        → count q (update_where p f rows) ≡ count q rows
    unfolding count update_where
    count-update_where_same same [] = refl
    count-update_where_same same (r ∷ rows) =
        ground (arith, same r, count-update_where_same same rows)

  -- the same for an update by primary key
  pub count-update_by_id-le :
      (id : A → ℕ) (i : ℕ) (c : A → Bool) (f : A → A)
      (stays : (r : A) → c r ≡ true → q (f r) ≡ true → q r ≡ true) (rows : List A)
      → count q (update_by_id id i c f rows).0 ≤ count q rows
  unfolding update_by_id
  count-update_by_id-le id i c f stays rows =
      count-update_where-le _ f (λ r both. stays r (ground arith)) rows

  -- A search that finds nothing: no row meets the condition.
  pub count-greatest-none :
      (key : A → ℕ) (rows : List A) → greatest key q rows ≡ none → count q rows ≡ 0
  unfolding count greatest
  count-greatest-none key [] e = refl
  count-greatest-none key (r ∷ rows) e = ground (arith, count-greatest-none key rows)

  -- An update that touches no row that meets the condition does not lower the count.
  pub count-update_where-ge :
      (p : A → Bool) (f : A → A) (spares : (r : A) → q r ≡ true → p r ≡ false) (rows : List A)
      → count q rows ≤ count q (update_where p f rows)
  unfolding count update_where
  count-update_where-ge p f spares [] = omega arith
  count-update_where-ge p f spares (r ∷ rows) =
      ground (arith, spares r, count-update_where-ge p f spares rows)

  -- A weaker condition is met at least as often.
  pub count_mono :
      (p : A → Bool) (weaker : (r : A) → q r ≡ true → p r ≡ true) (rows : List A)
      → count q rows ≤ count p rows
  unfolding count
  count_mono p weaker [] = omega arith
  count_mono p weaker (r ∷ rows) = ground (arith, weaker r, count_mono p weaker rows)
