-- ===== src/Automations/Conflict.antt =====
-- A retry of a wake-up while another one is pending.
use whats_app_poke.Prelude.{
  ℕ, suc, ◌+◌, ◌*◌, ◌≤◌, ◌<◌, String, ◌≡◌, refl, subst, ap, ◌∙◌, inl, inr, Bool, true, false, ◌&&◌,
  some, List, [], ◌∷◌, arith, Bool-cases, ◌==◌, leb, second,
}
use whats_app_poke.Table.{get, count, update_where, update_by_id, count-update_where-ge}
use whats_app_poke.Jobs.{Job, is_running, requeued, backoff_seconds, fail_job}
use whats_app_poke.Automations.{is_automation_due, text_equals, is_wake_up}
use whats_app_poke.Automations.WakeUps.{WakeUpsUnique, automation_of, wake_up_of}

module _ (q : Job → Bool) (i : ℕ) (c : Job → Bool) (f : Job → Job)
    (spares : (x : Job) → q x ≡ true → c x ≡ false) where
  spared : (x : Job) → q x ≡ true → (x.id == i && c x) ≡ false
  spared x e = ground (arith, spares x e)

  -- an update that makes a row meet the condition raises the count
  count-gain :
      (jobs : List Job) (r : Job)
      → get Job.id i jobs ≡ some r
      → c r ≡ true
      → q (f r) ≡ true
      → suc (count q jobs) ≤ count q (update_where (λ x. x.id == i && c x) f jobs)
  unfolding get count update_where
  count-gain [] r found met gains = absurd (ground arith)
  count-gain (x ∷ jobs) r found met gains = elim (Bool-cases (x.id == i)) [
    | inl here ↦ gain_here here
    | inr there ↦ gain_there there (count-gain jobs r (found_there there) met gains)
  ]
    where
      rest : count q jobs ≤ count q (update_where (λ x. x.id == i && c x) f jobs)
      rest = count-update_where-ge q (λ x. x.id == i && c x) f spared jobs

      head_is : x.id == i ≡ true → x ≡ r
      head_is here = ground arith

      gain_here :
          x.id == i ≡ true
          → suc (count q (x ∷ jobs)) ≤ count q (update_where (λ x. x.id == i && c x) f (x ∷ jobs))
      gain_here here =
          let cx : c x ≡ true = ap c (head_is here) ∙ met in
          let qx : q (f x) ≡ true = ap (λ y. q (f y)) (head_is here) ∙ gains in
          ground (arith, rest, cx, qx, spares x, here)

      found_there : x.id == i ≡ false → get Job.id i jobs ≡ some r
      found_there there = ground arith

      gain_there :
          x.id == i ≡ false
          → suc (count q jobs) ≤ count q (update_where (λ x. x.id == i && c x) f jobs)
          → suc (count q (x ∷ jobs)) ≤ count q (update_where (λ x. x.id == i && c x) f (x ∷ jobs))
      gain_there there later = ground (arith, there, later)

not_running : (a : String) (x : Job) → is_wake_up a x ≡ true → is_running x.status ≡ false
unfolding is_wake_up
not_running a x e = ground arith

-- A wake-up that fails while another wake-up of its automation is pending, and has attempts left,
-- cannot be put back: the write of the retry would give the automation two pending wake-ups, which
-- the unique index refuses.
pub retry_conflict :
    (now : ℕ) (a : String) (jobs : List Job) (r : Job)
    → get Job.id r.id jobs ≡ some r
    → is_running r.status ≡ true
    → is_automation_due r.kind ≡ true
    → text_equals (automation_of r) a ≡ true
    → suc r.attempts < r.max_attempts
    → 1 ≤ count (is_wake_up a) jobs
    → ¬ WakeUpsUnique (fail_job now r jobs).0
unfolding fail_job update_by_id
retry_conflict now a jobs r found running due own left waits unique =
    let gained =
      count-gain (is_wake_up a) r.id (λ x. is_running x.status)
        (requeued (r.attempts + 1) (now + backoff_seconds (r.attempts + 1) * second))
        (not_running a) jobs r found running
        (wake_up_of a
          (requeued (r.attempts + 1) (now + backoff_seconds (r.attempts + 1) * second) r) due refl
          own) in
    omega (arith, gained, waits, bound)
  where
    not_exhausted : leb r.max_attempts (r.attempts + 1) ≡ false
    not_exhausted = ground (arith, left)

    written :
        (fail_job now r jobs).0
        ≡ update_where
            (λ x. x.id == r.id && is_running x.status)
            (requeued (r.attempts + 1) (now + backoff_seconds (r.attempts + 1) * second))
            jobs
    written = rw not_exhausted refl

    bound :
        count (is_wake_up a) (
          update_where
            (λ x. x.id == r.id && is_running x.status)
            (requeued (r.attempts + 1) (now + backoff_seconds (r.attempts + 1) * second))
            jobs)
        ≤ 1
    bound = subst (λ l. count (is_wake_up a) l ≤ 1) written (unique a)
