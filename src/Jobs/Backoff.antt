-- ===== src/Jobs/Backoff.antt =====
-- Failures: backoff, and the limit on attempts.
use native.Mathlib.Nat.{pow-le-pow_right, one-le-pow}
use whats_app_poke.Prelude.{
  ℕ, ◌+◌, ◌*◌, ◌^◌, ◌≤◌, min, ◌≡◌, refl, subst, inl, inr, some, List, arith, leb, if◌then◌else◌,
  second, Bool-cases,
}
use whats_app_poke.Table.{get, get-update_by_id_self, get-key, get_self, update_by_id}
use whats_app_poke.Jobs.{
  Job, running, is_running, mark_failed, fail_job, dead_lettered, requeued, backoff_seconds,
}

-- The wait after a failure lies between one second and the cap of 300, and it never falls as
-- the attempts rise.
pub backoff_bounds :
    (m n : ℕ)
    → m ≤ n
    → (1 ≤ backoff_seconds m) × (backoff_seconds m ≤ backoff_seconds n) × (backoff_seconds n ≤ 300)
unfolding backoff_seconds
backoff_bounds m n h =
    let grows : 2 ^ m ≤ 2 ^ n = pow-le-pow_right (omega arith) h in
    let pos : 1 ≤ 2 ^ m = one-le-pow m 2 (omega arith) in (omega arith, omega arith, omega arith)

-- The row after a failure: one more attempt, and dead or waiting for its backoff.
abbrev pub after_failure : ℕ → Job → Job
after_failure now job =
    if leb job.max_attempts (job.attempts + 1)
    then dead_lettered (job.attempts + 1) job
    else requeued (job.attempts + 1) (now + min (2 ^ (job.attempts + 1)) 300 * second) job

get-fail_job :
    (now : ℕ) (job : Job) (jobs : List Job)
    → get Job.id job.id jobs ≡ some job
    → job.status ≡ running
    → get Job.id job.id (fail_job now job jobs).0 ≡ some (after_failure now job)
unfolding fail_job
get-fail_job now job jobs found run = elim (Bool-cases (leb job.max_attempts (job.attempts + 1))) [
  | inl last ↦ rw last (written (dead_lettered (job.attempts + 1)) (λ x. refl))
  | inr more ↦ rw more (written (requeued (job.attempts + 1) _) (λ x. refl))
]
  where
    written :
        (f : Job → Job)
        → ((x : Job) → (f x).id ≡ x.id)
        → get Job.id job.id (update_by_id Job.id job.id (λ r. is_running r.status) f jobs).0
          ≡ some (f job)
    written f keeps =
        rw (get-update_by_id_self Job.id job.id (λ r. is_running r.status) f keeps jobs, found)
          (rw run refl)

-- What `_mark_failed` writes for a job that is still running: one more attempt, and either the
-- job is dead, exactly when the attempts reach the limit, or it is pending again after a backoff
-- of two to the power of the attempts, at most 300 seconds.
pub mark_failed_running :
    (now : ℕ) (job : Job) (jobs : List Job) {fresh : Job}
    → get Job.id job.id jobs ≡ some fresh
    → fresh.status ≡ running
    → get Job.id job.id (mark_failed now job jobs) ≡ some (after_failure now fresh)
unfolding mark_failed
mark_failed_running now job jobs {fresh} found run =
    let same_id : fresh.id ≡ job.id = get-key Job.id job.id jobs found in
    let own : get Job.id fresh.id jobs ≡ some fresh = get_self Job.id job.id jobs found in
    rw (found, run)
      (subst (λ k. get Job.id k (fail_job now fresh jobs).0 ≡ some (after_failure now fresh))
        same_id (get-fail_job now fresh jobs own run))
