-- ===== src/Jobs/Rows.antt =====
-- What each statement does to the one row that a primary key finds.
use whats_app_poke.Prelude.{
  ℕ, ◌+◌, ◌≡◌, refl, inl, inr, Bool, true, false, some, List, arith, if◌then◌else◌, Bool-cases,
  Option-cases, leb, ◌∙◌, ap, ◌*◌, second,
}
use whats_app_poke.Table.{
  get, Unique, least, get-least, least-meets, get-append_old, update_by_id, update_where, get_self,
  row-update_where, row-update_by_id,
}
use whats_app_poke.Jobs.{
  Job, JobStatus, JobKind, pending, running, done, dead, is_running, is_pending, insert_job,
  claim_job, is_candidate, claimed, complete_job, completed, mark_failed, fail_job, dead_letter,
  dead_lettered, requeued, moved, move_wake_up, recover_stale_jobs, recovered, is_stale,
  backoff_seconds,
}
use whats_app_poke.Payload.{Payload}

-- The statements on the queue, as the API and the worker issue them. `move` is the UPDATE of
-- `upsert_automation_due` in app/db/automations.py, `enqueue` also its INSERT.
pub data Op : Type 0 where
  enqueue : (new_id now contact_id : ℕ) → JobKind → Payload → ℕ → Op
  claim : (ℕ → Bool) → ℕ → Op
  complete : ℕ → Op
  fail : ℕ → Job → Op
  kill : Job → Op
  move : (job_id run_at : ℕ) → Payload → Op
  recover : (older_than_minutes now : ℕ) → Op

unfoldable pub apply : Op → List Job → List Job
apply (Op.enqueue new_id now contact_id kind payload run_at) jobs =
    insert_job new_id now contact_id kind payload run_at jobs
apply (Op.claim locked now) jobs = (claim_job locked now jobs).0
apply (Op.complete job_id) jobs = complete_job job_id jobs
apply (Op.fail now job) jobs = mark_failed now job jobs
apply (Op.kill job) jobs = dead_letter job jobs
apply (Op.move job_id run_at payload) jobs = move_wake_up job_id run_at payload jobs
apply (Op.recover older now) jobs = (recover_stale_jobs older now jobs).0

-- A statement that puts no running job back: neither a failure nor the recovery of stale jobs.
abbrev pub is_quiet : Op → Bool
is_quiet (Op.fail _ _) = false
is_quiet (Op.recover _ _) = false
is_quiet _ = true

-- How one statement may change a row.
pub data Move (op : Op) (r s : Job) : Type 0 where
  same : s ≡ r → Move op r s
  claim : (now : ℕ) → r.status ≡ pending → s ≡ claimed now r → Move op r s
  complete : r.status ≡ running → s ≡ completed r → Move op r s
  retry :
      is_quiet op ≡ false
      → (run_at : ℕ) → r.status ≡ running
      → leb r.max_attempts (r.attempts + 1) ≡ false
      → s ≡ requeued (r.attempts + 1) run_at r
      → Move op r s
  bury : (attempts : ℕ) → r.status ≡ running → s ≡ dead_lettered attempts r → Move op r s
  recover : is_quiet op ≡ false → r.status ≡ running → s ≡ recovered r → Move op r s
  move :
      (run_at : ℕ) (payload : Payload)
      → r.status ≡ pending
      → s ≡ moved run_at payload r
      → Move op r s

running_of : (s : JobStatus) → is_running s ≡ true → s ≡ running
running_of running e = refl
running_of pending e = cc
running_of done e = cc
running_of dead e = cc

pending_of : (s : JobStatus) → is_pending s ≡ true → s ≡ pending
pending_of pending e = refl
pending_of running e = cc
pending_of done e = cc
pending_of dead e = cc

module _ (i : ℕ) (jobs : List Job) (r : Job) (found : get Job.id i jobs ≡ some r) where
  -- an update by the primary key `j` of a row that meets `c`
  by_id :
      (op : Op) (j : ℕ) (c : Job → Bool) (f : Job → Job) (keeps : (x : Job) → (f x).id ≡ x.id)
      (moves : i ≡ j → c r ≡ true → Move op r (f r))
      → (s : Job) × (get Job.id i (update_by_id Job.id j c f jobs).0 ≡ some s) × Move op r s
  by_id op j c f keeps moves = elim (row-update_by_id Job.id i jobs found j c f keeps) [
    | inl stays ↦ (r, stays, Move.same refl)
    | inr (e, met, written) ↦ (f r, written, moves e met)
  ]

  -- the row under the key of `job` is `r`
  same_row : (job : Job) → get Job.id job.id jobs ≡ some job → i ≡ job.id → job ≡ r
  same_row job at e = ground (arith, rw (← e) at at)

  claim-Move :
      Unique Job.id jobs
      → (op : Op) (locked : ℕ → Bool) (now : ℕ)
      → (s : Job) × (get Job.id i (claim_job locked now jobs).0 ≡ some s) × Move op r s
  unfolding claim_job
  claim-Move u op locked now =
      elim (Option-cases (least Job.run_at (is_candidate locked now) jobs)) [
        | inl idle ↦ rw idle (r, found, Move.same refl)
        | inr (job, e) ↦ rw e (
            by_id op job.id (λ _. true) (claimed now) (λ x. refl)
              (λ at _. Move.claim now (pending_of r.status (of_candidate job e at)) refl))
      ]
    where
      of_candidate :
          (job : Job)
          → least Job.run_at (is_candidate locked now) jobs ≡ some job
          → i ≡ job.id
          → is_pending r.status ≡ true
      of_candidate job e at = ground (
        arith,
        same_row job (get-least Job.run_at (is_candidate locked now) Job.id jobs u e) at,
        least-meets Job.run_at (is_candidate locked now) jobs e,
      )

  fail_job-Move :
      (op : Op) (noisy : is_quiet op ≡ false) (now : ℕ) (job : Job)
      → get Job.id job.id jobs ≡ some job
      → (s : Job) × (get Job.id i (fail_job now job jobs).0 ≡ some s) × Move op r s
  unfolding fail_job
  fail_job-Move op noisy now job at = elim (Bool-cases (leb job.max_attempts (job.attempts + 1))) [
    | inl last ↦ rw last (
        by_id op job.id (λ x. is_running x.status) (dead_lettered (job.attempts + 1)) (λ x. refl)
          (λ _ run. Move.bury (job.attempts + 1) (running_of r.status run) refl))
    | inr more ↦ rw more (
        by_id op job.id (λ x. is_running x.status) _ (λ x. refl)
          (λ e run.
            let s : job ≡ r = same_row job at e in
            let w : ℕ = now + backoff_seconds (job.attempts + 1) * second in
            Move.retry noisy w (running_of r.status run) (rw (← s) more)
              (ap (λ (x : Job). requeued (x.attempts + 1) w r) s)))
  ]

  fail-Move :
      (now : ℕ) (job : Job)
      → (s : Job) × (get Job.id i (mark_failed now job jobs) ≡ some s) × Move (Op.fail now job) r s
  unfolding mark_failed
  fail-Move now job = elim (Option-cases (get Job.id job.id jobs)) [
    | inl gone ↦ rw gone (r, found, Move.same refl)
    | inr (fresh, at) ↦ rw at (elim (Bool-cases (is_running fresh.status)) [
      | inl run ↦
          rw run (fail_job-Move (Op.fail now job) refl now fresh (get_self Job.id job.id jobs at))
      | inr other ↦ rw other (r, found, Move.same refl)
    ])
  ]

  -- Every statement moves each row by one step of `Move`, and deletes none.
  pub apply-Move :
      Unique Job.id jobs
      → (op : Op) → (s : Job) × (get Job.id i (apply op jobs) ≡ some s) × Move op r s
  unfolding apply complete_job dead_letter recover_stale_jobs insert_job
  apply-Move u (Op.enqueue new_id now contact_id kind payload run_at) =
      (r, get-append_old Job.id i jobs _ found, Move.same refl)
  apply-Move u (Op.claim locked now) = claim-Move u _ locked now
  apply-Move u (Op.complete job_id) =
      by_id _ job_id (λ x. is_running x.status) completed (λ x. refl)
        (λ _ run. Move.complete (running_of r.status run) refl)
  apply-Move u (Op.fail now job) = fail-Move now job
  apply-Move u (Op.kill job) =
      by_id _ job.id (λ x. is_running x.status) (dead_lettered (job.attempts + 1)) (λ x. refl)
        (λ _ run. Move.bury (job.attempts + 1) (running_of r.status run) refl)
  apply-Move u (Op.move job_id run_at payload) =
      by_id _ job_id (λ x. is_pending x.status) (moved run_at payload) (λ x. refl)
        (λ _ wait. Move.move run_at payload (pending_of r.status wait) refl)
  apply-Move u (Op.recover older now) = elim (Bool-cases (is_stale older now r)) [
    | inl stale ↦ (
      recovered r,
      written ∙ rw stale,
      Move.recover refl (running_of r.status (of_stale stale)) refl,
    )
    | inr fine ↦ (r, written ∙ rw fine, Move.same refl)
  ]
    where
      written :
          get Job.id i (update_where (is_stale older now) recovered jobs)
          ≡ some (if is_stale older now r then recovered r else r)
      written = row-update_where Job.id i jobs found (is_stale older now) recovered (λ x. refl)

      of_stale : is_stale older now r ≡ true → is_running r.status ≡ true
      of_stale e = ground arith
