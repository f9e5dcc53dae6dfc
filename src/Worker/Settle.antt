-- ===== src/Worker/Settle.antt =====
-- How a job that was processed ends.
use whats_app_poke.Prelude.{
  ℕ, ◌+◌, ◌<◌, ◌⊎◌, ◌≡◌, refl, ◌∙◌, inl, inr, Bool, true, false, Option, none, some, List, arith,
  Bool-cases, if◌then◌else◌,
}
use whats_app_poke.Table.{get, update_by_id, get-update_by_id_self}
use whats_app_poke.Jobs.{
  Job, JobKind, JobStatus, running, is_running, completed, complete_job, dead_lettered, dead_letter,
  fail_fresh, mark_failed,
}
use whats_app_poke.Jobs.Backoff.{after_failure, mark_failed_running}
use whats_app_poke.Worker.{
  Handler, Processed, has_wake_up, retry_refused, close, dispatch, process_job,
}
use whats_app_poke.Automations.{is_automation_due}
use whats_app_poke.Automations.WakeUps.{automation_of}

-- The row of the job, no longer running.
abbrev pub Settled : ℕ → List Job → Type 0
Settled i jobs = (s : Job) × (get Job.id i jobs ≡ some s) × (is_running s.status ≡ false)

-- what the handler has left of the queue
abbrev pub handled : Option Handler → Job → List Job → List Job
handled none job jobs = jobs
handled (some handle) job jobs = (handle job jobs).0

is_running-eq : (s : JobStatus) → is_running s ≡ true → s ≡ running
is_running-eq s e = ground arith

after_failure-stopped : (now : ℕ) (r : Job) → is_running (after_failure now r).status ≡ false
after_failure-stopped now r = ground arith

write-Settled :
    (f : Job → Job) (keeps : (r : Job) → Job.id (f r) ≡ Job.id r)
    (stops : (r : Job) → is_running (f r).status ≡ false) (i : ℕ) (jobs : List Job) (r : Job)
    → get Job.id i jobs ≡ some r
    → Settled i (update_by_id Job.id i (λ r. is_running r.status) f jobs).0
write-Settled f keeps stops i jobs r found = elim (Bool-cases (is_running r.status)) [
  | inl runs ↦ (f r, at ∙ rw runs refl, stops r)
  | inr stopped ↦ (r, at ∙ rw stopped refl, stopped)
]
  where
    at :
        get Job.id i (update_by_id Job.id i (λ r. is_running r.status) f jobs).0
        ≡ some (if is_running r.status then f r else r)
    at = rw (get-update_by_id_self Job.id i (λ r. is_running r.status) f keeps jobs, found) refl

mark_failed-Settled :
    (now : ℕ) (job : Job) (jobs : List Job) (r : Job)
    → get Job.id job.id jobs ≡ some r
    → Settled job.id (mark_failed now job jobs)
unfolding mark_failed fail_fresh
mark_failed-Settled now job jobs r found = elim (Bool-cases (is_running r.status)) [
  | inl runs ↦ (
    after_failure now r,
    mark_failed_running now job jobs found (is_running-eq r.status runs),
    after_failure-stopped now r,
  )
  | inr stopped ↦ (r, untouched stopped, stopped)
]
  where
    untouched : is_running r.status ≡ false → get Job.id job.id (mark_failed now job jobs) ≡ some r
    untouched stopped = rw found (rw stopped found)

-- The index has refused the retry: the row is as the handler left it, still running, and another
-- wake-up of its automation is pending.
pub record Stuck (r : Job) (left : List Job) (p : Processed) : Type 0 where
  pub untouched : p.jobs ≡ left
  pub still_runs : is_running r.status ≡ true
  pub attempts_left : r.attempts + 1 < r.max_attempts
  pub due : is_automation_due r.kind ≡ true
  pub rival : has_wake_up (automation_of r) left ≡ true

abbrev pub Ends : ℕ → Job → List Job → Processed → Type 0
Ends i r left p = ((p.raised ≡ false) × Settled i p.jobs) ⊎ ((p.raised ≡ true) × Stuck r left p)

refused-Stuck :
    (r : Job) (jobs : List Job)
    → retry_refused (some r) jobs ≡ true
    → Stuck r jobs (record { jobs = jobs; raised = true })
refused-Stuck r jobs e = record {
  untouched = refl;
  still_runs = ground arith;
  attempts_left = ground arith;
  due = ground arith;
  rival = ground arith;
}

close-Ends :
    (now : ℕ) (job : Job) (p : List Job × Bool) (r : Job)
    → get Job.id job.id p.0 ≡ some r
    → Ends job.id r p.0 (close now job p)
unfolding complete_job
close-Ends now job (jobs, true) r found = elim (Bool-cases (retry_refused (some r) jobs)) [
  | inl e ↦ rw found (rw e (inr (refl, refused-Stuck r jobs e)))
  | inr e ↦ rw found (rw e (inl (refl, mark_failed-Settled now job jobs r found)))
]
close-Ends now job (jobs, false) r found =
    inl (refl, write-Settled completed (λ x. refl) (λ x. refl) job.id jobs r found)

dispatch-Ends :
    (now : ℕ) (job : Job) (o : Option Handler) (jobs : List Job) (r : Job)
    → get Job.id job.id (handled o job jobs) ≡ some r
    → Ends job.id r (handled o job jobs) (dispatch now job o jobs)
unfolding dead_letter
dispatch-Ends now job none jobs r found = inl (
  refl,
  write-Settled (dead_lettered (job.attempts + 1)) (λ x. refl) (λ x. refl) job.id jobs r found,
)
dispatch-Ends now job (some handle) jobs r found = close-Ends now job (handle job jobs) r found

-- How a processed job ends, if its row is still there when the handler has returned or raised, or
-- there is no handler for its kind: no error leaves process_job, and the row is there and not
-- running; or the index has refused the retry, and then the error leaves process_job, the queue is
-- as the handler left it, with the row still running, and it is a wake-up with attempts left whose
-- automation has another wake-up pending.
pub process_job-Ends :
    (handlers : JobKind → Option Handler) (now : ℕ) (job : Job) (jobs : List Job) (r : Job)
    → get Job.id job.id (handled (handlers job.kind) job jobs) ≡ some r
    → Ends job.id r (handled (handlers job.kind) job jobs) (process_job handlers now job jobs)
unfolding process_job
process_job-Ends handlers now job jobs r found =
    dispatch-Ends now job (handlers job.kind) jobs r found
