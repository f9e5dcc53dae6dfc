-- ===== src/Jobs.antt =====
-- The durable job queue: app/database/models/job.py and app/db/jobs.py, with `backoff_seconds`
-- of app/db/session.py and `_dead_letter`, `_mark_failed` of app/worker/loop.py. Each function
-- takes the rows of the table `job` and returns them changed. `now` is the clock that the
-- statement reads; a new row's id is an argument, since the database draws it.
pub mod Rows
pub mod Claim
pub mod Lifecycle
pub mod Backoff
mod Tests
use whats_app_poke.Prelude.{
  ℕ, zero, suc, ◌+◌, ◌*◌, ◌^◌, min, Bool, true, false, ◌&&◌, Option, none, some, List, [], ◌∷◌,
  ◌++◌, ltb, leb, not, if◌then◌else◌, second, minute,
}
use whats_app_poke.Payload.{Payload}
use whats_app_poke.Table.{update_where, count, least, get, update_by_id}

pub data JobKind : Type 0 where
  reminder_due integration_notify automation_due : JobKind

pub data JobStatus : Type 0 where
  pending running done dead : JobStatus

pub record Job : Type 0 where
  pub id : ℕ
  pub contact_id : ℕ
  pub kind : JobKind
  pub payload : Payload
  pub run_at : ℕ
  pub status : JobStatus
  pub attempts : ℕ
  pub max_attempts : ℕ
  pub locked_at : Option ℕ
  pub created_at : ℕ

abbrev pub is_pending : JobStatus → Bool
is_pending pending = true
is_pending _ = false

abbrev pub is_running : JobStatus → Bool
is_running running = true
is_running _ = false

abbrev pub max_attempts_default : ℕ
max_attempts_default = 5

abbrev pub stale_lock_minutes : ℕ
stale_lock_minutes = 10

abbrev pub backoff_cap_seconds : ℕ
backoff_cap_seconds = 300

-- An inserted row has the server's defaults in the columns that are not given.
unfoldable pub insert_job :
    (new_id now contact_id : ℕ) → JobKind → Payload → ℕ → List Job → List Job
insert_job new_id now contact_id kind payload run_at jobs =
    jobs
    ++ record {
      id = new_id;
      contact_id = contact_id;
      kind = kind;
      payload = payload;
      run_at = run_at;
      status = pending;
      attempts = 0;
      max_attempts = max_attempts_default;
      locked_at = none;
      created_at = now;
    }
      ∷ []

unfoldable pub enqueue_integration_notify :
    (new_id now contact_id : ℕ) → Payload → List Job → List Job
unfolding insert_job
enqueue_integration_notify new_id now contact_id payload =
    insert_job new_id now contact_id integration_notify payload now

unfoldable pub backoff_seconds : ℕ → ℕ
backoff_seconds attempts = min (2 ^ attempts) backoff_cap_seconds

-- `locked` are the rows that other open transactions hold, which SKIP LOCKED passes over.
unfoldable pub is_candidate : (ℕ → Bool) → ℕ → Job → Bool
is_candidate locked now job = is_pending job.status && leb job.run_at now && not (locked job.id)

abbrev pub claimed : ℕ → Job → Job
claimed now job = record job { status = running; locked_at = some now }

unfoldable pub claim_candidate : ℕ → Option Job → List Job → List Job × Option Job
claim_candidate now none jobs = (jobs, none)
claim_candidate now (some job) jobs = update_by_id Job.id job.id (λ _. true) (claimed now) jobs

unfoldable pub claim_job : (ℕ → Bool) → ℕ → List Job → List Job × Option Job
unfolding claim_candidate is_candidate
claim_job locked now jobs =
    claim_candidate now (least Job.run_at (is_candidate locked now) jobs) jobs

abbrev pub completed : Job → Job
completed job = record job { status = done; locked_at = none }

unfoldable pub complete_job : ℕ → List Job → List Job
complete_job job_id jobs = (update_by_id Job.id job_id (λ r. is_running r.status) completed jobs).0

abbrev pub dead_lettered : ℕ → Job → Job
dead_lettered attempts job = record job { status = dead; attempts = attempts; locked_at = none }

abbrev pub requeued : ℕ → ℕ → Job → Job
requeued attempts run_at job = record job {
  status = pending;
  attempts = attempts;
  locked_at = none;
  run_at = run_at;
}

-- `now` is the worker's clock. The result is the status written.
unfoldable pub fail_job : ℕ → Job → List Job → List Job × JobStatus
unfolding backoff_seconds
fail_job now job jobs =
    let attempts = job.attempts + 1 in
    if leb job.max_attempts attempts
    then (
      (update_by_id Job.id job.id (λ r. is_running r.status) (dead_lettered attempts) jobs).0,
      dead,
    )
    else (
      (update_by_id Job.id job.id (λ r. is_running r.status)
          (requeued attempts (now + backoff_seconds attempts * second)) jobs).0,
      pending,
    )

-- `locked_at < now - older_than`, written with a sum
unfoldable pub is_stale : ℕ → ℕ → Job → Bool
is_stale older_than_minutes now job =
    is_running job.status
    && elim job.locked_at [ none ↦ false | some at ↦ ltb (at + older_than_minutes * minute) now ]

abbrev pub recovered : Job → Job
recovered job = record job { status = pending; locked_at = none; attempts = job.attempts + 1 }

-- The result is the number of rows written.
unfoldable pub recover_stale_jobs : ℕ → ℕ → List Job → List Job × ℕ
unfolding is_stale
recover_stale_jobs older_than_minutes now jobs = (
  update_where (is_stale older_than_minutes now) recovered jobs,
  count (is_stale older_than_minutes now) jobs,
)

-- the UPDATE of a pending wake-up, of `upsert_automation_due`
abbrev pub moved : ℕ → Payload → Job → Job
moved run_at payload r = record r { run_at = run_at; payload = payload }

abbrev pub move_wake_up : (job_id run_at : ℕ) → Payload → List Job → List Job
move_wake_up job_id run_at payload jobs =
    (update_by_id Job.id job_id (λ r. is_pending r.status) (moved run_at payload) jobs).0

-- `_dead_letter`
unfoldable pub dead_letter : Job → List Job → List Job
dead_letter job jobs =
    (update_by_id Job.id job.id (λ r. is_running r.status) (dead_lettered (job.attempts + 1))
      jobs).0

unfoldable pub fail_fresh : ℕ → Option Job → List Job → List Job
unfolding fail_job
fail_fresh now none jobs = jobs
fail_fresh now (some fresh) jobs =
    if is_running fresh.status then (fail_job now fresh jobs).0 else jobs

-- `_mark_failed`
unfoldable pub mark_failed : ℕ → Job → List Job → List Job
unfolding fail_fresh
mark_failed now job jobs = fail_fresh now (get Job.id job.id jobs) jobs
