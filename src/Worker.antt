-- ===== src/Worker.antt =====
-- One job of the worker: `process_job` of app/worker/loop.py. `handle` stands for the handler of a
-- kind, with what it and other sessions do to the queue meanwhile, and whether it raised. The unique
-- index on the pending wake-ups of an automation can refuse the write of a retry: the error leaves
-- process_job, and the queue is as the handler left it.
use whats_app_poke.Prelude.{
  ℕ, ◌+◌, String, Bool, true, false, ◌&&◌, not, Option, none, some, List, leb, is_some,
  if◌then◌else◌,
}
use whats_app_poke.Table.{get, find}
use whats_app_poke.Jobs.{Job, JobKind, is_running, complete_job, mark_failed, dead_letter}
use whats_app_poke.Automations.{is_automation_due, is_wake_up}
use whats_app_poke.Automations.WakeUps.{automation_of}
pub mod Settle
mod Tests

abbrev pub Handler : Type 0
Handler = Job → List Job → List Job × Bool

-- the queue, and whether an error has left process_job
pub record Processed : Type 0 where
  pub jobs : List Job
  pub raised : Bool

abbrev pub processed : List Job → Processed
processed jobs = record { jobs = jobs; raised = false }

abbrev pub has_wake_up : Option String → List Job → Bool
has_wake_up none jobs = false
has_wake_up (some automation_id) jobs = is_some (find (is_wake_up automation_id) jobs)

-- the index refuses to set this row back to pending
abbrev pub retry_refused : Option Job → List Job → Bool
retry_refused none jobs = false
retry_refused (some fresh) jobs =
    (is_running fresh.status && not (leb fresh.max_attempts (fresh.attempts + 1)))
    && (is_automation_due fresh.kind && has_wake_up (automation_of fresh) jobs)

-- after the handler has run
abbrev pub close : (now : ℕ) → Job → List Job × Bool → Processed
close now job (jobs, true) =
    if retry_refused (get Job.id job.id jobs) jobs
    then record { jobs = jobs; raised = true }
    else processed (mark_failed now job jobs)
close now job (jobs, false) = processed (complete_job job.id jobs)

abbrev pub dispatch : (now : ℕ) → Job → Option Handler → List Job → Processed
dispatch now job none jobs = processed (dead_letter job jobs)
dispatch now job (some handle) jobs = close now job (handle job jobs)

unfoldable pub process_job : (JobKind → Option Handler) → (now : ℕ) → Job → List Job → Processed
process_job handlers now job jobs = dispatch now job (handlers job.kind) jobs
