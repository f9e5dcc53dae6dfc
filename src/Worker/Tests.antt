-- ===== src/Worker/Tests.antt =====
-- A job on a concrete queue, and the theorem at an input that meets its hypothesis.
use whats_app_poke.Prelude.{◌≡◌, refl, true, false, Option, none, some, [], ◌∷◌}
use whats_app_poke.Payload.{str, lookup}
use whats_app_poke.Table.{get, find, update_by_id}
use whats_app_poke.Jobs.{
  Job, JobKind, reminder_due, automation_due, running, pending, completed, complete_job,
}
use whats_app_poke.Worker.{Handler, processed, process_job}
use whats_app_poke.Automations.{is_wake_up}
use whats_app_poke.Worker.Settle.{Ends, process_job-Ends}

abbrev job : Job
job = record {
  id = 1;
  contact_id = 7;
  kind = reminder_due;
  payload = [];
  run_at = 50;
  status = running;
  attempts = 0;
  max_attempts = 5;
  locked_at = some 50;
  created_at = 40;
}

abbrev raises : JobKind → Option Handler
raises _ = some (λ job jobs. (jobs, true))

abbrev succeeds : JobKind → Option Handler
succeeds _ = some (λ job jobs. (jobs, false))

well : process_job succeeds 60 job (job ∷ []) ≡ processed (completed job ∷ [])
unfolding process_job complete_job update_by_id
well = refl

-- a wake-up that raises while another one of its automation is pending
abbrev wake_up : Job
wake_up = record job { kind = automation_due; payload = ("automation_id", str "a") ∷ [] }

abbrev rival : Job
rival = record wake_up { id = 2; status = pending; locked_at = none }

stuck : (process_job raises 60 wake_up (wake_up ∷ rival ∷ [])).raised ≡ true
unfolding process_job get find is_wake_up lookup
stuck = refl

process_job-Ends_example : Ends 1 job (job ∷ []) (process_job raises 60 job (job ∷ []))
unfolding get
process_job-Ends_example = process_job-Ends raises 60 job (job ∷ []) job refl
