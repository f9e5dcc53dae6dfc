-- ===== src/Automations/Tests.antt =====
-- Automations on concrete rows, and the theorems at inputs that meet their hypotheses.
use whats_app_poke.Prelude.{ℕ, String, ◌≡◌, refl, false, none, some, List, [], ◌∷◌, arith}
use whats_app_poke.Payload.{lookup}
use whats_app_poke.Table.{get, Unique, count}
use whats_app_poke.Jobs.{Job, JobStatus, automation_due, pending, running, fail_job}
use whats_app_poke.Automations.{
  Automation, active, cancelled, occurrence_payload, create_automation_row, is_wake_up,
  upsert_automation_due,
}
use whats_app_poke.Automations.WakeUps.{WakeUpsUnique, Benign, upsert_automation_due-WakeUpsUnique}
use whats_app_poke.Automations.Status.{Op, run, Later, automation_kept}
use whats_app_poke.Automations.Conflict.{retry_conflict}

abbrev print_time : ℕ → String
print_time _ = "t"

abbrev nobody : ℕ → List Job → List Job
nobody k jobs = jobs

abbrev wake_up : ℕ → JobStatus → Job
wake_up id status = record {
  id = id;
  contact_id = 7;
  kind = automation_due;
  payload = occurrence_payload print_time "a" 50;
  run_at = 50;
  status = status;
  attempts = 0;
  max_attempts = 5;
  locked_at = none;
  created_at = 0;
}

nobody-Benign : Benign nobody
nobody-Benign = record {
  keys = λ k jobs u. u;
  wake_ups = λ k jobs w. w;
  rows = λ k i jobs r e. (r, e, refl, refl);
}

one_key : Unique Job.id (wake_up 1 pending ∷ [])
unfolding get
one_key = (refl, tt)

one_wake_up : WakeUpsUnique (wake_up 1 pending ∷ [])
unfolding count
one_wake_up q = ground arith

upsert_automation_due-WakeUpsUnique_example :
    WakeUpsUnique (upsert_automation_due nobody print_time 2 60 7 "a" 90 (wake_up 1 pending ∷ [])).0
upsert_automation_due-WakeUpsUnique_example =
    upsert_automation_due-WakeUpsUnique nobody nobody-Benign print_time 2 60 7 "a" 90
      (wake_up 1 pending ∷ []) one_key one_wake_up

abbrev daily : List Automation
daily = create_automation_row 3 0 7 "news" "read" "FREQ=DAILY" "UTC" [] (some 50) []

daily_row : (r : Automation) × (get Automation.id 3 daily ≡ some r)
unfolding create_automation_row get
daily_row = (
  record {
    id = 3;
    contact_id = 7;
    name = "news";
    goal = "read";
    rrule = "FREQ=DAILY";
    timezone = "UTC";
    required_toolkits = [];
    status = active;
    next_run_at = some 50;
    last_run_at = none;
    last_run_status = none;
    last_occurrence_at = none;
    last_execution_run_id = none;
    last_run_was_catch_up = false;
    created_at = 0;
    updated_at = 0;
  },
  refl,
)

automation_kept_example :
    (s : Automation) × (get Automation.id 3
        (run (Op.set 3 7 cancelled none 60 ∷ Op.set 3 7 active (some 70) 65 ∷ []) daily)
      ≡ some s)
    × Later daily_row.0 s
automation_kept_example =
    automation_kept (Op.set 3 7 cancelled none 60 ∷ Op.set 3 7 active (some 70) 65 ∷ []) 3 daily
      daily_row.0 daily_row.1

retry_conflict_example :
    ¬ WakeUpsUnique (fail_job 60 (wake_up 1 running) (wake_up 1 running ∷ wake_up 2 pending ∷ [])).0
unfolding get count is_wake_up lookup
retry_conflict_example =
    retry_conflict 60 "a" (wake_up 1 running ∷ wake_up 2 pending ∷ []) (wake_up 1 running) refl refl
      refl refl (omega arith) (omega arith)
