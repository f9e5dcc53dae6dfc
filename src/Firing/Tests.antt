-- ===== src/Firing/Tests.antt =====
-- A wake-up on concrete rows, and the theorems at inputs that meet their hypotheses.
use whats_app_poke.Prelude.{ℕ, String, ◌≡◌, refl, true, false, none, some, List, [], ◌∷◌}
use whats_app_poke.Payload.{payload_str, lookup}
use whats_app_poke.Table.{count, find, get, greatest, update_by_id}
use whats_app_poke.Jobs.{Job, automation_due, pending}
use whats_app_poke.Runs.{
  ExecutionRun, create_or_get_execution_run, claim_execution_run, finish_execution_run,
  get_execution_run_by_dedupe, append_execution_event,
}
use whats_app_poke.Automations.{Automation, active, occurrence_payload, get_automation}
use whats_app_poke.Execution.{output, output_succeeded}
use whats_app_poke.Execution.Scope.{
  has_text, first_texts, lowered, scheduled_scope, missing_toolkits,
}
use whats_app_poke.Execution.Run.{
  validate_email_send_staging, reenter_interaction, finish_and_schedule_reentry, close_execution,
  run_execution,
}
use whats_app_poke.Execution.Dispatch.{run_scheduled_execution}
use whats_app_poke.Firing.{World, Try, Clock, fire_due_automation}
use whats_app_poke.Firing.Again.{Untouched, fire_twice}

abbrev same_text : String → String
same_text s = s

abbrev clock : Clock
clock = record {
  texts = record {
    strip = same_text;
    lower = same_text;
    squeeze = same_text;
    casefold = same_text;
    compact = λ n s. s;
    sha256 = same_text;
    print_id = λ n. "id";
  };
  parse_id = λ s. some 3;
  parse_time = λ s. some 50;
  stamp = λ n. "at";
  print_time = λ n. "at";
  next_after = λ row now. some (some 90);
}

abbrev tick : ℕ → Try
tick now = record {
  now = now;
  closed_at = now;
  new_run_id = 1;
  new_job_id = 2;
  phone = none;
  connected_providers = [];
  others = λ k jobs. jobs;
  attempt = record {
    claim_now = now;
    during = λ w. w;
    before_write = λ w. w;
    before_claim = λ w. w;
    before_check = λ w. w;
    agent_end = output (record { status = output_succeeded; summary = "done" });
    actions = [];
    close = record { now = now; event_id = 1; contact_exists = true; is_delivered = true };
  };
}

abbrev wake_up : Job
wake_up = record {
  id = 1;
  contact_id = 7;
  kind = automation_due;
  payload = occurrence_payload (λ n. "at") "id" 50;
  run_at = 50;
  status = pending;
  attempts = 0;
  max_attempts = 5;
  locked_at = none;
  created_at = 0;
}

abbrev daily : Automation
daily = record {
  id = 3;
  contact_id = 7;
  name = "news";
  goal = "read";
  rrule = "FREQ=DAILY";
  timezone = "UTC";
  required_toolkits = [];
  status = active;
  next_run_at = some 50;
  last_run_at = none;
  last_run_status = none;
  last_occurrence_at = none;
  last_execution_run_id = none;
  last_run_was_catch_up = false;
  created_at = 0;
  updated_at = 0;
}

abbrev world : List ExecutionRun → World
world runs = record {
  jobs = wake_up ∷ [];
  automations = daily ∷ [];
  service = record { runs = runs; events = []; reentries = [] };
  skipped = [];
}

-- the first try runs the goal and ends it
fired : (fire_due_automation clock (tick 60) wake_up (world [])).raised ≡ false
unfolding fire_due_automation get_automation find lookup run_scheduled_execution scheduled_scope
    lowered first_texts missing_toolkits get_execution_run_by_dedupe greatest
    create_or_get_execution_run count run_execution claim_execution_run update_by_id get
    close_execution validate_email_send_staging has_text finish_and_schedule_reentry
    finish_execution_run append_execution_event reenter_interaction payload_str
fired = refl

fire_twice_example :
    Untouched
      (fire_due_automation clock (tick 60) wake_up (world [])).world
      (fire_due_automation clock
        (tick 70)
        wake_up
        (fire_due_automation clock (tick 60) wake_up (world [])).world).world
    × ((fire_due_automation clock
          (tick 70)
          wake_up
          (fire_due_automation clock (tick 60) wake_up (world [])).world).raised
        ≡ false)
unfolding payload_str lookup
fire_twice_example = fire_twice clock (tick 60) (tick 70) wake_up 50 (world []) refl fired
