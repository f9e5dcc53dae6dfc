-- ===== src/Automations.antt =====
-- Recurring automations and their wake-ups: app/database/models/automation.py and
-- app/db/automations.py. An id in a payload is its printed text; `print_time` stands for
-- `astimezone(timezone.utc).isoformat()`, and `others k` for the commits of other sessions before
-- the k-th statement.
use mathlib.Core.Option
use whats_app_poke.Prelude.{
  ℕ, zero, suc, ◌+◌, String, Bool, true, false, ◌&&◌, ◌||◌, not, Option, none, some, List, [], ◌∷◌,
  ◌++◌, ◌==◌, str_eq, if◌then◌else◌,
}
use whats_app_poke.Payload.{Payload, Json, str, lookup, as_text}
use whats_app_poke.Table.{find, update_by_id, get}
use whats_app_poke.Jobs.{
  Job, JobKind, reminder_due, integration_notify, automation_due, is_pending, insert_job, moved,
  move_wake_up,
}
pub mod Conflict
pub mod WakeUps
pub mod Status
mod Tests

pub data AutomationStatus : Type 0 where
  active paused cancelled : AutomationStatus

pub data AutomationLastRunStatus : Type 0 where
  run_succeeded run_failed run_timed_out run_cancelled run_skipped : AutomationLastRunStatus

pub record Automation : Type 0 where
  pub id : ℕ
  pub contact_id : ℕ
  pub name : String
  pub goal : String
  pub rrule : String
  pub timezone : String
  pub required_toolkits : List String
  pub status : AutomationStatus
  pub next_run_at : Option ℕ
  pub last_run_at : Option ℕ
  pub last_run_status : Option AutomationLastRunStatus
  pub last_occurrence_at : Option ℕ
  pub last_execution_run_id : Option ℕ
  pub last_run_was_catch_up : Bool
  pub created_at : ℕ
  pub updated_at : ℕ

abbrev pub is_automation_due : JobKind → Bool
is_automation_due automation_due = true
is_automation_due _ = false

abbrev pub occurrence_payload : (ℕ → String) → String → ℕ → Payload
occurrence_payload print_time automation_id run_at =
    ("automation_id", str automation_id) ∷ ("occurrence_at", str (print_time run_at)) ∷ []

unfoldable pub create_automation_row :
    (new_id now contact_id : ℕ) (name goal rrule timezone_name : String)
    (required_toolkits : List String)
    → Option ℕ
    → List Automation
    → List Automation
create_automation_row new_id now contact_id name goal rrule timezone_name required_toolkits
      next_run_at automations =
    automations
    ++ record {
      id = new_id;
      contact_id = contact_id;
      name = name;
      goal = goal;
      rrule = rrule;
      timezone = timezone_name;
      required_toolkits = required_toolkits;
      status = active;
      next_run_at = next_run_at;
      last_run_at = none;
      last_run_status = none;
      last_occurrence_at = none;
      last_execution_run_id = none;
      last_run_was_catch_up = false;
      created_at = now;
      updated_at = now;
    }
      ∷ []

abbrev pub of_contact : Option ℕ → Automation → Bool
of_contact none r = true
of_contact (some contact_id) r = r.contact_id == contact_id

unfoldable pub get_automation : (automation_id : ℕ) → Option ℕ → List Automation → Option Automation
get_automation automation_id contact_id automations =
    find (λ r. r.id == automation_id && of_contact contact_id r) automations

abbrev pub text_equals : Option String → String → Bool
text_equals none s = false
text_equals (some t) s = str_eq t s

-- a pending wake-up of the automation, as the unique index of the jobs has it
unfoldable pub is_wake_up : String → Job → Bool
unfolding lookup
is_wake_up automation_id r =
    is_automation_due r.kind
    && (is_pending r.status
        && text_equals (as_text (lookup "automation_id" r.payload)) automation_id)

unfoldable pub get_pending_automation_due : String → List Job → Option Job
unfolding is_wake_up
get_pending_automation_due automation_id jobs = find (is_wake_up automation_id) jobs

module _ (others : ℕ → List Job → List Job) (new_id now contact_id : ℕ) (automation_id : String)
    (run_at : ℕ) (payload : Payload) where
  abbrev pub move_existing : ℕ → Job → List Job → List Job × Bool
  move_existing k existing jobs = (move_wake_up existing.id run_at payload (others k jobs), false)

  -- the rest of the loop, after the insert broke the index
  abbrev pub after_conflict : ℕ → Option Job → List Job → List Job × Bool → List Job × Bool
  after_conflict k (some existing) jobs retried = move_existing k existing jobs
  after_conflict k none jobs retried = retried

  -- an insert under the unique index: a row that is in the way breaks it
  abbrev pub insert_or : Option Job → List Job → List Job × Bool → List Job × Bool
  insert_or none seen conflicted =
      (insert_job new_id now contact_id automation_due payload run_at seen, true)
  insert_or (some conflict) seen conflicted = conflicted

  -- `for _ in range(attempts)`
  unfoldable pub try_insert : (attempts k : ℕ) → List Job → List Job × Bool
  unfolding get_pending_automation_due
  try_insert zero k jobs = (jobs, false)
  try_insert (suc attempts) k jobs =
      let seen = others k jobs in
      let again = others (suc k) seen in
      let retried = try_insert attempts (suc (suc k)) again in
      insert_or (find (is_wake_up automation_id) seen) seen (
        after_conflict (suc (suc k)) (get_pending_automation_due automation_id again) again retried)

  abbrev pub upsert_from : Option Job → List Job → List Job × Bool
  upsert_from (some existing) jobs = move_existing 1 existing jobs
  upsert_from none jobs = try_insert 2 1 jobs

unfoldable pub upsert_automation_due :
    (ℕ → List Job → List Job)
    → (ℕ → String)
    → (new_id now contact_id : ℕ) → String
    → (run_at : ℕ) → List Job
    → List Job × Bool
unfolding get_pending_automation_due try_insert
upsert_automation_due others print_time new_id now contact_id automation_id run_at jobs =
    let seen = others 0 jobs in
    upsert_from others new_id now contact_id automation_id run_at
      (occurrence_payload print_time automation_id run_at)
      (get_pending_automation_due automation_id seen) seen

-- the statuses from which a status may be set
abbrev pub is_allowed : AutomationStatus → AutomationStatus → Bool
is_allowed paused active = true
is_allowed active paused = true
is_allowed cancelled active = true
is_allowed cancelled paused = true
is_allowed _ _ = false

abbrev pub next_run : AutomationStatus → Option ℕ → Option ℕ → Option ℕ
next_run cancelled given old = none
next_run _ (some at) old = some at
next_run _ none old = old

abbrev pub with_status : AutomationStatus → Option ℕ → ℕ → Automation → Automation
with_status status next_run_at now r = record r {
  status = status;
  next_run_at = next_run status next_run_at r.next_run_at;
  updated_at = now;
}

unfoldable pub set_automation_status :
    (automation_id contact_id : ℕ)
    → AutomationStatus
    → Option ℕ
    → (now : ℕ) → List Automation
    → List Automation × Option Automation
set_automation_status automation_id contact_id status next_run_at now =
    update_by_id Automation.id automation_id
      (λ r. r.contact_id == contact_id && is_allowed status r.status)
      (with_status status next_run_at now)

abbrev pub is_active : AutomationStatus → Bool
is_active active = true
is_active _ = false

abbrev pub with_run :
    (occurrence_at : ℕ)
    → Option ℕ
    → AutomationLastRunStatus
    → Option ℕ
    → Bool
    → (now : ℕ) → Automation
    → Automation
with_run occurrence_at next_run_at last_run_status execution_run_id was_catch_up now r = record r {
  last_run_at = some now;
  last_run_status = some last_run_status;
  last_occurrence_at = some occurrence_at;
  last_execution_run_id = execution_run_id;
  last_run_was_catch_up = was_catch_up;
  next_run_at = next_run_at;
  updated_at = now;
}

unfoldable pub record_automation_run :
    (automation_id contact_id occurrence_at : ℕ)
    → Option ℕ
    → AutomationLastRunStatus
    → Option ℕ
    → Bool
    → (now : ℕ) → List Automation
    → List Automation × Option Automation
record_automation_run automation_id contact_id occurrence_at next_run_at last_run_status
      execution_run_id was_catch_up now =
    update_by_id Automation.id automation_id (λ r. r.contact_id == contact_id && is_active r.status)
      (with_run occurrence_at next_run_at last_run_status execution_run_id was_catch_up now)
