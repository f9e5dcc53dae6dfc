-- ===== src/Runs.antt =====
-- Execution runs and their events: app/database/models/execution.py and the first part of
-- app/db/executions.py. Each function takes the rows of a table and returns them changed. `now`
-- is the clock that the statement reads, and a new row's id is an argument.
pub mod Rows
mod Scope
pub mod Lifecycle
pub mod Capacity
mod Tests
unfoldable pub use Scope.{sorted_set}
use whats_app_poke.Prelude.{
  ℕ, zero, suc, ◌+◌, String, Bool, true, false, ◌&&◌, ◌||◌, not, Option, none, some, List, [], ◌∷◌,
  ◌++◌, ltb, leb, ◌==◌, str_eq, if◌then◌else◌,
}
use whats_app_poke.Payload.{Payload}
use whats_app_poke.Table.{update_where, count, greatest, get, update_by_id}

pub data ExecutionRunStatus : Type 0 where
  pending running succeeded failed timed_out cancel_requested cancelled abandoned :
      ExecutionRunStatus

pub record ExecutionRun : Type 0 where
  pub id : ℕ
  pub contact_id : ℕ
  pub goal : String
  pub toolkit_scope : List String
  pub dedupe_key : String
  pub status : ExecutionRunStatus
  pub result : Option Payload
  pub error : Option String
  pub cancel_requested : Bool
  pub started_at : Option ℕ
  pub finished_at : Option ℕ
  pub created_at : ℕ
  pub updated_at : ℕ

pub record ExecutionEvent : Type 0 where
  pub id : ℕ
  pub contact_id : ℕ
  pub execution_run_id : ℕ
  pub kind : String
  pub payload : Payload
  pub processed_at : Option ℕ
  pub created_at : ℕ

-- `status.in_(ACTIVE_EXECUTION_STATUSES)`
abbrev pub is_active : ExecutionRunStatus → Bool
is_active pending = true
is_active running = true
is_active cancel_requested = true
is_active _ = false

-- `status in TERMINAL_EXECUTION_STATUSES`
abbrev pub is_terminal : ExecutionRunStatus → Bool
is_terminal succeeded = true
is_terminal failed = true
is_terminal timed_out = true
is_terminal cancelled = true
is_terminal abandoned = true
is_terminal _ = false

abbrev pub is_pending : ExecutionRunStatus → Bool
is_pending pending = true
is_pending _ = false

-- running, or asked to stop
abbrev pub is_started : ExecutionRunStatus → Bool
is_started running = true
is_started cancel_requested = true
is_started _ = false

-- pending or running
abbrev pub is_cancellable : ExecutionRunStatus → Bool
is_cancellable pending = true
is_cancellable running = true
is_cancellable _ = false

abbrev pub max_active_runs_default : ℕ
max_active_runs_default = 2

abbrev pub is_active_of : ℕ → ExecutionRun → Bool
is_active_of contact_id r = r.contact_id == contact_id && is_active r.status

abbrev pub is_active_key : ℕ → String → ExecutionRun → Bool
is_active_key contact_id dedupe_key r =
    r.contact_id == contact_id && (str_eq r.dedupe_key dedupe_key && is_active r.status)

unfoldable pub count_active_execution_runs : ℕ → List ExecutionRun → ℕ
count_active_execution_runs contact_id runs = count (is_active_of contact_id) runs

abbrev pub new_run : (new_id now contact_id : ℕ) → String → List String → String → ExecutionRun
new_run new_id now contact_id goal toolkit_scope dedupe_key = record {
  id = new_id;
  contact_id = contact_id;
  goal = goal;
  toolkit_scope = sorted_set toolkit_scope;
  dedupe_key = dedupe_key;
  status = pending;
  result = none;
  error = none;
  cancel_requested = false;
  started_at = none;
  finished_at = none;
  created_at = now;
  updated_at = now;
}

abbrev pub create_unless :
    (max_active_runs : ℕ)
    → ExecutionRun
    → Option ExecutionRun
    → List ExecutionRun
    → List ExecutionRun × Option ExecutionRun × Bool
create_unless max_active_runs new (some existing) runs = (runs, some existing, false)
create_unless max_active_runs new none runs =
    if leb max_active_runs (count_active_execution_runs new.contact_id runs)
    then (runs, none, false)
    else (runs ++ new ∷ [], some new, true)

-- The contact's row lock makes the whole function one step.
unfoldable pub create_or_get_execution_run :
    (new_id now contact_id : ℕ)
    → String
    → List String
    → String
    → (max_active_runs : ℕ) → List ExecutionRun
    → List ExecutionRun × Option ExecutionRun × Bool
unfolding count_active_execution_runs
create_or_get_execution_run new_id now contact_id goal toolkit_scope dedupe_key max_active_runs
      runs =
    create_unless max_active_runs (new_run new_id now contact_id goal toolkit_scope dedupe_key)
      (greatest ExecutionRun.created_at (is_active_key contact_id dedupe_key) runs) runs

unfoldable pub get_execution_run_by_dedupe : ℕ → String → List ExecutionRun → Option ExecutionRun
get_execution_run_by_dedupe contact_id dedupe_key runs =
    greatest ExecutionRun.created_at
      (λ r. r.contact_id == contact_id && str_eq r.dedupe_key dedupe_key) runs

-- `UPDATE execution_run … WHERE id = … AND contact_id = … AND c RETURNING`
abbrev pub update_run :
    (execution_run_id contact_id : ℕ)
    → (ExecutionRun → Bool)
    → (ExecutionRun → ExecutionRun)
    → List ExecutionRun
    → List ExecutionRun × Option ExecutionRun
update_run execution_run_id contact_id c f =
    update_by_id ExecutionRun.id execution_run_id (λ r. r.contact_id == contact_id && c r) f

abbrev pub reclaimed : ℕ → ExecutionRun → ExecutionRun
reclaimed now r = record r {
  status = pending;
  started_at = none;
  cancel_requested = false;
  updated_at = now;
}

unfoldable pub reclaim_execution_run_for_retry :
    (execution_run_id contact_id now : ℕ)
    → List ExecutionRun
    → List ExecutionRun × Option ExecutionRun
reclaim_execution_run_for_retry execution_run_id contact_id now =
    update_run execution_run_id contact_id (λ r. is_started r.status) (reclaimed now)

abbrev pub started : ℕ → ExecutionRun → ExecutionRun
started now r = record r { status = running; started_at = some now; updated_at = now }

unfoldable pub claim_execution_run :
    (execution_run_id contact_id now : ℕ)
    → List ExecutionRun
    → List ExecutionRun × Option ExecutionRun
claim_execution_run execution_run_id contact_id now =
    update_run execution_run_id contact_id (λ r. is_pending r.status && not r.cancel_requested)
      (started now)

abbrev pub finished :
    ExecutionRunStatus → Option Payload → Option String → ℕ → ExecutionRun → ExecutionRun
finished status result error now r = record r {
  status = status;
  result = result;
  error = error;
  finished_at = some now;
  updated_at = now;
}

-- `none` is the ValueError: the status is not terminal.
unfoldable pub finish_execution_run :
    (execution_run_id contact_id : ℕ)
    → ExecutionRunStatus
    → Option Payload
    → Option String
    → (now : ℕ) → List ExecutionRun
    → Option (List ExecutionRun × Option ExecutionRun)
finish_execution_run execution_run_id contact_id status result error now runs =
    if is_terminal status
    then some (
        update_run execution_run_id contact_id (λ r. is_active r.status)
          (finished status result error now) runs)
    else none

abbrev pub cancel_asked : ℕ → ExecutionRun → ExecutionRun
cancel_asked now r = record r {
  cancel_requested = true;
  status = cancel_requested;
  updated_at = now;
}

unfoldable pub request_execution_cancellation :
    (execution_run_id contact_id now : ℕ)
    → List ExecutionRun
    → List ExecutionRun × Option ExecutionRun
request_execution_cancellation execution_run_id contact_id now =
    update_run execution_run_id contact_id (λ r. is_cancellable r.status) (cancel_asked now)

-- `started_at < now - older_than`, written with a sum
abbrev pub is_expired : (older_than now : ℕ) → ExecutionRun → Bool
is_expired older_than now r =
    is_started r.status && elim r.started_at [ none ↦ false | some at ↦ ltb (at + older_than) now ]

abbrev pub gave_up : ℕ → ExecutionRun → ExecutionRun
gave_up now r = record r { status = abandoned; finished_at = some now; updated_at = now }

-- The result is the number of rows written.
unfoldable pub abandon_stale_execution_runs :
    (older_than now : ℕ) → List ExecutionRun → List ExecutionRun × ℕ
abandon_stale_execution_runs older_than now runs = (
  update_where (is_expired older_than now) (gave_up now) runs,
  count (is_expired older_than now) runs,
)

unfoldable pub append_execution_event :
    (new_id now contact_id execution_run_id : ℕ)
    → String
    → Payload
    → List ExecutionEvent
    → List ExecutionEvent × ExecutionEvent
append_execution_event new_id now contact_id execution_run_id kind payload events =
    let event : ExecutionEvent = record {
      id = new_id;
      contact_id = contact_id;
      execution_run_id = execution_run_id;
      kind = kind;
      payload = payload;
      processed_at = none;
      created_at = now;
    } in
    (events ++ event ∷ [], event)

abbrev pub is_unprocessed : ℕ → ExecutionEvent → Bool
is_unprocessed contact_id e =
    e.contact_id == contact_id && elim e.processed_at [ none ↦ true | some _ ↦ false ]

abbrev pub processed : ℕ → ExecutionEvent → ExecutionEvent
processed now e = record e { processed_at = some now }

unfoldable pub mark_execution_event_processed :
    (event_id contact_id now : ℕ)
    → List ExecutionEvent
    → List ExecutionEvent × Option ExecutionEvent
mark_execution_event_processed event_id contact_id now =
    update_by_id ExecutionEvent.id event_id (is_unprocessed contact_id) (processed now)
