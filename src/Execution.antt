-- ===== src/Execution.antt =====
-- The life of detached execution runs: app/services/execution.py, with `goal_implies_email_send` of
-- app/agent/gmail_tools.py. What the agent comes to is an argument, `AgentEnd`; the re-entry into
-- the interaction, which runs as a task of its own, follows its event at once. `during` is what other
-- sessions commit while the agent works.
pub mod Scope
pub mod Run
pub mod Dispatch
pub mod Calls
pub mod Ledger
mod Told
mod Steps
pub mod Outcome
pub mod Intent
mod Tests
use Prim.Native.String.{len, find as find_text, ◌++◌ as ◌⧺◌}
use whats_app_poke.Prelude.{
  ℕ, suc, ◌+◌, String, Bool, true, false, ◌&&◌, ◌||◌, not, Option, none, some, List, [], ◌∷◌, ◌++◌,
  ltb, ◌==◌, str_eq, if◌then◌else◌, is_some,
}
use whats_app_poke.Payload.{Payload, Json, null, str, object, Fields, end, field}
use whats_app_poke.Table.{get, find}
use whats_app_poke.Runs.{
  ExecutionRun, ExecutionRunStatus, ExecutionEvent, pending, running, succeeded, failed, timed_out,
  cancel_requested, cancelled, abandoned, is_active, is_started, is_terminal,
  create_or_get_execution_run, get_execution_run_by_dedupe, reclaim_execution_run_for_retry,
  claim_execution_run, finish_execution_run, request_execution_cancellation,
  abandon_stale_execution_runs, append_execution_event, mark_execution_event_processed,
  max_active_runs_default,
}
use whats_app_poke.Integrations.{Integration, list_active_integrations}
use whats_app_poke.Actions.{PendingAction, send_email, same_kind}
use whats_app_poke.Execution.Scope.{
  local_toolkit, has_text, is_blank, normalize_toolkits, scheduled_scope, providers,
  missing_toolkits,
}

-- `ExecutionOutcome`: how the agent says that it ended
pub data OutputStatus : Type 0 where
  output_succeeded output_failed output_needs_input : OutputStatus

pub record ExecutionOutcome : Type 0 where
  pub status : OutputStatus
  pub summary : String

-- How the awaited agent ends: with an output, or with an exception.
pub data AgentEnd : Type 0 where
  output : ExecutionOutcome → AgentEnd
  timeout cancelled_task : AgentEnd
  raised : String → AgentEnd

pub data DispatchState : Type 0 where
  run_started run_deduped busy unavailable run_cancelled : DispatchState

-- the `detail` texts; `ended` is the text of a status
pub data Detail : Type 0 where
  goal_is_empty two_active reclaimed_by_another_worker already_terminal not_active : Detail
  not_connected : List String → Detail
  ended : ExecutionRunStatus → Detail

pub record DispatchOutcome : Type 0 where
  pub state : DispatchState
  pub execution_run_id : Option ℕ
  pub detail : Option Detail

-- a call of the interaction with the result of a run
pub record Reentry : Type 0 where
  pub execution_run_id : ℕ
  pub status : ExecutionRunStatus

-- The tables, and the log of the re-entries.
pub record World : Type 0 where
  pub runs : List ExecutionRun
  pub events : List ExecutionEvent
  pub reentries : List Reentry

-- Python's texts and SHA-256: `squeeze s` is `" ".join(s.split())`, `compact` cuts that.
pub record Texts : Type 0 where
  pub strip : String → String
  pub lower : String → String
  pub squeeze : String → String
  pub casefold : String → String
  pub compact : ℕ → String → String
  pub sha256 : String → String
  pub print_id : ℕ → String

-- What one close of a run meets: its clock, the id that is drawn for the event, whether the contact
-- is found, and whether the interaction delivered something visible.
pub record Close : Type 0 where
  pub now : ℕ
  pub event_id : ℕ
  pub contact_exists : Bool
  pub is_delivered : Bool

abbrev pub status_text : ExecutionRunStatus → String
status_text pending = "pending"
status_text running = "running"
status_text succeeded = "succeeded"
status_text failed = "failed"
status_text timed_out = "timed_out"
status_text cancel_requested = "cancel_requested"
status_text cancelled = "cancelled"
status_text abandoned = "abandoned"

abbrev pub output_text : OutputStatus → String
output_text output_succeeded = "succeeded"
output_text output_failed = "failed"
output_text output_needs_input = "needs_input"

abbrev pub run_status : OutputStatus → ExecutionRunStatus
run_status output_succeeded = succeeded
run_status output_failed = failed
run_status output_needs_input = failed

abbrev pub fields_of : Payload → Fields
fields_of [] = end
fields_of ((k, v) ∷ m) = field k v (fields_of m)

abbrev pub result_json : Option Payload → Json
result_json none = object end
result_json (some result) = object (fields_of result)

abbrev pub error_json : Option String → Json
error_json none = null
error_json (some error) = str error

-- the texts of which a goal to send e-mail has one each
abbrev pub email_context : List String
email_context = "email" ∷ "e-mail" ∷ "e mail" ∷ "gmail" ∷ "mail" ∷ []

abbrev pub send_intent : List String
send_intent = "enviar" ∷ "envie" ∷ "mandar" ∷ "mande" ∷ "disparar" ∷ "send" ∷ []

abbrev pub draft_only : List String
draft_only = "rascunho" ∷ "draft" ∷ []

-- `marker in text`
abbrev pub contains_text : String → String → Bool
contains_text text marker = ltb (find_text text marker) (suc (len text))

unfoldable pub has_marker : String → List String → Bool
has_marker text [] = false
has_marker text (marker ∷ markers) = contains_text text marker || has_marker text markers

-- the row of a staged e-mail of the run
abbrev pub is_staged_by : (contact_id execution_run_id : ℕ) → PendingAction → Bool
is_staged_by contact_id execution_run_id r =
    r.contact_id == contact_id
    && ((elim r.source_execution_run_id [ none ↦ false | some i ↦ i == execution_run_id ])
        && same_kind r.kind send_email)

unfoldable pub email_send_was_staged : (contact_id execution_run_id : ℕ) → List PendingAction → Bool
email_send_was_staged contact_id execution_run_id actions =
    is_some (find (is_staged_by contact_id execution_run_id) actions)

abbrev pub joined : List String → String
joined [] = ""
joined (s ∷ []) = s
joined (s ∷ t ∷ l) = s ⧺ "\0" ⧺ joined (t ∷ l)
