-- ===== src/Execution/Run.antt =====
-- One run from its claim to its re-entry: `_validate_email_send_staging`, `_run_execution`,
-- `_finish_and_schedule_reentry` and `_reenter_interaction` of app/services/execution.py.
use whats_app_poke.Prelude.{
  ℕ, String, Bool, true, false, ◌&&◌, not, Option, none, some, List, [], ◌∷◌, ◌++◌, if◌then◌else◌,
}
use Prim.Native.String.{◌++◌ as ◌⧺◌}
use whats_app_poke.Payload.{Payload, str}
use whats_app_poke.Runs.{
  ExecutionRun, ExecutionRunStatus, ExecutionEvent, failed, timed_out, cancelled,
  claim_execution_run, finish_execution_run, append_execution_event, mark_execution_event_processed,
}
use whats_app_poke.Actions.{PendingAction}
use whats_app_poke.Execution.Scope.{has_text}
use whats_app_poke.Execution.{
  output_succeeded, output_failed, output_needs_input, ExecutionOutcome, AgentEnd, output, timeout,
  cancelled_task, raised, World, Texts, Close, status_text, output_text, run_status, result_json,
  error_json, email_context, send_intent, draft_only, has_marker, email_send_was_staged,
}

unfoldable pub goal_implies_email_send : Texts → String → Bool
unfolding has_marker
goal_implies_email_send x goal =
    let text = x.squeeze (x.lower goal) in
    if has_marker text email_context
    then (let wants_send = has_marker text send_intent in
        wants_send && not (has_marker text draft_only && not wants_send))
    else false

abbrev pub not_staged : ExecutionOutcome
not_staged = record {
  status = output_failed;
  summary = "Não encenei o envio do e-mail para confirmação.";
}

-- `actions` are the staged actions when the agent has ended
unfoldable pub validate_email_send_staging :
    Texts
    → String
    → List String
    → ExecutionOutcome
    → (contact_id execution_run_id : ℕ) → List PendingAction
    → ExecutionOutcome
unfolding goal_implies_email_send has_text email_send_was_staged
validate_email_send_staging x goal toolkit_scope outcome contact_id execution_run_id actions =
    elim outcome.status [
      | output_succeeded ↦
          if has_text "gmail" toolkit_scope && goal_implies_email_send x goal
          then (if email_send_was_staged contact_id execution_run_id actions
              then outcome
              else not_staged)
          else outcome
      | output_failed ↦ outcome
      | output_needs_input ↦ outcome
    ]

-- the event's payload, which is the summary for the interaction too
abbrev pub event_payload :
    Texts
    → (execution_run_id : ℕ) → String
    → ExecutionRunStatus
    → Option Payload
    → Option String
    → Payload
event_payload x execution_run_id goal status result error =
    ("execution_id", str (x.print_id execution_run_id))
    ∷ ("goal", str (x.compact 240 goal))
    ∷ ("status", str (status_text status))
    ∷ ("result", result_json result)
    ∷ ("error", error_json error)
    ∷ []

abbrev pub mark_if :
    Bool → (event_id contact_id now : ℕ) → List ExecutionEvent → List ExecutionEvent
mark_if false event_id contact_id now events = events
mark_if true event_id contact_id now events =
    (mark_execution_event_processed event_id contact_id now events).0

unfoldable pub reenter_interaction :
    Close → (execution_run_id contact_id : ℕ) → ExecutionRunStatus → World → World
reenter_interaction c execution_run_id contact_id status w =
    if c.contact_exists
    then record w {
      events = mark_if c.is_delivered c.event_id contact_id c.now w.events;
      reentries =
          w.reentries ++ record { execution_run_id = execution_run_id; status = status } ∷ [];
    }
    else w

-- the rest of the session, once the run was updated; a ValueError writes nothing
abbrev pub announce :
    Texts
    → Close
    → (execution_run_id contact_id : ℕ) → ExecutionRunStatus
    → String
    → Option Payload
    → Option String
    → Option (List ExecutionRun × Option ExecutionRun)
    → World
    → World
announce x c execution_run_id contact_id status goal result error none w = w
announce x c execution_run_id contact_id status goal result error (some (runs, none)) w = record w {
  runs = runs;
}
announce x c execution_run_id contact_id status goal result error (some (runs, some finished)) w =
    reenter_interaction c execution_run_id contact_id status (record w {
      runs = runs;
      events =
          (append_execution_event c.event_id c.now contact_id execution_run_id
            ("execution." ⧺ status_text status)
            (event_payload x execution_run_id goal status result error) w.events).0;
    })

unfoldable pub finish_and_schedule_reentry :
    Texts
    → Close
    → (execution_run_id contact_id : ℕ) → ExecutionRunStatus
    → String
    → Option Payload
    → Option String
    → World
    → World
unfolding reenter_interaction
finish_and_schedule_reentry x c execution_run_id contact_id status goal result error w =
    announce x c execution_run_id contact_id status goal result error
      (finish_execution_run execution_run_id contact_id status result error c.now w.runs) w

abbrev pub outcome_payload : Texts → ExecutionOutcome → Payload
outcome_payload x o =
    ("summary", str (x.compact 800 o.summary)) ∷ ("outcome", str (output_text o.status)) ∷ []

-- the branches of the `try`
unfoldable pub close_execution :
    Texts
    → Close
    → (execution_run_id contact_id : ℕ) → String
    → List String
    → List PendingAction
    → AgentEnd
    → World
    → World
unfolding finish_and_schedule_reentry validate_email_send_staging
close_execution x c execution_run_id contact_id goal scope actions (output o) w =
    let valid = validate_email_send_staging x goal scope o contact_id execution_run_id actions in
    finish_and_schedule_reentry x c execution_run_id contact_id (run_status valid.status) goal
      (some (outcome_payload x valid)) none w
close_execution x c execution_run_id contact_id goal scope actions timeout w =
    finish_and_schedule_reentry x c execution_run_id contact_id timed_out goal none
      (some "execution timeout") w
close_execution x c execution_run_id contact_id goal scope actions cancelled_task w =
    finish_and_schedule_reentry x c execution_run_id contact_id cancelled goal none none w
close_execution x c execution_run_id contact_id goal scope actions (raised text) w =
    finish_and_schedule_reentry x c execution_run_id contact_id failed goal none
      (some (x.compact 240 text)) w

-- What one execution of a run meets: the clock of its claim, what others commit while the agent
-- works, how the agent ends, the staged actions then, and the close; and, for a scheduled execution,
-- what others commit before its run is taken back or created, before the claim, and before the last
-- look at the row.
pub record Attempt : Type 0 where
  pub claim_now : ℕ
  pub during : World → World
  pub before_write : World → World
  pub before_claim : World → World
  pub before_check : World → World
  pub agent_end : AgentEnd
  pub actions : List PendingAction
  pub close : Close

abbrev pub claimed_execution :
    Texts
    → Attempt
    → (execution_run_id contact_id : ℕ) → String
    → List String
    → List ExecutionRun × Option ExecutionRun
    → World
    → World
claimed_execution x t execution_run_id contact_id goal scope (runs, none) w = record w {
  runs = runs;
}
claimed_execution x t execution_run_id contact_id goal scope (runs, some claimed) w =
    close_execution x t.close execution_run_id contact_id goal scope t.actions t.agent_end
      (t.during (record w { runs = runs }))

unfoldable pub run_execution :
    Texts → Attempt → (execution_run_id contact_id : ℕ) → String → List String → World → World
unfolding close_execution
run_execution x t execution_run_id contact_id goal scope w =
    claimed_execution x t execution_run_id contact_id goal scope
      (claim_execution_run execution_run_id contact_id t.claim_now w.runs) w
