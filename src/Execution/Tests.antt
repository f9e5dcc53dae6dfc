-- ===== src/Execution/Tests.antt =====
-- Calls of the service on concrete rows, and the theorems at inputs that meet their hypotheses.
use whats_app_poke.Prelude.{◌&&◌, ◌≤◌, String, ◌≡◌, refl, true, false, some, List, [], ◌∷◌}
use whats_app_poke.Table.{get, count, greatest, update_by_id}
use whats_app_poke.Runs.{
  ExecutionRun, is_terminal, succeeded, new_run, create_or_get_execution_run, claim_execution_run,
  finish_execution_run, get_execution_run_by_dedupe, append_execution_event,
}
use whats_app_poke.Execution.{
  email_context, send_intent, World, Texts, Close, output, output_succeeded, ended, has_marker,
}
use whats_app_poke.Execution.Scope.{
  has_text, lowered, first_texts, scheduled_scope, missing_toolkits,
}
use whats_app_poke.Execution.Run.{
  Attempt, goal_implies_email_send, validate_email_send_staging, reenter_interaction,
  finish_and_schedule_reentry, close_execution, run_execution,
}
use whats_app_poke.Execution.Dispatch.{
  ScheduledResult, answered, started_outcome, run_scheduled_execution,
}
use whats_app_poke.Execution.Intent.{goal_implies_email_send_lem}
use whats_app_poke.Execution.Ledger.{events_of, is_abandoned, absent, told, Refines, Leads}
use whats_app_poke.Execution.Calls.{Call, calls, calls-Refines, told_once}
use whats_app_poke.Execution.Outcome.{ClosedBy, KeepsRuns, run_execution_outcome}

abbrev same_text : String → String
same_text s = s

abbrev plain : Texts
plain = record {
  strip = same_text;
  lower = same_text;
  squeeze = same_text;
  casefold = same_text;
  compact = λ n s. s;
  sha256 = same_text;
  print_id = λ n. "id";
}

-- a goal to send a mail that was not staged did not succeed
mail_goal : goal_implies_email_send plain "enviar e-mail para Ana" ≡ true
unfolding goal_implies_email_send has_marker
mail_goal = refl

draft_goal : goal_implies_email_send plain "criar rascunho de e-mail" ≡ false
unfolding goal_implies_email_send has_marker
draft_goal = refl

abbrev closing : Close
closing = record { now = 20; event_id = 1; contact_exists = true; is_delivered = true }

abbrev attempt : Attempt
attempt = record {
  claim_now = 15;
  during = λ w. w;
  before_write = λ w. w;
  before_claim = λ w. w;
  before_check = λ w. w;
  agent_end = output (record { status = output_succeeded; summary = "done" });
  actions = [];
  close = closing;
}

abbrev empty : World
empty = record { runs = []; events = []; reentries = [] }

-- a scheduled run is made, run and ended, and a retry for the same key does not run it again
abbrev tick : World → World × ScheduledResult
tick = run_scheduled_execution plain attempt [] 1 10 7 "read" [] "k"

first_tick : (tick empty).1 ≡ answered (started_outcome (some 1) (some (ended succeeded)))
unfolding run_scheduled_execution scheduled_scope lowered first_texts missing_toolkits
    get_execution_run_by_dedupe greatest create_or_get_execution_run count run_execution
    claim_execution_run update_by_id get close_execution validate_email_send_staging has_text
    finish_and_schedule_reentry finish_execution_run append_execution_event reenter_interaction
first_tick = refl

fair : (w : World) → Refines w w
fair w i e h = (e, Leads.same, h)

abbrev script : List Call
script =
    Call.dispatch [] 1 10 7 "read" []
    ∷ Call.execute attempt 1 7 "read" []
    ∷ Call.cancel closing (λ w. w) 1 7 30
    ∷ Call.abandon 60 100
    ∷ []

told_once_example :
    (events_of 1 (calls plain script empty) ≤ 1)
    × (absent ≡ told → events_of 1 (calls plain script empty) ≡ 1)
    × ((r : ExecutionRun)
        → get ExecutionRun.id 1 (calls plain script empty).runs ≡ some r
        → is_terminal r.status ≡ true
        → is_abandoned r.status ≡ false
        → events_of 1 (calls plain script empty) ≡ 1)
unfolding get count
told_once_example =
    told_once plain script empty 1 absent (refl, ((fair, fair, fair, fair), (fair, (tt, tt)))) refl

calls-Refines_example : Refines empty (calls plain script empty)
unfolding get
calls-Refines_example =
    calls-Refines plain script empty (refl, ((fair, fair, fair, fair), (fair, (tt, tt))))

abbrev waiting : ExecutionRun
waiting = record (new_run 1 10 7 "read" [] "k") { toolkit_scope = [] }

abbrev one_run : World
one_run = record { runs = waiting ∷ []; events = []; reentries = [] }

keeps : KeepsRuns attempt
keeps w i r e = (r, e, refl)

run_execution_outcome_example :
    ClosedBy plain attempt 1 7 "read" [] one_run (run_execution plain attempt 1 7 "read" [] one_run)
unfolding get
run_execution_outcome_example =
    run_execution_outcome plain attempt 1 7 "read" [] one_run waiting keeps refl refl refl refl

-- a goal to draft and not to send, which the guard takes for a goal to send
goal_implies_email_send_lem_example :
    goal_implies_email_send plain "rascunho de e-mail, sem enviar" ≡ (
      has_marker "rascunho de e-mail, sem enviar" email_context
      && has_marker "rascunho de e-mail, sem enviar" send_intent)
goal_implies_email_send_lem_example =
    goal_implies_email_send_lem plain "rascunho de e-mail, sem enviar"

draft_taken_as_send : goal_implies_email_send plain "rascunho de e-mail, sem enviar" ≡ true
unfolding goal_implies_email_send has_marker
draft_taken_as_send = refl
