-- ===== src/Execution/Dispatch.antt =====
-- How runs are made, scheduled and cancelled: `_dedupe_key`, `dispatch_execution`,
-- `run_scheduled_execution`, `cancel_execution` and `abandon_expired_executions` of
-- app/services/execution.py.
use Prim.Native.String.{◌++◌ as ◌⧺◌}
use whats_app_poke.Prelude.{
  ℕ, ◌*◌, String, Bool, true, false, Option, none, some, List, [], ◌∷◌, if◌then◌else◌, second,
}
use whats_app_poke.Table.{get}
use whats_app_poke.Runs.{
  ExecutionRun, cancelled, is_active, is_started, is_terminal, claim_execution_run,
  create_or_get_execution_run, get_execution_run_by_dedupe, reclaim_execution_run_for_retry,
  request_execution_cancellation, abandon_stale_execution_runs, max_active_runs_default,
}
use whats_app_poke.Execution.Scope.{is_blank, normalize_toolkits, scheduled_scope, missing_toolkits}
use whats_app_poke.Execution.Run.{Attempt, run_execution, finish_and_schedule_reentry}
use whats_app_poke.Execution.{
  AgentEnd, cancelled_task, World, Texts, Close, DispatchOutcome, run_started, run_deduped, busy,
  unavailable, run_cancelled, Detail, goal_is_empty, two_active, reclaimed_by_another_worker,
  already_terminal, not_active, not_connected, ended, joined,
}

abbrev pub execution_dedupe_key : Texts → String → List String → String
execution_dedupe_key x goal toolkits =
    x.sha256 (joined toolkits ⧺ "\0" ⧺ x.casefold (x.squeeze goal))

abbrev pub started_outcome : (o : Option ℕ) → Option Detail → DispatchOutcome
started_outcome id detail = record { state = run_started; execution_run_id = id; detail = detail }

abbrev pub refused : Detail → DispatchOutcome
refused detail = record { state = unavailable; execution_run_id = none; detail = some detail }

abbrev pub too_busy : Option ℕ → Detail → DispatchOutcome
too_busy id detail = record { state = busy; execution_run_id = id; detail = some detail }

abbrev pub duplicate : ℕ → Option Detail → DispatchOutcome
duplicate id detail = record { state = run_deduped; execution_run_id = some id; detail = detail }

-- `connected` are the providers of the contact's active accounts
abbrev pub dispatched :
    List ExecutionRun × Option ExecutionRun × Bool → World → World × DispatchOutcome
dispatched (runs, none, created) w = (record w { runs = runs }, too_busy none two_active)
dispatched (runs, some run, false) w = (record w { runs = runs }, duplicate run.id none)
dispatched (runs, some run, true) w = (record w { runs = runs }, started_outcome (some run.id) none)

abbrev pub dispatch_scope :
    Texts
    → (new_id now contact_id : ℕ) → String
    → List String
    → List String
    → World
    → World × DispatchOutcome
dispatch_scope x new_id now contact_id goal scope [] w =
    dispatched
      (create_or_get_execution_run new_id now contact_id goal scope
        (execution_dedupe_key x goal scope) max_active_runs_default w.runs)
      w
dispatch_scope x new_id now contact_id goal scope (t ∷ missing) w =
    (w, refused (not_connected (t ∷ missing)))

-- The task that is started is a `run_execution` of its own.
unfoldable pub dispatch_execution :
    Texts
    → (connected : List String) → (new_id now contact_id : ℕ) → String
    → List String
    → World
    → World × DispatchOutcome
dispatch_execution x connected new_id now contact_id goal toolkits w =
    let goal_clean = x.squeeze goal in
    let scope = normalize_toolkits x.strip x.lower toolkits in
    if is_blank goal_clean
    then (w, refused goal_is_empty)
    else dispatch_scope x new_id now contact_id goal_clean scope
        (missing_toolkits x.strip x.lower connected scope) w

-- What a scheduled execution ends with: its outcome, `RuntimeError`, or `CancelledError`.
pub data ScheduledResult : Type 0 where
  answered : DispatchOutcome → ScheduledResult
  failed_to_end task_cancelled : ScheduledResult

abbrev pub after_run : ℕ → Option ExecutionRun → ScheduledResult
after_run id none = failed_to_end
after_run id (some finished) =
    if is_active finished.status
    then failed_to_end
    else answered (started_outcome (some id) (some (ended finished.status)))

-- the agent's task was cancelled: the exception goes on, once the run was claimed
abbrev pub unless_cancelled : AgentEnd → Option ExecutionRun → ScheduledResult → ScheduledResult
unless_cancelled cancelled_task (some claimed) result = task_cancelled
unless_cancelled _ _ result = result

-- the run that was found, taken back or created
abbrev pub run_found :
    Texts
    → Attempt
    → (contact_id : ℕ) → String
    → List String
    → Option ExecutionRun
    → World
    → World × ScheduledResult
run_found x t contact_id goal scope none w = (w, answered (too_busy none two_active))
run_found x t contact_id goal scope (some run) w =
    if is_terminal run.status
    then (w, answered (duplicate run.id (some already_terminal)))
    else (let started = t.before_claim w in
        let after = t.before_check (run_execution x t run.id contact_id goal scope started) in
        (
          after,
          unless_cancelled t.agent_end
              (claim_execution_run run.id contact_id t.claim_now started.runs).1
              (after_run run.id (get ExecutionRun.id run.id after.runs)),
        ))

abbrev pub after_reclaim :
    Texts
    → Attempt
    → (contact_id : ℕ) → String
    → List String
    → ℕ
    → List ExecutionRun × Option ExecutionRun
    → World
    → World × ScheduledResult
after_reclaim x t contact_id goal scope existing_id (runs, none) w =
    (w, answered (too_busy (some existing_id) reclaimed_by_another_worker))
after_reclaim x t contact_id goal scope existing_id (runs, some reclaimed) w =
    run_found x t contact_id goal scope (some reclaimed) (record w { runs = runs })

abbrev pub after_create :
    Texts
    → Attempt
    → (contact_id : ℕ) → String
    → List String
    → List ExecutionRun × Option ExecutionRun × Bool
    → World
    → World × ScheduledResult
after_create x t contact_id goal scope (runs, run, created) w =
    run_found x t contact_id goal scope run (record w { runs = runs })

abbrev pub schedule_existing :
    Texts
    → Attempt
    → (new_id now contact_id : ℕ) → String
    → List String
    → String
    → Option ExecutionRun
    → World
    → World × ScheduledResult
schedule_existing x t new_id now contact_id goal scope dedupe_key none w =
    after_create x t contact_id goal scope
      (create_or_get_execution_run new_id now contact_id goal scope dedupe_key
        max_active_runs_default w.runs)
      w
schedule_existing x t new_id now contact_id goal scope dedupe_key (some existing) w =
    if is_started existing.status
    then after_reclaim x t contact_id goal scope existing.id
        (reclaim_execution_run_for_retry existing.id contact_id now w.runs) w
    else run_found x t contact_id goal scope (some existing) w

-- the row is read, others commit, and then it is taken back or a new one created
abbrev pub schedule_read :
    Texts
    → Attempt
    → (new_id now contact_id : ℕ) → String
    → List String
    → String
    → World
    → World × ScheduledResult
schedule_read x t new_id now contact_id goal scope dedupe_key w =
    schedule_existing x t new_id now contact_id goal scope dedupe_key
      (get_execution_run_by_dedupe contact_id dedupe_key w.runs) (t.before_write w)

abbrev pub schedule_scope :
    Texts
    → Attempt
    → (new_id now contact_id : ℕ) → String
    → List String
    → String
    → List String
    → World
    → World × ScheduledResult
schedule_scope x t new_id now contact_id goal scope dedupe_key [] w =
    schedule_read x t new_id now contact_id goal scope dedupe_key w
schedule_scope x t new_id now contact_id goal scope dedupe_key (m ∷ missing) w =
    (w, answered (refused (not_connected (m ∷ missing))))

unfoldable pub run_scheduled_execution :
    Texts
    → Attempt
    → (connected : List String) → (new_id now contact_id : ℕ) → String
    → List String
    → String
    → World
    → World × ScheduledResult
run_scheduled_execution x t connected new_id now contact_id goal toolkit_scope dedupe_key w =
    let goal_clean = x.squeeze goal in
    let scope = scheduled_scope x.strip x.lower toolkit_scope in
    if is_blank goal_clean
    then (w, answered (refused goal_is_empty))
    else schedule_scope x t new_id now contact_id goal_clean scope dedupe_key
        (missing_toolkits x.strip x.lower connected scope) w

-- The finalizer is a task and a transaction of its own: `between` is what others, the task that was
-- cancelled among them, commit before it.
abbrev pub after_request :
    Texts
    → Close
    → (World → World)
    → (execution_run_id contact_id : ℕ) → List ExecutionRun × Option ExecutionRun
    → World
    → World × DispatchOutcome
after_request x c between execution_run_id contact_id (runs, none) w =
    (record w { runs = runs }, refused not_active)
after_request x c between execution_run_id contact_id (runs, some row) w = (
  finish_and_schedule_reentry x c execution_run_id contact_id cancelled row.goal none none
      (between (record w { runs = runs })),
  record { state = run_cancelled; execution_run_id = some execution_run_id; detail = none },
)

unfoldable pub cancel_execution :
    Texts
    → Close
    → (World → World)
    → (execution_run_id contact_id now : ℕ) → World
    → World × DispatchOutcome
cancel_execution x c between execution_run_id contact_id now w =
    after_request x c between execution_run_id contact_id
      (request_execution_cancellation execution_run_id contact_id now w.runs) w

-- The result is the number of runs.
unfoldable pub abandon_expired_executions : (timeout_seconds now : ℕ) → World → World × ℕ
abandon_expired_executions timeout_seconds now w =
    let (runs, abandoned_runs) =
      abandon_stale_execution_runs (timeout_seconds * second) now w.runs in
    (record w { runs = runs }, abandoned_runs)
