-- ===== src/Firing.antt =====
-- How a due automation fires: app/services/automation.py, with `is_catch_up` of app/core/rrule.py.
-- `parse_id`, `parse_time` and `stamp` stand for `uuid.UUID`, the parsing of an ISO instant and its
-- printing without microseconds, `next_after` for the next occurrence of a rule (none: it raised).
-- A session of the handler is one step; what others commit while the agent works is in the attempt.
pub mod Again
mod Tests
use Prim.Native.String.{◌++◌ as ◌⧺◌}
use whats_app_poke.Prelude.{
  ℕ, ◌+◌, ◌*◌, String, Bool, true, false, ◌&&◌, not, Option, none, some, List, [], ◌∷◌, ltb, ◌==◌,
  str_eq, if◌then◌else◌, is_some, minute,
}
use whats_app_poke.Payload.{Payload, payload_str}
use whats_app_poke.Table.{get}
use whats_app_poke.Jobs.{Job, complete_job}
use whats_app_poke.Runs.{
  ExecutionRun, ExecutionRunStatus, pending, running, succeeded, failed, timed_out,
  cancel_requested, cancelled, abandoned,
}
use whats_app_poke.Automations.{
  Automation, AutomationStatus, AutomationLastRunStatus, run_succeeded, run_failed, run_timed_out,
  run_cancelled, run_skipped, is_active, get_automation, upsert_automation_due,
  record_automation_run,
}
use whats_app_poke.Execution.{
  Texts, DispatchOutcome, DispatchState, run_started, run_deduped, busy, unavailable,
  run_cancelled as dispatch_cancelled, Detail, ended,
}
use whats_app_poke.Execution as Service
use whats_app_poke.Execution.Scope.{local_toolkit, is_blank}
use whats_app_poke.Execution.Run.{Attempt}
use whats_app_poke.Execution.Dispatch.{
  ScheduledResult, answered, failed_to_end, task_cancelled, run_scheduled_execution,
}

-- The tables, the world of the execution service, and the automations that were reported as skipped.
pub record World : Type 0 where
  pub jobs : List Job
  pub automations : List Automation
  pub service : Service.World
  pub skipped : List ℕ

pub record Fired : Type 0 where
  pub world : World
  pub raised : Bool

-- What a try of the handler meets: its clock, and that when the wake-up is closed, the ids that are drawn, the contact's phone, the
-- connected providers, the commits of others between the statements of a wake-up, and the attempt.
pub record Try : Type 0 where
  pub now : ℕ
  pub closed_at : ℕ
  pub new_run_id : ℕ
  pub new_job_id : ℕ
  pub phone : Option String
  pub connected_providers : List String
  pub others : ℕ → List Job → List Job
  pub attempt : Attempt

pub record Clock : Type 0 where
  pub texts : Texts
  pub parse_id : String → Option ℕ
  pub parse_time : String → Option ℕ
  pub stamp : ℕ → String
  pub print_time : ℕ → String
  pub next_after : Automation → ℕ → Option (Option ℕ)

abbrev pub raise : World → Fired
raise w = record { world = w; raised = true }

abbrev pub return : World → Fired
return w = record { world = w; raised = false }

abbrev pub automation_dedupe_key : Clock → ℕ → ℕ → String
automation_dedupe_key k automation_id occurrence_at =
    "automation:" ⧺ k.texts.print_id automation_id ⧺ ":" ⧺ k.stamp occurrence_at

abbrev pub parse_uuid : Clock → Option String → Option ℕ
parse_uuid k none = none
parse_uuid k (some raw) = k.parse_id raw

abbrev pub parse_occurrence : Clock → Option String → Option ℕ
parse_occurrence k none = none
parse_occurrence k (some raw) = k.parse_time raw

-- `a or b`
abbrev pub or_else : Option ℕ → Option ℕ → Option ℕ
or_else none b = b
or_else (some a) b = some a

abbrev pub same_instant : Option ℕ → ℕ → Bool
same_instant none right = false
same_instant (some left) right = left == right

abbrev pub catch_up_grace : ℕ
catch_up_grace = 2 * minute

abbrev pub is_catch_up : (scheduled_at now : ℕ) → Bool
is_catch_up scheduled_at now = ltb (scheduled_at + catch_up_grace) now

-- `_LAST_RUN_FROM_EXECUTION`, and SUCCEEDED for what is not in it
abbrev pub last_run_from_execution : ExecutionRunStatus → AutomationLastRunStatus
last_run_from_execution succeeded = run_succeeded
last_run_from_execution failed = run_failed
last_run_from_execution timed_out = run_timed_out
last_run_from_execution cancelled = run_cancelled
last_run_from_execution abandoned = run_failed
last_run_from_execution _ = run_succeeded

abbrev pub required_toolkits : List String → List String
required_toolkits [] = []
required_toolkits (s ∷ slugs) =
    if is_blank s then required_toolkits slugs else s ∷ required_toolkits slugs

module _ (k : Clock) (t : Try) (job : Job) where
  abbrev pub wake_at : (contact_id automation_id run_at : ℕ) → World → World
  wake_at contact_id automation_id run_at w = record w {
    jobs =
        (upsert_automation_due t.others k.print_time t.new_job_id t.closed_at contact_id
          (k.texts.print_id automation_id) run_at w.jobs).0;
  }

  -- the wake-up that is due next, if the automation is still active
  abbrev pub wake_next : Option Automation → Option ℕ → World → World
  wake_next none next_run_at w = w
  wake_next (some updated) none w = w
  wake_next (some updated) (some run_at) w =
      if is_active updated.status then wake_at updated.contact_id updated.id run_at w else w

  abbrev pub close_session :
      (occurrence_at : ℕ)
      → AutomationLastRunStatus
      → Option ℕ
      → Bool
      → Automation
      → Option ℕ
      → World
      → World
  close_session occurrence_at last_run_status execution_run_id was_catch_up row next_run_at w =
      let (automations, updated) =
        record_automation_run row.id row.contact_id occurrence_at next_run_at last_run_status
          execution_run_id was_catch_up t.closed_at w.automations in
      wake_next updated next_run_at
        (record w { automations = automations; jobs = complete_job job.id w.jobs })

  -- `next` is the next occurrence; none: its computation raised
  abbrev pub close_wake_up :
      Option (Option ℕ)
      → (occurrence_at : ℕ) → AutomationLastRunStatus
      → Option ℕ
      → Bool
      → Automation
      → World
      → Fired
  close_wake_up none occurrence_at last_run_status execution_run_id was_catch_up row w = raise w
  close_wake_up (some next_run_at) occurrence_at last_run_status execution_run_id was_catch_up row
        w =
      return (
        close_session occurrence_at last_run_status execution_run_id was_catch_up row next_run_at w)

  abbrev pub run_status : Option ExecutionRun → AutomationLastRunStatus
  run_status none = run_succeeded
  run_status (some run) = last_run_from_execution run.status

  abbrev pub status_of_run : Option ℕ → World → AutomationLastRunStatus
  status_of_run none w = run_succeeded
  status_of_run (some id) w = run_status (get ExecutionRun.id id w.service.runs)

  -- a detail that is the text of a status, and else the run itself
  abbrev pub last_status : DispatchOutcome → World → AutomationLastRunStatus
  last_status o w = elim o.detail [
    | none ↦ status_of_run o.execution_run_id w
    | some d ↦ elim d [
      | ended status ↦ last_run_from_execution status
      | _ ↦ status_of_run o.execution_run_id w
    ]
  ]

  -- the occurrence was recorded before: the job is closed, and the next wake-up made sure of
  abbrev pub wake_row : Automation → Option ℕ → World → World
  wake_row row none w = w
  wake_row row (some run_at) w = wake_at job.contact_id row.id run_at w

  abbrev pub close_recorded : Automation → World → World
  close_recorded row w =
      wake_row row row.next_run_at (record w { jobs = complete_job job.id w.jobs })

  -- `_reenter_skipped`, if the contact has a phone
  abbrev pub report_skipped : Option String → Automation → World → World
  report_skipped none row w = w
  report_skipped (some phone) row w =
      if is_blank phone then w else record w { skipped = row.id ∷ w.skipped }

  abbrev pub after_dispatch : (occurrence_at : ℕ) → Automation → DispatchOutcome → World → Fired
  after_dispatch occurrence_at row o w =
      let was_catch_up = is_catch_up occurrence_at t.now in
      elim o.state [
        | unavailable ↦
            close_wake_up (k.next_after row t.closed_at) occurrence_at run_skipped none was_catch_up
              row (report_skipped t.phone row w)
        | busy ↦ raise w
        | _ ↦
            close_wake_up (k.next_after row t.closed_at) occurrence_at (last_status o w)
              o.execution_run_id was_catch_up row w
      ]

  abbrev pub after_execution :
      (occurrence_at : ℕ) → Automation → Service.World × ScheduledResult → World → Fired
  after_execution occurrence_at row (service, failed_to_end) w =
      raise (record w { service = service })
  after_execution occurrence_at row (service, task_cancelled) w =
      raise (record w { service = service })
  after_execution occurrence_at row (service, answered o) w =
      after_dispatch occurrence_at row o (record w { service = service })

  abbrev pub fire_occurrence : ℕ → Automation → World → Fired
  fire_occurrence occurrence_at row w =
      if is_some row.last_run_status && same_instant row.last_occurrence_at occurrence_at
      then return (close_recorded row w)
      else after_execution occurrence_at row
          (run_scheduled_execution k.texts t.attempt t.connected_providers t.new_run_id t.now
            job.contact_id row.goal (local_toolkit ∷ required_toolkits row.required_toolkits)
            (automation_dedupe_key k row.id occurrence_at) w.service)
          w

  abbrev pub fire_at : Option ℕ → Automation → World → Fired
  fire_at none row w = raise w
  fire_at (some occurrence_at) row w = fire_occurrence occurrence_at row w

  abbrev pub fire_row : Option Automation → World → Fired
  fire_row none w = return w
  fire_row (some row) w =
      if is_active row.status
      then fire_at
          (or_else (parse_occurrence k (payload_str job.payload "occurrence_at")) row.next_run_at)
          row w
      else return w

  abbrev pub fire_id : Option ℕ → World → Fired
  fire_id none w = raise w
  fire_id (some automation_id) w =
      fire_row (get_automation automation_id (some job.contact_id) w.automations) w

  unfoldable pub fire_due_automation : World → Fired
  fire_due_automation w = fire_id (parse_uuid k (payload_str job.payload "automation_id")) w
