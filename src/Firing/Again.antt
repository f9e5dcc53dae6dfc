-- ===== src/Firing/Again.antt =====
-- A wake-up that is tried again, as after a crash of the worker: the occurrence is not run twice.
use whats_app_poke.Prelude.{
  ℕ, String, ◌≡◌, refl, sym, ap, ◌∙◌, inl, inr, Bool, true, false, ◌&&◌, Option, none, some, List,
  arith, Bool-cases, ◌==◌, is_some, some_injective,
}
use whats_app_poke.Payload.{payload_str}
use whats_app_poke.Table.{find, update_where, update_by_id, find-update}
use whats_app_poke.Jobs.{Job, complete_job}
use whats_app_poke.Automations.{
  Automation, AutomationLastRunStatus, is_active, of_contact, get_automation, with_run,
  record_automation_run,
}
use whats_app_poke.Execution.{
  DispatchOutcome, DispatchState, run_started, run_deduped, busy, unavailable, run_cancelled,
}
use whats_app_poke.Execution as Service
use whats_app_poke.Execution.Scope.{is_blank}
use whats_app_poke.Execution.Dispatch.{ScheduledResult, answered, failed_to_end, task_cancelled}
use whats_app_poke.Firing.{
  World, Fired, Try, Clock, parse_uuid, parse_occurrence, same_instant, report_skipped,
  after_dispatch, after_execution, fire_occurrence, close_wake_up, fire_row, fire_id, wake_next,
  wake_row, close_recorded, last_status, is_catch_up, fire_due_automation,
}

-- what a try that only looks after the wake-ups leaves alone
pub record Untouched (w v : World) : Type 0 where
  pub service : v.service ≡ w.service
  pub automations : v.automations ≡ w.automations
  pub skipped : v.skipped ≡ w.skipped

-- the occurrence of an active automation was recorded
abbrev pub Settled : (automation_id contact_id occurrence_at : ℕ) → List Automation → Type 0
Settled a c at rows =
    (row : Automation)
    → get_automation a (some c) rows ≡ some row
    → is_active row.status ≡ true
    → (is_some row.last_run_status && same_instant row.last_occurrence_at at) ≡ true

abbrev Settles : (automation_id contact_id occurrence_at : ℕ) → Fired → Type 0
Settles a c at f = f.raised ≡ false → Settled a c at f.world.automations

abbrev Quiet : World → Fired → Type 0
Quiet w f = Untouched w f.world × (f.raised ≡ false)

Untouched-wake_row :
    (k : Clock) (t : Try) (job : Job) (row : Automation) (next : Option ℕ) (w : World)
    → Untouched w (wake_row k t job row next w)
Untouched-wake_row k t job row none w = record {
  service = refl;
  automations = refl;
  skipped = refl;
}
Untouched-wake_row k t job row (some at) w = record {
  service = refl;
  automations = refl;
  skipped = refl;
}

Untouched-close_recorded :
    (k : Clock) (t : Try) (job : Job) (row : Automation) (w : World)
    → Untouched w (close_recorded k t job row w)
Untouched-close_recorded k t job row w =
    let u =
      Untouched-wake_row k t job row row.next_run_at
        (record w { jobs = complete_job job.id w.jobs }) in
    record { service = u.service; automations = u.automations; skipped = u.skipped }

Untouched-same : (w : World) → Untouched w w
Untouched-same w = record { service = refl; automations = refl; skipped = refl }

-- a try for an occurrence that was recorded
module _ (k : Clock) (t : Try) (job : Job) {at : ℕ} where
  quiet_row :
      (row : Option Automation) (w : World)
      → parse_occurrence k (payload_str job.payload "occurrence_at") ≡ some at
      → ((r : Automation)
          → row ≡ some r
          → is_active r.status ≡ true
          → (is_some r.last_run_status && same_instant r.last_occurrence_at at) ≡ true)
      → Quiet w (fire_row k t job row w)
  quiet_row none w p settled = (Untouched-same w, refl)
  quiet_row (some row) w p settled = elim (Bool-cases (is_active row.status)) [
    | inl live ↦
        rw live (rw p (rw (settled row refl live) (Untouched-close_recorded k t job row w, refl)))
    | inr over ↦ rw over (Untouched-same w, refl)
  ]

-- what the first try leaves
module _ (k : Clock) (t : Try) (job : Job) (at : ℕ) (row : Automation) where
  automations-wake_next :
      (updated : Option Automation) (next : Option ℕ) (w : World)
      → (wake_next k t job updated next w).automations ≡ w.automations
  automations-wake_next none next w = refl
  automations-wake_next (some u) none w = refl
  automations-wake_next (some u) (some at') w = elim (Bool-cases (is_active u.status)) [
    | inl yes_u ↦ rw yes_u refl
    | inr no_u ↦ rw no_u refl
  ]

  -- the session that closes the wake-up records the occurrence
  Settled-record_automation_run :
      (a c : ℕ) (next : Option ℕ) (s : AutomationLastRunStatus) (run_id : Option ℕ)
      (catch_up : Bool) (rows : List Automation)
      → get_automation a (some c) rows ≡ some row
      → is_active row.status ≡ true
      → Settled a c at
          (record_automation_run row.id row.contact_id at next s run_id catch_up t.closed_at rows).0
  unfolding get_automation record_automation_run update_by_id
  Settled-record_automation_run a c next s run_id catch_up rows found live r e lives =
      let own : (row.id == row.id && (row.contact_id == row.contact_id && is_active row.status))
          ≡ true =
        ground arith in
      let after : find (λ x. x.id == a && of_contact (some c) x)
            (update_where
              (λ x. x.id == row.id && (x.contact_id == row.contact_id && is_active x.status))
              (with_run at next s run_id catch_up t.closed_at) rows)
          ≡ some (with_run at next s run_id catch_up t.closed_at row) =
        find-update (λ x. x.id == a && of_contact (some c) x) _
          (with_run at next s run_id catch_up t.closed_at) (λ x. refl) rows
        ∙ rw found (rw own refl) in
      let same : some (with_run at next s run_id catch_up t.closed_at row) ≡ some r =
        sym after ∙ e in
      rw (sym (some_injective same)) (ground arith)

  module _ (a c : ℕ) where
    Settles-close_wake_up :
        (next : Option (Option ℕ)) (s : AutomationLastRunStatus) (run_id : Option ℕ)
        (catch_up : Bool) (w : World)
        → get_automation a (some c) w.automations ≡ some row
        → is_active row.status ≡ true
        → Settles a c at (close_wake_up k t job next at s run_id catch_up row w)
    Settles-close_wake_up none s run_id catch_up w found live e = absurd (ground arith)
    Settles-close_wake_up (some next) s run_id catch_up w found live e =
        let (rows, updated) =
          record_automation_run row.id row.contact_id at next s run_id catch_up t.closed_at
            w.automations in
        rw
          (automations-wake_next updated next
            (record w { automations = rows; jobs = complete_job job.id w.jobs }))
          (Settled-record_automation_run a c next s run_id catch_up w.automations found live)

    Settles-after_dispatch :
        (o : DispatchOutcome) (w : World)
        → get_automation a (some c) w.automations ≡ some row
        → is_active row.status ≡ true
        → Settles a c at (after_dispatch k t job at row o w)
    Settles-after_dispatch o w found live = by_state o.state refl
      where
        skips :
            (phone : Option String)
            → get_automation a (some c) (report_skipped k t job phone row w).automations ≡ some row
        skips none = found
        skips (some phone) = elim (Bool-cases (is_blank phone)) [
          | inl blank ↦ rw blank found
          | inr set ↦ rw set found
        ]

        closes : Settles a c at (
            close_wake_up k t job
              (k.next_after row t.closed_at)
              at
              (last_status k t job o w)
              o.execution_run_id
              (is_catch_up at t.now)
              row
              w)
        closes = Settles-close_wake_up (k.next_after row t.closed_at) _ _ _ w found live

        by_state :
            (s : DispatchState) → o.state ≡ s → Settles a c at (after_dispatch k t job at row o w)
        by_state run_started e = rw e closes
        by_state run_deduped e = rw e closes
        by_state run_cancelled e = rw e closes
        by_state busy e = rw e (λ f. absurd (ground arith))
        by_state unavailable e = rw e (
            Settles-close_wake_up (k.next_after row t.closed_at) _ _ _
              (report_skipped k t job t.phone row w) (skips t.phone) live)

    Settles-after_execution :
        (r : Service.World × ScheduledResult) (w : World)
        → get_automation a (some c) w.automations ≡ some row
        → is_active row.status ≡ true
        → Settles a c at (after_execution k t job at row r w)
    Settles-after_execution (service, failed_to_end) w found live = λ e. absurd (ground arith)
    Settles-after_execution (service, task_cancelled) w found live = λ e. absurd (ground arith)
    Settles-after_execution (service, answered o) w found live =
        Settles-after_dispatch o (record w { service = service }) found live

    Settles-fire_occurrence :
        (w : World)
        → get_automation a (some c) w.automations ≡ some row
        → is_active row.status ≡ true
        → Settles a c at (fire_occurrence k t job at row w)
    Settles-fire_occurrence w found live =
        elim (Bool-cases (is_some row.last_run_status && same_instant row.last_occurrence_at at)) [
          | inl done ↦ rw done (λ e r f lives. rw (sym (the_row r f)) done)
          | inr new ↦ rw new (Settles-after_execution _ w found live)
        ]
      where
        the_row :
            (r : Automation)
            → get_automation a (some c) (close_recorded k t job row w).automations ≡ some r
            → row ≡ r
        the_row r f = some_injective (
            sym found
            ∙ sym (
                ap (get_automation a (some c)) (Untouched-close_recorded k t job row w).automations)
            ∙ f)

Settles-fire_row :
    (k : Clock) (t : Try) (job : Job) (at a : ℕ) (row : Option Automation) (w : World)
    → parse_occurrence k (payload_str job.payload "occurrence_at") ≡ some at
    → get_automation a (some job.contact_id) w.automations ≡ row
    → Settles a job.contact_id at (fire_row k t job row w)
Settles-fire_row k t job at a none w p found = λ e r f lives. absurd (ground arith)
Settles-fire_row k t job at a (some row) w p found = elim (Bool-cases (is_active row.status)) [
  | inl live ↦ rw live (rw p (Settles-fire_occurrence k t job at row a job.contact_id w found live))
  | inr over ↦ rw over (λ e r f lives. absurd (
      still over
        (ap (λ (x : Automation). is_active x.status) (some_injective (sym found ∙ f)) ∙ lives)))
]
  where
    still : is_active row.status ≡ false → is_active row.status ≡ true → ⊥
    still e f = ground arith

Settles-fire_id :
    (k : Clock) (t t' : Try) (job : Job) (at : ℕ) (id : Option ℕ) (w : World)
    → parse_occurrence k (payload_str job.payload "occurrence_at") ≡ some at
    → (fire_id k t job id w).raised ≡ false
    → Quiet (fire_id k t job id w).world (fire_id k t' job id (fire_id k t job id w).world)
Settles-fire_id k t t' job at none w p e = absurd (ground arith)
Settles-fire_id k t t' job at (some a) w p e =
    quiet_row k t' job _ (fire_id k t job (some a) w).world p
      (Settles-fire_row k t job at a _ w p refl e)

-- A wake-up whose payload has an instant that parses, and that was handled without an error, may be
-- handled again, at any later time and whatever the tries meet: the second try does not raise,
-- does not call the execution service, and leaves the automations and the reports as they were.
-- It can only change the jobs.
pub fire_twice :
    (k : Clock) (first again : Try) (job : Job) (at : ℕ) (w : World)
    → parse_occurrence k (payload_str job.payload "occurrence_at") ≡ some at
    → (fire_due_automation k first job w).raised ≡ false
    → Untouched
        (fire_due_automation k first job w).world
        (fire_due_automation k again job (fire_due_automation k first job w).world).world
      × ((fire_due_automation k again job (fire_due_automation k first job w).world).raised ≡ false)
unfolding fire_due_automation
fire_twice k first again job at w p e =
    Settles-fire_id k first again job at (parse_uuid k (payload_str job.payload "automation_id")) w
      p e
