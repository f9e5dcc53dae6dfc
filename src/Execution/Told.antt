-- ===== src/Execution/Told.antt =====
-- Every function of the service is a sequence of steps of the ledger.
use Prim.Native.String.{◌++◌ as ◌⧺◌}
use native.Mathlib.Decide.{ℕ_discrete}
use whats_app_poke.Prelude.{
  ℕ, ◌+◌, ◌*◌, String, ◌≡◌, ◌≢◌, refl, subst, sym, ap, ◌∙◌, inl, inr, Bool, true, false, ◌&&◌,
  Option, none, some, List, [], ◌∷◌, arith, Bool-cases, ◌==◌, if◌then◌else◌, second,
}
use whats_app_poke.Payload.{Payload}
use whats_app_poke.Table.{
  get, count, update_by_id, count-append, count-update_where_same, update_by_id-some,
  update_by_id-stored, update_by_id-none, get-update_by_id_ne,
}
use whats_app_poke.Runs.{
  ExecutionRun, ExecutionRunStatus, ExecutionEvent, is_active, is_terminal, update_run, finished,
  finish_execution_run, append_execution_event, mark_execution_event_processed, is_unprocessed,
  processed, claim_execution_run, request_execution_cancellation, cancelled,
  reclaim_execution_run_for_retry, create_or_get_execution_run, max_active_runs_default, is_started,
}
use whats_app_poke.Actions.{PendingAction}
use whats_app_poke.Execution.{
  World, Texts, Close, OutputStatus, run_status, AgentEnd, status_text, output, timeout,
  cancelled_task, raised,
}
use whats_app_poke.Execution.Run.{
  Attempt, mark_if, event_payload, reenter_interaction, announce, finish_and_schedule_reentry,
  close_execution, claimed_execution, run_execution,
}
use whats_app_poke.Execution.Ledger.{
  events_of, Entry, told, Leads, tells, Shows, Tracks, Refines, Refines-same, Refines-trans,
}
use whats_app_poke.Runs.Rows.{both-right}
use whats_app_poke.Execution.Steps.{
  active-live, claim-Refines, reclaim-Refines, request-Refines, abandon-Refines, create-Refines,
}
use whats_app_poke.Execution.Scope.{is_blank}
use whats_app_poke.Execution.Dispatch.{
  dispatched, dispatch_scope, dispatch_execution, after_request, cancel_execution, run_found,
  after_reclaim, schedule_existing, schedule_read, schedule_scope, run_scheduled_execution,
  abandon_expired_executions,
}

module _ (w after : World) (j : ℕ) (r s : ExecutionRun)
    (found : get ExecutionRun.id j w.runs ≡ some r) (was : is_active r.status ≡ true)
    (at : get ExecutionRun.id j after.runs ≡ some s) (ends : is_terminal s.status ≡ true)
    (one_more : events_of j after ≡ events_of j w + 1)
    (others : (i : ℕ) → j ≢ i → get ExecutionRun.id i after.runs ≡ get ExecutionRun.id i w.runs)
    (quiet : (i : ℕ) → j ≢ i → events_of i after ≡ events_of i w) where
  -- one run ends and is told, the others are left alone
  tell-Refines : Refines w after
  tell-Refines i e h = elim (ℕ_discrete j i) [
    | no ne ↦ (
      e,
      Leads.same,
      subst (λ n. Shows e (get ExecutionRun.id i after.runs) n) (sym (quiet i ne))
          (subst (λ o. Shows e o (events_of i w)) (sym (others i ne)) h),
    )
    | yes own ↦ tell_own i own e h
  ]
    where
      tell_own :
          (i : ℕ) → j ≡ i → (e : Entry) → Tracks i w e → (f : Entry) × Leads e f × Tracks i after f
      tell_own i own e h =
          let (q, z) =
            active-live e r (events_of i w)
              (subst (λ o. Shows e o (events_of i w))
                (ap (λ k. get ExecutionRun.id k w.runs) (sym own) ∙ found) h)
              was in
          let row : get ExecutionRun.id i after.runs ≡ some s =
            ap (λ k. get ExecutionRun.id k after.runs) (sym own) ∙ at in
          let more : events_of i after ≡ events_of i w + 1 =
            ap (λ k. events_of k after) (sym own) ∙ one_more ∙ ap (λ k. events_of k w + 1) own in
          (
            told,
            subst (λ x. Leads x told) (sym q) tells,
            subst (λ o. Shows told o (events_of i after)) (sym row) (ends, omega (arith, more, z)),
          )

-- marking an event as processed, and the log of re-entries
marked_events :
    (b : Bool) (event_id contact_id now i : ℕ) (events : List ExecutionEvent)
    → count
        (λ (e : ExecutionEvent). e.execution_run_id == i)
        (mark_if b event_id contact_id now events)
      ≡ count (λ (e : ExecutionEvent). e.execution_run_id == i) events
unfolding mark_execution_event_processed update_by_id
marked_events false event_id contact_id now i events = refl
marked_events true event_id contact_id now i events =
    count-update_where_same (λ (e : ExecutionEvent). e.execution_run_id == i)
      (λ e. e.id == event_id && is_unprocessed contact_id e) (processed now) (λ e. refl) events

pub reenter-same :
    (c : Close) (j contact_id : ℕ) (status : ExecutionRunStatus) (w : World)
    → ((reenter_interaction c j contact_id status w).runs ≡ w.runs)
      × ((i : ℕ) → events_of i (reenter_interaction c j contact_id status w) ≡ events_of i w)
unfolding reenter_interaction
reenter-same c j contact_id status w = elim (Bool-cases c.contact_exists) [
  | inl e ↦ rw e (refl, λ i. marked_events c.is_delivered c.event_id contact_id c.now i w.events)
  | inr e ↦ rw e (refl, λ i. refl)
]

pub appended_events :
    (event_id now contact_id j : ℕ) (kind : String) (payload : Payload) (i : ℕ)
    (events : List ExecutionEvent)
    → count
        (λ (e : ExecutionEvent). e.execution_run_id == i)
        (append_execution_event event_id now contact_id j kind payload events).0
      ≡ count (λ (e : ExecutionEvent). e.execution_run_id == i) events + (if j == i then 1 else 0)
unfolding append_execution_event
appended_events event_id now contact_id j kind payload i events =
    count-append (λ (e : ExecutionEvent). e.execution_run_id == i) events _

-- the finish of an active run
module _ (x : Texts) (c : Close) (j contact_id : ℕ) (status : ExecutionRunStatus) (goal : String)
    (result : Option Payload) (error : Option String) (w : World) where
  abbrev by_id : List ExecutionRun × Option ExecutionRun
  by_id =
      update_run j contact_id (λ r. is_active r.status) (finished status result error c.now) w.runs

  written-Refines :
      (p : List ExecutionRun × Option ExecutionRun)
      → p ≡ by_id
      → is_terminal status ≡ true
      → Refines w (announce x c j contact_id status goal result error (some p) w)
  written-Refines (runs, none) e last =
      Refines-same w (record w { runs = runs })
        (λ i.
          ap (λ (p : List ExecutionRun × Option ExecutionRun). get ExecutionRun.id i p.0) e
          ∙ update_by_id-none ExecutionRun.id j _ _ (λ r. refl) i w.runs
              (sym (ap (λ (p : List ExecutionRun × Option ExecutionRun). p.1) e)))
        (λ i. refl)
  written-Refines (runs, some row) e last =
      let written : by_id.1 ≡ some row =
        sym (ap (λ (p : List ExecutionRun × Option ExecutionRun). p.1) e) in
      let (r, found, met, is_row) =
        update_by_id-some ExecutionRun.id j _ _ (λ r. refl) w.runs written in
      let rows_at : (i : ℕ) → get ExecutionRun.id i runs ≡ get ExecutionRun.id i by_id.0 =
        λ i. ap (λ (p : List ExecutionRun × Option ExecutionRun). get ExecutionRun.id i p.0) e in
      Refines-trans w told_world (reenter_interaction c j contact_id status told_world)
        (tell-Refines w told_world j r row found (both-right _ _ met)
          (rows_at j ∙ update_by_id-stored ExecutionRun.id j _ _ (λ r. refl) w.runs written)
          (ap (λ (y : ExecutionRun). is_terminal y.status) is_row ∙ last)
          (appended_events c.event_id c.now contact_id j _ _ j w.events ∙ own_event)
          (λ i ne.
            rows_at i
            ∙ get-update_by_id_ne ExecutionRun.id j _ _ (λ r. refl) i w.runs (λ q. ne (sym q)))
          (λ i ne. appended_events c.event_id c.now contact_id j _ _ i w.events ∙ other_event i ne))
        (Refines-same told_world (reenter_interaction c j contact_id status told_world)
          (λ i. ap (get ExecutionRun.id i) (reenter-same c j contact_id status told_world).0)
          (reenter-same c j contact_id status told_world).1)
    where
      told_world : World
      told_world = record w {
        runs = runs;
        events =
            (append_execution_event c.event_id c.now contact_id j
              ("execution." ⧺ status_text status) (event_payload x j goal status result error)
              w.events).0;
      }

      own_event : events_of j w + (if j == j then 1 else 0) ≡ events_of j w + 1
      own_event = ground arith

      other_event : (i : ℕ) → j ≢ i → events_of i w + (if j == i then 1 else 0) ≡ events_of i w
      other_event i ne = ground (arith, ne)

  pub finish-Refines :
      is_terminal status ≡ true
      → Refines w (finish_and_schedule_reentry x c j contact_id status goal result error w)
  unfolding finish_and_schedule_reentry finish_execution_run
  finish-Refines last = rw last (written-Refines by_id refl last)

run_status-terminal : (o : OutputStatus) → is_terminal (run_status o) ≡ true
run_status-terminal o = ground arith

pub close-Refines :
    (x : Texts) (c : Close) (j contact_id : ℕ) (goal : String) (scope : List String)
    (actions : List PendingAction) (end : AgentEnd) (w : World)
    → Refines w (close_execution x c j contact_id goal scope actions end w)
unfolding close_execution
close-Refines x c j contact_id goal scope actions (output o) w =
    finish-Refines x c j contact_id _ goal _ none w (run_status-terminal _)
close-Refines x c j contact_id goal scope actions timeout w =
    finish-Refines x c j contact_id _ goal none _ w refl
close-Refines x c j contact_id goal scope actions cancelled_task w =
    finish-Refines x c j contact_id _ goal none none w refl
close-Refines x c j contact_id goal scope actions (raised text) w =
    finish-Refines x c j contact_id _ goal none _ w refl

-- The commits of other sessions are steps of the ledger too.
abbrev pub AreSteps : (World → World) → Type 0
AreSteps others = (w : World) → Refines w (others w)

-- what others commit, at each point of an attempt where they may
abbrev pub IsFair : Attempt → Type 0
IsFair t =
    AreSteps t.during × AreSteps t.before_write × AreSteps t.before_claim × AreSteps t.before_check

claimed-Refines :
    (x : Texts) (t : Attempt) (j contact_id : ℕ) (goal : String) (scope : List String)
    (p : List ExecutionRun × Option ExecutionRun) (w : World)
    → IsFair t
    → Refines w (record w { runs = p.0 })
    → Refines w (claimed_execution x t j contact_id goal scope p w)
claimed-Refines x t j contact_id goal scope (runs, none) w fair claim = claim
claimed-Refines x t j contact_id goal scope (runs, some row) w fair claim =
    let held : World = record w { runs = runs } in
    let after =
      close_execution x t.close j contact_id goal scope t.actions t.agent_end (t.during held) in
    Refines-trans w held after claim (
      Refines-trans held (t.during held) after (fair.0 held)
        (close-Refines x t.close j contact_id goal scope t.actions t.agent_end (t.during held)))

-- An execution is a sequence of steps of the ledger for every run, if what others commit while the
-- agent works is: it opens or tells no run twice.
pub run_execution-Refines :
    (x : Texts) (t : Attempt) (j contact_id : ℕ) (goal : String) (scope : List String) (w : World)
    → IsFair t
    → Refines w (run_execution x t j contact_id goal scope w)
unfolding run_execution
run_execution-Refines x t j contact_id goal scope w fair =
    claimed-Refines x t j contact_id goal scope
      (claim_execution_run j contact_id t.claim_now w.runs) w fair
      (claim-Refines w j contact_id t.claim_now)

Refines-none : (w : World) → Refines w w
Refines-none w i e h = (e, Leads.same, h)

dispatched-runs :
    (p : List ExecutionRun × Option ExecutionRun × Bool) (w : World)
    → (dispatched p w).0 ≡ record w { runs = p.0 }
dispatched-runs (runs, none, created) w = refl
dispatched-runs (runs, some run, false) w = refl
dispatched-runs (runs, some run, true) w = refl

after_request-Refines :
    (x : Texts) (c : Close) (between : World → World) (j contact_id : ℕ)
    (p : List ExecutionRun × Option ExecutionRun) (w : World)
    → AreSteps between
    → Refines w (record w { runs = p.0 })
    → Refines w (after_request x c between j contact_id p w).0
after_request-Refines x c between j contact_id (runs, none) w fair h = h
after_request-Refines x c between j contact_id (runs, some row) w fair h =
    let asked : World = record w { runs = runs } in
    let after =
      finish_and_schedule_reentry x c j contact_id cancelled row.goal none none (between asked) in
    Refines-trans w asked after h (
      Refines-trans asked (between asked) after (fair asked)
        (finish-Refines x c j contact_id cancelled row.goal none none (between asked) refl))

dispatch_scope-Refines :
    (x : Texts) (new_id now contact_id : ℕ) (goal : String) (scope missing : List String)
    (w : World)
    → get ExecutionRun.id new_id w.runs ≡ none
    → Refines w (dispatch_scope x new_id now contact_id goal scope missing w).0
dispatch_scope-Refines x new_id now contact_id goal scope (t ∷ missing) w fresh = Refines-none w
dispatch_scope-Refines x new_id now contact_id goal scope [] w fresh =
    subst (Refines w) (sym (dispatched-runs _ w))
      (create-Refines w new_id now contact_id goal scope _ _ fresh)

-- A dispatch opens at most the run whose new id it was given.
pub dispatch_execution-Refines :
    (x : Texts) (connected : List String) (new_id now contact_id : ℕ) (goal : String)
    (toolkits : List String) (w : World)
    → get ExecutionRun.id new_id w.runs ≡ none
    → Refines w (dispatch_execution x connected new_id now contact_id goal toolkits w).0
unfolding dispatch_execution
dispatch_execution-Refines x connected new_id now contact_id goal toolkits w fresh =
    elim (Bool-cases (is_blank (x.squeeze goal))) [
      | inl empty ↦ rw empty (Refines-none w)
      | inr full ↦ rw full (dispatch_scope-Refines x new_id now contact_id _ _ _ w fresh)
    ]

-- A cancellation is a step of the ledger, as any end.
pub cancel_execution-Refines :
    (x : Texts) (c : Close) (between : World → World) (j contact_id now : ℕ) (w : World)
    → AreSteps between
    → Refines w (cancel_execution x c between j contact_id now w).0
unfolding cancel_execution
cancel_execution-Refines x c between j contact_id now w fair =
    after_request-Refines x c between j contact_id
      (request_execution_cancellation j contact_id now w.runs) w fair
      (request-Refines w j contact_id now)

module _ (x : Texts) (t : Attempt) (fair : IsFair t) (contact_id : ℕ) (goal : String)
    (scope : List String) where
  run_found-Refines :
      (o : Option ExecutionRun) (w : World) → Refines w (run_found x t contact_id goal scope o w).0
  run_found-Refines none w = Refines-none w
  run_found-Refines (some row) w = elim (Bool-cases (is_terminal row.status)) [
    | inl last ↦ rw last (Refines-none w)
    | inr other ↦ rw other (
        let started = t.before_claim w in
        let after = run_execution x t row.id contact_id goal scope started in
        Refines-trans w started (t.before_check after) (fair.2 w) (
          Refines-trans started after (t.before_check after)
            (run_execution-Refines x t row.id contact_id goal scope started fair) (fair.3 after)))
  ]

  after_reclaim-Refines :
      (j : ℕ) (p : List ExecutionRun × Option ExecutionRun) (w : World)
      → Refines w (record w { runs = p.0 })
      → Refines w (after_reclaim x t contact_id goal scope j p w).0
  after_reclaim-Refines j (runs, none) w h = Refines-none w
  after_reclaim-Refines j (runs, some row) w h =
      let back : World = record w { runs = runs } in
      Refines-trans w back (run_found x t contact_id goal scope (some row) back).0 h
        (run_found-Refines (some row) back)

  schedule_existing-Refines :
      (new_id now : ℕ) (key : String) (o : Option ExecutionRun) (w : World)
      → get ExecutionRun.id new_id w.runs ≡ none
      → Refines w (schedule_existing x t new_id now contact_id goal scope key o w).0
  schedule_existing-Refines new_id now key none w fresh =
      let p =
        create_or_get_execution_run new_id now contact_id goal scope key max_active_runs_default
          w.runs in
      Refines-trans w (record w { runs = p.0 })
        (run_found x t contact_id goal scope p.1 (record w { runs = p.0 })).0
        (create-Refines w new_id now contact_id goal scope key max_active_runs_default fresh)
        (run_found-Refines p.1 (record w { runs = p.0 }))
  schedule_existing-Refines new_id now key (some row) w fresh =
      elim (Bool-cases (is_started row.status)) [
        | inl begun ↦ rw begun (
            after_reclaim-Refines row.id
              (reclaim_execution_run_for_retry row.id contact_id now w.runs) w
              (reclaim-Refines w row.id contact_id now))
        | inr other ↦ rw other (run_found-Refines (some row) w)
      ]

  schedule_scope-Refines :
      (new_id now : ℕ) (key : String) (missing : List String) (w : World)
      → get ExecutionRun.id new_id (t.before_write w).runs ≡ none
      → Refines w (schedule_scope x t new_id now contact_id goal scope key missing w).0
  schedule_scope-Refines new_id now key (m ∷ missing) w fresh = Refines-none w
  schedule_scope-Refines new_id now key [] w fresh =
      Refines-trans w (t.before_write w)
        (schedule_read x t new_id now contact_id goal scope key w).0 (fair.1 w)
        (schedule_existing-Refines new_id now key _ (t.before_write w) fresh)

-- A scheduled execution, a first try or a retry, is a sequence of steps of the ledger.
pub run_scheduled_execution-Refines :
    (x : Texts) (t : Attempt) (connected : List String) (new_id now contact_id : ℕ) (goal : String)
    (toolkit_scope : List String) (key : String) (w : World)
    → IsFair t
    → get ExecutionRun.id new_id (t.before_write w).runs ≡ none
    → Refines w
        (run_scheduled_execution x t connected new_id now contact_id goal toolkit_scope key w).0
unfolding run_scheduled_execution
run_scheduled_execution-Refines x t connected new_id now contact_id goal toolkit_scope key w fair
      fresh =
    elim (Bool-cases (is_blank (x.squeeze goal))) [
      | inl empty ↦ rw empty (Refines-none w)
      | inr full ↦ rw full (schedule_scope-Refines x t fair contact_id _ _ new_id now key _ w fresh)
    ]

pub abandon_expired_executions-Refines :
    (timeout_seconds now : ℕ) (w : World)
    → Refines w (abandon_expired_executions timeout_seconds now w).0
unfolding abandon_expired_executions
abandon_expired_executions-Refines timeout_seconds now w =
    abandon-Refines w (timeout_seconds * second) now
