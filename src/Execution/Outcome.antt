-- ===== src/Execution/Outcome.antt =====
-- An execution ends the run that it claimed.
use whats_app_poke.Prelude.{
  ℕ, String, ◌≡◌, refl, ap, ◌∙◌, inl, inr, true, false, subst, ◌+◌, Bool, ◌&&◌, not, is_some, ◌++◌,
  [], ◌∷◌, Option, none, some, List, arith, Bool-cases, ◌==◌, if◌then◌else◌,
}
use whats_app_poke.Payload.{Payload}
use whats_app_poke.Table.{get, find, update_by_id, get-update_by_id_self}
use whats_app_poke.Runs.{
  ExecutionRun, ExecutionRunStatus, succeeded, failed, timed_out, cancelled, is_active, is_terminal,
  is_pending, started, update_run, claim_execution_run, finished, finish_execution_run,
}
use whats_app_poke.Actions.{PendingAction}
use whats_app_poke.Execution.{
  World, Texts, Close, OutputStatus, output_succeeded, output_failed, output_needs_input,
  run_status, is_staged_by, email_send_was_staged, AgentEnd, output, timeout, cancelled_task,
  raised,
}
use whats_app_poke.Execution.Run.{
  Attempt, goal_implies_email_send, reenter_interaction, validate_email_send_staging, announce,
  finish_and_schedule_reentry, close_execution, claimed_execution, run_execution,
}
use whats_app_poke.Execution.Scope.{has_text}
use whats_app_poke.Execution.Ledger.{events_of}
use whats_app_poke.Execution.Told.{reenter-same, appended_events}

-- The goal asks for an e-mail, and the run has the toolkit for it, but staged none.
abbrev pub lacks_email :
    Texts → (execution_run_id contact_id : ℕ) → String → List String → List PendingAction → Bool
lacks_email x i contact_id goal scope actions =
    (has_text "gmail" scope && goal_implies_email_send x goal)
    && not (is_some (find (is_staged_by contact_id i) actions))

-- The status with which an execution is to close its run: succeeded only for an agent that says so
-- and lacks no e-mail.
abbrev pub close_status :
    Texts
    → (execution_run_id contact_id : ℕ) → String
    → List String
    → List PendingAction
    → AgentEnd
    → ExecutionRunStatus
close_status x i contact_id goal scope actions (output o) = elim o.status [
  | output_succeeded ↦ if lacks_email x i contact_id goal scope actions then failed else succeeded
  | output_failed ↦ failed
  | output_needs_input ↦ failed
]
close_status x i contact_id goal scope actions timeout = timed_out
close_status x i contact_id goal scope actions cancelled_task = cancelled
close_status x i contact_id goal scope actions (raised text) = failed

validate-status :
    (x : Texts) (i contact_id : ℕ) (goal : String) (scope : List String)
    (actions : List PendingAction) (s : OutputStatus) (summary : String)
    → run_status
        (validate_email_send_staging x goal scope
          (record { status = s; summary = summary })
          contact_id
          i
          actions).status
      ≡ close_status x i contact_id goal scope actions
          (output (record { status = s; summary = summary }))
unfolding validate_email_send_staging email_send_was_staged
validate-status x i contact_id goal scope actions output_failed summary = refl
validate-status x i contact_id goal scope actions output_needs_input summary = refl
validate-status x i contact_id goal scope actions output_succeeded summary =
    elim (Bool-cases (has_text "gmail" scope && goal_implies_email_send x goal)) [
      | inr free ↦ rw free refl
      | inl due ↦ rw due (elim (Bool-cases (is_some (find (is_staged_by contact_id i) actions))) [
        | inl there ↦ rw there refl
        | inr gone ↦ rw gone refl
      ])
    ]

terminal_status : (o : OutputStatus) → is_terminal (run_status o) ≡ true
terminal_status o = ground arith

-- What a close leaves of a run that is active: it has the status, there is one event of it more,
-- and one re-entry with its status if the contact is found, else none.
pub record Concluded (c : Close) (i : ℕ) (status : ExecutionRunStatus) (w after : World)
    : Type 0 where
  pub row :
      (s : ExecutionRun) × (get ExecutionRun.id i after.runs ≡ some s)
      × (s.status ≡ status)
      × (is_active s.status ≡ false)
  pub event : events_of i after ≡ events_of i w + 1
  pub reentry : after.reentries ≡ (
      if c.contact_exists
      then w.reentries ++ record { execution_run_id = i; status = status } ∷ []
      else w.reentries)

-- A close of a run that is not active leaves its row, the events and the re-entries.
pub record Left (i : ℕ) (r : ExecutionRun) (w after : World) : Type 0 where
  pub row : get ExecutionRun.id i after.runs ≡ some r
  pub events : after.events ≡ w.events
  pub reentries : after.reentries ≡ w.reentries

abbrev pub Closed : Close → ℕ → ExecutionRun → ExecutionRunStatus → World → World → Type 0
Closed c i r status w after =
    (is_active r.status ≡ true → Concluded c i status w after)
    × (is_active r.status ≡ false → Left i r w after)

terminal-inactive : (s : ExecutionRunStatus) → is_terminal s ≡ true → is_active s ≡ false
terminal-inactive s e = ground arith

reenter-log :
    (c : Close) (i contact_id : ℕ) (status : ExecutionRunStatus) (w : World)
    → (reenter_interaction c i contact_id status w).reentries ≡ (
        if c.contact_exists
        then w.reentries ++ record { execution_run_id = i; status = status } ∷ []
        else w.reentries)
unfolding reenter_interaction
reenter-log c i contact_id status w = elim (Bool-cases c.contact_exists) [
  | inl e ↦ rw e refl
  | inr e ↦ rw e refl
]

module _ (x : Texts) (c : Close) (i contact_id : ℕ) (status : ExecutionRunStatus) (goal : String)
    (result : Option Payload) (error : Option String) (w : World) where
  announce-Concluded :
      (p : List ExecutionRun × Option ExecutionRun) (row : ExecutionRun)
      → p.1 ≡ some row
      → get ExecutionRun.id i p.0 ≡ some row
      → row.status ≡ status
      → is_terminal status ≡ true
      → Concluded c i status w (announce x c i contact_id status goal result error (some p) w)
  announce-Concluded (runs, none) row e at is last = absurd (ground arith)
  announce-Concluded (runs, some finished) row e at is last = record {
    row = (
      row,
      ap (get ExecutionRun.id i) (reenter-same c i contact_id status _).0 ∙ at,
      is,
      ap is_active is ∙ terminal-inactive status last,
    );
    event =
        (reenter-same c i contact_id status _).1 i
        ∙ appended_events c.event_id c.now contact_id i _ _ i w.events
        ∙ own;
    reentry = reenter-log c i contact_id status _;
  }
    where
      own : events_of i w + (if i == i then 1 else 0) ≡ events_of i w + 1
      own = ground arith

  announce-Left :
      (p : List ExecutionRun × Option ExecutionRun) (r : ExecutionRun)
      → p.1 ≡ none
      → get ExecutionRun.id i p.0 ≡ some r
      → Left i r w (announce x c i contact_id status goal result error (some p) w)
  announce-Left (runs, none) r e at = record { row = at; events = refl; reentries = refl }
  announce-Left (runs, some finished) r e at = absurd (ground arith)

  finish-Closed :
      (r : ExecutionRun)
      → is_terminal status ≡ true
      → get ExecutionRun.id i w.runs ≡ some r
      → r.contact_id ≡ contact_id
      → Closed c i r status w
          (finish_and_schedule_reentry x c i contact_id status goal result error w)
  unfolding finish_and_schedule_reentry finish_execution_run update_by_id
  finish-Closed r last found own = (
    λ open_run. rw last (
        announce-Concluded updated (finished status result error c.now r)
          (returned (rw (own_test, open_run) refl)) (at_row ∙ rw (own_test, open_run) refl) refl
          last),
    λ shut. rw last (
        announce-Left updated r (refused (rw (own_test, shut) refl))
          (at_row ∙ rw (own_test, shut) refl)),
  )
    where
      own_test : (r.contact_id == contact_id) ≡ true
      own_test = ground (arith, own)

      updated : List ExecutionRun × Option ExecutionRun
      updated =
          update_run i contact_id (λ r. is_active r.status) (finished status result error c.now)
            w.runs

      returned :
          (r.contact_id == contact_id && is_active r.status) ≡ true
          → updated.1 ≡ some (finished status result error c.now r)
      returned e = rw found (rw e refl)

      refused : (r.contact_id == contact_id && is_active r.status) ≡ false → updated.1 ≡ none
      refused e = rw found (rw e refl)

      at_row :
          get ExecutionRun.id i updated.0
          ≡ some (
              if r.contact_id == contact_id && is_active r.status
              then finished status result error c.now r
              else r)
      at_row = rw (
        get-update_by_id_self ExecutionRun.id i
            (λ r. r.contact_id == contact_id && is_active r.status)
            (finished status result error c.now) (λ x. refl) w.runs,
        found,
      )

close-Closed :
    (x : Texts) (c : Close) (i contact_id : ℕ) (goal : String) (scope : List String)
    (actions : List PendingAction) (end : AgentEnd) (w : World) (r : ExecutionRun)
    → get ExecutionRun.id i w.runs ≡ some r
    → r.contact_id ≡ contact_id
    → Closed c i r
        (close_status x i contact_id goal scope actions end)
        w
        (close_execution x c i contact_id goal scope actions end w)
unfolding close_execution
close-Closed x c i contact_id goal scope actions (output o) w r found own =
    subst
      (λ st. Closed c i r st w (close_execution x c i contact_id goal scope actions (output o) w))
      (validate-status x i contact_id goal scope actions o.status o.summary)
      (finish-Closed x c i contact_id _ goal _ none w r (terminal_status _) found own)
close-Closed x c i contact_id goal scope actions timeout w r found own =
    finish-Closed x c i contact_id timed_out goal none _ w r refl found own
close-Closed x c i contact_id goal scope actions cancelled_task w r found own =
    finish-Closed x c i contact_id cancelled goal none none w r refl found own
close-Closed x c i contact_id goal scope actions (raised text) w r found own =
    finish-Closed x c i contact_id failed goal none _ w r refl found own

-- What others commit while the agent works deletes no run and moves none to another contact.
abbrev pub KeepsRuns : Attempt → Type 0
KeepsRuns t =
    (w : World) (i : ℕ) (r : ExecutionRun)
    → get ExecutionRun.id i w.runs ≡ some r
    → (s : ExecutionRun) × (get ExecutionRun.id i (t.during w).runs ≡ some s)
      × (s.contact_id ≡ r.contact_id)

-- what the others have left when the agent has ended, and how the run is closed then
abbrev pub ClosedBy :
    Texts
    → Attempt
    → (execution_run_id contact_id : ℕ) → String
    → List String
    → World
    → World
    → Type 0
ClosedBy x t i contact_id goal scope w after =
    (let before =
        t.during (record w { runs = (claim_execution_run i contact_id t.claim_now w.runs).0 }) in
      (r : ExecutionRun) × (get ExecutionRun.id i before.runs ≡ some r)
      × Closed t.close i r (close_status x i contact_id goal scope t.actions t.agent_end) before
          after)

claimed-ClosedBy :
    (x : Texts) (t : Attempt) (i contact_id : ℕ) (goal : String) (scope : List String)
    (p : List ExecutionRun × Option ExecutionRun) (w : World) {r row : ExecutionRun}
    → p.1 ≡ some row
    → get ExecutionRun.id i (t.during (record w { runs = p.0 })).runs ≡ some r
    → r.contact_id ≡ contact_id
    → Closed t.close i r
        (close_status x i contact_id goal scope t.actions t.agent_end)
        (t.during (record w { runs = p.0 }))
        (claimed_execution x t i contact_id goal scope p w)
claimed-ClosedBy x t i contact_id goal scope (runs, none) w taken found own = absurd (ground arith)
claimed-ClosedBy x t i contact_id goal scope (runs, some row) w {r} taken found own =
    close-Closed x t.close i contact_id goal scope t.actions t.agent_end
      (t.during (record w { runs = runs })) r found own

-- An execution of a run that is pending and not asked to stop closes it, if what others commit while
-- the agent works deletes no run and moves none to another contact. If the run is still active when
-- the agent has ended, it has then the status for how the agent ended (succeeded only if the agent
-- says so and, where the goal asks for an e-mail and the toolkit is there, this run has staged one;
-- else failed, timed out or cancelled), one event of it is written, and the interaction is re-entered
-- once with that status if the contact is found. If another session ended it before, its row, the
-- events and the re-entries stay as they were left.
pub run_execution_outcome :
    (x : Texts) (t : Attempt) (i contact_id : ℕ) (goal : String) (scope : List String) (w : World)
    (r : ExecutionRun)
    → KeepsRuns t
    → get ExecutionRun.id i w.runs ≡ some r
    → r.contact_id ≡ contact_id
    → is_pending r.status ≡ true
    → r.cancel_requested ≡ false
    → ClosedBy x t i contact_id goal scope w (run_execution x t i contact_id goal scope w)
unfolding run_execution claim_execution_run update_by_id
run_execution_outcome x t i contact_id goal scope w r keeps found own waits unasked =
    let (s, at, same) = keeps _ i (started t.claim_now r) stored in
    (
      s,
      at,
      claimed-ClosedBy x t i contact_id goal scope
          (claim_execution_run i contact_id t.claim_now w.runs) w {row = started t.claim_now r}
          returned at (same ∙ own),
    )
  where
    test : (r.contact_id == contact_id && (is_pending r.status && not r.cancel_requested)) ≡ true
    test = ground (arith, own, waits, unasked)

    returned :
        (claim_execution_run i contact_id t.claim_now w.runs).1 ≡ some (started t.claim_now r)
    returned = rw found (rw test refl)

    stored :
        get ExecutionRun.id i (claim_execution_run i contact_id t.claim_now w.runs).0
        ≡ some (started t.claim_now r)
    stored =
        rw
          (
            get-update_by_id_self ExecutionRun.id i
                (λ r. r.contact_id == contact_id && (is_pending r.status && not r.cancel_requested))
                (started t.claim_now) (λ x. refl) w.runs,
            found,
          )
          (rw test refl)
