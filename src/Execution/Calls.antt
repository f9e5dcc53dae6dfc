-- ===== src/Execution/Calls.antt =====
-- Sequences of calls of the service.
use whats_app_poke.Prelude.{
  ℕ, ◌≤◌, String, ◌≡◌, true, false, subst, Option, none, some, List, [], ◌∷◌, arith,
}
use whats_app_poke.Table.{get}
use whats_app_poke.Runs.{ExecutionRun, is_active, is_terminal}
use whats_app_poke.Execution.{World, Texts, Close}
use whats_app_poke.Execution.Run.{Attempt, run_execution}
use whats_app_poke.Execution.Dispatch.{
  dispatch_execution, run_scheduled_execution, cancel_execution, abandon_expired_executions,
}
use whats_app_poke.Execution.Ledger.{
  events_of, is_abandoned, Entry, absent, live, told, dropped, Leads, Shows, Tracks, Refines,
  Refines-trans, Leads-told,
}
use whats_app_poke.Execution.Told.{
  AreSteps, IsFair, run_execution-Refines, dispatch_execution-Refines, cancel_execution-Refines,
  run_scheduled_execution-Refines, abandon_expired_executions-Refines,
}

-- A call of the service.
pub data Call : Type 0 where
  dispatch : (connected : List String) → (new_id now contact_id : ℕ) → String → List String → Call
  execute : Attempt → (execution_run_id contact_id : ℕ) → String → List String → Call
  schedule :
      Attempt
      → (connected : List String) → (new_id now contact_id : ℕ) → String
      → List String
      → String
      → Call
  cancel : Close → (World → World) → (execution_run_id contact_id now : ℕ) → Call
  abandon : (timeout_seconds now : ℕ) → Call

module _ (x : Texts) where
  unfoldable pub call : Call → World → World
  call (Call.dispatch connected new_id now contact_id goal toolkits) w =
      (dispatch_execution x connected new_id now contact_id goal toolkits w).0
  call (Call.execute t i contact_id goal scope) w = run_execution x t i contact_id goal scope w
  call (Call.schedule t connected new_id now contact_id goal scope key) w =
      (run_scheduled_execution x t connected new_id now contact_id goal scope key w).0
  call (Call.cancel c between i contact_id now) w =
      (cancel_execution x c between i contact_id now w).0
  call (Call.abandon timeout_seconds now) w = (abandon_expired_executions timeout_seconds now w).0

  unfoldable pub calls : List Call → World → World
  calls [] w = w
  calls (c ∷ cs) w = calls cs (call c w)

  -- New ids are new when they are drawn, and what others commit in the course of a call are steps of the
  -- ledger.
  abbrev pub IsValid : Call → World → Type 0
  IsValid (Call.dispatch connected new_id now contact_id goal toolkits) w =
      get ExecutionRun.id new_id w.runs ≡ none
  IsValid (Call.schedule t connected new_id now contact_id goal scope key) w =
      (get ExecutionRun.id new_id (t.before_write w).runs ≡ none) × IsFair t
  IsValid (Call.execute t i contact_id goal scope) w = IsFair t
  IsValid (Call.cancel c between i contact_id now) w = AreSteps between
  IsValid (Call.abandon timeout_seconds now) w = Unit

  abbrev pub AllValid : List Call → World → Type 0
  AllValid [] w = Unit
  AllValid (c ∷ cs) w = IsValid c w × AllValid cs (call c w)

  call-Refines : (c : Call) (w : World) → IsValid c w → Refines w (call c w)
  unfolding call
  call-Refines (Call.dispatch connected new_id now contact_id goal toolkits) w v =
      dispatch_execution-Refines x connected new_id now contact_id goal toolkits w v
  call-Refines (Call.execute t i contact_id goal scope) w v =
      run_execution-Refines x t i contact_id goal scope w v
  call-Refines (Call.schedule t connected new_id now contact_id goal scope key) w v =
      run_scheduled_execution-Refines x t connected new_id now contact_id goal scope key w v.1 v.0
  call-Refines (Call.cancel c between i contact_id now) w v =
      cancel_execution-Refines x c between i contact_id now w v
  call-Refines (Call.abandon timeout_seconds now) w v =
      abandon_expired_executions-Refines timeout_seconds now w

  -- The service implements the ledger: every sequence of its calls, with new ids that are new and
  -- with whatever others commit that are themselves steps of the ledger, takes every run from an
  -- entry to one that the ledger allows. An entry counts the events, none, or one if it is told.
  pub calls-Refines : (cs : List Call) (w : World) → AllValid cs w → Refines w (calls cs w)
  unfolding calls
  calls-Refines [] w v = λ i e h. (e, Leads.same, h)
  calls-Refines (c ∷ cs) w v =
      Refines-trans w (call c w) (calls cs (call c w)) (call-Refines c w v.0)
        (calls-Refines cs (call c w) v.1)

  Shows-le : (e : Entry) (o : Option ExecutionRun) (n : ℕ) → Shows e o n → n ≤ 1
  Shows-le absent none n h = omega (arith, h)
  Shows-le absent (some r) n h = absurd h
  Shows-le live none n h = absurd h
  Shows-le live (some r) n h = omega (arith, h.1)
  Shows-le told none n h = absurd h
  Shows-le told (some r) n h = omega (arith, h.1)
  Shows-le dropped none n h = absurd h
  Shows-le dropped (some r) n h = omega (arith, h.1)

  Shows-told : (o : Option ExecutionRun) (n : ℕ) → Shows told o n → n ≡ 1
  Shows-told none n h = absurd h
  Shows-told (some r) n h = h.1

  Shows-terminal :
      (e : Entry) (o : Option ExecutionRun) (n : ℕ) {r : ExecutionRun}
      → Shows e o n
      → o ≡ some r
      → is_terminal r.status ≡ true
      → is_abandoned r.status ≡ false
      → n ≡ 1
  Shows-terminal absent none n h found last not_given_up = cc
  Shows-terminal absent (some s) n h found last not_given_up = absurd h
  Shows-terminal live none n h found last not_given_up = absurd h
  Shows-terminal live (some s) n h found last not_given_up =
      let clash : is_active s.status ≡ false = ground arith in absurd (ground (arith, clash, h.0))
  Shows-terminal told none n h found last not_given_up = absurd h
  Shows-terminal told (some s) n h found last not_given_up = h.1
  Shows-terminal dropped none n h found last not_given_up = absurd h
  Shows-terminal dropped (some s) n h found last not_given_up = absurd (ground (arith, h.0))

  -- A run has at most one event: from a world that shows an entry of the ledger for it, no sequence
  -- of calls leaves it with more, one that has been told of keeps its one event, and one whose row
  -- has then ended, other than by being abandoned, has exactly one.
  pub told_once :
      (cs : List Call) (w : World) (i : ℕ) (e : Entry)
      → AllValid cs w
      → Tracks i w e
      → (events_of i (calls cs w) ≤ 1)
        × (e ≡ told → events_of i (calls cs w) ≡ 1)
        × ((r : ExecutionRun)
            → get ExecutionRun.id i (calls cs w).runs ≡ some r
            → is_terminal r.status ≡ true
            → is_abandoned r.status ≡ false
            → events_of i (calls cs w) ≡ 1)
  told_once cs w i e v h =
      let (f, leads, shows) = calls-Refines cs w v i e h in
      (
        Shows-le f (get ExecutionRun.id i (calls cs w).runs) _ shows,
        λ q.
            Shows-told (get ExecutionRun.id i (calls cs w).runs) _
              (subst (λ x. Tracks i (calls cs w) x) (Leads-told leads q) shows),
        λ r found last not_given_up.
            Shows-terminal f (get ExecutionRun.id i (calls cs w).runs) _ shows found last
              not_given_up,
      )
