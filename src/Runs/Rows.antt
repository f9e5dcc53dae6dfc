-- ===== src/Runs/Rows.antt =====
-- The statements on runs as one type, and how a statement may change one row.
use whats_app_poke.Prelude.{
  ℕ, String, ◌≡◌, refl, subst, sym, inl, inr, Bool, true, ◌&&◌, Option, none, some, List, arith,
  Bool-cases, leb,
}
use whats_app_poke.Payload.{Payload}
use whats_app_poke.Table.{
  get, get-append_old, update_by_id, step-update_by_id, step-update_where, greatest,
}
use whats_app_poke.Runs.{
  ExecutionRun, ExecutionRunStatus, pending, running, cancel_requested, is_active, is_terminal,
  is_pending, is_started, is_cancellable, is_active_key, create_unless, count_active_execution_runs,
  create_or_get_execution_run, reclaim_execution_run_for_retry, reclaimed, claim_execution_run,
  started, finish_execution_run, finished, request_execution_cancellation, cancel_asked,
  abandon_stale_execution_runs, is_expired, gave_up,
}

-- A statement on the table of runs.
pub data Op : Type 0 where
  create : (new_id now contact_id : ℕ) → String → List String → String → Op
  reclaim claim cancel : (execution_run_id contact_id now : ℕ) → Op
  finish :
      (execution_run_id contact_id : ℕ)
      → ExecutionRunStatus
      → Option Payload
      → Option String
      → (now : ℕ) → Op
  abandon : (older_than now : ℕ) → Op

-- a ValueError writes nothing
abbrev pub written :
    List ExecutionRun → Option (List ExecutionRun × Option ExecutionRun) → List ExecutionRun
written runs none = runs
written runs (some (runs', _)) = runs'

unfoldable pub apply : Op → List ExecutionRun → List ExecutionRun
apply (Op.create new_id now contact_id goal scope key) runs =
    (create_or_get_execution_run new_id now contact_id goal scope key 2 runs).0
apply (Op.reclaim i contact_id now) runs = (reclaim_execution_run_for_retry i contact_id now runs).0
apply (Op.claim i contact_id now) runs = (claim_execution_run i contact_id now runs).0
apply (Op.cancel i contact_id now) runs = (request_execution_cancellation i contact_id now runs).0
apply (Op.finish i contact_id status result error now) runs =
    written runs (finish_execution_run i contact_id status result error now runs)
apply (Op.abandon older_than now) runs = (abandon_stale_execution_runs older_than now runs).0

-- The state diagram of a run.
infix 40 ◌⟶◌
pub data ◌⟶◌ : ExecutionRunStatus → ExecutionRunStatus → Type 0 where
  start : {s : ExecutionRunStatus} → is_pending s ≡ true → s ⟶ running
  retry : {s : ExecutionRunStatus} → is_started s ≡ true → s ⟶ pending
  stop : {s : ExecutionRunStatus} → is_cancellable s ≡ true → s ⟶ cancel_requested
  end : {s t : ExecutionRunStatus} → is_active s ≡ true → is_terminal t ≡ true → s ⟶ t

-- A statement leaves a row as it is, or moves its status along the diagram and leaves the columns
-- that say what the run is.
pub data Move (r s : ExecutionRun) : Type 0 where
  same : s ≡ r → Move r s
  move :
      r.status ⟶ s.status
      → s.id ≡ r.id
      → s.contact_id ≡ r.contact_id
      → s.dedupe_key ≡ r.dedupe_key
      → s.goal ≡ r.goal
      → Move r s

pub both-left : (a b : Bool) → (a && b) ≡ true → a ≡ true
both-left a b e = ground arith

pub both-right : (a b : Bool) → (a && b) ≡ true → b ≡ true
both-right a b e = ground arith

pub started-active : (s : ExecutionRunStatus) → is_started s ≡ true → is_active s ≡ true
started-active s e = ground arith

pub pending-active : (s : ExecutionRunStatus) → is_pending s ≡ true → is_active s ≡ true
pending-active s e = ground arith

pub cancellable-active : (s : ExecutionRunStatus) → is_cancellable s ≡ true → is_active s ≡ true
cancellable-active s e = ground arith

abbrev Moved : ℕ → ExecutionRun → List ExecutionRun → Type 0
Moved i r after = (s : ExecutionRun) × (get ExecutionRun.id i after ≡ some s) × Move r s

module _ (i : ℕ) (runs : List ExecutionRun) (r : ExecutionRun)
    (found : get ExecutionRun.id i runs ≡ some r) where
  -- an update by primary key
  by_id-Moved :
      (j : ℕ) (c : ExecutionRun → Bool) (f : ExecutionRun → ExecutionRun)
      (keeps : (x : ExecutionRun) → (f x).id ≡ x.id) (moves : c r ≡ true → Move r (f r))
      → Moved i r (update_by_id ExecutionRun.id j c f runs).0
  by_id-Moved j c f keeps moves =
      let (s, at, how) = step-update_by_id ExecutionRun.id i runs found j c f keeps in
      elim how [
        | inl stays ↦ (s, at, Move.same stays)
        | inr (_, met, e) ↦ (s, at, subst (Move r) (sym e) (moves met))
      ]

  create-Moved :
      (n : ℕ) (new : ExecutionRun) (o : Option ExecutionRun)
      → Moved i r (create_unless n new o runs).0
  create-Moved n new (some existing) = (r, found, Move.same refl)
  create-Moved n new none =
      elim (Bool-cases (leb n (count_active_execution_runs new.contact_id runs))) [
        | inl full ↦ rw full (r, found, Move.same refl)
        | inr room ↦ rw room (r, get-append_old ExecutionRun.id i runs new found, Move.same refl)
      ]

  finish-Moved :
      (j contact_id : ℕ) (status : ExecutionRunStatus) (result : Option Payload)
      (error : Option String) (now : ℕ)
      → Moved i r (written runs (finish_execution_run j contact_id status result error now runs))
  unfolding finish_execution_run
  finish-Moved j contact_id status result error now = elim (Bool-cases (is_terminal status)) [
    | inl last ↦ rw last (
        by_id-Moved j _ (finished status result error now) (λ x. refl)
          (λ met. Move.move (end (both-right _ _ met) last) refl refl refl refl))
    | inr other ↦ rw other (r, found, Move.same refl)
  ]

  -- Every statement leaves each run as it is or moves it by one step of the state diagram, and
  -- deletes none.
  pub apply-Move :
      (op : Op) → (s : ExecutionRun) × (get ExecutionRun.id i (apply op runs) ≡ some s) × Move r s
  unfolding apply create_or_get_execution_run reclaim_execution_run_for_retry claim_execution_run
      request_execution_cancellation abandon_stale_execution_runs
  apply-Move (Op.create new_id now contact_id goal scope key) =
      create-Moved 2 _ (greatest ExecutionRun.created_at (is_active_key contact_id key) runs)
  apply-Move (Op.reclaim j contact_id now) =
      by_id-Moved j _ (reclaimed now) (λ x. refl)
        (λ met. Move.move (retry (both-right _ _ met)) refl refl refl refl)
  apply-Move (Op.claim j contact_id now) =
      by_id-Moved j _ (started now) (λ x. refl)
        (λ met. Move.move (start (both-left _ _ (both-right _ _ met))) refl refl refl refl)
  apply-Move (Op.cancel j contact_id now) =
      by_id-Moved j _ (cancel_asked now) (λ x. refl)
        (λ met. Move.move (stop (both-right _ _ met)) refl refl refl refl)
  apply-Move (Op.finish j contact_id status result error now) =
      finish-Moved j contact_id status result error now
  apply-Move (Op.abandon older_than now) =
      let (s, at, how) =
        step-update_where ExecutionRun.id i runs found (is_expired older_than now) (gave_up now)
          (λ x. refl) in
      elim how [
        | inl stays ↦ (s, at, Move.same stays)
        | inr (met, e) ↦ (
          s,
          at,
          subst (Move r) (sym e) (
              Move.move (end (started-active r.status (both-left _ _ met)) refl) refl refl refl
                refl),
        )
      ]
