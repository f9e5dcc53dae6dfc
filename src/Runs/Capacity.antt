-- ===== src/Runs/Capacity.antt =====
-- A contact has at most two active runs, and at most one for each dedupe key.
use native.Mathlib.Nat.{le_trans}
use whats_app_poke.Prelude.{
  ℕ, ◌≤◌, String, ◌≡◌, refl, inl, inr, Bool, true, Option, List, [], ◌∷◌, arith, ◌++◌, Bool-cases,
  Option-cases, leb, eq_iff,
}
use whats_app_poke.Payload.{Payload}
use whats_app_poke.Table.{
  count, greatest, update_by_id, count-append, count-update_where-le, count-update_by_id-le,
  count-greatest-none,
}
use whats_app_poke.Runs.{
  ExecutionRun, ExecutionRunStatus, is_active, is_terminal, is_active_of, is_active_key, new_run,
  count_active_execution_runs, create_or_get_execution_run, reclaim_execution_run_for_retry,
  reclaimed, claim_execution_run, started, finish_execution_run, finished,
  request_execution_cancellation, cancel_asked, abandon_stale_execution_runs, is_expired, gave_up,
}
use whats_app_poke.Runs.Rows.{
  Op, apply, written, both-left, both-right, started-active, pending-active, cancellable-active,
}
use whats_app_poke.Runs.Lifecycle.{run}

pub record IsBounded (runs : List ExecutionRun) : Type 0 where
  pub capacity : (c : ℕ) → count (is_active_of c) runs ≤ 2
  pub unique : (c : ℕ) (k : String) → count (is_active_key c k) runs ≤ 1

module _ (j : ℕ) (c : ExecutionRun → Bool) (f : ExecutionRun → ExecutionRun) where
  -- An update of active rows that leaves the contact and the key.
  by_id-IsBounded :
      (active : (r : ExecutionRun) → c r ≡ true → is_active r.status ≡ true)
      (contact : (r : ExecutionRun) → (f r).contact_id ≡ r.contact_id)
      (key : (r : ExecutionRun) → (f r).dedupe_key ≡ r.dedupe_key) (runs : List ExecutionRun)
      → IsBounded runs
      → IsBounded (update_by_id ExecutionRun.id j c f runs).0
  by_id-IsBounded active contact key runs b = record {
    capacity = λ d.
        le_trans
          (count-update_by_id-le (is_active_of d) ExecutionRun.id j c f
            (λ r met q. of_key d r met q) runs)
          (b.capacity d);
    unique = λ d k.
        le_trans
          (count-update_by_id-le (is_active_key d k) ExecutionRun.id j c f
            (λ r met q. of_pair d k r met q) runs)
          (b.unique d k);
  }
    where
      of_key :
          (d : ℕ) (r : ExecutionRun)
          → c r ≡ true
          → is_active_of d (f r) ≡ true
          → is_active_of d r ≡ true
      of_key d r met q = ground (arith, active r met, contact r)

      of_pair :
          (d : ℕ) (k : String) (r : ExecutionRun)
          → c r ≡ true
          → is_active_key d k (f r) ≡ true
          → is_active_key d k r ≡ true
      of_pair d k r met q = ground (arith, active r met, contact r, key r)

-- A new run with a key of which its contact has no active run, at a contact with room.
append-IsBounded :
    (new : ExecutionRun) (runs : List ExecutionRun)
    → IsBounded runs
    → count (is_active_of new.contact_id) runs ≤ 1
    → count (is_active_key new.contact_id new.dedupe_key) runs ≡ 0
    → IsBounded (runs ++ new ∷ [])
append-IsBounded new runs b room fresh = record {
  capacity = λ d.
      rw (count-append (is_active_of d) runs new) (elim (Bool-cases (is_active_of d new)) [
        | inl e ↦ rw (e, ← (own_contact d e)) (omega arith)
        | inr e ↦ rw e (omega (arith, b.capacity d))
      ]);
  unique = λ d k.
      rw (count-append (is_active_key d k) runs new) (elim (Bool-cases (is_active_key d k new)) [
        | inl e ↦ rw (e, ← (own_contact_key d k e).0, ← (own_contact_key d k e).1) (omega arith)
        | inr e ↦ rw e (omega (arith, b.unique d k))
      ]);
}
  where
    own_contact : (d : ℕ) → is_active_of d new ≡ true → new.contact_id ≡ d
    own_contact d e = ground arith

    own_contact_key :
        (d : ℕ) (k : String)
        → is_active_key d k new ≡ true
        → (new.contact_id ≡ d) × (new.dedupe_key ≡ k)
    own_contact_key d k e = ground (arith, eq_iff new.dedupe_key k)

create-IsBounded :
    (new_id now contact_id : ℕ) (goal : String) (scope : List String) (key : String)
    (runs : List ExecutionRun)
    → IsBounded runs
    → IsBounded (create_or_get_execution_run new_id now contact_id goal scope key 2 runs).0
unfolding create_or_get_execution_run
create-IsBounded new_id now contact_id goal scope key runs b =
    elim (Option-cases (greatest ExecutionRun.created_at (is_active_key contact_id key) runs)) [
      | inr (old, e) ↦ rw e b
      | inl no_old ↦
          rw no_old (elim (Bool-cases (leb 2 (count_active_execution_runs contact_id runs))) [
            | inl full ↦ rw full b
            | inr room ↦ rw room (
                append-IsBounded (new_run new_id now contact_id goal scope key) runs b
                  (ground arith)
                  (count-greatest-none (is_active_key contact_id key) ExecutionRun.created_at runs
                    no_old))
          ])
    ]

by_where-IsBounded :
    (older_than now : ℕ) (runs : List ExecutionRun)
    → IsBounded runs
    → IsBounded (abandon_stale_execution_runs older_than now runs).0
unfolding abandon_stale_execution_runs
by_where-IsBounded older_than now runs b = record {
  capacity = λ d.
      le_trans
        (count-update_where-le (is_active_of d) (is_expired older_than now) (gave_up now)
          (λ r met q. ground arith) runs)
        (b.capacity d);
  unique = λ d k.
      le_trans
        (count-update_where-le (is_active_key d k) (is_expired older_than now) (gave_up now)
          (λ r met q. ground arith) runs)
        (b.unique d k);
}

finish-IsBounded :
    (i contact_id : ℕ) (status : ExecutionRunStatus) (result : Option Payload)
    (error : Option String) (now : ℕ) (runs : List ExecutionRun)
    → IsBounded runs
    → IsBounded (written runs (finish_execution_run i contact_id status result error now runs))
unfolding finish_execution_run
finish-IsBounded i contact_id status result error now runs b =
    elim (Bool-cases (is_terminal status)) [
      | inr other ↦ rw other b
      | inl last ↦ rw last (
          by_id-IsBounded i _ (finished status result error now) (λ r met. both-right _ _ met)
            (λ r. refl) (λ r. refl) runs b)
    ]

-- Every statement keeps the bounds.
pub apply-IsBounded :
    (op : Op) (runs : List ExecutionRun) → IsBounded runs → IsBounded (apply op runs)
unfolding apply reclaim_execution_run_for_retry claim_execution_run request_execution_cancellation
apply-IsBounded (Op.create new_id now contact_id goal scope key) runs b =
    create-IsBounded new_id now contact_id goal scope key runs b
apply-IsBounded (Op.reclaim i contact_id now) runs b =
    by_id-IsBounded i _ (reclaimed now) (λ r met. started-active r.status (both-right _ _ met))
      (λ r. refl) (λ r. refl) runs b
apply-IsBounded (Op.claim i contact_id now) runs b =
    by_id-IsBounded i _ (started now)
      (λ r met. pending-active r.status (both-left _ _ (both-right _ _ met))) (λ r. refl)
      (λ r. refl) runs b
apply-IsBounded (Op.cancel i contact_id now) runs b =
    by_id-IsBounded i _ (cancel_asked now)
      (λ r met. cancellable-active r.status (both-right _ _ met)) (λ r. refl) (λ r. refl) runs b
apply-IsBounded (Op.finish i contact_id status result error now) runs b =
    finish-IsBounded i contact_id status result error now runs b
apply-IsBounded (Op.abandon older_than now) runs b = by_where-IsBounded older_than now runs b

-- From a table within the bounds, whatever statements are issued in whatever order, no contact ever
-- has more than two active runs, nor two active runs with the same dedupe key.
pub run-IsBounded :
    (ops : List Op) (runs : List ExecutionRun) → IsBounded runs → IsBounded (run ops runs)
unfolding run
run-IsBounded [] runs b = b
run-IsBounded (op ∷ ops) runs b = run-IsBounded ops (apply op runs) (apply-IsBounded op runs b)
