-- ===== src/Runs/Lifecycle.antt =====
-- A run that has ended stays as it ended, and ends once.
use mathlib.Core.Option
use whats_app_poke.Prelude.{
  ℕ, String, ◌≡◌, refl, subst, ap, ◌∙◌, inl, inr, true, false, ◌&&◌, Option, none, some, List, [],
  ◌∷◌, arith, Bool-cases, some_injective, ◌==◌,
}
use whats_app_poke.Payload.{Payload}
use whats_app_poke.Table.{get, update_by_id, update_by_id-some, update_by_id-stored}
use whats_app_poke.Runs.{
  ExecutionRun, ExecutionRunStatus, is_active, is_terminal, finish_execution_run, finished,
  update_run,
}
use whats_app_poke.Runs.Rows.{Op, apply, Move, apply-Move, ◌⟶◌, start, retry, stop, end}

-- A sequence of statements.
unfoldable pub run : List Op → List ExecutionRun → List ExecutionRun
run [] runs = runs
run (op ∷ ops) runs = run ops (apply op runs)

pub terminal-inactive : (s : ExecutionRunStatus) → is_terminal s ≡ true → is_active s ≡ false
terminal-inactive s h = ground arith

⟶-active : {s t : ExecutionRunStatus} → s ⟶ t → is_terminal s ≡ true → ⊥
⟶-active (start p) h = ground arith
⟶-active (retry p) h = ground arith
⟶-active (stop p) h = ground arith
⟶-active (end p q) h = ground arith

Move-terminal : (r s : ExecutionRun) → is_terminal r.status ≡ true → Move r s → s ≡ r
Move-terminal r s h (Move.same e) = e
Move-terminal r s h (Move.move edge _ _ _ _) = absurd (⟶-active edge h)

-- A run in a terminal state stays exactly as it is through every sequence of statements.
pub run-terminal :
    (ops : List Op) (runs : List ExecutionRun) (i : ℕ) (r : ExecutionRun)
    → get ExecutionRun.id i runs ≡ some r
    → is_terminal r.status ≡ true
    → get ExecutionRun.id i (run ops runs) ≡ some r
unfolding run
run-terminal [] runs i r found h = found
run-terminal (op ∷ ops) runs i r found h =
    let (s, at, how) = apply-Move i runs r found op in
    run-terminal ops (apply op runs) i r
      (subst (λ x. get ExecutionRun.id i (apply op runs) ≡ some x) (Move-terminal r s h how) at) h

-- a finish at a row that is not active returns no row
finish-inactive :
    (i contact_id : ℕ) (status : ExecutionRunStatus) (result : Option Payload)
    (error : Option String) (now : ℕ) (runs : List ExecutionRun) {r : ExecutionRun}
    → is_terminal status ≡ true
    → get ExecutionRun.id i runs ≡ some r
    → is_active r.status ≡ false
    → Option.map
        (λ (p : List ExecutionRun × Option ExecutionRun). p.1)
        (finish_execution_run i contact_id status result error now runs)
      ≡ some none
unfolding finish_execution_run update_by_id
finish-inactive i contact_id status result error now runs {r} h found inactive =
    rw (h, found) (rw (inactive_cond r inactive) refl)
  where
    inactive_cond :
        (x : ExecutionRun)
        → is_active x.status ≡ false
        → (x.contact_id == contact_id && is_active x.status) ≡ false
    inactive_cond x e = ground arith

-- the row that a finish returns is stored, and is terminal
finish-stored :
    (i contact_id : ℕ) (status : ExecutionRunStatus) (result : Option Payload)
    (error : Option String) (now : ℕ) (runs runs' : List ExecutionRun) (s : ExecutionRun)
    → finish_execution_run i contact_id status result error now runs ≡ some (runs', some s)
    → (get ExecutionRun.id i runs' ≡ some s) × (is_terminal s.status ≡ true)
unfolding finish_execution_run
finish-stored i contact_id status result error now runs runs' s e =
    elim (Bool-cases (is_terminal status)) [
      | inr other ↦ absurd (ground arith)
      | inl last ↦ of_parts last (ap (λ p. p.0) (written last)) (ap (λ p. p.1) (written last))
    ]
  where
    u : List ExecutionRun × Option ExecutionRun
    u = update_run i contact_id (λ r. is_active r.status) (finished status result error now) runs

    written : is_terminal status ≡ true → u ≡ (runs', some s)
    written last = some_injective (rw last at e)

    of_parts :
        is_terminal status ≡ true
        → u.0 ≡ runs'
        → u.1 ≡ some s
        → (get ExecutionRun.id i runs' ≡ some s) × (is_terminal s.status ≡ true)
    of_parts last e0 e1 =
        let (r, found, met, eq) = update_by_id-some ExecutionRun.id i _ _ (λ x. refl) runs e1 in
        (
          subst (λ rs. get ExecutionRun.id i rs ≡ some s) e0
              (update_by_id-stored ExecutionRun.id i _ _ (λ x. refl) runs e1),
          ap (λ (x : ExecutionRun). is_terminal x.status) eq ∙ last,
        )

-- A run ends exactly once: after a finish that returned the row, no later finish returns one,
-- whatever its status and whatever statements come between, and the row keeps its first outcome.
pub finish_once :
    (i contact_id contact_id' : ℕ) (status status' : ExecutionRunStatus)
    (result result' : Option Payload) (error error' : Option String) (now now' : ℕ)
    (runs runs' : List ExecutionRun) (s : ExecutionRun) (ops : List Op)
    → finish_execution_run i contact_id status result error now runs ≡ some (runs', some s)
    → is_terminal status' ≡ true
    → (get ExecutionRun.id i (run ops runs') ≡ some s)
      × (Option.map
            (λ (p : List ExecutionRun × Option ExecutionRun). p.1)
            (finish_execution_run i contact_id' status' result' error' now' (run ops runs'))
          ≡ some none)
finish_once i contact_id contact_id' status status' result result' error error' now now' runs runs'
      s ops e h =
    let (stored, last) = finish-stored i contact_id status result error now runs runs' s e in
    let kept = run-terminal ops runs' i s stored last in
    (
      kept,
      finish-inactive i contact_id' status' result' error' now' (run ops runs') h kept
          (terminal-inactive s.status last),
    )
