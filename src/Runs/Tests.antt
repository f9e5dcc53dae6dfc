-- ===== src/Runs/Tests.antt =====
-- Runs on concrete rows, and the theorems at inputs that meet their hypotheses.
use mathlib.Core.Option
use whats_app_poke.Prelude.{ℕ, String, ◌≡◌, refl, Option, none, some, List, [], ◌∷◌, map, arith}
use whats_app_poke.Table.{get, count, greatest, update_by_id}
use whats_app_poke.Runs.{
  ExecutionRun, ExecutionRunStatus, running, succeeded, failed, new_run, finished, sorted_set,
  create_or_get_execution_run, claim_execution_run, finish_execution_run,
}
use whats_app_poke.Runs.Rows.{Op, apply, Move, apply-Move}
use whats_app_poke.Runs.Lifecycle.{run, run-terminal, finish_once}
use whats_app_poke.Runs.Capacity.{IsBounded, run-IsBounded}

abbrev run_of : ℕ → String → ExecutionRunStatus → ExecutionRun
run_of id key status = record (new_run id 10 7 "goal" [] key) {
  toolkit_scope = "local" ∷ [];
  status = status;
}

scope_sorted : sorted_set ("local" ∷ "gmail" ∷ "local" ∷ []) ≡ "gmail" ∷ "local" ∷ []
unfolding sorted_set
scope_sorted = refl

empty-IsBounded : IsBounded []
unfolding count
empty-IsBounded = record { capacity = λ c. omega arith; unique = λ c k. omega arith }

abbrev script : List Op
script =
    Op.create 1 10 7 "a" [] "k1"
    ∷ Op.create 2 11 7 "b" [] "k1"
    ∷ Op.create 3 12 7 "c" [] "k2"
    ∷ Op.create 4 13 7 "d" [] "k3"
    ∷ Op.claim 1 7 14
    ∷ Op.finish 1 7 succeeded none none 15
    ∷ []

-- the second run is deduplicated, the fourth finds no room
script_rows : map ExecutionRun.id (run script []) ≡ 1 ∷ 3 ∷ []
unfolding run apply create_or_get_execution_run claim_execution_run finish_execution_run greatest
    count update_by_id
script_rows = refl

run-IsBounded_example : IsBounded (run script [])
run-IsBounded_example = run-IsBounded script [] empty-IsBounded

abbrev ended : ExecutionRun
ended = run_of 1 "k1" failed

run-terminal_example :
    get ExecutionRun.id 1 (run (Op.cancel 1 7 20 ∷ Op.reclaim 1 7 21 ∷ []) (ended ∷ []))
    ≡ some ended
unfolding get
run-terminal_example =
    run-terminal (Op.cancel 1 7 20 ∷ Op.reclaim 1 7 21 ∷ []) (ended ∷ []) 1 ended refl refl

abbrev live : ExecutionRun
live = run_of 1 "k1" running

abbrev won : ExecutionRun
won = finished succeeded none none 30 live

finish_once_example :
    (get ExecutionRun.id 1 (run (Op.cancel 1 7 31 ∷ []) (won ∷ [])) ≡ some won)
    × (Option.map
          (λ (p : List ExecutionRun × Option ExecutionRun). p.1)
          (finish_execution_run 1 7 failed none none 32 (run (Op.cancel 1 7 31 ∷ []) (won ∷ [])))
        ≡ some none)
unfolding finish_execution_run update_by_id
finish_once_example =
    finish_once 1 7 7 succeeded failed none none none none 30 32 (live ∷ []) (won ∷ []) won
      (Op.cancel 1 7 31 ∷ []) refl refl

apply-Move_example :
    (s : ExecutionRun) × (get ExecutionRun.id 1 (apply (Op.reclaim 1 7 40) (live ∷ [])) ≡ some s)
    × Move live s
unfolding get
apply-Move_example = apply-Move 1 (live ∷ []) live refl (Op.reclaim 1 7 40)
