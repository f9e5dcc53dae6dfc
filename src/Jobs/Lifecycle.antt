-- ===== src/Jobs/Lifecycle.antt =====
-- What holds of the queue through every sequence of statements.
use whats_app_poke.Prelude.{
  ℕ, ◌+◌, ◌≡◌, refl, inl, inr, Bool, true, false, Option, none, some, List, [], ◌∷◌, arith, leb,
  is_some, Bool-cases,
}
use whats_app_poke.Table.{
  get, All, Unique, All-append, All-update_where, All-update_by_id, Unique-append,
  Unique-update_where, Unique-update_by_id, update_by_id,
}
use whats_app_poke.Jobs.{
  Job, JobStatus, done, dead, is_running, is_pending, moved, insert_job, claim_job, claimed,
  complete_job, completed, mark_failed, dead_letter, dead_lettered, recover_stale_jobs, recovered,
  is_stale, claim_candidate, fail_fresh,
}
use whats_app_poke.Jobs.Rows.{Op, apply, Move, apply-Move}

-- A row is locked exactly while it runs.
abbrev pub RowIsValid : Job → Type 0
RowIsValid r = is_some r.locked_at ≡ is_running r.status

pub record IsValid (jobs : List Job) : Type 0 where
  pub keys : Unique Job.id jobs
  pub rows : All RowIsValid jobs

-- The database draws a new id.
abbrev pub IsFresh : Op → List Job → Type 0
IsFresh (Op.enqueue new_id _ _ _ _ _) jobs = get Job.id new_id jobs ≡ none
IsFresh _ jobs = Unit

-- the updates by primary key, and the one that sweeps
by_id-IsValid :
    (i : ℕ) (c : Job → Bool) (f : Job → Job) (keeps : (x : Job) → (f x).id ≡ x.id)
    (good : (x : Job) → RowIsValid (f x)) (jobs : List Job)
    → IsValid jobs
    → IsValid (update_by_id Job.id i c f jobs).0
by_id-IsValid i c f keeps good jobs v = record {
  keys = Unique-update_by_id Job.id i c f keeps jobs v.keys;
  rows = All-update_by_id RowIsValid Job.id i c f (λ x _ _. good x) jobs v.rows;
}

claim-IsValid :
    (now : ℕ) (o : Option Job) (jobs : List Job)
    → IsValid jobs
    → IsValid (claim_candidate now o jobs).0
unfolding claim_candidate
claim-IsValid now none jobs v = v
claim-IsValid now (some job) jobs v =
    by_id-IsValid job.id (λ _. true) (claimed now) (λ x. refl) (λ x. refl) jobs v

fail-IsValid :
    (now : ℕ) (o : Option Job) (jobs : List Job) → IsValid jobs → IsValid (fail_fresh now o jobs)
unfolding fail_fresh
fail-IsValid now none jobs v = v
fail-IsValid now (some job) jobs v = elim (Bool-cases (is_running job.status)) [
  | inr other ↦ rw other v
  | inl run ↦ rw run (elim (Bool-cases (leb job.max_attempts (job.attempts + 1))) [
    | inl last ↦
        rw last
          (by_id-IsValid job.id _ (dead_lettered (job.attempts + 1)) (λ x. refl) (λ x. refl) jobs v)
    | inr more ↦ rw more (by_id-IsValid job.id _ _ (λ x. refl) (λ x. refl) jobs v)
  ])
]

-- Every statement keeps the queue valid, where an inserted row has a new id.
pub apply-IsValid :
    (op : Op) (jobs : List Job) → IsFresh op jobs → IsValid jobs → IsValid (apply op jobs)
unfolding apply insert_job claim_job complete_job mark_failed dead_letter recover_stale_jobs
apply-IsValid (Op.enqueue new_id now contact_id kind payload run_at) jobs fresh v = record {
  keys = Unique-append Job.id jobs _ v.keys fresh;
  rows = All-append RowIsValid jobs _ v.rows refl;
}
apply-IsValid (Op.claim locked now) jobs fresh v = claim-IsValid now _ jobs v
apply-IsValid (Op.complete i) jobs fresh v =
    by_id-IsValid i _ completed (λ x. refl) (λ x. refl) jobs v
apply-IsValid (Op.fail now job) jobs fresh v = fail-IsValid now (get Job.id job.id jobs) jobs v
apply-IsValid (Op.kill job) jobs fresh v =
    by_id-IsValid job.id _ (dead_lettered (job.attempts + 1)) (λ x. refl) (λ x. refl) jobs v
apply-IsValid (Op.move i run_at payload) jobs fresh v = record {
  keys =
      Unique-update_by_id Job.id i (λ r. is_pending r.status) (moved run_at payload) (λ x. refl)
        jobs v.keys;
  rows =
      All-update_by_id RowIsValid Job.id i (λ r. is_pending r.status) (moved run_at payload)
        (λ x h _. h) jobs v.rows;
}
apply-IsValid (Op.recover older now) jobs fresh v = record {
  keys = Unique-update_where Job.id (is_stale older now) recovered (λ x. refl) jobs v.keys;
  rows = All-update_where RowIsValid (is_stale older now) recovered (λ x _ _. refl) jobs v.rows;
}

pub claim_job-IsValid :
    (locked : ℕ → Bool) (now : ℕ) (jobs : List Job)
    → IsValid jobs
    → IsValid (claim_job locked now jobs).0
unfolding claim_job
claim_job-IsValid locked now jobs v = claim-IsValid now _ jobs v

-- A sequence of statements.
unfoldable pub run : List Op → List Job → List Job
run [] jobs = jobs
run (op ∷ ops) jobs = run ops (apply op jobs)

abbrev pub AllFresh : List Op → List Job → Type 0
AllFresh [] jobs = Unit
AllFresh (op ∷ ops) jobs = IsFresh op jobs × AllFresh ops (apply op jobs)

-- From a valid table, every sequence of statements that draws new ids leaves a valid one: no two jobs
-- share an id, and a job is locked exactly while it runs.
pub run-IsValid :
    (ops : List Op) (jobs : List Job) → AllFresh ops jobs → IsValid jobs → IsValid (run ops jobs)
unfolding run
run-IsValid [] jobs fresh v = v
run-IsValid (op ∷ ops) jobs fresh v =
    run-IsValid ops (apply op jobs) fresh.1 (apply-IsValid op jobs fresh.0 v)

abbrev pub is_finished : JobStatus → Bool
is_finished done = true
is_finished dead = true
is_finished _ = false

Move-finished : (op : Op) (r s : Job) → is_finished r.status ≡ true → Move op r s → s ≡ r
Move-finished op r s h (Move.same e) = e
Move-finished op r s h (Move.claim now p e) = absurd (ground arith)
Move-finished op r s h (Move.complete p e) = absurd (ground arith)
Move-finished op r s h (Move.retry q w p m e) = absurd (ground arith)
Move-finished op r s h (Move.bury n p e) = absurd (ground arith)
Move-finished op r s h (Move.recover q p e) = absurd (ground arith)
Move-finished op r s h (Move.move w y p e) = absurd (ground arith)

-- A job that is done or dead stays as it is through every sequence of statements: it is never
-- claimed, retried or recovered again.
pub run-finished :
    (ops : List Op) (jobs : List Job) (i : ℕ) (r : Job)
    → AllFresh ops jobs
    → IsValid jobs
    → get Job.id i jobs ≡ some r
    → is_finished r.status ≡ true
    → get Job.id i (run ops jobs) ≡ some r
unfolding run
run-finished [] jobs i r fresh v found fin = found
run-finished (op ∷ ops) jobs i r fresh v found fin =
    let (s, found', how) = apply-Move i jobs r found v.keys op in
    run-finished ops (apply op jobs) i r fresh.1 (apply-IsValid op jobs fresh.0 v)
      (rw (← (Move-finished op r s fin how)) found') fin
