-- ===== src/Jobs/Claim.antt =====
-- Which job a worker gets, and that no two workers get the same one.
use whats_app_poke.Prelude.{
  ℕ, ◌≤◌, ◌≡◌, refl, subst, sym, ap, ◌∙◌, ◌≢◌, inl, inr, Bool, true, false, Option, none, some,
  List, [], ◌∷◌, arith, Option-cases,
}
use whats_app_poke.Table.{
  get, All, Unique, least, least-meets, least-none, least-le, get-least, get-update_by_id_self,
  update_by_id,
}
use whats_app_poke.Jobs.{Job, claim_job, is_candidate, claimed, is_pending}
use whats_app_poke.Jobs.Rows.{Op, apply, is_quiet, Move, apply-Move}
use whats_app_poke.Jobs.Lifecycle.{
  IsValid, AllFresh, run, run-IsValid, apply-IsValid, claim_job-IsValid,
}

-- What a claim that returned `s` has done.
pub record Claims (locked : ℕ → Bool) (now : ℕ) (jobs : List Job) (s : Job) : Type 0 where
  pub job : Job
  pub stored : get Job.id job.id jobs ≡ some job
  pub candidate : is_candidate locked now job ≡ true
  pub returned : s ≡ claimed now job
  pub earliest : All (λ r. is_candidate locked now r ≡ true → job.run_at ≤ r.run_at) jobs
  pub written : get Job.id s.id (claim_job locked now jobs).0 ≡ some s

-- The outcome of a claim: a candidate with the earliest `run_at`, which is now running and locked,
-- or nothing, if there is no candidate.
abbrev pub ClaimOutcome : (ℕ → Bool) → ℕ → List Job → Option Job → Type 0
ClaimOutcome locked now jobs none = All (λ r. is_candidate locked now r ≡ false) jobs
ClaimOutcome locked now jobs (some s) = Claims locked now jobs s

module _ (locked : ℕ → Bool) (now : ℕ) (jobs : List Job) where
  claim-none :
      least Job.run_at (is_candidate locked now) jobs ≡ none → (claim_job locked now jobs).1 ≡ none
  unfolding claim_job
  claim-none e = rw e

  module _ (job : Job) (found : least Job.run_at (is_candidate locked now) jobs ≡ some job)
      (u : Unique Job.id jobs) where
    stored_row : get Job.id job.id jobs ≡ some job
    stored_row = get-least Job.run_at (is_candidate locked now) Job.id jobs u found

    claim-some : (claim_job locked now jobs).1 ≡ some (claimed now job)
    unfolding claim_job update_by_id
    claim-some = rw (found, stored_row)

    written_row : get Job.id job.id (claim_job locked now jobs).0 ≡ some (claimed now job)
    unfolding claim_job
    written_row = rw found (
        rw (
          get-update_by_id_self Job.id job.id (λ _. true) (claimed now) (λ x. refl) jobs,
          stored_row,
        ))

  -- A claim on a table with unique ids returns a pending, due and unlocked job with the earliest
  -- `run_at` of all such jobs, marked as running and locked in the table, or there is none.
  pub claim_job_outcome :
      Unique Job.id jobs → ClaimOutcome locked now jobs (claim_job locked now jobs).1
  claim_job_outcome u = elim (Option-cases (least Job.run_at (is_candidate locked now) jobs)) [
    | inl idle ↦ rw (claim-none idle) (least-none Job.run_at (is_candidate locked now) jobs idle)
    | inr (job, e) ↦ rw (claim-some job e u) (record {
      job = job;
      stored = stored_row job e u;
      candidate = least-meets Job.run_at (is_candidate locked now) jobs e;
      returned = refl;
      earliest = least-le Job.run_at (is_candidate locked now) jobs e;
      written = written_row job e u;
    })
  ]

  -- the same, for a claim that is known to have succeeded
  pub claim_job-some :
      Unique Job.id jobs
      → {s : Job} → (claim_job locked now jobs).1 ≡ some s
      → Claims locked now jobs s
  claim_job-some u {s} e = subst (ClaimOutcome locked now jobs) e (claim_job_outcome u)

abbrev pub AllQuiet : List Op → Type 0
AllQuiet [] = Unit
AllQuiet (op ∷ ops) = (is_quiet op ≡ true) × AllQuiet ops

abbrev NotPending : ℕ → List Job → Type 0
NotPending i jobs = (s : Job) × (get Job.id i jobs ≡ some s) × (is_pending s.status ≡ false)

Move-NotPending :
    (op : Op) (r s : Job)
    → is_quiet op ≡ true
    → is_pending r.status ≡ false
    → Move op r s
    → is_pending s.status ≡ false
Move-NotPending op r s q np (Move.same e) = rw e np
Move-NotPending op r s q np (Move.claim now p e) = rw e refl
Move-NotPending op r s q np (Move.complete p e) = rw e refl
Move-NotPending op r s q np (Move.retry noisy w p m e) = cc
Move-NotPending op r s q np (Move.bury n p e) = rw e refl
Move-NotPending op r s q np (Move.recover noisy p e) = cc
Move-NotPending op r s q np (Move.move w y p e) = absurd (ground arith)

-- a row that is not pending stays so
quiet-NotPending :
    (op : Op) (jobs : List Job) (i : ℕ)
    → is_quiet op ≡ true
    → Unique Job.id jobs
    → NotPending i jobs
    → NotPending i (apply op jobs)
quiet-NotPending op jobs i q u (r, found, np) =
    let (s, found', how) = apply-Move i jobs r found u op in
    (s, found', Move-NotPending op r s q np how)

run-NotPending :
    (ops : List Op) (jobs : List Job) (i : ℕ)
    → AllQuiet ops
    → AllFresh ops jobs
    → IsValid jobs
    → NotPending i jobs
    → NotPending i (run ops jobs)
unfolding run
run-NotPending [] jobs i q fresh v np = np
run-NotPending (op ∷ ops) jobs i q fresh v np =
    run-NotPending ops (apply op jobs) i q.1 fresh.1 (apply-IsValid op jobs fresh.0 v)
      (quiet-NotPending op jobs i q.0 v.keys np)

pending_candidate :
    (locked : ℕ → Bool) (now : ℕ) (job : Job)
    → is_candidate locked now job ≡ true
    → is_pending job.status ≡ true
unfolding is_candidate
pending_candidate locked now job e = ground arith

-- a row that is not pending is not claimed
NotPending-unclaimed :
    (jobs : List Job) (locked : ℕ → Bool) (now i : ℕ) {t : Job}
    → Unique Job.id jobs
    → NotPending i jobs
    → (claim_job locked now jobs).1 ≡ some t
    → t.id ≢ i
NotPending-unclaimed jobs locked now i {t} u (r, found, np) e same =
    let c = claim_job-some locked now jobs u e in
    let at : c.job.id ≡ i = sym (ap Job.id c.returned) ∙ same in
    let r_is : some c.job ≡ some r = sym c.stored ∙ ap (λ k. get Job.id k jobs) at ∙ found in
    ground (arith, pending_candidate locked now c.job c.candidate, np, r_is)

-- Mutual exclusion of workers: once a claim has returned a job, no later claim returns that job
-- again, whatever statements other than a failure or a recovery of stale jobs are issued between
-- the two, the claims of other workers included.
pub claim_exclusive :
    (jobs : List Job) (locked locked' : ℕ → Bool) (now now' : ℕ) (ops : List Op) {s t : Job}
    → IsValid jobs
    → AllQuiet ops
    → AllFresh ops (claim_job locked now jobs).0
    → (claim_job locked now jobs).1 ≡ some s
    → (claim_job locked' now' (run ops (claim_job locked now jobs).0)).1 ≡ some t
    → t.id ≢ s.id
claim_exclusive jobs locked locked' now now' ops {s} {t} v quiet fresh e e' =
    let after = (claim_job locked now jobs).0 in
    let v' = claim_job-IsValid locked now jobs v in
    let c = claim_job-some locked now jobs v.keys e in
    NotPending-unclaimed (run ops after) locked' now' s.id (run-IsValid ops after fresh v').keys
      (run-NotPending ops after s.id quiet fresh v'
        (s, c.written, rw (ap Job.status c.returned) refl))
      e'
