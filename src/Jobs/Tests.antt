-- ===== src/Jobs/Tests.antt =====
-- Runs of the queue on concrete rows, and the theorems at inputs that meet their hypotheses.
use whats_app_poke.Prelude.{ℕ, ◌≡◌, refl, ◌≢◌, Bool, false, none, some, List, [], ◌∷◌, arith}
use whats_app_poke.Table.{get, least, update_by_id}
use whats_app_poke.Jobs.{
  Job, JobStatus, reminder_due, pending, running, done, claim_job, complete_job, insert_job,
}
use whats_app_poke.Jobs.Rows.{Op, apply}
use whats_app_poke.Jobs.Lifecycle.{IsValid, run, run-finished, run-IsValid}
use whats_app_poke.Jobs.Claim.{ClaimOutcome, claim_job_outcome, claim_exclusive}

abbrev job_at : ℕ → ℕ → JobStatus → Job
job_at id run_at status = record {
  id = id;
  contact_id = 1;
  kind = reminder_due;
  payload = [];
  run_at = run_at;
  status = status;
  attempts = 0;
  max_attempts = 5;
  locked_at = none;
  created_at = 0;
}

abbrev later_job : Job
later_job = job_at 1 50 pending

abbrev sooner_job : Job
sooner_job = job_at 2 20 pending

abbrev done_job : Job
done_job = job_at 3 10 done

abbrev queue : List Job
queue = later_job ∷ sooner_job ∷ done_job ∷ []

abbrev free : ℕ → Bool
free _ = false

queue-IsValid : IsValid queue
unfolding get
queue-IsValid = ground arith

-- the job that is due first, not the one that stands first
claim_first :
    (claim_job free 60 queue).1 ≡ some (record sooner_job { status = running; locked_at = some 60 })
unfolding claim_job least update_by_id get
claim_first = refl

claim_job_outcome_example : ClaimOutcome free 60 queue (claim_job free 60 queue).1
claim_job_outcome_example = claim_job_outcome free 60 queue queue-IsValid.keys

abbrev between : List Op
between = Op.complete 2 ∷ Op.claim free 60 ∷ []

-- after the second job is done and the first is claimed, a new job is the next
claim_exclusive_example : ◌≢◌ {A = ℕ} 9 2
unfolding claim_job least update_by_id get run apply complete_job insert_job
claim_exclusive_example =
    claim_exclusive queue free free 60 70 (Op.enqueue 9 61 1 reminder_due [] 62 ∷ between)
      queue-IsValid (refl, (refl, (refl, tt))) (refl, (tt, (tt, tt))) refl refl

run-finished_example : get Job.id 3 (run between queue) ≡ some done_job
unfolding get
run-finished_example = run-finished between queue 3 done_job (tt, (tt, tt)) queue-IsValid refl refl

run-IsValid_example : IsValid (run between queue)
run-IsValid_example = run-IsValid between queue (tt, (tt, tt)) queue-IsValid
