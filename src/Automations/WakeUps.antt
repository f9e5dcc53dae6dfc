-- ===== src/Automations/WakeUps.antt =====
-- The pending wake-ups of an automation: there is at most one.
use native.Mathlib.Nat.{le_trans}
use whats_app_poke.Prelude.{
  ℕ, zero, suc, ◌≤◌, String, ◌≡◌, sym, ap, ◌∙◌, subst, inl, inr, Bool, true, ◌&&◌, Option, none,
  some, List, [], ◌∷◌, arith, Bool-cases, Option-cases, some_injective, str_eq, eq_iff, ◌==◌,
}
use whats_app_poke.Payload.{Payload, str, lookup, as_text, lookup-head}
use whats_app_poke.Table.{
  get, All, Unique, find, count, update_where, update_by_id, count-append, count-none, stored_rows,
  All-map, find-meets, All-find,
}
use whats_app_poke.Jobs.{Job, automation_due, is_pending, insert_job}
use whats_app_poke.Automations.{
  is_automation_due, occurrence_payload, text_equals, is_wake_up, get_pending_automation_due, moved,
  move_wake_up, move_existing, try_insert, upsert_automation_due,
}

-- the unique index of the pending wake-ups
abbrev pub WakeUpsUnique : List Job → Type 0
WakeUpsUnique jobs = (automation_id : String) → count (is_wake_up automation_id) jobs ≤ 1

abbrev pub automation_of : Job → Option String
automation_of r = as_text (lookup "automation_id" r.payload)

-- What other sessions do: they keep the ids and the wake-ups unique, and a row keeps its kind and
-- its automation.
pub record Benign (others : ℕ → List Job → List Job) : Type 0 where
  pub keys : (k : ℕ) (jobs : List Job) → Unique Job.id jobs → Unique Job.id (others k jobs)
  pub wake_ups : (k : ℕ) (jobs : List Job) → WakeUpsUnique jobs → WakeUpsUnique (others k jobs)
  pub rows :
      (k i : ℕ) (jobs : List Job) (r : Job)
      → get Job.id i jobs ≡ some r
      → (s : Job) × (get Job.id i (others k jobs) ≡ some s)
        × (s.kind ≡ r.kind)
        × (automation_of s ≡ automation_of r)

count-update_All :
    (p q : Job → Bool) (f : Job → Job) (jobs : List Job)
    → All (λ r. p r ≡ true → q (f r) ≡ true → q r ≡ true) jobs
    → count q (update_where p f jobs) ≤ count q jobs
unfolding count update_where
count-update_All p q f [] h = omega arith
count-update_All p q f (r ∷ jobs) h = ground (arith, h.0, count-update_All p q f jobs h.1)

-- the parts of the condition
wake_up_parts :
    (a : String) (r : Job)
    → is_wake_up a r ≡ true
    → (is_automation_due r.kind ≡ true) × (text_equals (automation_of r) a ≡ true)
unfolding is_wake_up
wake_up_parts a r e = (ground arith, ground arith)

pub wake_up_of :
    (a : String) (r : Job)
    → is_automation_due r.kind ≡ true
    → is_pending r.status ≡ true
    → text_equals (automation_of r) a ≡ true
    → is_wake_up a r ≡ true
unfolding is_wake_up
wake_up_of a r k p t = rw k (rw p t)

same_text : (a q : String) → str_eq a q ≡ true → a ≡ q
same_text a q e = (eq_iff a q).0 e

module _ (others : ℕ → List Job → List Job) (b : Benign others) (print_time : ℕ → String)
    (new_id now contact_id : ℕ) (a : String) (run_at : ℕ) where
  abbrev payload : Payload
  payload = occurrence_payload print_time a run_at

  moved_automation : (r : Job) → automation_of (moved run_at payload r) ≡ some a
  moved_automation r =
      ap as_text
        (lookup-head "automation_id" (str a) (("occurrence_at", str (print_time run_at)) ∷ []))

  moved_wakes :
      (q : String) (r : Job)
      → is_automation_due r.kind ≡ true
      → text_equals (automation_of r) a ≡ true
      → is_pending r.status ≡ true
      → is_wake_up q (moved run_at payload r) ≡ true
      → is_wake_up q r ≡ true
  moved_wakes q r k t p e =
      wake_up_of q r k p (subst (λ x. text_equals (automation_of r) x ≡ true) same t)
    where
      same : a ≡ q
      same = same_text a q (
          ap (λ o. text_equals o q) (sym (moved_automation r))
          ∙ (wake_up_parts q (moved run_at payload r) e).1)

  move-WakeUpsUnique :
      (i : ℕ) (s : Job) (jobs : List Job)
      → Unique Job.id jobs
      → get Job.id i jobs ≡ some s
      → is_automation_due s.kind ≡ true
      → text_equals (automation_of s) a ≡ true
      → WakeUpsUnique jobs
      → WakeUpsUnique (move_wake_up i run_at payload jobs)
  unfolding update_by_id
  move-WakeUpsUnique i s jobs u at k t w q =
      le_trans
        (count-update_All _ (is_wake_up q) (moved run_at payload) jobs
          (All-map jobs (stored_rows Job.id jobs u) stays))
        (w q)
    where
      the_row : (r : Job) → get Job.id r.id jobs ≡ some r → r.id ≡ i → s ≡ r
      the_row r stored e = some_injective (sym at ∙ ap (λ j. get Job.id j jobs) (sym e) ∙ stored)

      stays :
          (r : Job)
          → get Job.id r.id jobs ≡ some r
          → (r.id == i && is_pending r.status) ≡ true
          → is_wake_up q (moved run_at payload r) ≡ true
          → is_wake_up q r ≡ true
      stays r stored met e =
          let same = the_row r stored (ground (arith, met)) in
          moved_wakes q r (subst (λ (x : Job). is_automation_due x.kind ≡ true) same k)
            (subst (λ (x : Job). text_equals (automation_of x) a ≡ true) same t)
            (ground (arith, met)) e

  -- a row that was found as the wake-up is moved, whatever other sessions commit before
  existing-WakeUpsUnique :
      (k : ℕ) (existing : Job) (jobs : List Job)
      → Unique Job.id jobs
      → WakeUpsUnique jobs
      → find (is_wake_up a) jobs ≡ some existing
      → WakeUpsUnique
          (move_existing others new_id now contact_id a run_at payload k existing jobs).0
  existing-WakeUpsUnique k existing jobs u w found =
      let stored =
        (All-find (λ r. get Job.id r.id jobs ≡ some r) (is_wake_up a) jobs
          (stored_rows Job.id jobs u) found).0 in
      let parts = wake_up_parts a existing (find-meets (is_wake_up a) jobs found) in
      let (s, at, same_kind, same_automation) = b.rows k existing.id jobs existing stored in
      move-WakeUpsUnique existing.id s (others k jobs) (b.keys k jobs u) at
        (ap is_automation_due same_kind ∙ parts.0)
        (ap (λ o. text_equals o a) same_automation ∙ parts.1) (b.wake_ups k jobs w)

  abbrev new_row : Job
  new_row = record {
    id = new_id;
    contact_id = contact_id;
    kind = automation_due;
    payload = payload;
    run_at = run_at;
    status = whats_app_poke.Jobs.pending;
    attempts = 0;
    max_attempts = whats_app_poke.Jobs.max_attempts_default;
    locked_at = none;
    created_at = now;
  }

  new_is_own : (q : String) → is_wake_up q new_row ≡ true → a ≡ q
  new_is_own q e =
      same_text a q
        (ap (λ o. text_equals o q) (sym (moved_automation new_row)) ∙ (wake_up_parts q new_row e).1)

  insert-WakeUpsUnique :
      (jobs : List Job)
      → WakeUpsUnique jobs
      → find (is_wake_up a) jobs ≡ none
      → WakeUpsUnique (insert_job new_id now contact_id automation_due payload run_at jobs)
  unfolding insert_job
  insert-WakeUpsUnique jobs w e q =
      rw (count-append (is_wake_up q) jobs new_row) (elim (Bool-cases (is_wake_up q new_row)) [
        | inr other ↦ rw other (omega (arith, w q))
        | inl own ↦ rw own (omega (arith, none_yet own))
      ])
    where
      none_yet : is_wake_up q new_row ≡ true → count (is_wake_up q) jobs ≡ 0
      none_yet own =
          subst (λ x. count (is_wake_up x) jobs ≡ 0) (new_is_own q own)
            (count-none (is_wake_up a) jobs e)

  try_insert-WakeUpsUnique :
      (attempts k : ℕ) (jobs : List Job)
      → Unique Job.id jobs
      → WakeUpsUnique jobs
      → WakeUpsUnique (try_insert others new_id now contact_id a run_at payload attempts k jobs).0
  unfolding try_insert get_pending_automation_due
  try_insert-WakeUpsUnique zero k jobs u w = w
  try_insert-WakeUpsUnique (suc attempts) k jobs u w =
      elim (Option-cases (find (is_wake_up a) (others k jobs))) [
        | inl free ↦ rw free (insert-WakeUpsUnique (others k jobs) w1 free)
        | inr (conflict, taken) ↦
            rw taken (elim (Option-cases (find (is_wake_up a) (others (suc k) (others k jobs)))) [
              | inl gone ↦ rw gone (
                  try_insert-WakeUpsUnique attempts (suc (suc k)) (others (suc k) (others k jobs))
                    u2 w2)
              | inr (existing, found) ↦ rw found (
                  existing-WakeUpsUnique (suc (suc k)) existing (others (suc k) (others k jobs)) u2
                    w2 found)
            ])
      ]
    where
      u1 : Unique Job.id (others k jobs)
      u1 = b.keys k jobs u

      w1 : WakeUpsUnique (others k jobs)
      w1 = b.wake_ups k jobs w

      u2 : Unique Job.id (others (suc k) (others k jobs))
      u2 = b.keys (suc k) (others k jobs) u1

      w2 : WakeUpsUnique (others (suc k) (others k jobs))
      w2 = b.wake_ups (suc k) (others k jobs) w1

  -- Scheduling a wake-up leaves at most one pending wake-up of every automation, if ids and wake-ups
  -- were unique, whatever other sessions commit before each of its statements, as long as these keep
  -- both unique and keep the kind and the automation of every job.
  pub upsert_automation_due-WakeUpsUnique :
      (jobs : List Job)
      → Unique Job.id jobs
      → WakeUpsUnique jobs
      → WakeUpsUnique
          (upsert_automation_due others print_time new_id now contact_id a run_at jobs).0
  unfolding upsert_automation_due get_pending_automation_due
  upsert_automation_due-WakeUpsUnique jobs u w =
      elim (Option-cases (find (is_wake_up a) (others 0 jobs))) [
        | inl free ↦ rw free (try_insert-WakeUpsUnique 2 1 (others 0 jobs) u0 w0)
        | inr (existing, found) ↦
            rw found (existing-WakeUpsUnique 1 existing (others 0 jobs) u0 w0 found)
      ]
    where
      u0 : Unique Job.id (others 0 jobs)
      u0 = b.keys 0 jobs u

      w0 : WakeUpsUnique (others 0 jobs)
      w0 = b.wake_ups 0 jobs w
