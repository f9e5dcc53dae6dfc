-- ===== src/Reminders/Once.antt =====
-- How often a reminder pings its contact when its job is retried.
use native.Mathlib.Nat.{le_trans}
use native.Mathlib.Decide.{ℕ_discrete}
use whats_app_poke.Prelude.{
  ℕ, suc, ◌+◌, ◌≤◌, String, ◌≡◌, ◌≢◌, refl, sym, ap, ◌∙◌, ◌⊎◌, inl, inr, true, false, Option, some,
  List, [], ◌∷◌, arith, Bool-cases, ◌==◌, if◌then◌else◌, some_injective,
}
use whats_app_poke.Payload.{payload_str}
use whats_app_poke.Table.{
  get, count, get-append_old, get-update_by_id_self, get-update_by_id_ne, step-update_by_id,
}
use whats_app_poke.Jobs.{Job}
use whats_app_poke.Reminders.Fires.{Fires, idle, released, pinged, Tells, fire_id-Fires}
use whats_app_poke.Reminders.{
  Reminder, ReminderStatus, is_active, is_sent, create_reminder, cancel_reminder_row, cancelled_at,
  claim_reminder_for_send, sent_now, release_reminder_claim, active_again, Ping, World, Try, parsed,
  run_reminder_due,
}

-- What happens to the reminders and their pings: the tools of the agent create and cancel, and a
-- worker tries the job of a reminder.
pub data Op : Type 0 where
  create : (new_id now contact_id : ℕ) → String → (due_at : ℕ) → Op
  cancel : (reminder_id now : ℕ) → Op
  due : (String → String) → (ℕ → Option String) → (String → Option ℕ) → Try → Job → Op

unfoldable pub apply : Op → World → World
apply (Op.create new_id now contact_id body due_at) w = record w {
  reminders = create_reminder new_id now contact_id body due_at w.reminders;
}
apply (Op.cancel reminder_id now) w = record w {
  reminders = (cancel_reminder_row reminder_id now w.reminders).0;
}
apply (Op.due strip phone_of parse_id t job) w =
    (run_reminder_due strip phone_of parse_id t job w).world

unfoldable pub run : List Op → World → World
run [] w = w
run (op ∷ ops) w = run ops (apply op w)

abbrev pub pings_of : ℕ → World → ℕ
pings_of i w = count (λ (p : Ping). p.reminder_id == i) w.pings

-- the pings that a reminder may still cause
abbrev pub allowed : ReminderStatus → ℕ
allowed s = if is_active s then 1 else 0

-- every send of the step that raises has made no message
abbrev pub OpTells : Op → Type 0
OpTells (Op.due strip phone_of parse_id t job) = (p : Ping) → Tells (t.send p)
OpTells _ = Unit

abbrev pub AllTell : List Op → Type 0
AllTell [] = Unit
AllTell (op ∷ ops) = OpTells op × AllTell ops

-- One reminder through one step: how its row and the number of its pings change.
record Step (i : ℕ) (w after : World) (r : Reminder) : Type 0 where
  row : Reminder
  at : get Reminder.id i after.reminders ≡ some row
  budget : pings_of i after + allowed row.status ≤ pings_of i w + allowed r.status

allowed_le : (s : ReminderStatus) → allowed s ≤ 1
allowed_le s = ground arith

allowed_active : (s : ReminderStatus) → is_active s ≡ true → allowed s ≡ 1
allowed_active s e = rw e

same-pings : (i : ℕ) (w after : World) → after.pings ≡ w.pings → pings_of i after ≡ pings_of i w
same-pings i w after e = ap (count (λ (p : Ping). p.reminder_id == i)) e

pings-cons :
    (i : ℕ) (p : Ping) (ps : List Ping)
    → count (λ (p : Ping). p.reminder_id == i) (p ∷ ps)
      ≡ (if p.reminder_id == i then 1 else 0) + count (λ (p : Ping). p.reminder_id == i) ps
unfolding count
pings-cons i p ps = elim (Bool-cases (p.reminder_id == i)) [
  | inl e ↦ rw e (omega arith)
  | inr e ↦ rw e (omega arith)
]

module _ (i : ℕ) (w : World) (r : Reminder) (found : get Reminder.id i w.reminders ≡ some r) where
  same_row : (x : Reminder) → get Reminder.id x.id w.reminders ≡ some x → x.id ≡ i → x ≡ r
  same_row x at e = some_injective (sym at ∙ ap (λ k. get Reminder.id k w.reminders) e ∙ found)

  claimed_self :
      (now : ℕ)
      → is_active r.status ≡ true
      → get Reminder.id i (claim_reminder_for_send i now w.reminders).0 ≡ some (sent_now now r)
  unfolding claim_reminder_for_send
  claimed_self now e =
      rw
        (
          get-update_by_id_self Reminder.id i (λ r. is_active r.status) (sent_now now) (λ x. refl)
              w.reminders,
          found,
        )
        (rw e refl)

  claimed_other :
      (j now : ℕ) → j ≢ i → get Reminder.id i (claim_reminder_for_send j now w.reminders).0 ≡ some r
  unfolding claim_reminder_for_send
  claimed_other j now ne =
      get-update_by_id_ne Reminder.id j (λ r. is_active r.status) (sent_now now) (λ x. refl) i
        w.reminders (λ e. ne (sym e))
      ∙ found

  released_self :
      (now : ℕ)
      → is_active r.status ≡ true
      → get Reminder.id i
          (release_reminder_claim i now (claim_reminder_for_send i now w.reminders).0)
        ≡ some (active_again now (sent_now now r))
  unfolding release_reminder_claim
  released_self now e = rw (
    get-update_by_id_self Reminder.id i (λ r. is_sent r.status) (active_again now) (λ x. refl)
        (claim_reminder_for_send i now w.reminders).0,
    claimed_self now e,
  )

  released_other :
      (j now : ℕ)
      → j ≢ i
      → get Reminder.id i
          (release_reminder_claim j now (claim_reminder_for_send j now w.reminders).0)
        ≡ some r
  unfolding release_reminder_claim
  released_other j now ne =
      get-update_by_id_ne Reminder.id j (λ r. is_sent r.status) (active_again now) (λ x. refl) i
        (claim_reminder_for_send j now w.reminders).0 (λ e. ne (sym e))
      ∙ claimed_other j now ne

  active_row :
      (x : Reminder)
      → get Reminder.id x.id w.reminders ≡ some x
      → is_active x.status ≡ true
      → x.id ≡ i
      → is_active r.status ≡ true
  active_row x at e same = ap (λ (y : Reminder). is_active y.status) (sym (same_row x at same)) ∙ e

  Fires-Step : (after : World) → Fires w after → Step i w after r
  Fires-Step after (idle rows pings) = record {
    row = r;
    at = ap (get Reminder.id i) rows ∙ found;
    budget = omega (arith, same-pings i w after pings);
  }
  Fires-Step after (released x now at e rows pings) = elim (ℕ_discrete x.id i) [
    | no ne ↦ record {
      row = r;
      at = ap (get Reminder.id i) rows ∙ released_other x.id now ne;
      budget = omega (arith, same-pings i w after pings);
    }
    | yes same ↦ record {
      row = active_again now (sent_now now r);
      at =
          ap (get Reminder.id i) rows
          ∙ ap
              (λ j.
                get Reminder.id i
                  (release_reminder_claim j now (claim_reminder_for_send j now w.reminders).0))
              same
          ∙ released_self now (active_row x at e same);
      budget =
          omega
            (arith, same-pings i w after pings, allowed_active r.status (active_row x at e same));
    }
  ]
  Fires-Step after (pinged x now p at e rows own pings) = elim (ℕ_discrete x.id i) [
    | no ne ↦ record {
      row = r;
      at = ap (get Reminder.id i) rows ∙ claimed_other x.id now ne;
      budget = omega (arith, logged, test_false (λ q. ne (sym own ∙ q)));
    }
    | yes same ↦ record {
      row = sent_now now r;
      at =
          ap (get Reminder.id i) rows
          ∙ ap (λ j. get Reminder.id i (claim_reminder_for_send j now w.reminders).0) same
          ∙ claimed_self now (active_row x at e same);
      budget = omega (arith, logged, test_le, allowed_active r.status (active_row x at e same));
    }
  ]
    where
      logged : pings_of i after ≡ (if p.reminder_id == i then 1 else 0) + pings_of i w
      logged = ap (count (λ (p : Ping). p.reminder_id == i)) pings ∙ pings-cons i p w.pings

      test_le : (if p.reminder_id == i then 1 else 0) ≤ 1
      test_le = ground arith

      test_false : p.reminder_id ≢ i → (if p.reminder_id == i then 1 else 0) ≤ 0
      test_false ne = ground arith

-- every statement
apply-Step :
    (op : Op) (i : ℕ) (w : World) (r : Reminder)
    → OpTells op
    → get Reminder.id i w.reminders ≡ some r
    → Step i w (apply op w) r
unfolding apply create_reminder cancel_reminder_row run_reminder_due
apply-Step (Op.create new_id now contact_id body due_at) i w r tells found = record {
  row = r;
  at = get-append_old Reminder.id i w.reminders _ found;
  budget = omega arith;
}
apply-Step (Op.cancel j now) i w r tells found =
    let (s, at, how) =
      step-update_by_id Reminder.id i w.reminders found j (λ r. is_active r.status)
        (cancelled_at now) (λ x. refl) in
    record { row = s; at = at; budget = spent s how }
  where
    spent :
        (s : Reminder)
        → (s ≡ r) ⊎ ((i ≡ j) × (is_active r.status ≡ true) × (s ≡ cancelled_at now r))
        → pings_of i w + allowed s.status ≤ pings_of i w + allowed r.status
    spent s (inl stays) = rw stays (omega arith)
    spent s (inr (same, met, e)) = rw e (omega arith)
apply-Step (Op.due strip phone_of parse_id t job) i w r tells found = Fires-Step i w r found _ (
    fire_id-Fires strip phone_of t job.contact_id w tells
      (parsed parse_id (payload_str job.payload "reminder_id")))

budget_kept :
    (ops : List Op) (i : ℕ) (w : World) (r : Reminder)
    → AllTell ops
    → get Reminder.id i w.reminders ≡ some r
    → pings_of i (run ops w) ≤ pings_of i w + allowed r.status
unfolding run
budget_kept [] i w r tells found = omega arith
budget_kept (op ∷ ops) i w r tells found =
    let step = apply-Step op i w r tells.0 found in
    le_trans (budget_kept ops i (apply op w) step.row tells.1 step.at) step.budget

-- Whatever reminders are created and cancelled, however often the jobs are tried, and whatever
-- failures to store the reply there are, a reminder pings its contact at most once more, and not at
-- all if it was sent or cancelled, provided that no send raises for a message that Twilio took.
pub pings_once :
    (ops : List Op) (i : ℕ) (w : World) (r : Reminder)
    → AllTell ops
    → get Reminder.id i w.reminders ≡ some r
    → (pings_of i (run ops w) ≤ suc (pings_of i w))
      × (is_active r.status ≡ false → pings_of i (run ops w) ≤ pings_of i w)
pings_once ops i w r tells found =
    let kept = budget_kept ops i w r tells found in
    (omega (arith, kept, allowed_le r.status), λ done. omega (arith, kept, not_allowed done))
  where
    not_allowed : is_active r.status ≡ false → allowed r.status ≡ 0
    not_allowed done = rw done
