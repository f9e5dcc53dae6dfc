-- ===== src/Reminders/Fires.antt =====
-- How one try of the handler of a due reminder can end.
use whats_app_poke.Prelude.{
  ℕ, String, ◌≡◌, refl, ap, ◌∙◌, inl, inr, true, Option, none, some, List, ◌∷◌, arith, Bool-cases,
}
use whats_app_poke.Table.{get, update_by_id, get-key}
use whats_app_poke.Messages.{Message, insert_outbound_message}
use whats_app_poke.Reminders.{
  Reminder, is_active, claim_reminder_for_send, sent_now, release_reminder_claim, get_reminder,
  Ping, Answer, taken, not_taken, taken_unnoticed, World, persist, after_send, Try, send_claimed,
  fire_to, fire, fire_id,
}

-- How a try of the handler can end: without a claim, with a claim that is released, or with a ping
-- of the reminder that it claimed.
pub data Fires (w after : World) : Type 0 where
  idle : after.reminders ≡ w.reminders → after.pings ≡ w.pings → Fires w after
  released :
      (r : Reminder) (now : ℕ)
      → get Reminder.id r.id w.reminders ≡ some r
      → is_active r.status ≡ true
      → after.reminders
        ≡ release_reminder_claim r.id now (claim_reminder_for_send r.id now w.reminders).0
      → after.pings ≡ w.pings
      → Fires w after
  pinged :
      (r : Reminder) (now : ℕ) (p : Ping)
      → get Reminder.id r.id w.reminders ≡ some r
      → is_active r.status ≡ true
      → after.reminders ≡ (claim_reminder_for_send r.id now w.reminders).0
      → p.reminder_id ≡ r.id
      → after.pings ≡ p ∷ w.pings
      → Fires w after

persist-same :
    (o : Option (List Message)) (w : World)
    → ((persist o w).world.reminders ≡ w.reminders) × ((persist o w).world.pings ≡ w.pings)
persist-same none w = (refl, refl)
persist-same (some messages) w = (refl, refl)

claim-active :
    (r : Reminder) (now : ℕ) (reminders : List Reminder)
    → get Reminder.id r.id reminders ≡ some r
    → is_active r.status ≡ true
    → (claim_reminder_for_send r.id now reminders).1 ≡ some (sent_now now r)
unfolding claim_reminder_for_send update_by_id
claim-active r now reminders found e = rw found (rw e refl)

-- a send that raises has made no message
abbrev pub Tells : Answer → Type 0
Tells taken_unnoticed = ⊥
Tells _ = Unit

module _ (strip : String → String) (phone_of : ℕ → Option String) (t : Try) (contact_id : ℕ)
    (w : World) (tells : (p : Ping) → Tells (t.send p)) where
  after_send-Fires :
      (r : Reminder) (p : Ping) (o : Answer)
      → Tells o
      → p.reminder_id ≡ r.id
      → get Reminder.id r.id w.reminders ≡ some r
      → is_active r.status ≡ true
      → Fires w
          (after_send t.new_id t.now contact_id p o
            (record w { reminders = (claim_reminder_for_send r.id t.now w.reminders).0 })).world
  after_send-Fires r p not_taken told own found e =
      released r t.now found e
        (ap (λ i. release_reminder_claim i t.now (claim_reminder_for_send r.id t.now w.reminders).0)
          own)
        refl
  after_send-Fires r p taken_unnoticed told own found e = absurd told
  after_send-Fires r p (taken out_id) told own found e =
      let same =
        persist-same (insert_outbound_message t.new_id t.now contact_id p.text out_id w.messages)
          _ in
      pinged r t.now p found e same.0 own same.1

  send_claimed-Fires :
      (r : Reminder) (p : Ping) (c : List Reminder × Option Reminder)
      → p.reminder_id ≡ r.id
      → get Reminder.id r.id w.reminders ≡ some r
      → is_active r.status ≡ true
      → c.0 ≡ (claim_reminder_for_send r.id t.now w.reminders).0
      → c.1 ≡ some (sent_now t.now r)
      → Fires w (send_claimed t contact_id p c w).world
  send_claimed-Fires r p (reminders, none) own found e same claimed = absurd (ground arith)
  send_claimed-Fires r p (reminders, some claimed_row) own found e same claimed =
      rw same (after_send-Fires r p (t.send p) (tells p) own found e)

  fire_to-Fires :
      (r : Reminder) (phone : Option String)
      → get Reminder.id r.id w.reminders ≡ some r
      → is_active r.status ≡ true
      → Fires w (fire_to strip t contact_id r phone w).world
  fire_to-Fires r none found e = idle refl refl
  fire_to-Fires r (some phone) found e =
      send_claimed-Fires r _ (claim_reminder_for_send r.id t.now w.reminders) refl found e refl
        (claim-active r t.now w.reminders found e)

  fire-Fires :
      (i : ℕ) (o : Option Reminder)
      → get Reminder.id i w.reminders ≡ o
      → Fires w (fire strip phone_of t contact_id o w).world
  fire-Fires i none found = idle refl refl
  fire-Fires i (some r) found = elim (Bool-cases (is_active r.status)) [
    | inr e ↦ rw e (idle refl refl)
    | inl e ↦ rw e (
        fire_to-Fires r (phone_of contact_id)
          (ap (λ k. get Reminder.id k w.reminders) (get-key Reminder.id i w.reminders found)
            ∙ found)
          e)
  ]

  pub fire_id-Fires : (o : Option ℕ) → Fires w (fire_id strip phone_of t contact_id o w).world
  unfolding get_reminder
  fire_id-Fires none = idle refl refl
  fire_id-Fires (some i) = fire-Fires i (get Reminder.id i w.reminders) refl
