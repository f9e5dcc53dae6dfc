-- ===== src/Reminders.antt =====
-- Reminders: app/database/models/reminder.py, app/db/reminders.py and the handler of a due
-- reminder, app/worker/handlers/reminder_due.py, with `in_customer_service_window` of
-- app/transport/twilio_wa.py. `parse_id` stands for `uuid.UUID`, `phone_of` for the contact of a
-- job, `strip` for `str.strip`, and `send` for Twilio, as a free text inside the window of the
-- customer or as a template outside it (none: it raised). The handler and the tools of the agent run
-- under the lock of the contact, so each is one step.
use whats_app_poke.Prelude.{
  ℕ, ◌+◌, ◌-◌, ◌*◌, String, Bool, true, false, ◌&&◌, not, Option, none, some, List, [], ◌∷◌, ◌++◌,
  leb, ◌==◌, str_eq, if◌then◌else◌, hour,
}
use whats_app_poke.Payload.{Payload, Json, str, payload_str}
use whats_app_poke.Table.{get, select, update_by_id}
use whats_app_poke.Jobs.{Job, reminder_due, insert_job}
use whats_app_poke.Messages.{Message, insert_outbound_message, last_inbound_at}
mod Fires
pub mod Once
mod Tests

pub data ReminderStatus : Type 0 where
  active sent cancelled : ReminderStatus

pub record Reminder : Type 0 where
  pub id : ℕ
  pub contact_id : ℕ
  pub body : String
  pub due_at : ℕ
  pub sent_at : Option ℕ
  pub status : ReminderStatus
  pub created_at : ℕ
  pub updated_at : ℕ

abbrev pub is_active : ReminderStatus → Bool
is_active active = true
is_active _ = false

abbrev pub is_sent : ReminderStatus → Bool
is_sent sent = true
is_sent _ = false

unfoldable pub create_reminder :
    (new_id now contact_id : ℕ) → String → (due_at : ℕ) → List Reminder → List Reminder
create_reminder new_id now contact_id body due_at reminders =
    reminders
    ++ record {
      id = new_id;
      contact_id = contact_id;
      body = body;
      due_at = due_at;
      sent_at = none;
      status = active;
      created_at = now;
      updated_at = now;
    }
      ∷ []

-- `id_text` is the printed id of the reminder
unfoldable pub enqueue_reminder_due :
    (new_id now contact_id : ℕ) → String → (run_at : ℕ) → List Job → List Job
unfolding insert_job
enqueue_reminder_due new_id now contact_id id_text run_at =
    insert_job new_id now contact_id reminder_due (("reminder_id", str id_text) ∷ []) run_at

abbrev pub cancelled_at : ℕ → Reminder → Reminder
cancelled_at now r = record r { status = cancelled; updated_at = now }

unfoldable pub cancel_reminder_row :
    (reminder_id now : ℕ) → List Reminder → List Reminder × Option Reminder
cancel_reminder_row reminder_id now =
    update_by_id Reminder.id reminder_id (λ r. is_active r.status) (cancelled_at now)

unfoldable pub get_reminder : ℕ → List Reminder → Option Reminder
get_reminder = get Reminder.id

abbrev pub sent_now : ℕ → Reminder → Reminder
sent_now now r = record r { status = sent; sent_at = some now; updated_at = now }

unfoldable pub claim_reminder_for_send :
    (reminder_id now : ℕ) → List Reminder → List Reminder × Option Reminder
claim_reminder_for_send reminder_id now =
    update_by_id Reminder.id reminder_id (λ r. is_active r.status) (sent_now now)

abbrev pub active_again : ℕ → Reminder → Reminder
active_again now r = record r { status = active; sent_at = none; updated_at = now }

unfoldable pub release_reminder_claim : (reminder_id now : ℕ) → List Reminder → List Reminder
release_reminder_claim reminder_id now reminders =
    (update_by_id Reminder.id reminder_id (λ r. is_sent r.status) (active_again now) reminders).0

abbrev pub customer_service_window : ℕ
customer_service_window = 24 * hour

unfoldable pub in_customer_service_window : Option ℕ → (now : ℕ) → Bool
in_customer_service_window none now = false
in_customer_service_window (some last_inbound) now =
    leb (now - last_inbound) customer_service_window

-- a message that Twilio took
pub record Ping : Type 0 where
  pub reminder_id : ℕ
  pub phone : String
  pub text : String
  pub in_window : Bool

-- The tables, and the log of all pings.
pub record World : Type 0 where
  pub reminders : List Reminder
  pub messages : List Message
  pub pings : List Ping

-- What the handler has done, and whether it raised.
pub record Handled : Type 0 where
  pub world : World
  pub raised : Bool

abbrev pub failed : World → Handled
failed w = record { world = w; raised = true }

abbrev pub finished : World → Handled
finished w = record { world = w; raised = false }

-- the reply is stored, or the insert raised
abbrev pub persist : Option (List Message) → World → Handled
persist none w = failed w
persist (some messages) w = finished (record w { messages = messages })

-- How a send can end: it returns the id of the message; it raises and no message was made; or it
-- raises although Twilio took the message: the answer had no id, or was lost.
pub data Answer : Type 0 where
  taken : String → Answer
  not_taken taken_unnoticed : Answer

abbrev pub after_send : (new_id now contact_id : ℕ) → Ping → Answer → World → Handled
after_send new_id now contact_id ping not_taken w =
    failed (record w { reminders = release_reminder_claim ping.reminder_id now w.reminders })
after_send new_id now contact_id ping taken_unnoticed w = failed (record w {
  reminders = release_reminder_claim ping.reminder_id now w.reminders;
  pings = ping ∷ w.pings;
})
after_send new_id now contact_id ping (taken out_id) w =
    persist (insert_outbound_message new_id now contact_id ping.text out_id w.messages)
      (record w { pings = ping ∷ w.pings })

-- what one try of the handler needs of its surroundings
pub record Try : Type 0 where
  pub new_id : ℕ
  pub now : ℕ
  pub send : Ping → Answer

abbrev pub ping_of : (String → String) → ℕ → (now : ℕ) → String → World → Reminder → Ping
ping_of strip contact_id now phone w reminder = record {
  reminder_id = reminder.id;
  phone = phone;
  text = strip reminder.body;
  in_window = in_customer_service_window (last_inbound_at contact_id w.messages) now;
}

-- after the session that claims the reminder
abbrev pub send_claimed : Try → ℕ → Ping → List Reminder × Option Reminder → World → Handled
send_claimed t contact_id ping (reminders, none) w = finished (record w { reminders = reminders })
send_claimed t contact_id ping (reminders, some claimed) w =
    after_send t.new_id t.now contact_id ping (t.send ping) (record w { reminders = reminders })

abbrev pub fire_to : (String → String) → Try → ℕ → Reminder → Option String → World → Handled
fire_to strip t contact_id reminder none w = failed w
fire_to strip t contact_id reminder (some phone) w =
    send_claimed t contact_id (ping_of strip contact_id t.now phone w reminder)
      (claim_reminder_for_send reminder.id t.now w.reminders) w

abbrev pub fire :
    (String → String) → (ℕ → Option String) → Try → ℕ → Option Reminder → World → Handled
fire strip phone_of t contact_id none w = finished w
fire strip phone_of t contact_id (some reminder) w =
    if is_active reminder.status
    then fire_to strip t contact_id reminder (phone_of contact_id) w
    else finished w

abbrev pub fire_id : (String → String) → (ℕ → Option String) → Try → ℕ → Option ℕ → World → Handled
fire_id strip phone_of t contact_id none w = failed w
fire_id strip phone_of t contact_id (some reminder_id) w =
    fire strip phone_of t contact_id (get_reminder reminder_id w.reminders) w

abbrev pub parsed : (String → Option ℕ) → Option String → Option ℕ
parsed parse_id none = none
parsed parse_id (some raw_id) = parse_id raw_id

unfoldable pub run_reminder_due :
    (String → String) → (ℕ → Option String) → (String → Option ℕ) → Try → Job → World → Handled
run_reminder_due strip phone_of parse_id t job w =
    fire_id strip phone_of t job.contact_id
      (parsed parse_id (payload_str job.payload "reminder_id")) w
