-- ===== src/Reminders/Tests.antt =====
-- Tries of the handler on concrete rows, and the theorem at an input that meets its hypothesis.
use whats_app_poke.Prelude.{
  ℕ, suc, ◌≤◌, String, ◌≡◌, refl, false, Option, none, some, List, [], ◌∷◌, str_eq, if◌then◌else◌,
}
use whats_app_poke.Payload.{str, lookup, non_empty_text, payload_str}
use whats_app_poke.Table.{get, find, count, greatest, update_by_id}
use whats_app_poke.Jobs.{Job, enqueue_integration_notify, insert_job}
use whats_app_poke.Messages.{insert_outbound_message, last_inbound_at}
use whats_app_poke.Reminders.{
  Reminder, active, is_active, World, Try, taken, not_taken, taken_unnoticed, get_reminder,
  claim_reminder_for_send, release_reminder_claim, in_customer_service_window, run_reminder_due,
}
use whats_app_poke.Reminders.Once.{Op, apply, run, pings_of, pings_once}

abbrev reminder : Reminder
reminder = record {
  id = 4;
  contact_id = 7;
  body = "water";
  due_at = 50;
  sent_at = none;
  status = active;
  created_at = 0;
  updated_at = 0;
}

abbrev world : World
world = record { reminders = reminder ∷ []; messages = []; pings = [] }

abbrev same_text : String → String
same_text s = s

abbrev phone_of : ℕ → Option String
phone_of contact_id = some "5511"

abbrev parse_id : String → Option ℕ
parse_id s = if str_eq s "id-4" then some 4 else none

abbrev due_job : Job
due_job = record {
  id = 1;
  contact_id = 7;
  kind = whats_app_poke.Jobs.reminder_due;
  payload = ("reminder_id", str "id-4") ∷ [];
  run_at = 50;
  status = whats_app_poke.Jobs.running;
  attempts = 0;
  max_attempts = 5;
  locked_at = some 50;
  created_at = 0;
}

abbrev refused : Try
refused = record { new_id = 1; now = 60; send = λ _. not_taken }

abbrev accepted : Try
accepted = record { new_id = 1; now = 70; send = λ _. taken "SM1" }

abbrev tries : List Op
tries =
    Op.due same_text phone_of parse_id refused due_job
    ∷ Op.due same_text phone_of parse_id accepted due_job
    ∷ Op.due same_text phone_of parse_id accepted due_job
    ∷ []

-- a refused send is tried again, a taken one is not
one_ping : pings_of 4 (run tries world) ≡ 1
unfolding run apply run_reminder_due payload_str lookup non_empty_text get_reminder get
    claim_reminder_for_send release_reminder_claim update_by_id insert_outbound_message find
    last_inbound_at greatest in_customer_service_window count
one_ping = refl

pings_once_example :
    (pings_of 4 (run tries world) ≤ suc (pings_of 4 world))
    × (is_active active ≡ false → pings_of 4 (run tries world) ≤ pings_of 4 world)
unfolding get
pings_once_example =
    pings_once tries 4 world reminder ((λ p. tt), ((λ p. tt), ((λ p. tt), tt))) refl

-- a send that raises after Twilio took the message is tried again
abbrev lost : Try
lost = record { new_id = 1; now = 60; send = λ _. taken_unnoticed }

two_pings :
    pings_of 4 (
      run
        (Op.due same_text phone_of parse_id lost due_job
          ∷ Op.due same_text phone_of parse_id accepted due_job
          ∷ [])
        world)
    ≡ 2
unfolding run apply run_reminder_due payload_str lookup non_empty_text get_reminder get
    claim_reminder_for_send release_reminder_claim update_by_id insert_outbound_message find
    last_inbound_at greatest in_customer_service_window count
two_pings = refl
