-- ===== src/Interaction/Tests.antt =====
-- Events on concrete rows, and the theorems at inputs that meet their hypotheses.
use whats_app_poke.Prelude.{
  ℕ, String, ◌≡◌, refl, true, false, ◌||◌, Option, none, some, List, [], ◌∷◌, is_some,
}
use whats_app_poke.Payload.{str, Payload, lookup}
use whats_app_poke.Table.{find, select, sort_desc, greatest, update_where}
use whats_app_poke.Messages.{
  InboundFields, inbound_message, load_recent_messages, last_turns, drop_oldest, last_inbound_at,
  reserve_interaction_outbound, update_interaction_outbound_delivery,
}
use whats_app_poke.Reminders.{in_customer_service_window}
use whats_app_poke.Actions.{PendingAction, send_email, staged}
use whats_app_poke.Interaction.{
  execution_result, done, TwilioCall, Send, number_of, sequence_for, has_number, send_visible,
}
use whats_app_poke.Interaction.Texts.{Print, comma_joined, texts_of, confirmation_message}
use whats_app_poke.Interaction.Event.{
  ToolCall, send_message_to_user, AgentAttempt, produced, Ended, Loaded, use_tools, run_attempts,
  matching_pending_actions, run_interaction_event,
}
use whats_app_poke.Interaction.Bound.{FewCalls, run_interaction_event-FewCalls}
use whats_app_poke.Interaction.Reported.{is_repeat, result_reported}

abbrev same_text : String → String
same_text s = s

abbrev plain : Print
plain = record {
  squeeze = same_text;
  cut = λ n s. s;
  show = λ j. elim j [ str s ↦ s | _ ↦ "" ];
  is_nonzero = λ n. true;
  letters = λ s. "a" ∷ "@" ∷ "b" ∷ [];
  loads = λ s. none;
}

abbrev hash : Payload → String
hash _ = "h"

-- The recipient of a staged e-mail is a text, and so is taken letter by letter.
abbrev to_ab : PendingAction
to_ab =
    staged hash 2 10 10 7 send_email (("to", str "a@b") ∷ ("subject", str "oi") ∷ []) "t" none
      (some 4)

letters_of_recipient :
    confirmation_message plain (to_ab ∷ [])
    ≡ some "Posso enviar o e-mail para a, @, b, assunto “oi”?"
unfolding confirmation_message comma_joined texts_of lookup
letters_of_recipient = refl

abbrev no_fields : InboundFields
no_fields = record {
  account_sid = none;
  from_address = none;
  to_address = none;
  num_media = none;
  media_url = none;
  media_content_type = none;
  wa_id = none;
  sms_status = none;
  api_version = none;
  num_segments = none;
  profile_name = none;
}

abbrev loaded : Loaded
loaded = record {
  contact_exists = true;
  messages = inbound_message 1 5 7 "oi" "m1" no_fields ∷ [];
  actions = [];
  runs = [];
  now = 10;
  trim = same_text;
  parse_execution = λ s. none;
}

abbrev sending : ℕ → Option String → Send
sending new_id provider_message_id = record {
  arrived = [];
  new_id = new_id;
  now = 20;
  clock = 20;
  provider_message_id = provider_message_id;
  is_stored = true;
}

abbrev says : List ToolCall → AgentAttempt
says tool_calls = record { tool_calls = tool_calls; end = produced done }

abbrev event : AgentAttempt → AgentAttempt → Ended
event first second =
    run_interaction_event same_text (λ n. "1") plain false (sending 9 (some "SM9")) loaded first
      second 7 3 "{}" execution_result true

-- a message that is taken
taken :
    (event
      (says (send_message_to_user "feito" (some "c1") (sending 2 (some "SM2")) ∷ []))
      (says [])).output
    ≡ some done
unfolding run_interaction_event matching_pending_actions load_recent_messages last_turns drop_oldest
    select sort_desc find run_attempts use_tools send_visible sequence_for number_of has_number
    reserve_interaction_outbound update_interaction_outbound_delivery update_where last_inbound_at
    greatest in_customer_service_window
taken = refl

-- Twilio refuses the message, and the call is repeated under its id: the event answers `done`,
-- although nothing was taken.
abbrev refused_twice : AgentAttempt
refused_twice = says (
    send_message_to_user "feito" (some "c1") (sending 2 none)
    ∷ send_message_to_user "feito" (some "c1") (sending 4 none)
    ∷ [])

answers_done : (event refused_twice (says [])).output ≡ some done
unfolding run_interaction_event matching_pending_actions load_recent_messages last_turns drop_oldest
    select sort_desc find run_attempts use_tools send_visible sequence_for number_of has_number
    reserve_interaction_outbound update_interaction_outbound_delivery update_where last_inbound_at
    greatest in_customer_service_window
answers_done = refl

nothing_taken :
    is_some (find TwilioCall.is_accepted (event refused_twice (says [])).turn.calls) ≡ false
unfolding run_interaction_event matching_pending_actions load_recent_messages last_turns drop_oldest
    select sort_desc find run_attempts use_tools send_visible sequence_for number_of has_number
    reserve_interaction_outbound update_interaction_outbound_delivery update_where last_inbound_at
    greatest in_customer_service_window
nothing_taken = refl

run_interaction_event-FewCalls_example : FewCalls 7 3 (event refused_twice (says [])).turn
run_interaction_event-FewCalls_example =
    run_interaction_event-FewCalls same_text (λ n. "1") plain false (sending 9 (some "SM9")) loaded
      refused_twice (says []) 7 3 "{}" execution_result true

result_reported_example :
    (let f =
        event
          (says (send_message_to_user "feito" (some "c1") (sending 2 (some "SM2")) ∷ []))
          (says []) in
      (is_some (find TwilioCall.is_accepted f.turn.calls)
        || is_some (find is_repeat f.turn.outbound_outcomes))
      ≡ true)
result_reported_example =
    result_reported same_text (λ n. "1") plain false (sending 9 (some "SM9")) loaded
      (says (send_message_to_user "feito" (some "c1") (sending 2 (some "SM2")) ∷ [])) (says []) 7 3
      "{}" done taken
