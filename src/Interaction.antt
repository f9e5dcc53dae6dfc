-- ===== src/Interaction.antt =====
-- The interaction with a person: app/agent/interaction.py. This file has the state of one event and
-- the visible send, `_send_visible`. `strip` stands for `str.strip`, `print` for the printing of a
-- number. The lock of the contact keeps other events of the contact away, so only rows that
-- webhooks and the worker insert (`arrived`) come between. The texts for the model are left out.
pub mod Texts
pub mod Event
mod Tally
pub mod Keeps
pub mod Sends
pub mod Bound
pub mod Reported
mod Tests
use Prim.Native.String.{◌++◌ as ◌⧺◌}
use whats_app_poke.Prelude.{
  ℕ, ◌+◌, String, Bool, true, false, ◌&&◌, ◌||◌, not, Option, none, some, List, [], ◌∷◌, ◌++◌, ltb,
  ◌==◌, str_eq, if◌then◌else◌, length,
}
use whats_app_poke.Messages.{
  Message, delivered, failed, reserve_interaction_outbound, last_inbound_at,
  update_interaction_outbound_delivery,
}
use whats_app_poke.Reminders.{in_customer_service_window}
use whats_app_poke.Execution.{DispatchState}
use whats_app_poke.Execution.Scope.{is_blank}

pub data EventKind : Type 0 where
  user_inbound execution_result internal_event : EventKind

-- `InteractionOutput.state`
pub data InteractionState : Type 0 where
  done waiting_execution silent : InteractionState

-- `_outbound_outcomes`
pub data OutboundOutcome : Type 0 where
  skipped_empty skipped_limit deduplicated send_failed sent_persist_failed sent : OutboundOutcome

pub data Channel : Type 0 where
  free_form action_template automation_template reminder_template : Channel

-- a call of Twilio, and whether it took the message
pub record TwilioCall : Type 0 where
  pub sequence : ℕ
  pub channel : Channel
  pub text : String
  pub is_accepted : Bool

-- What is fixed for an event. `has_pending` says that the summary of the pending actions is not
-- `nenhuma`, and `has_automation_template` that the template is configured.
pub record InteractionDeps : Type 0 where
  pub contact_id : ℕ
  pub interaction_run_id : ℕ
  pub event_kind : EventKind
  pub has_pending : Bool
  pub has_active : Bool
  pub has_automation_template : Bool

-- What changes during an event: the messages, the rest of the deps, and the log of the calls.
pub record Turn : Type 0 where
  pub messages : List Message
  pub sequence_by_tool_call : List (String × ℕ)
  pub reserved_sequences : List ℕ
  pub outbound_outcomes : List OutboundOutcome
  pub dispatch_outcome : Option DispatchState
  pub dispatch_has_active_run : Bool
  pub calls : List TwilioCall

-- What one visible send meets: the rows that others have inserted before it, the id of the row and
-- the clocks, the id that Twilio gives (none: it raised), and whether the delivery can be stored.
pub record Send : Type 0 where
  pub arrived : List Message
  pub new_id : ℕ
  pub now : ℕ
  pub clock : ℕ
  pub provider_message_id : Option String
  pub is_stored : Bool

abbrev pub max_visible_outbounds : ℕ
max_visible_outbounds = 5

abbrev pub has_reserved : Turn → Bool
has_reserved t = not (length t.reserved_sequences == 0)

unfoldable pub number_of : String → List (String × ℕ) → Option ℕ
number_of key [] = none
number_of key ((k, n) ∷ l) = if str_eq k key then some n else number_of key l

unfoldable pub has_number : ℕ → List ℕ → Bool
has_number n [] = false
has_number n (m ∷ l) = m == n || has_number n l

abbrev pub record_outbound_outcome : OutboundOutcome → Turn → Turn
record_outbound_outcome outcome t = record t {
  outbound_outcomes = t.outbound_outcomes ++ outcome ∷ [];
}

module _ (strip : String → String) (print : ℕ → String) where
  abbrev pub new_key : Turn → String
  new_key t = "call-" ⧺ print (length t.sequence_by_tool_call + 1)

  abbrev pub call_key : Option String → Turn → String
  call_key none t = new_key t
  call_key (some tool_call_id) t = if is_blank tool_call_id then new_key t else tool_call_id

  abbrev pub number_or_next : Option ℕ → String → Turn → Turn × ℕ
  number_or_next (some n) key t = (t, n)
  number_or_next none key t =
      let n = length t.sequence_by_tool_call + 1 in
      (record t { sequence_by_tool_call = (key, n) ∷ t.sequence_by_tool_call }, n)

  unfoldable pub sequence_for : Option String → Turn → Turn × ℕ
  unfolding number_of
  sequence_for tool_call_id t =
      let key = call_key tool_call_id t in
      number_or_next (number_of key t.sequence_by_tool_call) key t

  module _ (deps : InteractionDeps) (e : Send) where
    abbrev pub channel_of : Bool → Channel
    channel_of in_window =
        if in_window
        then free_form
        else if deps.has_pending
        then action_template
        else if deps.has_automation_template
        then automation_template
        else reminder_template

    abbrev pub deliver : Option String → (sequence : ℕ) → Turn → Turn
    deliver none sequence t = record_outbound_outcome send_failed (record t {
      messages =
          (update_interaction_outbound_delivery deps.contact_id deps.interaction_run_id sequence
            failed none t.messages).0;
    })
    deliver (some id) sequence t =
        if e.is_stored
        then record_outbound_outcome sent (record t {
          messages =
              (update_interaction_outbound_delivery deps.contact_id deps.interaction_run_id sequence
                delivered (some id) t.messages).0;
        })
        else record_outbound_outcome sent_persist_failed t

    abbrev pub is_accepted : Option String → Bool
    is_accepted none = false
    is_accepted (some id) = true

    abbrev pub call_twilio : (sequence : ℕ) → String → Turn → Turn
    call_twilio sequence message t = deliver e.provider_message_id sequence (record t {
      calls =
          record {
            sequence = sequence;
            channel =
                channel_of
                  (in_customer_service_window (last_inbound_at deps.contact_id t.messages) e.clock);
            text = message;
            is_accepted = is_accepted e.provider_message_id;
          }
          ∷ t.calls;
    })

    -- after the session that reserves the sequence
    abbrev pub send_reserved :
        (sequence : ℕ) → String → List Message × (Message × Bool) → Turn → Turn
    send_reserved sequence message (messages, (row, created)) t =
        let held = record t {
          messages = messages;
          reserved_sequences =
              if has_number sequence t.reserved_sequences
              then t.reserved_sequences
              else sequence ∷ t.reserved_sequences;
        } in
        if created
        then call_twilio sequence message held
        else record_outbound_outcome deduplicated held

    abbrev pub send_numbered : String → Turn × ℕ → Turn
    send_numbered message (t, sequence) =
        if ltb max_visible_outbounds sequence
        then record_outbound_outcome skipped_limit t
        else send_reserved sequence message
            (reserve_interaction_outbound e.new_id e.now deps.contact_id deps.interaction_run_id
              sequence message (t.messages ++ e.arrived))
            t

    unfoldable pub send_visible : String → Option String → Turn → Turn
    unfolding sequence_for has_number
    send_visible body tool_call_id t =
        let message = strip body in
        if is_blank message
        then record_outbound_outcome skipped_empty t
        else send_numbered message (sequence_for tool_call_id t)
