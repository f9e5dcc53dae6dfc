-- ===== src/Messages.antt =====
-- The messages of a conversation: app/database/models/message.py, app/db/messages.py and the
-- outbound reservations at the end of app/db/executions.py. `trim` stands for SQL's `trim`. A
-- contact named in a message exists, so that an insert can only break a unique index.
use Prim.Native.String.{count}
use whats_app_poke.Prelude.{
  ℕ, zero, suc, ◌+◌, ◌-◌, ◌*◌, String, Bool, true, false, ◌&&◌, not, Option, none, some, List, [],
  ◌∷◌, ◌++◌, ltb, leb, ◌==◌, str_eq, if◌then◌else◌, hour, is_some,
}
use whats_app_poke.Table.{find, select, sort_desc, update_where, greatest}
pub mod History
pub mod Inbound
pub mod Reserve
mod Tests

pub data MessageDirection : Type 0 where
  inbound outbound : MessageDirection

pub data MessageDeliveryState : Type 0 where
  reserved delivered failed : MessageDeliveryState

-- the columns that only a webhook fills
pub record InboundFields : Type 0 where
  pub account_sid : Option String
  pub from_address : Option String
  pub to_address : Option String
  pub num_media : Option ℕ
  pub media_url : Option String
  pub media_content_type : Option String
  pub wa_id : Option String
  pub sms_status : Option String
  pub api_version : Option String
  pub num_segments : Option ℕ
  pub profile_name : Option String

pub record Message : Type 0 where
  pub id : ℕ
  pub contact_id : ℕ
  pub direction : MessageDirection
  pub body : String
  pub provider_message_id : Option String
  pub fields : Option InboundFields
  pub interaction_run_id : Option ℕ
  pub outbound_sequence : Option ℕ
  pub delivery_state : Option MessageDeliveryState
  pub created_at : ℕ

abbrev pub is_out : MessageDirection → Bool
is_out inbound = false
is_out outbound = true

-- `column = value`, which is not true of a null
abbrev pub text_is : Option String → String → Bool
text_is none s = false
text_is (some t) s = str_eq t s

abbrev pub number_is : Option ℕ → ℕ → Bool
number_is none n = false
number_is (some m) n = m == n

abbrev pub has_provider_id : String → Message → Bool
has_provider_id provider_message_id r = text_is r.provider_message_id provider_message_id

abbrev pub inbound_message : (new_id now contact_id : ℕ) → String → String → InboundFields → Message
inbound_message new_id now contact_id body provider_message_id fields = record {
  id = new_id;
  contact_id = contact_id;
  direction = inbound;
  body = body;
  provider_message_id = some provider_message_id;
  fields = some fields;
  interaction_run_id = none;
  outbound_sequence = none;
  delivery_state = none;
  created_at = now;
}

-- an insert under the unique index of the provider's ids; none if it is broken
abbrev pub insert_unless : Option Message → Message → List Message → Option (List Message)
insert_unless (some other) new messages = none
insert_unless none new messages = some (messages ++ new ∷ [])

-- the `try` around the insert
abbrev pub inserted : Option (List Message) → List Message → List Message × Bool
inserted none messages = (messages, false)
inserted (some after) messages = (after, true)

unfoldable pub insert_inbound_message :
    (new_id now contact_id : ℕ)
    → String
    → String
    → InboundFields
    → List Message
    → List Message × Bool
insert_inbound_message new_id now contact_id body provider_message_id fields messages =
    inserted
      (insert_unless (find (has_provider_id provider_message_id) messages)
        (inbound_message new_id now contact_id body provider_message_id fields) messages)
      messages

abbrev pub outbound_message : (new_id now contact_id : ℕ) → String → String → Message
outbound_message new_id now contact_id body provider_message_id = record {
  id = new_id;
  contact_id = contact_id;
  direction = outbound;
  body = body;
  provider_message_id = some provider_message_id;
  fields = none;
  interaction_run_id = none;
  outbound_sequence = none;
  delivery_state = none;
  created_at = now;
}

-- none: the insert raised `IntegrityError`
unfoldable pub insert_outbound_message :
    (new_id now contact_id : ℕ) → String → String → List Message → Option (List Message)
insert_outbound_message new_id now contact_id body provider_message_id messages =
    insert_unless (find (has_provider_id provider_message_id) messages)
      (outbound_message new_id now contact_id body provider_message_id) messages

abbrev pub is_reply_since : (contact_id : ℕ) → String → (since : ℕ) → Message → Bool
is_reply_since contact_id body since r =
    r.contact_id == contact_id
    && (is_out r.direction && (str_eq r.body body && leb since r.created_at))

unfoldable pub outbound_exists_since : (contact_id : ℕ) → String → (since : ℕ) → List Message → Bool
outbound_exists_since contact_id body since messages =
    is_some (find (is_reply_since contact_id body since) messages)

abbrev pub history_limit : ℕ
history_limit = 20

abbrev pub history_max_chars : ℕ
history_max_chars = 8000

-- a turn of the chat: whether it is the user's, and its text
abbrev pub Turn : Type 0
Turn = Bool × String

abbrev pub turn : Message → Turn
turn r = (not (is_out r.direction), r.body)

abbrev pub is_text : (String → String) → ℕ → Message → Bool
is_text trim contact_id r = r.contact_id == contact_id && not (str_eq (trim r.body) "")

-- `rows.limit(n)`, reversed into turns, in front of `later`
unfoldable pub last_turns : ℕ → List Message → List Turn → List Turn
last_turns zero rows later = later
last_turns (suc n) [] later = later
last_turns (suc n) (r ∷ rows) later = last_turns n rows (turn r ∷ later)

abbrev pub total_chars : List Turn → ℕ
total_chars [] = 0
total_chars (m ∷ messages) = count m.1 + total_chars messages

-- the `while` loop with its running total
unfoldable pub drop_oldest : (max_chars total : ℕ) → List Turn → List Turn
drop_oldest max_chars total [] = []
drop_oldest max_chars total (m ∷ []) = m ∷ []
drop_oldest max_chars total (m ∷ n ∷ messages) =
    let rest = drop_oldest max_chars (total - count m.1) (n ∷ messages) in
    if ltb max_chars total then rest else m ∷ n ∷ messages

unfoldable pub load_recent_messages :
    (String → String) → (contact_id limit max_chars : ℕ) → List Message → List Turn
unfolding last_turns drop_oldest
load_recent_messages trim contact_id limit max_chars rows =
    let newest_first = sort_desc Message.created_at (select (is_text trim contact_id) rows) in
    let messages = last_turns limit newest_first [] in
    drop_oldest max_chars (total_chars messages) messages

abbrev pub is_inbound_of : ℕ → Message → Bool
is_inbound_of contact_id r = r.contact_id == contact_id && not (is_out r.direction)

abbrev pub created : Option Message → Option ℕ
created none = none
created (some r) = some r.created_at

unfoldable pub last_inbound_at : ℕ → List Message → Option ℕ
last_inbound_at contact_id messages =
    created (greatest Message.created_at (is_inbound_of contact_id) messages)

-- the row of an outbound of an interaction run
abbrev pub is_outbound_at : (contact_id interaction_run_id sequence : ℕ) → Message → Bool
is_outbound_at contact_id interaction_run_id sequence r =
    r.contact_id == contact_id
    && (is_out r.direction
        && (number_is r.interaction_run_id interaction_run_id
            && number_is r.outbound_sequence sequence))

abbrev pub reserved_message :
    (new_id now contact_id interaction_run_id sequence : ℕ) → String → Message
reserved_message new_id now contact_id interaction_run_id sequence body = record {
  id = new_id;
  contact_id = contact_id;
  direction = outbound;
  body = body;
  provider_message_id = none;
  fields = none;
  interaction_run_id = some interaction_run_id;
  outbound_sequence = some sequence;
  delivery_state = some reserved;
  created_at = now;
}

-- `ON CONFLICT DO NOTHING` on the index of the outbounds, then the row that was in the way
abbrev pub reserve_unless :
    Option Message → Message → List Message → List Message × (Message × Bool)
reserve_unless none new messages = (messages ++ new ∷ [], (new, true))
reserve_unless (some existing) new messages = (messages, (existing, false))

unfoldable pub reserve_interaction_outbound :
    (new_id now contact_id interaction_run_id sequence : ℕ)
    → String
    → List Message
    → List Message × (Message × Bool)
reserve_interaction_outbound new_id now contact_id interaction_run_id sequence body messages =
    reserve_unless (find (is_outbound_at contact_id interaction_run_id sequence) messages)
      (reserved_message new_id now contact_id interaction_run_id sequence body) messages

abbrev pub with_delivery : MessageDeliveryState → Option String → Message → Message
with_delivery state provider_message_id r = record r {
  delivery_state = some state;
  provider_message_id = provider_message_id;
}

-- `found` is the row that the condition names, if there is one
abbrev pub update_found :
    (contact_id interaction_run_id sequence : ℕ)
    → MessageDeliveryState
    → Option String
    → Option Message
    → List Message
    → List Message × Option Message
update_found contact_id interaction_run_id sequence state provider_message_id none messages =
    (messages, none)
update_found contact_id interaction_run_id sequence state provider_message_id (some found)
      messages =
    (
      update_where (is_outbound_at contact_id interaction_run_id sequence)
          (with_delivery state provider_message_id) messages,
      some (with_delivery state provider_message_id found),
    )

-- The provider has not given the id to another message.
unfoldable pub update_interaction_outbound_delivery :
    (contact_id interaction_run_id sequence : ℕ)
    → MessageDeliveryState
    → Option String
    → List Message
    → List Message × Option Message
update_interaction_outbound_delivery contact_id interaction_run_id sequence state
      provider_message_id messages =
    update_found contact_id interaction_run_id sequence state provider_message_id
      (find (is_outbound_at contact_id interaction_run_id sequence) messages) messages
