-- ===== src/Messages/Tests.antt =====
-- Messages on concrete rows, and the theorems at inputs that meet their hypotheses.
use whats_app_poke.Prelude.{
  ◌≢◌, length, ◌≤◌, String, ◌≡◌, refl, ◌⊎◌, true, false, none, some, List, [], ◌∷◌, arith,
}
use whats_app_poke.Table.{Unique, get, select, sort_desc, All}
use whats_app_poke.Messages.{
  Message, InboundFields, Turn, turn, delivered, inbound_message, outbound_message, last_turns,
  drop_oldest, load_recent_messages, total_chars, insert_inbound_message,
  reserve_interaction_outbound, update_interaction_outbound_delivery, with_delivery,
}
use whats_app_poke.Messages.History.{
  Kept, drop_oldest_lem, load_recent_messages-bounds, load_recent_messages-scope,
}
use whats_app_poke.Messages.Inbound.{insert_inbound_once}
use whats_app_poke.Messages.Reserve.{reserve_once}

abbrev no_fields : InboundFields
no_fields = record {
  account_sid = none;
  from_address = none;
  to_address = none;
  num_media = none;
  media_url = none;
  media_content_type = none;
  wa_id = none;
  sms_status = none;
  api_version = none;
  num_segments = none;
  profile_name = none;
}

abbrev hello : Message
hello = inbound_message 1 10 7 "hello" "SM1" no_fields

abbrev answer : Message
answer = outbound_message 2 20 7 "hi" "SM2"

abbrev stranger : Message
stranger = inbound_message 3 30 8 "hey" "SM3" no_fields

abbrev chat : List Message
chat = hello ∷ answer ∷ stranger ∷ []

abbrev same_text : String → String
same_text s = s

-- oldest first, and only the contact's own
history_order : load_recent_messages same_text 7 20 8000 chat ≡ (true, "hello") ∷ (false, "hi") ∷ []
unfolding load_recent_messages select sort_desc last_turns drop_oldest
history_order = refl

-- the bound on the characters drops the oldest
history_short : load_recent_messages same_text 7 20 4 chat ≡ (false, "hi") ∷ []
unfolding load_recent_messages select sort_desc last_turns drop_oldest
history_short = refl

drop_oldest_lem_example :
    Kept 4
      ((true, "hello") ∷ (false, "hi") ∷ [])
      (drop_oldest 4 7 ((true, "hello") ∷ (false, "hi") ∷ []))
drop_oldest_lem_example = drop_oldest_lem 4 7 ((true, "hello") ∷ (false, "hi") ∷ []) refl

load_recent_messages-bounds_example :
    (length (load_recent_messages same_text 7 1 4 chat) ≤ 1)
    × ((total_chars (load_recent_messages same_text 7 1 4 chat) ≤ 4)
        ⊎ (length (load_recent_messages same_text 7 1 4 chat) ≤ 1))
load_recent_messages-bounds_example = load_recent_messages-bounds same_text 7 1 4 chat

chat_keys : Unique Message.id chat
unfolding get
chat_keys = ground arith

load_recent_messages-scope_example :
    All
      (λ (t : Turn).
        (r : Message) × (t ≡ turn r)
        × (get Message.id r.id chat ≡ some r)
        × (r.contact_id ≡ 7)
        × (same_text r.body ≢ ""))
      (load_recent_messages same_text 7 20 8000 chat)
load_recent_messages-scope_example = load_recent_messages-scope same_text 7 20 8000 chat chat_keys

insert_inbound_once_example :
    (let first = insert_inbound_message 4 40 7 "again" "SM4" no_fields chat in
      insert_inbound_message 5 50 7 "again" "SM4" no_fields first.0 ≡ (first.0, false))
insert_inbound_once_example =
    insert_inbound_once 4 5 40 50 7 7 "again" "again" "SM4" no_fields no_fields chat

reserve_once_example :
    (let a = reserve_interaction_outbound 4 40 7 100 1 "ok" chat in
      let b = update_interaction_outbound_delivery 7 100 1 delivered (some "SM9") a.0 in
      reserve_interaction_outbound 5 50 7 100 1 "okay" b.0
      ≡ (b.0, (with_delivery delivered (some "SM9") a.1.0, false)))
reserve_once_example = reserve_once 7 100 1 4 5 40 50 "ok" "okay" delivered (some "SM9") chat
