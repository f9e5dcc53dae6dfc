-- ===== src/Messages/Inbound.antt =====
-- A webhook that is delivered twice is stored once.
use whats_app_poke.Prelude.{
  ℕ, String, ◌≡◌, refl, inl, inr, true, false, none, some, List, [], ◌∷◌, ◌++◌, Option-cases,
  str_eq, eq_iff,
}
use whats_app_poke.Table.{find, find-append_new}
use whats_app_poke.Messages.{
  Message, InboundFields, has_provider_id, inbound_message, insert_inbound_message,
}

str_eq_refl : (p : String) → str_eq p p ≡ true
str_eq_refl p = (eq_iff p p).1 refl

found_after :
    (provider_message_id : String) (new : Message) (messages : List Message)
    → new.provider_message_id ≡ some provider_message_id
    → find (has_provider_id provider_message_id) messages ≡ none
    → find (has_provider_id provider_message_id) (messages ++ new ∷ []) ≡ some new
found_after provider_message_id new messages own e =
    find-append_new (has_provider_id provider_message_id) messages new e
      (rw own (str_eq_refl provider_message_id))

-- A second delivery of a webhook, at whatever time and with whatever content, stores nothing and
-- is reported as a duplicate, whether or not the first one was.
pub insert_inbound_once :
    (id id' now now' contact_id contact_id' : ℕ) (body body' provider_message_id : String)
    (fields fields' : InboundFields) (messages : List Message)
    → (let first =
          insert_inbound_message id now contact_id body provider_message_id fields messages in
        insert_inbound_message id' now' contact_id' body' provider_message_id fields' first.0
        ≡ (first.0, false))
unfolding insert_inbound_message
insert_inbound_once id id' now now' contact_id contact_id' body body' provider_message_id fields
      fields' messages =
    elim (Option-cases (find (has_provider_id provider_message_id) messages)) [
      | inr (r, e) ↦ rw e (rw e refl)
      | inl e ↦ rw e (
          rw
            (found_after provider_message_id
              (inbound_message id now contact_id body provider_message_id fields) messages refl e)
            refl)
    ]
