-- ===== src/Messages/Reserve.antt =====
-- A visible reply is reserved once, so a retry does not send it again.
use whats_app_poke.Prelude.{
  ℕ, String, ◌≡◌, refl, inl, inr, Bool, true, false, Option, some, List, arith, Option-cases,
}
use whats_app_poke.Table.{find, find-append_new, find-update_where}
use whats_app_poke.Messages.{
  Message, MessageDeliveryState, is_outbound_at, reserved_message, reserve_interaction_outbound,
  with_delivery, update_interaction_outbound_delivery,
}

module _ (contact_id interaction_run_id sequence : ℕ) where
  abbrev own : Message → Bool
  own = is_outbound_at contact_id interaction_run_id sequence

  reserved_own :
      (id now : ℕ) (body : String)
      → own (reserved_message id now contact_id interaction_run_id sequence body) ≡ true
  reserved_own id now body = ground arith

  -- after a reservation its row is found
  pub reserve-found :
      (id now : ℕ) (body : String) (messages : List Message)
      → (let a =
            reserve_interaction_outbound id now contact_id interaction_run_id sequence body
              messages in
          find own a.0 ≡ some a.1.0)
  unfolding reserve_interaction_outbound
  reserve-found id now body messages = elim (Option-cases (find own messages)) [
    | inr (r, e) ↦ rw e (rw e refl)
    | inl e ↦ rw e (find-append_new own messages _ e (reserved_own id now body))
  ]

  -- and a later reservation is refused if a row is found
  pub reserve-refused :
      (id now : ℕ) (body : String) (messages : List Message) {r : Message}
      → find own messages ≡ some r
      → reserve_interaction_outbound id now contact_id interaction_run_id sequence body messages
        ≡ (messages, (r, false))
  unfolding reserve_interaction_outbound
  reserve-refused id now body messages e = rw e refl

  update-found :
      (state : MessageDeliveryState) (provider_message_id : Option String) (messages : List Message)
      {r : Message}
      → find own messages ≡ some r
      → find own
          (update_interaction_outbound_delivery contact_id interaction_run_id sequence state
            provider_message_id messages).0
        ≡ some (with_delivery state provider_message_id r)
  unfolding update_interaction_outbound_delivery
  update-found state provider_message_id messages e = rw e (
      rw (find-update_where own (with_delivery state provider_message_id) (λ x h. h) messages, e)
        refl)

  -- A reply of an interaction run is reserved once: a retry for the same sequence number, with
  -- whatever text, after the delivery of the first was recorded, changes nothing, is told that the
  -- reservation is not its own, and gets the first row with its recorded delivery.
  pub reserve_once :
      (id id' now now' : ℕ) (body body' : String) (state : MessageDeliveryState)
      (provider_message_id : Option String) (messages : List Message)
      → (let a =
            reserve_interaction_outbound id now contact_id interaction_run_id sequence body
              messages in
          let b =
            update_interaction_outbound_delivery contact_id interaction_run_id sequence state
              provider_message_id a.0 in
          reserve_interaction_outbound id' now' contact_id interaction_run_id sequence body' b.0
          ≡ (b.0, (with_delivery state provider_message_id a.1.0, false)))
  reserve_once id id' now now' body body' state provider_message_id messages =
      reserve-refused id' now' body' _
        (update-found state provider_message_id _ (reserve-found id now body messages))
