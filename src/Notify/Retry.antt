-- ===== src/Notify/Retry.antt =====
-- What a second try of the handler does.
use whats_app_poke.Prelude.{
  ℕ, ◌≤◌, String, ◌≡◌, refl, sym, ap, ◌∙◌, inl, inr, true, false, Option, none, some, List, [], ◌∷◌,
  ◌++◌, arith, Bool-cases, Option-cases, is_some, some_injective, eq_iff,
}
use whats_app_poke.Table.{find, find-append_new, find-append_old}
use whats_app_poke.Jobs.{Job}
use whats_app_poke.Messages.{
  Message, is_reply_since, has_provider_id, outbound_message, insert_unless,
  insert_outbound_message, outbound_exists_since,
}
use whats_app_poke.Notify.{
  Tried, Attempt, stored, after_send, notify, integration_notify_body, run_integration_notify,
}

is_own_reply :
    (new_id now contact_id since : ℕ) (body out_id : String)
    → since ≤ now
    → is_reply_since contact_id body since (outbound_message new_id now contact_id body out_id)
      ≡ true
is_own_reply new_id now contact_id since body out_id later =
    ground (arith, later, (eq_iff body body).1 refl)

-- a stored reply is found by the test of the next try
exists_after :
    (new_id now contact_id since : ℕ) (body out_id : String) (messages after : List Message)
    → since ≤ now
    → insert_outbound_message new_id now contact_id body out_id messages ≡ some after
    → outbound_exists_since contact_id body since after ≡ true
unfolding insert_outbound_message outbound_exists_since
exists_after new_id now contact_id since body out_id messages after later e =
    elim (Option-cases (find (has_provider_id out_id) messages)) [
      | inr (r, taken) ↦ absurd (raised (ap (λ o. insert_unless o new messages) (sym taken) ∙ e))
      | inl free ↦ elim (Option-cases (find (is_reply_since contact_id body since) messages)) [
        | inl fresh ↦
            found
              (find-append_new (is_reply_since contact_id body since) messages new fresh
                (is_own_reply new_id now contact_id since body out_id later))
              (ap (λ o. insert_unless o new messages) (sym free) ∙ e)
        | inr (r, old) ↦
            found (find-append_old (is_reply_since contact_id body since) messages (new ∷ []) old)
              (ap (λ o. insert_unless o new messages) (sym free) ∙ e)
      ]
    ]
  where
    new : Message
    new = outbound_message new_id now contact_id body out_id

    raised : none ≡ some after → ⊥
    raised q = cc

    found :
        {r : Message}
        → find (is_reply_since contact_id body since) (messages ++ new ∷ []) ≡ some r
        → some (messages ++ new ∷ []) ≡ some after
        → is_some (find (is_reply_since contact_id body since) after) ≡ true
    found at q =
        ap (λ l. is_some (find (is_reply_since contact_id body since) l)) (sym (some_injective q))
        ∙ ap is_some at

abbrev Quiet : List Message → Tried
Quiet messages = record { messages = messages; texts = []; raised = false }

quiet_if :
    (u : Attempt) (job : Job) (b phone : String) (messages : List Message)
    → outbound_exists_since job.contact_id b job.created_at messages ≡ true
    → notify u job b (some phone) messages ≡ Quiet messages
quiet_if u job b phone messages e = rw e refl

store-second :
    (t u : Attempt) (job : Job) (b phone out_id : String) (messages : List Message)
    (o : Option (List Message))
    → job.created_at ≤ t.now
    → insert_outbound_message t.new_id t.now job.contact_id b out_id messages ≡ o
    → (stored o b messages).raised ≡ false
    → notify u job b (some phone) (stored o b messages).messages
      ≡ Quiet (stored o b messages).messages
store-second t u job b phone out_id messages none later e well = absurd (ground arith)
store-second t u job b phone out_id messages (some after) later e well =
    quiet_if u job b phone after
      (exists_after t.new_id t.now job.contact_id job.created_at b out_id messages after later e)

send-second :
    (t u : Attempt) (job : Job) (b phone : String) (messages : List Message) (o : Option String)
    → job.created_at ≤ t.now
    → (after_send t job.contact_id b o messages).raised ≡ false
    → notify u job b (some phone) (after_send t job.contact_id b o messages).messages
      ≡ Quiet (after_send t job.contact_id b o messages).messages
send-second t u job b phone messages none later well = absurd (ground arith)
send-second t u job b phone messages (some out_id) later well =
    store-second t u job b phone out_id messages _ later refl well

notify-second :
    (t u : Attempt) (job : Job) (b : String) (o : Option String) (messages : List Message)
    → job.created_at ≤ t.now
    → (notify t job b o messages).raised ≡ false
    → notify u job b o (notify t job b o messages).messages
      ≡ Quiet (notify t job b o messages).messages
notify-second t u job b none messages later = λ well. absurd (ground (arith, well))
notify-second t u job b (some phone) messages later =
    elim (Bool-cases (outbound_exists_since job.contact_id b job.created_at messages)) [
      | inl old ↦ rw old (λ well. quiet_if u job b phone messages old)
      | inr fresh ↦ rw fresh (send-second t u job b phone messages (t.send b) later)
    ]

-- A notice that was sent and stored is not sent again: after a try that ended well, at a time after
-- the job was made, another try sends nothing, stores nothing and ends well.
pub notify_once :
    (normalize : String → String) (phone_of : ℕ → Option String) (job : Job) (t u : Attempt)
    (messages : List Message)
    → job.created_at ≤ t.now
    → (run_integration_notify normalize phone_of t job messages).raised ≡ false
    → (let first = run_integration_notify normalize phone_of t job messages in
        run_integration_notify normalize phone_of u job first.messages
        ≡ record { messages = first.messages; texts = []; raised = false })
unfolding run_integration_notify
notify_once normalize phone_of job t u messages later well =
    notify-second t u job (integration_notify_body normalize job.payload) (phone_of job.contact_id)
      messages later well
