-- ===== src/Notify/Tests.antt =====
-- Notices on concrete rows, and the theorem at an input that meets its hypotheses.
use whats_app_poke.Prelude.{ℕ, String, ◌≡◌, refl, false, Option, some, [], ◌∷◌, arith}
use whats_app_poke.Payload.{str, lookup, non_empty_text, payload_str}
use whats_app_poke.Table.{find}
use whats_app_poke.Jobs.{Job, integration_notify, running}
use whats_app_poke.Messages.{outbound_message, insert_outbound_message, outbound_exists_since}
use whats_app_poke.Notify.{
  Attempt, lookup_notice, get_notice, integration_notify_body, run_integration_notify,
}
use whats_app_poke.Notify.Retry.{notify_once}

abbrev same_text : String → String
same_text s = s

abbrev phone_of : ℕ → Option String
phone_of contact_id = some "5511"

abbrev job : Job
job = record {
  id = 1;
  contact_id = 7;
  kind = integration_notify;
  payload = ("provider", str "notion") ∷ [];
  run_at = 50;
  status = running;
  attempts = 0;
  max_attempts = 5;
  locked_at = some 50;
  created_at = 40;
}

abbrev taken : Attempt
taken = record { new_id = 1; now = 60; send = λ _. some "SM1" }

abbrev again : Attempt
again = record { new_id = 2; now = 70; send = λ _. some "SM2" }

abbrev own_text : String
own_text = "Notion conectado. Já pode pedir pra buscar ou criar páginas."

known_notice : integration_notify_body same_text job.payload ≡ own_text
unfolding integration_notify_body payload_str lookup non_empty_text get_notice lookup_notice
known_notice = refl

-- a send that is taken and not stored, since the id of the provider is taken, is repeated
sent_twice :
    (let first =
        run_integration_notify same_text phone_of taken job
          (outbound_message 9 10 8 "hi" "SM1" ∷ []) in
      (first.texts ≡ own_text ∷ [])
      × ((run_integration_notify same_text phone_of again job first.messages).texts
          ≡ own_text ∷ []))
unfolding run_integration_notify integration_notify_body payload_str lookup non_empty_text
    get_notice lookup_notice outbound_exists_since insert_outbound_message find
sent_twice = (refl, refl)

notify_once_example :
    (let first = run_integration_notify same_text phone_of taken job [] in
      run_integration_notify same_text phone_of again job first.messages
      ≡ record { messages = first.messages; texts = []; raised = false })
unfolding run_integration_notify integration_notify_body payload_str lookup non_empty_text
    get_notice lookup_notice outbound_exists_since insert_outbound_message find
notify_once_example = notify_once same_text phone_of job taken again [] (omega arith) refl
