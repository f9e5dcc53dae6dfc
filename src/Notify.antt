-- ===== src/Notify.antt =====
-- The notice of a connected account: app/worker/handlers/integration_notify.py, with the notices of
-- app/integrations/providers.py. `normalize` stands for `strip().lower()` of Python, `phone_of` for
-- the contact of a job, `send` for Twilio (none: it raised). The handler runs under the lock of the
-- contact, so it is one step.
use whats_app_poke.Prelude.{
  ℕ, String, Bool, true, false, Option, none, some, List, [], ◌∷◌, str_eq, if◌then◌else◌,
}
use whats_app_poke.Payload.{Payload, payload_str}
use whats_app_poke.Jobs.{Job}
use whats_app_poke.Messages.{Message, insert_outbound_message, outbound_exists_since}
pub mod Retry
mod Tests

abbrev pub integration_notify_reply : String
integration_notify_reply = "Conectado ✓ volta pro WhatsApp."

-- the slugs of the registry, with their notices
abbrev pub notices : List (String × String)
notices =
    ("gmail", "Gmail conectado. Já pode pedir pra ler ou redigir e-mails.")
    ∷ ("googlecalendar", "Google Agenda conectada. Já pode pedir a agenda ou criar eventos.")
    ∷ ("googledrive", "Google Drive conectado. Já pode pedir pra buscar arquivos.")
    ∷ ("googlesheets", "Planilhas Google conectadas. Já pode pedir pra ler ou atualizar.")
    ∷ ("notion", "Notion conectado. Já pode pedir pra buscar ou criar páginas.")
    ∷ ("trello", "Trello conectado. Já pode pedir pra ver boards e cards.")
    ∷ ("clickup", "ClickUp conectado. Já pode pedir pra ver tarefas e listas.")
    ∷ []

unfoldable pub lookup_notice : String → List (String × String) → Option String
lookup_notice slug [] = none
lookup_notice slug ((key, body) ∷ rows) =
    if str_eq key slug then some body else lookup_notice slug rows

-- none: `get_provider` raised `UnknownProvider`
unfoldable pub get_notice : (String → String) → String → Option String
unfolding lookup_notice
get_notice normalize slug = lookup_notice (normalize slug) notices

abbrev pub or_default : Option String → String
or_default none = integration_notify_reply
or_default (some body) = body

abbrev pub notice : (String → String) → Option String → String
notice normalize none = integration_notify_reply
notice normalize (some provider) = or_default (get_notice normalize provider)

unfoldable pub integration_notify_body : (String → String) → Payload → String
integration_notify_body normalize payload = notice normalize (payload_str payload "provider")

-- What a try of the handler has done: the messages, the texts that Twilio took, and whether it raised.
pub record Tried : Type 0 where
  pub messages : List Message
  pub texts : List String
  pub raised : Bool

-- what one try needs of its surroundings
pub record Attempt : Type 0 where
  pub new_id : ℕ
  pub now : ℕ
  pub send : String → Option String

abbrev pub stored : Option (List Message) → String → List Message → Tried
stored none body messages = record { messages = messages; texts = body ∷ []; raised = true }
stored (some after) body messages = record { messages = after; texts = body ∷ []; raised = false }

abbrev pub after_send : Attempt → (contact_id : ℕ) → String → Option String → List Message → Tried
after_send t contact_id body none messages = record {
  messages = messages;
  texts = [];
  raised = true;
}
after_send t contact_id body (some out_id) messages =
    stored (insert_outbound_message t.new_id t.now contact_id body out_id messages) body messages

abbrev pub notify : Attempt → Job → String → Option String → List Message → Tried
notify t job body none messages = record { messages = messages; texts = []; raised = true }
notify t job body (some phone) messages =
    if outbound_exists_since job.contact_id body job.created_at messages
    then record { messages = messages; texts = []; raised = false }
    else after_send t job.contact_id body (t.send body) messages

unfoldable pub run_integration_notify :
    (String → String) → (ℕ → Option String) → Attempt → Job → List Message → Tried
unfolding integration_notify_body
run_integration_notify normalize phone_of t job messages =
    notify t job (integration_notify_body normalize job.payload) (phone_of job.contact_id) messages
