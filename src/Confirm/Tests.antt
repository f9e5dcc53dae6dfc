-- ===== src/Confirm/Tests.antt =====
-- Confirmations on concrete rows, and the theorems at inputs that meet their hypotheses.
use whats_app_poke.Prelude.{String, ◌≡◌, refl, Bool, true, false, none, some, List, [], ◌∷◌}
use whats_app_poke.Payload.{Payload, str, lookup}
use whats_app_poke.Table.{get, Unique, greatest, select, find, sort_desc, update_by_id}
use whats_app_poke.Integrations.{Integration, new_integration, list_active_integrations}
use whats_app_poke.Actions.{
  PendingAction, send_email, create_event, claimed, with_status, staged, claim_newest,
  claim_pending_action, list_pending_actions,
}
use whats_app_poke.Actions.Lifecycle.{run}
use whats_app_poke.Confirm.{
  ProxyRequest, Confirmed, draft_request, send_draft_request, select_email_action, confirm_claimed,
  confirm_selected, confirm_staged_email,
}
use whats_app_poke.Confirm.Gate.{Sent, confirm_staged_email-Sent}

abbrev same_text : String → String
same_text s = s

abbrev hash : Payload → String
hash _ = "h"

abbrev unordered : String → String → Bool
unordered _ _ = false

abbrev answers : ProxyRequest → Bool
answers _ = true

abbrev email : PendingAction
email = staged hash 2 10 10 7 send_email (("draft_id", str "r-1") ∷ []) "t2" none none

abbrev event : PendingAction
event = staged hash 3 20 20 7 create_event [] "t3" none none

abbrev gmail : Integration
gmail = new_integration 1 5 7 "gmail" (some "ca")

abbrev confirm : List PendingAction → Confirmed
confirm = confirm_staged_email same_text hash unordered answers (gmail ∷ []) [] 7 30 35 "t4" none

-- the e-mail is sent, although an event waits too
sends_draft : (confirm (email ∷ event ∷ [])).requests ≡ draft_request "r-1" ∷ []
unfolding confirm_staged_email confirm_selected list_pending_actions select_email_action select
    sort_desc confirm_claimed claim_pending_action claim_newest greatest update_by_id get run
    list_active_integrations find send_draft_request lookup
sends_draft = refl

email_keys : Unique PendingAction.id (email ∷ event ∷ [])
unfolding get
email_keys = (refl, (refl, tt))

confirm_staged_email-Sent_example :
    Sent same_text hash unordered answers
      (gmail ∷ [])
      []
      7
      30
      35
      "t4"
      (email ∷ event ∷ [])
      (confirm (email ∷ event ∷ [])).requests
confirm_staged_email-Sent_example =
    confirm_staged_email-Sent same_text hash unordered answers (gmail ∷ []) [] 7 30 35 "t4" none
      (email ∷ event ∷ []) email_keys

abbrev held : PendingAction
held = with_status claimed 30 email
