-- ===== src/Confirm.antt =====
-- The confirmed send of a staged e-mail: app/services/email_confirmation.py, and the request it
-- sends, of app/integrations/gmail.py. `strip` stands for Python's `str.strip`, `execute` for the
-- adapter of the provider (false: it raised `AuthenticatedProxyError`), and `meanwhile` for the
-- statements of other sessions between the claim and the session that settles it. The texts for
-- the model are left out.
pub mod Settle
pub mod Gate
mod Tests
use Prim.Native.String.{count}
use whats_app_poke.Prelude.{
  ℕ, String, Bool, true, false, ◌&&◌, not, ◌||◌, Option, none, some, List, [], ◌∷◌, ltb, ◌==◌,
  str_eq, if◌then◌else◌,
}
use whats_app_poke.Payload.{Payload, lookup, as_text}
use whats_app_poke.Table.{find, select}
use whats_app_poke.Integrations.{Integration, list_active_integrations}
use whats_app_poke.Actions.{
  PendingAction, PendingActionKind, send_email, same_kind, claim_pending_action,
  list_pending_actions, discard_pending_action, release_pending_action, fail_pending_action,
}
use whats_app_poke.Actions.Rows.{Op}
use whats_app_poke.Actions.Lifecycle.{run}

pub data ConfirmationState : Type 0 where
  absent ambiguous sent retryable_failure invalid : ConfirmationState

pub record ProxyRequest : Type 0 where
  pub endpoint : String
  pub method : String
  pub body : List (String × String)

-- The table afterwards, the outcome, and the requests that were given to the adapter.
pub record Confirmed : Type 0 where
  pub actions : List PendingAction
  pub state : ConfirmationState
  pub action_id : Option ℕ
  pub requests : List ProxyRequest

abbrev pub draft_request : String → ProxyRequest
draft_request clean_id = record {
  endpoint = "/gmail/v1/users/me/drafts/send";
  method = "POST";
  body = ("id", clean_id) ∷ [];
}

unfoldable pub send_draft_request : (String → String) → String → Option ProxyRequest
send_draft_request strip draft_id =
    let clean_id = strip draft_id in
    if str_eq clean_id "" || ltb 256 (count clean_id) then none else some (draft_request clean_id)

abbrev pub single {ℓ} : {A : Type ℓ} → List A → Option A
single (a ∷ []) = some a
single _ = none

abbrev pub is_email : PendingAction → Bool
is_email r = same_kind r.kind send_email

unfoldable pub select_email_action : List PendingAction → Option ℕ → Option PendingAction
select_email_action rows (some action_id) = find (λ r. r.id == action_id && is_email r) rows
select_email_action rows none = single (select is_email rows)

-- the `try` around the adapter
abbrev pub execute_send :
    (ProxyRequest → Bool) → (later id : ℕ) → Option ProxyRequest → List PendingAction → Confirmed
execute_send execute later id none actions = record {
  actions = release_pending_action id later actions;
  state = retryable_failure;
  action_id = some id;
  requests = [];
}
execute_send execute later id (some request) actions =
    if execute request
    then record {
      actions = discard_pending_action id later actions;
      state = sent;
      action_id = some id;
      requests = request ∷ [];
    }
    else record {
      actions = release_pending_action id later actions;
      state = retryable_failure;
      action_id = some id;
      requests = request ∷ [];
    }

abbrev pub send_with :
    (String → String)
    → (ProxyRequest → Bool)
    → (later id : ℕ) → Option Integration
    → String
    → List PendingAction
    → Confirmed
send_with strip execute later id none draft_id actions = record {
  actions = release_pending_action id later actions;
  state = retryable_failure;
  action_id = some id;
  requests = [];
}
send_with strip execute later id (some integration) draft_id actions =
    execute_send execute later id (send_draft_request strip draft_id) actions

abbrev pub send_draft :
    (String → String)
    → (ProxyRequest → Bool)
    → (later id : ℕ) → Option Integration
    → Option String
    → List PendingAction
    → Confirmed
send_draft strip execute later id integration none actions = record {
  actions = fail_pending_action id later actions;
  state = invalid;
  action_id = some id;
  requests = [];
}
send_draft strip execute later id integration (some draft_id) actions =
    send_with strip execute later id integration draft_id actions

-- the first connected account of a provider
abbrev pub account_of :
    (String → String → Bool) → String → ℕ → List Integration → Option Integration
account_of before provider contact_id integrations =
    find (λ r. str_eq r.provider provider) (list_active_integrations before contact_id integrations)

-- what follows the claim
unfoldable pub confirm_claimed :
    (String → String)
    → (ProxyRequest → Bool)
    → Option Integration
    → List Op
    → (later : ℕ) → List PendingAction × Option PendingAction
    → Confirmed
confirm_claimed strip execute integration meanwhile later (actions, none) = record {
  actions = actions;
  state = absent;
  action_id = none;
  requests = [];
}
confirm_claimed strip execute integration meanwhile later (actions, some claimed) =
    send_draft strip execute later claimed.id integration
      (as_text (lookup "draft_id" claimed.payload)) (run meanwhile actions)

-- the payload is not the one that was staged
unfoldable pub refuse_claimed : (now : ℕ) → List PendingAction × Option PendingAction → Confirmed
refuse_claimed now (actions, none) = record {
  actions = actions;
  state = invalid;
  action_id = none;
  requests = [];
}
refuse_claimed now (actions, some claimed) = record {
  actions = fail_pending_action claimed.id now actions;
  state = invalid;
  action_id = none;
  requests = [];
}

abbrev pub without_selection : List PendingAction → List PendingAction → Confirmed
without_selection [] actions = record {
  actions = actions;
  state = absent;
  action_id = none;
  requests = [];
}
without_selection (r ∷ rows) actions = record {
  actions = actions;
  state = ambiguous;
  action_id = none;
  requests = [];
}

module _ (strip : String → String) (hash : Payload → String) (before : String → String → Bool)
    (execute : ProxyRequest → Bool) (integrations : List Integration) (meanwhile : List Op)
    (contact_id now later : ℕ) (turn_id : String) where
  abbrev pub claim_selected :
      PendingAction → String → List PendingAction → List PendingAction × Option PendingAction
  claim_selected selected payload_hash actions =
      claim_pending_action contact_id send_email turn_id (some selected.id) (some payload_hash) now
        actions

  unfoldable pub confirm_selected :
      List PendingAction → Option PendingAction → List PendingAction → Confirmed
  unfolding confirm_claimed refuse_claimed
  confirm_selected candidates none actions = without_selection candidates actions
  confirm_selected candidates (some selected) actions =
      let expected_hash = hash selected.payload in
      if str_eq expected_hash selected.payload_hash
      then confirm_claimed strip execute (account_of before "gmail" contact_id integrations)
          meanwhile later (claim_selected selected expected_hash actions)
      else refuse_claimed now (claim_selected selected selected.payload_hash actions)

  unfoldable pub confirm_staged_email : Option ℕ → List PendingAction → Confirmed
  unfolding confirm_selected
  confirm_staged_email action_id actions =
      let candidates = list_pending_actions contact_id now actions in
      confirm_selected candidates (select_email_action candidates action_id) actions
