-- ===== src/Confirm/Settle.antt =====
-- What a confirmation leaves behind.
use whats_app_poke.Prelude.{ℕ, String, ◌≡◌, Bool, true, false, Option, none, some, List, [], ◌∷◌}
use whats_app_poke.Table.{get}
use whats_app_poke.Integrations.{Integration}
use whats_app_poke.Actions.{
  PendingAction, PendingActionStatus, pending, executed, failed, with_status,
}
use whats_app_poke.Confirm.{
  ProxyRequest, Confirmed, ConfirmationState, sent, invalid, retryable_failure, send_draft_request,
}

-- The row of the claimed action is in this status, with its other columns as they were but the time
-- of the update; the confirmation answers this state, and these requests have gone out.
pub record LeftAs (status : PendingActionStatus) (answer : ConfirmationState)
    (requests : List ProxyRequest) (later : ℕ) (r : PendingAction) (c : Confirmed) : Type 0 where
  pub row : get PendingAction.id r.id c.actions ≡ some (with_status status later r)
  pub answers : c.state ≡ answer
  pub names : c.action_id ≡ some r.id
  pub sends : c.requests ≡ requests

-- What becomes of a claimed action that names this draft, with this account.
pub data Settles (strip : String → String) (execute : ProxyRequest → Bool)
    (integration : Option Integration) (draft : Option String) (later : ℕ) (r : PendingAction)
    (c : Confirmed) : Type 0 where
  no_draft :
      draft ≡ none
      → LeftAs failed invalid [] later r c
      → Settles strip execute integration draft later r c
  no_account :
      (draft_id : String)
      → draft ≡ some draft_id
      → integration ≡ none
      → LeftAs pending retryable_failure [] later r c
      → Settles strip execute integration draft later r c
  no_request :
      (draft_id : String) (account : Integration)
      → draft ≡ some draft_id
      → integration ≡ some account
      → send_draft_request strip draft_id ≡ none
      → LeftAs pending retryable_failure [] later r c
      → Settles strip execute integration draft later r c
  answered :
      (draft_id : String) (account : Integration) (request : ProxyRequest)
      → draft ≡ some draft_id
      → integration ≡ some account
      → send_draft_request strip draft_id ≡ some request
      → (execute request ≡ true → LeftAs executed sent (request ∷ []) later r c)
      → (execute request ≡ false → LeftAs pending retryable_failure (request ∷ []) later r c)
      → Settles strip execute integration draft later r c
