-- ===== src/Confirm/Gate.antt =====
-- What a sent e-mail rests on.
use whats_app_poke.Prelude.{
  ℕ, String, ◌≡◌, refl, subst, sym, ap, ◌∙◌, ◌⊎◌, inl, inr, Bool, ◌&&◌, Option, none, some, List,
  [], ◌∷◌, arith, ◌==◌, str_eq, Bool-cases, some_injective,
}
use whats_app_poke.Payload.{Payload, lookup, as_text}
use whats_app_poke.Table.{
  get, All, Unique, select, stored_rows, All-find, All-select, All-sort_desc, All-map,
}
use whats_app_poke.Integrations.{Integration}
use whats_app_poke.Actions.{PendingAction, send_email, is_listed, list_pending_actions}
use whats_app_poke.Actions.Rows.{Op}
use whats_app_poke.Actions.Lifecycle.{run}
use whats_app_poke.Actions.Claim.{Claims, claim_gate}
use whats_app_poke.Confirm.{
  ProxyRequest, send_draft_request, single, is_email, select_email_action, account_of, execute_send,
  send_draft, confirm_claimed, refuse_claimed, confirm_selected, confirm_staged_email,
  without_selection,
}

-- The one request, and what stands behind it: the row that was claimed for it, its intact payload,
-- the draft it names, and an account to send it from.
pub record Sends (strip : String → String) (hash : Payload → String)
    (integration : Option Integration) (contact_id now : ℕ) (turn_id : String)
    (actions : List PendingAction) (requests : List ProxyRequest) : Type 0 where
  pub action : PendingAction
  pub claimed : PendingAction
  pub claim :
      Claims contact_id send_email turn_id
        (some action.id)
        (some (hash action.payload))
        now
        actions
        claimed
  pub intact : claimed.payload_hash ≡ hash claimed.payload
  pub account : Integration
  pub connected : integration ≡ some account
  pub draft_id : String
  pub names_draft : as_text (lookup "draft_id" claimed.payload) ≡ some draft_id
  pub request : ProxyRequest
  pub built : send_draft_request strip draft_id ≡ some request
  pub only : requests ≡ request ∷ []

-- The requests that follow a claim are none, or one, built from the claimed payload.
pub record OneRequest (strip : String → String) (integration : Option Integration)
    (claimed : PendingAction) (requests : List ProxyRequest) : Type 0 where
  pub account : Integration
  pub connected : integration ≡ some account
  pub draft_id : String
  pub names_draft : as_text (lookup "draft_id" claimed.payload) ≡ some draft_id
  pub request : ProxyRequest
  pub built : send_draft_request strip draft_id ≡ some request
  pub only : requests ≡ request ∷ []

module _ (strip : String → String) (execute : ProxyRequest → Bool) (later : ℕ) where
  execute_send-requests :
      (id : ℕ) (o : Option ProxyRequest) (actions : List PendingAction)
      → ((execute_send execute later id o actions).requests ≡ [])
        ⊎ ((request : ProxyRequest) × (o ≡ some request)
            × ((execute_send execute later id o actions).requests ≡ request ∷ []))
  execute_send-requests id none actions = inl refl
  execute_send-requests id (some request) actions = elim (Bool-cases (execute request)) [
    | inl e ↦ inr (request, refl, rw e refl)
    | inr e ↦ inr (request, refl, rw e refl)
  ]

  send_draft-requests :
      (claimed : PendingAction) (integration : Option Integration) (draft : Option String)
      (actions : List PendingAction)
      → as_text (lookup "draft_id" claimed.payload) ≡ draft
      → ((send_draft strip execute later claimed.id integration draft actions).requests ≡ [])
        ⊎ OneRequest strip integration claimed
            (send_draft strip execute later claimed.id integration draft actions).requests
  send_draft-requests claimed integration none actions e = inl refl
  send_draft-requests claimed none (some draft_id) actions e = inl refl
  send_draft-requests claimed (some account) (some draft_id) actions e =
      elim (execute_send-requests claimed.id (send_draft_request strip draft_id) actions) [
        | inl no_request ↦ inl no_request
        | inr (request, built, only) ↦ inr (record {
          account = account;
          connected = refl;
          draft_id = draft_id;
          names_draft = e;
          request = request;
          built = built;
          only = only;
        })
      ]

-- which row is selected
single-All {ℓ κ} :
    {A : Type ℓ} (P : A → Type κ) (rows : List A) {s : A} → All P rows → single rows ≡ some s → P s
single-All P [] h e = absurd (ground arith)
single-All P (r ∷ []) h e = subst P (some_injective e) h.0
single-All P (r ∷ t ∷ rows) h e = absurd (ground arith)

abbrev Stored : List PendingAction → PendingAction → Type 0
Stored actions r = get PendingAction.id r.id actions ≡ some r

select_email_action-All :
    (actions rows : List PendingAction) (action_id : Option ℕ) {s : PendingAction}
    → All (Stored actions) rows
    → select_email_action rows action_id ≡ some s
    → Stored actions s
unfolding select_email_action
select_email_action-All actions rows none h e =
    (single-All _ (select is_email rows) (All-select (Stored actions) is_email rows h) e).0
select_email_action-All actions rows (some i) h e =
    (All-find (Stored actions) (λ r. r.id == i && is_email r) rows h e).0

listed-Stored :
    (contact_id now : ℕ) (actions : List PendingAction)
    → Unique PendingAction.id actions
    → All (Stored actions) (list_pending_actions contact_id now actions)
unfolding list_pending_actions
listed-Stored contact_id now actions u =
    All-sort_desc PendingAction.created_at (Stored actions)
      (select (is_listed contact_id now) actions)
      (All-map _
        (All-select (Stored actions) (is_listed contact_id now) actions
          (stored_rows PendingAction.id actions u))
        (λ r h. h.0))

refuse_claimed-requests :
    (now : ℕ) (p : List PendingAction × Option PendingAction) → (refuse_claimed now p).requests ≡ []
unfolding refuse_claimed
refuse_claimed-requests now (actions, none) = refl
refuse_claimed-requests now (actions, some claimed) = refl

without_selection-requests :
    (candidates actions : List PendingAction) → (without_selection candidates actions).requests ≡ []
without_selection-requests [] actions = refl
without_selection-requests (r ∷ rows) actions = refl

confirm_claimed-requests :
    (strip : String → String) (execute : ProxyRequest → Bool) (integration : Option Integration)
    (meanwhile : List Op) (later : ℕ) (p : List PendingAction × Option PendingAction)
    → ((confirm_claimed strip execute integration meanwhile later p).requests ≡ [])
      ⊎ ((s : PendingAction) × (p.1 ≡ some s)
          × OneRequest strip integration s
              (confirm_claimed strip execute integration meanwhile later p).requests)
unfolding confirm_claimed
confirm_claimed-requests strip execute integration meanwhile later (actions, none) = inl refl
confirm_claimed-requests strip execute integration meanwhile later (actions, some claimed) =
    elim (send_draft-requests strip execute later claimed integration _ (run meanwhile actions)
      refl) [ inl no_request ↦ inl no_request | inr one ↦ inr (claimed, refl, one) ]

module _ (strip : String → String) (hash : Payload → String) (before : String → String → Bool)
    (execute : ProxyRequest → Bool) (integrations : List Integration) (meanwhile : List Op)
    (contact_id now later : ℕ) (turn_id : String) where
  abbrev pub Sent : List PendingAction → List ProxyRequest → Type 0
  Sent actions requests =
      (requests ≡ [])
      ⊎ Sends strip hash (account_of before "gmail" contact_id integrations) contact_id now turn_id
          actions requests

  -- the row that is claimed is the one that was selected
  claim-intact :
      (selected : PendingAction) (actions : List PendingAction) {s : PendingAction}
      → Stored actions selected
      → Claims contact_id send_email turn_id
          (some selected.id)
          (some (hash selected.payload))
          now
          actions
          s
      → s.payload_hash ≡ hash s.payload
  claim-intact selected actions {s} at c =
      ap PendingAction.payload_hash c.returned
      ∙ c.same_payload _ refl
      ∙ ap (λ (x : PendingAction). hash x.payload) (sym same_row)
      ∙ sym (ap (λ (x : PendingAction). hash x.payload) c.returned)
    where
      same_row : c.action ≡ selected
      same_row =
          some_injective
            (sym c.stored ∙ ap (λ k. get PendingAction.id k actions) (c.asked_for _ refl) ∙ at)

  selected-Sent :
      (candidates actions : List PendingAction) (o : Option PendingAction)
      (stored : (s : PendingAction) → o ≡ some s → Stored actions s)
      → Unique PendingAction.id actions
      → Sent actions
          (confirm_selected strip hash before execute integrations meanwhile contact_id now later
            turn_id candidates o actions).requests
  unfolding confirm_selected
  selected-Sent candidates actions none stored u =
      inl (without_selection-requests candidates actions)
  selected-Sent candidates actions (some selected) stored u =
      elim (Bool-cases (str_eq (hash selected.payload) selected.payload_hash)) [
        | inr differs ↦ inl (rw differs (refuse_claimed-requests now _))
        | inl agrees ↦
            rw agrees
              (elim (confirm_claimed-requests strip execute
                (account_of before "gmail" contact_id integrations) meanwhile later _) [
                  | inl no_request ↦ inl no_request
                  | inr (s, e, one) ↦
                      let c =
                        claim_gate contact_id send_email turn_id (some selected.id)
                          (some (hash selected.payload)) now actions u e in
                      inr (record {
                        action = selected;
                        claimed = s;
                        claim = c;
                        intact = claim-intact selected actions (stored selected refl) c;
                        account = one.account;
                        connected = one.connected;
                        draft_id = one.draft_id;
                        names_draft = one.names_draft;
                        request = one.request;
                        built = one.built;
                        only = one.only;
                      })
                ])
      ]

  -- A confirmation on a table with unique ids gives the provider no request or exactly one. If one,
  -- the row behind it passed the gate (an e-mail of the contact, pending, in time, staged in another
  -- turn) and is claimed, its payload has the hash under which it was staged, the request sends the
  -- draft that the payload names, and the contact has a connected account.
  pub confirm_staged_email-Sent :
      (action_id : Option ℕ) (actions : List PendingAction)
      → Unique PendingAction.id actions
      → Sent actions
          (confirm_staged_email strip hash before execute integrations meanwhile contact_id now
            later turn_id action_id actions).requests
  unfolding confirm_staged_email
  confirm_staged_email-Sent action_id actions u =
      selected-Sent _ actions _
        (λ s e.
          select_email_action-All actions _ action_id (listed-Stored contact_id now actions u) e)
        u
