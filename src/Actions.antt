-- ===== src/Actions.antt =====
-- Staged actions that wait for a confirmation: app/database/models/pending_action.py and the last
-- part of app/db/integrations.py. `hash` stands for SHA-256 of the payload's canonical JSON.
pub mod Rows
pub mod Claim
pub mod Kept
pub mod Lifecycle
pub mod Overlap
pub mod Once
mod Tests
use whats_app_poke.Prelude.{
  ℕ, ◌+◌, ◌*◌, String, Bool, true, false, ◌&&◌, not, Option, none, some, List, [], ◌∷◌, ◌++◌, ltb,
  leb, ◌==◌, str_eq, if◌then◌else◌, minute,
}
use whats_app_poke.Payload.{Payload}
use whats_app_poke.Table.{update_where, count, greatest, select, sort_desc, update_by_id}

pub data PendingActionKind : Type 0 where
  send_email create_event : PendingActionKind

pub data PendingActionStatus : Type 0 where
  pending claimed executed cancelled expired failed : PendingActionStatus

pub record PendingAction : Type 0 where
  pub id : ℕ
  pub contact_id : ℕ
  pub kind : PendingActionKind
  pub payload : Payload
  pub payload_hash : String
  pub status : PendingActionStatus
  pub created_turn_id : Option String
  pub source_interaction_run_id : Option ℕ
  pub source_execution_run_id : Option ℕ
  pub expires_at : ℕ
  pub created_at : ℕ
  pub updated_at : ℕ

abbrev pub same_kind : PendingActionKind → PendingActionKind → Bool
same_kind send_email send_email = true
same_kind create_event create_event = true
same_kind _ _ = false

abbrev pub is_pending : PendingActionStatus → Bool
is_pending pending = true
is_pending _ = false

abbrev pub is_claimed : PendingActionStatus → Bool
is_claimed claimed = true
is_claimed _ = false

-- pending or claimed
abbrev pub is_open : PendingActionStatus → Bool
is_open pending = true
is_open claimed = true
is_open _ = false

abbrev pub pending_action_ttl : ℕ
pending_action_ttl = 15 * minute

abbrev pub with_status : PendingActionStatus → ℕ → PendingAction → PendingAction
with_status status now r = record r { status = status; updated_at = now }

abbrev pub is_open_of : ℕ → PendingActionKind → PendingAction → Bool
is_open_of contact_id kind r =
    r.contact_id == contact_id && (same_kind r.kind kind && is_open r.status)

-- The staged row. `clock` is the application's clock, `now` the database's.
abbrev pub staged :
    (Payload → String)
    → (new_id now clock contact_id : ℕ) → PendingActionKind
    → Payload
    → String
    → Option ℕ
    → Option ℕ
    → PendingAction
staged hash new_id now clock contact_id kind payload turn_id interaction_run execution_run =
    record {
      id = new_id;
      contact_id = contact_id;
      kind = kind;
      payload = payload;
      payload_hash = hash payload;
      status = pending;
      created_turn_id = some turn_id;
      source_interaction_run_id = interaction_run;
      source_execution_run_id = execution_run;
      expires_at = clock + pending_action_ttl;
      created_at = now;
      updated_at = now;
    }

-- the older proposals of the contact and the kind are cancelled
unfoldable pub cancel_open :
    (now contact_id : ℕ) → PendingActionKind → List PendingAction → List PendingAction
cancel_open now contact_id kind actions =
    update_where (is_open_of contact_id kind) (with_status cancelled now) actions

unfoldable pub insert_staged :
    (Payload → String)
    → (new_id now clock contact_id : ℕ) → PendingActionKind
    → Payload
    → String
    → Option ℕ
    → Option ℕ
    → List PendingAction
    → List PendingAction
insert_staged hash new_id now clock contact_id kind payload turn_id interaction_run execution_run
      actions =
    actions
    ++ staged hash new_id now clock contact_id kind payload turn_id interaction_run execution_run
      ∷ []

-- An UPDATE, then an INSERT. No lock and no index keeps other sessions away from the table between
-- the two: `meanwhile` is what they do there.
unfoldable pub create_pending_action :
    (Payload → String)
    → (new_id now clock contact_id : ℕ) → PendingActionKind
    → Payload
    → String
    → Option ℕ
    → Option ℕ
    → (List PendingAction → List PendingAction)
    → List PendingAction
    → List PendingAction
unfolding cancel_open insert_staged
create_pending_action hash new_id now clock contact_id kind payload turn_id interaction_run
      execution_run meanwhile actions =
    insert_staged hash new_id now clock contact_id kind payload turn_id interaction_run
      execution_run (meanwhile (cancel_open now contact_id kind actions))

-- `created_turn_id IS DISTINCT FROM turn_id`
abbrev pub is_distinct : Option String → String → Bool
is_distinct none turn_id = true
is_distinct (some created) turn_id = not (str_eq created turn_id)

-- a condition that is left out if its argument is None
abbrev pub unless_none {ℓ} : {A : Type ℓ} → Option A → (A → Bool) → Bool
unless_none none test = true
unless_none (some a) test = test a

abbrev pub is_claimable :
    (contact_id : ℕ)
    → PendingActionKind
    → String
    → Option ℕ
    → Option String
    → (now : ℕ) → PendingAction
    → Bool
is_claimable contact_id kind turn_id action_id payload_hash now r =
    (r.contact_id == contact_id
      && (same_kind r.kind kind
          && (is_pending r.status
              && (ltb now r.expires_at && is_distinct r.created_turn_id turn_id))))
    && (unless_none action_id (λ i. r.id == i)
        && unless_none payload_hash (λ h. str_eq r.payload_hash h))

unfoldable pub claim_newest :
    ℕ → Option PendingAction → List PendingAction → List PendingAction × Option PendingAction
claim_newest now none actions = (actions, none)
claim_newest now (some newest) actions =
    update_by_id PendingAction.id newest.id (λ r. is_pending r.status) (with_status claimed now)
      actions

unfoldable pub claim_pending_action :
    (contact_id : ℕ)
    → PendingActionKind
    → String
    → Option ℕ
    → Option String
    → (now : ℕ) → List PendingAction
    → List PendingAction × Option PendingAction
unfolding claim_newest
claim_pending_action contact_id kind turn_id action_id payload_hash now actions =
    claim_newest now
      (greatest PendingAction.created_at
        (is_claimable contact_id kind turn_id action_id payload_hash now) actions)
      actions

abbrev pub is_listed : (contact_id now : ℕ) → PendingAction → Bool
is_listed contact_id now r =
    r.contact_id == contact_id && (is_pending r.status && ltb now r.expires_at)

unfoldable pub list_pending_actions : (contact_id now : ℕ) → List PendingAction → List PendingAction
list_pending_actions contact_id now actions =
    sort_desc PendingAction.created_at (select (is_listed contact_id now) actions)

-- `UPDATE pending_action SET status WHERE id = action_id AND status = 'claimed'`
abbrev pub settle :
    PendingActionStatus → (action_id now : ℕ) → List PendingAction → List PendingAction
settle status action_id now actions =
    (update_by_id PendingAction.id action_id (λ r. is_claimed r.status) (with_status status now)
      actions).0

unfoldable pub discard_pending_action :
    (action_id now : ℕ) → List PendingAction → List PendingAction
discard_pending_action = settle executed

unfoldable pub release_pending_action :
    (action_id now : ℕ) → List PendingAction → List PendingAction
release_pending_action = settle pending

unfoldable pub fail_pending_action : (action_id now : ℕ) → List PendingAction → List PendingAction
fail_pending_action = settle failed

abbrev pub is_past : ℕ → PendingAction → Bool
is_past now r = is_pending r.status && leb r.expires_at now

-- The result is the number of rows written.
unfoldable pub expire_pending_actions : ℕ → List PendingAction → List PendingAction × ℕ
expire_pending_actions now actions =
    (update_where (is_past now) (with_status expired now) actions, count (is_past now) actions)
