-- ===== src/Actions/Rows.antt =====
-- The statements on staged actions as one type, and how a statement may change one row.
use whats_app_poke.Prelude.{
  ℕ, String, ◌≡◌, refl, inl, inr, Bool, true, false, ◌&&◌, Option, none, some, List, arith,
}
use whats_app_poke.Payload.{Payload}
use whats_app_poke.Table.{
  get, get-append_old, update_by_id, update_where, step-update_by_id, step-update_where, greatest,
}
use whats_app_poke.Actions.{
  PendingAction, PendingActionKind, PendingActionStatus, pending, claimed, executed, cancelled,
  expired, failed, is_pending, is_claimed, is_open, is_open_of, with_status, cancel_open,
  insert_staged, is_claimable, claim_newest, claim_pending_action, discard_pending_action,
  release_pending_action, fail_pending_action, is_past, expire_pending_actions,
}

-- A statement on the table of staged actions. The two of create_pending_action are apart: others
-- may come between them.
pub data Op : Type 0 where
  sweep : (now contact_id : ℕ) → PendingActionKind → Op
  stage :
      (Payload → String)
      → (new_id now clock contact_id : ℕ) → PendingActionKind
      → Payload
      → String
      → Option ℕ
      → Option ℕ
      → Op
  claim : (contact_id : ℕ) → PendingActionKind → String → Option ℕ → Option String → (now : ℕ) → Op
  discard release fail : (action_id now : ℕ) → Op
  expire : ℕ → Op

unfoldable pub apply : Op → List PendingAction → List PendingAction
apply (Op.sweep now contact_id kind) actions = cancel_open now contact_id kind actions
apply (Op.stage hash new_id now clock contact_id kind payload turn_id ir er) actions =
    insert_staged hash new_id now clock contact_id kind payload turn_id ir er actions
apply (Op.claim contact_id kind turn_id action_id payload_hash now) actions =
    (claim_pending_action contact_id kind turn_id action_id payload_hash now actions).0
apply (Op.discard i now) actions = discard_pending_action i now actions
apply (Op.release i now) actions = release_pending_action i now actions
apply (Op.fail i now) actions = fail_pending_action i now actions
apply (Op.expire now) actions = (expire_pending_actions now actions).0

-- A statement that makes no claimed action pending again.
abbrev pub is_quiet : Op → Bool
is_quiet (Op.release _ _) = false
is_quiet _ = true

-- The state diagram of a staged action, for one statement.
pub data Edge (op : Op) : PendingActionStatus → PendingActionStatus → Type 0 where
  claim : {s : PendingActionStatus} → is_pending s ≡ true → Edge op s claimed
  cancel : {s : PendingActionStatus} → is_open s ≡ true → Edge op s cancelled
  execute : {s : PendingActionStatus} → is_claimed s ≡ true → Edge op s executed
  fail : {s : PendingActionStatus} → is_claimed s ≡ true → Edge op s failed
  release :
      {s : PendingActionStatus} → is_quiet op ≡ false → is_claimed s ≡ true → Edge op s pending
  expire : {s : PendingActionStatus} → is_pending s ≡ true → Edge op s expired

-- A statement leaves a row as it is, or moves its status along the diagram and writes nothing else
-- but the time of the update.
pub data Move (op : Op) (r s : PendingAction) : Type 0 where
  same : s ≡ r → Move op r s
  move :
      (t : PendingActionStatus) (now : ℕ)
      → Edge op r.status t
      → s ≡ with_status t now r
      → Move op r s

pub both-left : (a b : Bool) → (a && b) ≡ true → a ≡ true
both-left a b e = ground arith

pub both-right : (a b : Bool) → (a && b) ≡ true → b ≡ true
both-right a b e = ground arith

abbrev Moved : Op → ℕ → PendingAction → List PendingAction → Type 0
Moved op i r after = (s : PendingAction) × (get PendingAction.id i after ≡ some s) × Move op r s

module _ (op : Op) (i : ℕ) (actions : List PendingAction) (r : PendingAction)
    (found : get PendingAction.id i actions ≡ some r) where
  by_id-Moved :
      (j : ℕ) (c : PendingAction → Bool) (t : PendingActionStatus) (now : ℕ)
      (edge : c r ≡ true → Edge op r.status t)
      → Moved op i r (update_by_id PendingAction.id j c (with_status t now) actions).0
  by_id-Moved j c t now edge =
      let (s, at, how) =
        step-update_by_id PendingAction.id i actions found j c (with_status t now) (λ x. refl) in
      elim how [
        | inl stays ↦ (s, at, Move.same stays)
        | inr (_, met, e) ↦ (s, at, Move.move t now (edge met) e)
      ]

  by_where-Moved :
      (p : PendingAction → Bool) (t : PendingActionStatus) (now : ℕ)
      (edge : p r ≡ true → Edge op r.status t)
      → Moved op i r (update_where p (with_status t now) actions)
  by_where-Moved p t now edge =
      let (s, at, how) =
        step-update_where PendingAction.id i actions found p (with_status t now) (λ x. refl) in
      elim how [
        | inl stays ↦ (s, at, Move.same stays)
        | inr (met, e) ↦ (s, at, Move.move t now (edge met) e)
      ]

  claim-Moved : (now : ℕ) (o : Option PendingAction) → Moved op i r (claim_newest now o actions).0
  unfolding claim_newest
  claim-Moved now none = (r, found, Move.same refl)
  claim-Moved now (some newest) =
      by_id-Moved newest.id (λ x. is_pending x.status) claimed now (λ met. claim met)

-- Every statement moves each row by one step, and deletes none.
pub action-Move :
    (op : Op) (i : ℕ) (actions : List PendingAction) (r : PendingAction)
    → get PendingAction.id i actions ≡ some r
    → (s : PendingAction) × (get PendingAction.id i (apply op actions) ≡ some s) × Move op r s
unfolding apply cancel_open insert_staged claim_pending_action discard_pending_action
    release_pending_action fail_pending_action expire_pending_actions
action-Move (Op.sweep now contact_id kind) i actions r found =
    by_where-Moved _ i actions r found (is_open_of contact_id kind) cancelled now
      (λ met. cancel (both-right _ _ (both-right _ _ met)))
action-Move (Op.stage hash new_id now clock contact_id kind payload turn_id ir er) i actions r
      found =
    (r, get-append_old PendingAction.id i _ _ found, Move.same refl)
action-Move (Op.claim contact_id kind turn_id action_id payload_hash now) i actions r found =
    claim-Moved _ i actions r found now (
      greatest PendingAction.created_at
        (is_claimable contact_id kind turn_id action_id payload_hash now) actions)
action-Move (Op.discard j now) i actions r found =
    by_id-Moved _ i actions r found j (λ x. is_claimed x.status) executed now (λ met. execute met)
action-Move (Op.release j now) i actions r found =
    by_id-Moved _ i actions r found j (λ x. is_claimed x.status) pending now
      (λ met. release refl met)
action-Move (Op.fail j now) i actions r found =
    by_id-Moved _ i actions r found j (λ x. is_claimed x.status) failed now (λ met. fail met)
action-Move (Op.expire now) i actions r found =
    by_where-Moved _ i actions r found (is_past now) expired now (λ met. expire (both-left _ _ met))
