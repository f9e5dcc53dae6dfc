-- ===== src/Actions/Lifecycle.antt =====
-- Sequences of statements on the staged actions, and the keys of the table.
use whats_app_poke.Prelude.{ℕ, ◌≡◌, refl, Bool, Option, none, some, List, [], ◌∷◌}
use whats_app_poke.Table.{
  get, Unique, update_where, update_by_id, Unique-append, Unique-update_where, Unique-update_by_id,
}
use whats_app_poke.Actions.{
  PendingAction, PendingActionStatus, pending, claimed, executed, cancelled, expired, failed,
  is_open_of, with_status, cancel_open, insert_staged, claim_newest, claim_pending_action,
  discard_pending_action, release_pending_action, fail_pending_action, is_past,
  expire_pending_actions,
}
use whats_app_poke.Actions.Rows.{Op, apply}

-- No two rows share an id.
abbrev pub IsValid : List PendingAction → Type 0
IsValid actions = Unique PendingAction.id actions

abbrev pub IsFresh : Op → List PendingAction → Type 0
IsFresh (Op.stage _ new_id _ _ _ _ _ _ _ _) actions = get PendingAction.id new_id actions ≡ none
IsFresh _ actions = Unit

by_id-IsValid :
    (i : ℕ) (c : PendingAction → Bool) (t : PendingActionStatus) (now : ℕ)
    (actions : List PendingAction)
    → IsValid actions
    → IsValid (update_by_id PendingAction.id i c (with_status t now) actions).0
by_id-IsValid i c t now actions v =
    Unique-update_by_id PendingAction.id i c (with_status t now) (λ x. refl) actions v

by_where-IsValid :
    (p : PendingAction → Bool) (t : PendingActionStatus) (now : ℕ) (actions : List PendingAction)
    → IsValid actions
    → IsValid (update_where p (with_status t now) actions)
by_where-IsValid p t now actions v =
    Unique-update_where PendingAction.id p (with_status t now) (λ x. refl) actions v

claim-IsValid :
    (now : ℕ) (o : Option PendingAction) (actions : List PendingAction)
    → IsValid actions
    → IsValid (claim_newest now o actions).0
unfolding claim_newest
claim-IsValid now none actions v = v
claim-IsValid now (some newest) actions v = by_id-IsValid newest.id _ claimed now actions v

pub apply-IsValid :
    (op : Op) (actions : List PendingAction)
    → IsFresh op actions
    → IsValid actions
    → IsValid (apply op actions)
unfolding apply cancel_open insert_staged claim_pending_action discard_pending_action
    release_pending_action fail_pending_action expire_pending_actions
apply-IsValid (Op.sweep now contact_id kind) actions fresh v =
    by_where-IsValid (is_open_of contact_id kind) cancelled now actions v
apply-IsValid (Op.stage hash new_id now clock contact_id kind payload turn_id ir er) actions fresh
      v =
    Unique-append PendingAction.id actions _ v fresh
apply-IsValid (Op.claim contact_id kind turn_id action_id payload_hash now) actions fresh v =
    claim-IsValid now _ actions v
apply-IsValid (Op.discard i now) actions fresh v = by_id-IsValid i _ executed now actions v
apply-IsValid (Op.release i now) actions fresh v = by_id-IsValid i _ pending now actions v
apply-IsValid (Op.fail i now) actions fresh v = by_id-IsValid i _ failed now actions v
apply-IsValid (Op.expire now) actions fresh v = by_where-IsValid (is_past now) expired now actions v

-- A sequence of statements.
unfoldable pub run : List Op → List PendingAction → List PendingAction
run [] actions = actions
run (op ∷ ops) actions = run ops (apply op actions)

abbrev pub AllFresh : List Op → List PendingAction → Type 0
AllFresh [] actions = Unit
AllFresh (op ∷ ops) actions = IsFresh op actions × AllFresh ops (apply op actions)

pub actions-IsValid :
    (ops : List Op) (actions : List PendingAction)
    → AllFresh ops actions
    → IsValid actions
    → IsValid (run ops actions)
unfolding run
actions-IsValid [] actions fresh v = v
actions-IsValid (op ∷ ops) actions fresh v =
    actions-IsValid ops (apply op actions) fresh.1 (apply-IsValid op actions fresh.0 v)
