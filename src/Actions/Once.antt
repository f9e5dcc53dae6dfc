-- ===== src/Actions/Once.antt =====
-- A proposal is claimed once, unless a failed send has released it.
use whats_app_poke.Prelude.{
  ℕ, String, ◌≡◌, refl, sym, ap, ◌∙◌, ◌≢◌, true, false, Option, some, List, [], ◌∷◌, arith,
}
use whats_app_poke.Table.{get, Unique}
use whats_app_poke.Actions.{PendingAction, PendingActionKind, is_pending, claim_pending_action}
use whats_app_poke.Actions.Rows.{
  Op, apply, is_quiet, claim, cancel, execute, fail, release, expire, Move, action-Move,
}
use whats_app_poke.Actions.Lifecycle.{IsValid, AllFresh, run, actions-IsValid, apply-IsValid}
use whats_app_poke.Actions.Claim.{claim_gate}

abbrev pub AllQuiet : List Op → Type 0
AllQuiet [] = Unit
AllQuiet (op ∷ ops) = (is_quiet op ≡ true) × AllQuiet ops

abbrev NotPending : ℕ → List PendingAction → Type 0
NotPending i actions =
    (s : PendingAction) × (get PendingAction.id i actions ≡ some s) × (is_pending s.status ≡ false)

Move-NotPending :
    (op : Op) (r s : PendingAction)
    → is_quiet op ≡ true
    → is_pending r.status ≡ false
    → Move op r s
    → is_pending s.status ≡ false
Move-NotPending op r s q np (Move.same e) = rw e np
Move-NotPending op r s q np (Move.move t now (claim p) e) = rw e refl
Move-NotPending op r s q np (Move.move t now (cancel p) e) = rw e refl
Move-NotPending op r s q np (Move.move t now (execute p) e) = rw e refl
Move-NotPending op r s q np (Move.move t now (fail p) e) = rw e refl
Move-NotPending op r s q np (Move.move t now (release noisy p) e) = cc
Move-NotPending op r s q np (Move.move t now (expire p) e) = rw e refl

run-NotPending :
    (ops : List Op) (actions : List PendingAction) (i : ℕ)
    → AllQuiet ops
    → NotPending i actions
    → NotPending i (run ops actions)
unfolding run
run-NotPending [] actions i q np = np
run-NotPending (op ∷ ops) actions i q (r, found, np) =
    let (s, at, how) = action-Move op i actions r found in
    run-NotPending ops (apply op actions) i q.1 (s, at, Move-NotPending op r s q.0 np how)

NotPending-unclaimed :
    (contact_id : ℕ) (kind : PendingActionKind) (turn_id : String) (action_id : Option ℕ)
    (payload_hash : Option String) (now : ℕ) (actions : List PendingAction) (i : ℕ)
    {t : PendingAction}
    → Unique PendingAction.id actions
    → NotPending i actions
    → (claim_pending_action contact_id kind turn_id action_id payload_hash now actions).1 ≡ some t
    → t.id ≢ i
NotPending-unclaimed contact_id kind turn_id action_id payload_hash now actions i {t} u
      (r, found, np) e same =
    let c = claim_gate contact_id kind turn_id action_id payload_hash now actions u e in
    let at : c.action.id ≡ i = sym (ap PendingAction.id c.returned) ∙ same in
    let r_is : some c.action ≡ some r =
      sym c.stored ∙ ap (λ k. get PendingAction.id k actions) at ∙ found in
    ground (arith, c.was_pending, np, r_is)

-- A staged action is claimed once: on a valid table, after a claim has returned it, no later claim
-- of whatever contact, kind and turn returns it again, whatever statements other than a release
-- are issued between the two.
pub claim_once :
    (contact_id contact_id' : ℕ) (kind kind' : PendingActionKind) (turn_id turn_id' : String)
    (action_id action_id' : Option ℕ) (payload_hash payload_hash' : Option String) (now now' : ℕ)
    (ops : List Op) (actions : List PendingAction) {s t : PendingAction}
    → IsValid actions
    → AllQuiet ops
    → AllFresh ops
        (claim_pending_action contact_id kind turn_id action_id payload_hash now actions).0
    → (claim_pending_action contact_id kind turn_id action_id payload_hash now actions).1 ≡ some s
    → (claim_pending_action contact_id' kind' turn_id' action_id' payload_hash' now' (
        run ops
          (claim_pending_action contact_id kind turn_id action_id payload_hash now actions).0)).1
      ≡ some t
    → t.id ≢ s.id
unfolding apply
claim_once contact_id contact_id' kind kind' turn_id turn_id' action_id action_id' payload_hash
      payload_hash' now now' ops actions {s} {t} v quiet fresh e e' =
    let after =
      (claim_pending_action contact_id kind turn_id action_id payload_hash now actions).0 in
    let v' : IsValid after =
      apply-IsValid (Op.claim contact_id kind turn_id action_id payload_hash now) actions tt v in
    let c = claim_gate contact_id kind turn_id action_id payload_hash now actions v e in
    let at : c.action.id ≡ s.id = sym (ap PendingAction.id c.returned) in
    NotPending-unclaimed contact_id' kind' turn_id' action_id' payload_hash' now' (run ops after)
      s.id (actions-IsValid ops after fresh v')
      (run-NotPending ops after s.id quiet
        (s, ap (λ k. get PendingAction.id k after) (sym at) ∙ c.written, rw (c.returned) refl))
      e'
