-- ===== src/Actions/Claim.antt =====
-- The confirmation gate: which action a claim takes, and that it is taken once.
use whats_app_poke.Prelude.{
  ℕ, String, ◌<◌, ◌≡◌, refl, subst, sym, ◌∙◌, ◌≢◌, inl, inr, Bool, true, Option, none, some, List,
  arith, ◌==◌, str_eq, eq_iff, Option-cases, some_injective, ==→eq,
}
use whats_app_poke.Table.{
  get, Unique, greatest, greatest-meets, get-greatest, get-update_by_id_self, update_by_id,
}
use whats_app_poke.Actions.{
  PendingAction, PendingActionKind, claimed, same_kind, is_pending, is_distinct, unless_none,
  is_claimable, with_status, claim_pending_action,
}

same_kind-eq : (a b : PendingActionKind) → same_kind a b ≡ true → a ≡ b
same_kind-eq a b e = ground arith

-- What a claim that returned `s` rests on, and what it has written.
pub record Claims (contact_id : ℕ) (kind : PendingActionKind) (turn_id : String)
    (action_id : Option ℕ) (payload_hash : Option String) (now : ℕ) (actions : List PendingAction)
    (s : PendingAction) : Type 0 where
  pub action : PendingAction
  pub stored : get PendingAction.id action.id actions ≡ some action
  pub own_contact : action.contact_id ≡ contact_id
  pub own_kind : action.kind ≡ kind
  pub was_pending : is_pending action.status ≡ true
  pub in_time : now < action.expires_at
  pub other_turn : action.created_turn_id ≢ some turn_id
  pub asked_for : (i : ℕ) → action_id ≡ some i → action.id ≡ i
  pub same_payload : (h : String) → payload_hash ≡ some h → action.payload_hash ≡ h
  pub returned : s ≡ with_status claimed now action
  pub written :
      get PendingAction.id action.id
        (claim_pending_action contact_id kind turn_id action_id payload_hash now actions).0
      ≡ some s

distinct_turn :
    (o : Option String) (turn_id : String) → is_distinct o turn_id ≡ true → o ≢ some turn_id
distinct_turn none turn_id e = λ q. cc
distinct_turn (some created) turn_id e = λ q. ground (arith, eq_iff created turn_id)

unless_none-some {ℓ} :
    {A : Type ℓ} (o : Option A) (test : A → Bool) (a : A)
    → unless_none o test ≡ true
    → o ≡ some a
    → test a ≡ true
unless_none-some none test a e q = cc
unless_none-some (some b) test a e q = rw (some_injective (sym q)) e

none-some {ℓ} : {A : Type ℓ} {a : A} → none ≡ some a → ⊥
none-some e = cc

-- the parts of the condition
module _ (contact_id : ℕ) (kind : PendingActionKind) (turn_id : String) (action_id : Option ℕ)
    (payload_hash : Option String) (now : ℕ) (r : PendingAction)
    (meets : is_claimable contact_id kind turn_id action_id payload_hash now r ≡ true) where
  pending_of : is_pending r.status ≡ true
  pending_of = ground arith

  gate_of :
      (r.contact_id ≡ contact_id)
      × (r.kind ≡ kind)
      × (now < r.expires_at)
      × (is_distinct r.created_turn_id turn_id ≡ true)
      × (unless_none action_id (λ i. r.id == i) ≡ true)
      × (unless_none payload_hash (λ h. str_eq r.payload_hash h) ≡ true)
  gate_of = (
    ground arith,
    ground (arith, same_kind-eq r.kind kind),
    ground arith,
    ground arith,
    ground arith,
    ground arith,
  )

module _ (contact_id : ℕ) (kind : PendingActionKind) (turn_id : String) (action_id : Option ℕ)
    (payload_hash : Option String) (now : ℕ) (actions : List PendingAction) where
  abbrev candidate : PendingAction → Bool
  candidate = is_claimable contact_id kind turn_id action_id payload_hash now

  abbrev claiming : List PendingAction × Option PendingAction
  claiming = claim_pending_action contact_id kind turn_id action_id payload_hash now actions

  claim-none : greatest PendingAction.created_at candidate actions ≡ none → claiming.1 ≡ none
  unfolding claim_pending_action
  claim-none e = rw e

  module _ (action : PendingAction)
      (found : greatest PendingAction.created_at candidate actions ≡ some action)
      (u : Unique PendingAction.id actions) where
    stored_row : get PendingAction.id action.id actions ≡ some action
    stored_row = get-greatest PendingAction.created_at candidate PendingAction.id actions u found

    meets : candidate action ≡ true
    meets = greatest-meets PendingAction.created_at candidate actions found

    pending_row : is_pending action.status ≡ true
    pending_row = pending_of contact_id kind turn_id action_id payload_hash now action meets

    claim-some : claiming.1 ≡ some (with_status claimed now action)
    unfolding claim_pending_action update_by_id
    claim-some = rw (found, stored_row, pending_row)

    written_row : get PendingAction.id action.id claiming.0 ≡ some (with_status claimed now action)
    unfolding claim_pending_action
    written_row = rw found (
        rw
          (
            get-update_by_id_self PendingAction.id action.id (λ r. is_pending r.status)
                (with_status claimed now) (λ x. refl) actions,
            stored_row,
          )
          (rw pending_row refl))

    claim-Claims :
        Claims contact_id kind turn_id action_id payload_hash now actions
          (with_status claimed now action)
    claim-Claims =
        let gate = gate_of contact_id kind turn_id action_id payload_hash now action meets in
        record {
          action = action;
          stored = stored_row;
          own_contact = gate.0;
          own_kind = gate.1;
          was_pending = pending_row;
          in_time = gate.2;
          other_turn = distinct_turn action.created_turn_id turn_id gate.3;
          asked_for =
              λ i q. ==→eq _ _ (unless_none-some action_id (λ i. action.id == i) i gate.4 q);
          same_payload = λ h q.
              (eq_iff _ _).0
                (unless_none-some payload_hash (λ h. str_eq action.payload_hash h) h gate.5 q);
          returned = refl;
          written = written_row;
        }

  -- A claim on a table with unique ids returns nothing, or a row of that contact and kind that was
  -- pending and not expired, was staged in another turn, has the id and the payload hash that were
  -- asked for, and is now claimed in the table.
  pub claim_gate :
      {s : PendingAction}
      → Unique PendingAction.id actions
      → claiming.1 ≡ some s
      → Claims contact_id kind turn_id action_id payload_hash now actions s
  claim_gate {s} u e = elim (Option-cases (greatest PendingAction.created_at candidate actions)) [
    | inl idle ↦ absurd (none-some (sym (claim-none idle) ∙ e))
    | inr (action, found) ↦
        subst (Claims contact_id kind turn_id action_id payload_hash now actions)
          (some_injective (sym (claim-some action found u) ∙ e)) (claim-Claims action found u)
  ]
