-- ===== src/Actions/Kept.antt =====
-- What a person is asked to confirm does not change under the question.
use whats_app_poke.Prelude.{
  ℕ, ◌≡◌, refl, subst, sym, ap, ◌∙◌, Bool, true, false, some, List, [], ◌∷◌, arith,
}
use whats_app_poke.Table.{get}
use whats_app_poke.Actions.{
  PendingAction, PendingActionStatus, executed, cancelled, expired, failed,
}
use whats_app_poke.Actions.Rows.{
  Op, apply, Edge, claim, cancel, execute, fail, release, expire, Move, action-Move,
}
use whats_app_poke.Actions.Lifecycle.{run}

-- What a person has been shown: all columns but the status and the time of the update.
pub record SameProposal (r s : PendingAction) : Type 0 where
  pub id : s.id ≡ r.id
  pub contact : s.contact_id ≡ r.contact_id
  pub kind : s.kind ≡ r.kind
  pub payload : s.payload ≡ r.payload
  pub hash : s.payload_hash ≡ r.payload_hash
  pub turn : s.created_turn_id ≡ r.created_turn_id
  pub expiry : s.expires_at ≡ r.expires_at

-- the status is one that no statement leaves
abbrev pub is_final : PendingActionStatus → Bool
is_final executed = true
is_final cancelled = true
is_final expired = true
is_final failed = true
is_final _ = false

SameProposal-refl : (r : PendingAction) → SameProposal r r
SameProposal-refl r = record {
  id = refl;
  contact = refl;
  kind = refl;
  payload = refl;
  hash = refl;
  turn = refl;
  expiry = refl;
}

SameProposal-trans :
    (r s t : PendingAction) → SameProposal r s → SameProposal s t → SameProposal r t
SameProposal-trans r s t a b = record {
  id = b.id ∙ a.id;
  contact = b.contact ∙ a.contact;
  kind = b.kind ∙ a.kind;
  payload = b.payload ∙ a.payload;
  hash = b.hash ∙ a.hash;
  turn = b.turn ∙ a.turn;
  expiry = b.expiry ∙ a.expiry;
}

Move-SameProposal : (op : Op) (r s : PendingAction) → Move op r s → SameProposal r s
Move-SameProposal op r s (Move.same e) = subst (SameProposal r) (sym e) (SameProposal-refl r)
Move-SameProposal op r s (Move.move t now edge e) = subst (SameProposal r) (sym e) (record {
  id = refl;
  contact = refl;
  kind = refl;
  payload = refl;
  hash = refl;
  turn = refl;
  expiry = refl;
})

Edge-final : (op : Op) {s t : PendingActionStatus} → Edge op s t → is_final s ≡ true → ⊥
Edge-final op (claim p) f = ground arith
Edge-final op (cancel p) f = ground arith
Edge-final op (execute p) f = ground arith
Edge-final op (fail p) f = ground arith
Edge-final op (release q p) f = ground arith
Edge-final op (expire p) f = ground arith

Move-final : (op : Op) (r s : PendingAction) → is_final r.status ≡ true → Move op r s → s ≡ r
Move-final op r s f (Move.same e) = e
Move-final op r s f (Move.move t now edge e) = absurd (Edge-final op edge f)

-- Through every sequence of statements a staged action keeps its row, its payload, the hash of it,
-- its turn and its expiry; and one that is executed, cancelled, expired or failed stays as it is.
pub proposal_kept :
    (ops : List Op) (i : ℕ) (actions : List PendingAction) (r : PendingAction)
    → get PendingAction.id i actions ≡ some r
    → (s : PendingAction) × (get PendingAction.id i (run ops actions) ≡ some s)
      × SameProposal r s
      × (is_final r.status ≡ true → s ≡ r)
unfolding run
proposal_kept [] i actions r found = (r, found, SameProposal-refl r, λ f. refl)
proposal_kept (op ∷ ops) i actions r found =
    let (s, at, how) = action-Move op i actions r found in
    let (t, at', kept, last) = proposal_kept ops i (apply op actions) s at in
    (
      t,
      at',
      SameProposal-trans r s t (Move-SameProposal op r s how) kept,
      λ f.
          let e : s ≡ r = Move-final op r s f how in
          last (ap (λ (x : PendingAction). is_final x.status) e ∙ f) ∙ e,
    )
