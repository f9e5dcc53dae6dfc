-- ===== src/Actions/Tests.antt =====
-- Runs of the confirmation gate on concrete rows, and the theorems at inputs that meet their
-- hypotheses.
use whats_app_poke.Prelude.{ℕ, String, ◌≡◌, refl, ◌≢◌, true, none, some, List, [], ◌∷◌, arith}
use whats_app_poke.Payload.{Payload}
use whats_app_poke.Table.{get, greatest, update_by_id, update_where}
use whats_app_poke.Actions.{
  PendingAction, send_email, create_event, claimed, expired, with_status, staged, claim_newest,
  claim_pending_action, discard_pending_action, cancel_open, insert_staged,
}
use whats_app_poke.Actions.Rows.{Op, apply}
use whats_app_poke.Actions.Kept.{SameProposal, is_final, proposal_kept}
use whats_app_poke.Actions.Lifecycle.{IsValid, run}
use whats_app_poke.Actions.Claim.{Claims, claim_gate}
use whats_app_poke.Actions.Once.{claim_once}

abbrev hash : Payload → String
hash _ = "h"

abbrev old_email : PendingAction
old_email = record (staged hash 1 0 0 7 send_email [] "t1" none none) { status = expired }

abbrev email : PendingAction
email = staged hash 2 10 10 7 send_email [] "t2" none (some 4)

abbrev event : PendingAction
event = staged hash 3 20 20 7 create_event [] "t3" none (some 4)

abbrev proposals : List PendingAction
proposals = old_email ∷ email ∷ event ∷ []

proposals-IsValid : IsValid proposals
unfolding get
proposals-IsValid = ground arith

-- the turn that staged the action cannot confirm it
same_turn : (claim_pending_action 7 send_email "t2" none none 30 proposals).1 ≡ none
unfolding claim_pending_action greatest claim_newest
same_turn = refl

next_turn :
    (claim_pending_action 7 send_email "t4" none none 30 proposals).1
    ≡ some (with_status claimed 30 email)
unfolding claim_pending_action greatest claim_newest update_by_id get
next_turn = refl

abbrev between : List Op
between =
    Op.discard 2 40
    ∷ Op.sweep 41 7 send_email
    ∷ Op.stage hash 9 41 41 7 send_email [] "t5" none none
    ∷ []

proposal_kept_example :
    (s : PendingAction) × (get PendingAction.id 1 (run between proposals) ≡ some s)
    × SameProposal old_email s
    × (is_final expired ≡ true → s ≡ old_email)
unfolding get
proposal_kept_example = proposal_kept between 1 proposals old_email refl

claim_gate_example :
    Claims 7 send_email "t4" (some 2) (some "h") 30 proposals (with_status claimed 30 email)
unfolding claim_pending_action greatest claim_newest update_by_id get
claim_gate_example =
    claim_gate 7 send_email "t4" (some 2) (some "h") 30 proposals proposals-IsValid refl

claim_once_example : ◌≢◌ {A = ℕ} 9 2
unfolding claim_pending_action greatest claim_newest update_by_id get run apply
    discard_pending_action cancel_open insert_staged update_where
claim_once_example =
    claim_once 7 7 send_email send_email "t4" "t6" none none none none 30 60 between proposals
      proposals-IsValid (refl, (refl, (refl, tt))) (tt, (tt, (refl, tt))) refl refl
