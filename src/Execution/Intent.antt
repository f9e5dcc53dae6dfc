-- ===== src/Execution/Intent.antt =====
-- The guard on goals that are to send e-mail.
use whats_app_poke.Prelude.{String, ◌≡◌, refl, Bool, true, false, ◌&&◌, not, if◌then◌else◌}
use whats_app_poke.Execution.{Texts, email_context, send_intent, draft_only, has_marker}
use whats_app_poke.Execution.Run.{goal_implies_email_send}

draft_is_idle :
    (context send draft : Bool)
    → (if context then (send && not (draft && not send)) else false) ≡ (context && send)
draft_is_idle false send draft = refl
draft_is_idle true false draft = refl
draft_is_idle true true true = refl
draft_is_idle true true false = refl

-- The guard is true of exactly the goals that have a word for e-mail and a word for sending: the
-- words for a draft make no difference.
pub goal_implies_email_send_lem :
    (x : Texts) (goal : String)
    → goal_implies_email_send x goal ≡ (
        has_marker (x.squeeze (x.lower goal)) email_context
        && has_marker (x.squeeze (x.lower goal)) send_intent)
unfolding goal_implies_email_send
goal_implies_email_send_lem x goal =
    let text = x.squeeze (x.lower goal) in
    draft_is_idle (has_marker text email_context) (has_marker text send_intent)
      (has_marker text draft_only)
