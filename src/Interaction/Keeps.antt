-- ===== src/Interaction/Keeps.antt =====
-- What every visible send and every dispatch keeps is kept by an event.
use whats_app_poke.Prelude.{
  String, inl, inr, Bool, true, false, ◌&&◌, ◌||◌, not, Option, none, some, List, [], ◌∷◌,
  if◌then◌else◌, Bool-cases,
}
use whats_app_poke.Actions.{PendingAction}
use whats_app_poke.Execution.{DispatchState}
use whats_app_poke.Interaction.{InteractionState, done, Turn, Send, has_reserved, send_visible}
use whats_app_poke.Interaction.Event.{
  ToolCall, send_message_to_user, dispatch_execution, other_tool, AgentEnd, produced,
  usage_limit_exceeded, model_failed, AgentAttempt, Ended, Event, is_inbound_event, is_result_event,
  is_waiting, is_delivered, send_own, use_tools, conclude, after_output, fallback_reply, ended,
  after_attempt, run_attempts, send_confirmation, after_matching,
}

module _ (v : Event) (P : Turn → Type 0)
    (sends : (e : Send) (body : String) (id : Option String) (t : Turn)
      → P t
      → P (send_visible v.strip v.print v.deps e body id t))
    (dispatches : (o : Option DispatchState) (b : Bool) (t : Turn)
      → P t
      → P (record t { dispatch_outcome = o; dispatch_has_active_run = b })) where
  keeps-send_own : (body id : String) (t : Turn) → P t → P (send_own v body id t)
  keeps-send_own body id t s = sends v.own_send body (some id) t s

  keeps-use_tools : (tool_calls : List ToolCall) (t : Turn) → P t → P (use_tools v tool_calls t)
  unfolding use_tools
  keeps-use_tools [] t s = s
  keeps-use_tools (send_message_to_user message id e ∷ tool_calls) t s =
      keeps-use_tools tool_calls _ (sends e message id t s)
  keeps-use_tools (dispatch_execution state ∷ tool_calls) t s =
      elim (Bool-cases (is_inbound_event v.deps.event_kind)) [
        | inl fresh ↦ rw fresh (keeps-use_tools tool_calls _ (dispatches _ _ t s))
        | inr old ↦ rw old (keeps-use_tools tool_calls t s)
      ]
  keeps-use_tools (other_tool ∷ tool_calls) t s = keeps-use_tools tool_calls t s

  keeps-conclude : (state : InteractionState) (t : Turn) → P t → P (conclude v state t).turn
  keeps-conclude state t s =
      elim (Bool-cases (
        v.require_visible_delivery
        && (is_result_event v.deps.event_kind && not (is_delivered t)))) [
          | inl short ↦ rw short s
          | inr fine ↦ rw fine s
        ]

  keeps-after_output : (state : InteractionState) (t : Turn) → P t → P (after_output v state t).turn
  keeps-after_output state t s =
      elim (Bool-cases (
        v.require_visible_delivery
        && (is_result_event v.deps.event_kind && not (has_reserved t)))) [
          | inl silent_result ↦ rw silent_result (keeps-conclude done _ (keeps-send_own _ _ t s))
          | inr other ↦
              rw other
                (elim (Bool-cases (
                  is_inbound_event v.deps.event_kind
                  && (is_waiting state && not (t.dispatch_has_active_run || v.deps.has_active)))) [
                    | inl idle ↦ rw idle (keeps-conclude done t s)
                    | inr busy ↦ rw busy (keeps-conclude state t s)
                  ])
        ]

  keeps-after_attempt :
      (end : AgentEnd) (t : Turn) (next : Ended)
      → P t
      → P next.turn
      → P (after_attempt v end t next).turn
  keeps-after_attempt (produced state) t next s later = keeps-after_output state t s
  keeps-after_attempt usage_limit_exceeded t next s later = elim (Bool-cases (has_reserved t)) [
    | inl held ↦ rw held s
    | inr free ↦ rw free (keeps-send_own _ _ t s)
  ]
  keeps-after_attempt model_failed t next s later = elim (Bool-cases (has_reserved t)) [
    | inl held ↦ rw held s
    | inr free ↦ rw free later
  ]

  keeps-run_attempts :
      (attempts : List AgentAttempt) (t : Turn) → P t → P (run_attempts v attempts t).turn
  unfolding run_attempts
  keeps-run_attempts [] t s = keeps-send_own (fallback_reply v) "fallback" t s
  keeps-run_attempts (a ∷ attempts) t s =
      let used = keeps-use_tools a.tool_calls t s in
      keeps-after_attempt a.end _ _ used (keeps-run_attempts attempts _ used)

  keeps-send_confirmation : (o : Option String) (t : Turn) → P t → P (send_confirmation v o t).turn
  keeps-send_confirmation none t s = s
  keeps-send_confirmation (some body) t s =
      elim (Bool-cases (
        is_delivered (send_own v body "pending-action-confirmation" t)
        || not v.require_visible_delivery)) [
          | inl fine ↦ rw fine (keeps-send_own _ _ t s)
          | inr short ↦ rw short (keeps-send_own _ _ t s)
        ]

  pub keeps-after_matching :
      (rows : List PendingAction) (first second : AgentAttempt) (t : Turn)
      → P t
      → P (after_matching v rows first second t).turn
  keeps-after_matching [] first second t s = keeps-run_attempts (first ∷ second ∷ []) t s
  keeps-after_matching (r ∷ rows) first second t s = keeps-send_confirmation _ t s

  pub keeps-loaded :
      (loaded : Bool) (rows : List PendingAction) (first second : AgentAttempt) (t : Turn)
      → P t
      → P (if loaded then after_matching v rows first second t else ended t none).turn
  keeps-loaded true rows first second t s = keeps-after_matching rows first second t s
  keeps-loaded false rows first second t s = s
