-- ===== src/Interaction/Event.antt =====
-- One event of the interaction: the tools that touch its state, the attempts of the agent, and
-- `run_interaction_event` of app/agent/interaction.py. An attempt of the agent is the calls it makes
-- of these tools, in order, and how it ends; `parse_execution` stands for
-- `_execution_id_from_summary`, that is for `json.loads` and `uuid.UUID`.
use whats_app_poke.Prelude.{
  ℕ, String, Bool, true, false, ◌&&◌, ◌||◌, not, Option, none, some, List, [], ◌∷◌, ltb, ◌==◌,
  if◌then◌else◌, is_some,
}
use whats_app_poke.Table.{find, select, sort_desc}
use whats_app_poke.Messages.{
  Message, Turn as ChatTurn, load_recent_messages, history_limit, history_max_chars,
}
use whats_app_poke.Runs.{ExecutionRun, is_active_of}
use whats_app_poke.Actions.{PendingAction, is_open, is_pending}
use whats_app_poke.Execution.{DispatchState, run_started, run_deduped}
use whats_app_poke.Interaction.{
  EventKind, user_inbound, execution_result, InteractionState, done, waiting_execution,
  OutboundOutcome, deduplicated, sent_persist_failed, sent, InteractionDeps, Turn, Send,
  has_reserved, send_visible,
}
use whats_app_poke.Interaction.Texts.{Print, confirmation_message, result_fallback}

-- `dispatch_execution` with the state of its outcome; the other tools leave the event's state alone
pub data ToolCall : Type 0 where
  send_message_to_user : String → Option String → Send → ToolCall
  dispatch_execution : DispatchState → ToolCall
  other_tool : ToolCall

pub data AgentEnd : Type 0 where
  produced : InteractionState → AgentEnd
  usage_limit_exceeded model_failed : AgentEnd

pub record AgentAttempt : Type 0 where
  pub tool_calls : List ToolCall
  pub end : AgentEnd

-- The event afterwards, the state that it returns (none: None), and whether it raised.
pub record Ended : Type 0 where
  pub turn : Turn
  pub output : Option InteractionState
  pub raised : Bool

-- What is fixed: Python's texts, the event, the kind of delivery asked for, and what a send by the
-- code itself meets.
pub record Event : Type 0 where
  pub strip : String → String
  pub print : ℕ → String
  pub texts : Print
  pub deps : InteractionDeps
  pub internal_event_summary : String
  pub require_visible_delivery : Bool
  pub own_send : Send

abbrev pub is_inbound_event : EventKind → Bool
is_inbound_event user_inbound = true
is_inbound_event _ = false

abbrev pub is_result_event : EventKind → Bool
is_result_event execution_result = true
is_result_event _ = false

abbrev pub is_wake_up_source : DispatchState → Bool
is_wake_up_source run_started = true
is_wake_up_source run_deduped = true
is_wake_up_source _ = false

abbrev pub is_waiting : InteractionState → Bool
is_waiting waiting_execution = true
is_waiting _ = false

abbrev pub counts_as_delivered : OutboundOutcome → Bool
counts_as_delivered sent = true
counts_as_delivered deduplicated = true
counts_as_delivered sent_persist_failed = true
counts_as_delivered _ = false

abbrev pub is_delivered : Turn → Bool
is_delivered t = is_some (find counts_as_delivered t.outbound_outcomes)

abbrev pub ended : Turn → Option InteractionState → Ended
ended t output = record { turn = t; output = output; raised = false }

module _ (v : Event) where
  abbrev pub send_own : String → String → Turn → Turn
  send_own body tool_call_id t =
      send_visible v.strip v.print v.deps v.own_send body (some tool_call_id) t

  abbrev pub use_tool : ToolCall → Turn → Turn
  use_tool (send_message_to_user message tool_call_id e) t =
      send_visible v.strip v.print v.deps e message tool_call_id t
  use_tool (dispatch_execution state) t =
      if is_inbound_event v.deps.event_kind
      then record t {
        dispatch_outcome = some state;
        dispatch_has_active_run = is_wake_up_source state;
      }
      else t
  use_tool other_tool t = t

  unfoldable pub use_tools : List ToolCall → Turn → Turn
  unfolding send_visible
  use_tools [] t = t
  use_tools (c ∷ tool_calls) t = use_tools tool_calls (use_tool c t)

  -- the end of the `try`
  abbrev pub conclude : InteractionState → Turn → Ended
  conclude state t =
      if v.require_visible_delivery && (is_result_event v.deps.event_kind && not (is_delivered t))
      then ended t none
      else ended t (some state)

  abbrev pub after_output : InteractionState → Turn → Ended
  after_output state t =
      if v.require_visible_delivery && (is_result_event v.deps.event_kind && not (has_reserved t))
      then conclude done (
          send_own (result_fallback v.texts v.internal_event_summary) "execution-result-fallback" t)
      else if is_inbound_event v.deps.event_kind
          && (is_waiting state && not (t.dispatch_has_active_run || v.deps.has_active))
      then conclude done t
      else conclude state t

  abbrev pub fallback_reply : String
  fallback_reply = "desculpa, tive um problema… tenta de novo em instantes."

  -- after the loop
  abbrev pub fall_back : Turn → Ended
  fall_back t = ended (send_own fallback_reply "fallback" t) none

  -- `next` is the rest of the loop
  abbrev pub after_attempt : AgentEnd → Turn → Ended → Ended
  after_attempt (produced state) t next = after_output state t
  after_attempt usage_limit_exceeded t next = if has_reserved t then ended t none else fall_back t
  after_attempt model_failed t next = if has_reserved t then ended t none else next

  unfoldable pub run_attempts : List AgentAttempt → Turn → Ended
  unfolding use_tools result_fallback send_visible
  run_attempts [] t = fall_back t
  run_attempts (a ∷ attempts) t =
      let used = use_tools a.tool_calls t in
      let next = run_attempts attempts used in after_attempt a.end used next

  -- the delivery of a staged proposal, which the code words
  abbrev pub send_confirmation : Option String → Turn → Ended
  send_confirmation none t = record { turn = t; output = none; raised = true }
  send_confirmation (some body) t =
      let after = send_own body "pending-action-confirmation" t in
      if is_delivered after || not v.require_visible_delivery
      then ended after (some done)
      else ended after none

  abbrev pub after_matching : List PendingAction → (first second : AgentAttempt) → Turn → Ended
  after_matching [] first second t = run_attempts (first ∷ second ∷ []) t
  after_matching (r ∷ rows) first second t =
      send_confirmation (confirmation_message v.texts (r ∷ rows)) t

abbrev pub is_matching : (contact_id execution_run_id now : ℕ) → PendingAction → Bool
is_matching contact_id execution_run_id now r =
    r.contact_id == contact_id
    && ((elim r.source_execution_run_id [ none ↦ false | some i ↦ i == execution_run_id ])
        && (is_pending r.status && ltb now r.expires_at))

unfoldable pub matching_pending_actions :
    (contact_id now : ℕ) → Option ℕ → List PendingAction → List PendingAction
matching_pending_actions contact_id now none actions = []
matching_pending_actions contact_id now (some execution_run_id) actions =
    sort_desc PendingAction.created_at
      (select (is_matching contact_id execution_run_id now) actions)

-- What an event starts with: the contact, the tables, the clock, the trim of the history, and the id
-- of the run that is reported.
pub record Loaded : Type 0 where
  pub contact_exists : Bool
  pub messages : List Message
  pub actions : List PendingAction
  pub runs : List ExecutionRun
  pub now : ℕ
  pub trim : String → String
  pub parse_execution : String → Option ℕ

abbrev pub is_open_action : ℕ → PendingAction → Bool
is_open_action contact_id r = r.contact_id == contact_id && is_open r.status

-- the summaries are `nenhuma` exactly if there is no row
abbrev pub load_deps :
    Loaded → (contact_id interaction_run_id : ℕ) → EventKind → Bool → InteractionDeps
load_deps l contact_id interaction_run_id event_kind has_automation_template = record {
  contact_id = contact_id;
  interaction_run_id = interaction_run_id;
  event_kind = event_kind;
  has_pending = is_some (find (is_open_action contact_id) l.actions);
  has_active = is_some (find (is_active_of contact_id) l.runs);
  has_automation_template = has_automation_template;
}

abbrev pub fresh_turn : List Message → Turn
fresh_turn messages = record {
  messages = messages;
  sequence_by_tool_call = [];
  reserved_sequences = [];
  outbound_outcomes = [];
  dispatch_outcome = none;
  dispatch_has_active_run = false;
  calls = [];
}

abbrev pub has_history : List ChatTurn → Bool
has_history [] = false
has_history (m ∷ history) = true

abbrev pub reported_run : (String → Option ℕ) → EventKind → String → Option ℕ
reported_run parse execution_result summary = parse summary
reported_run parse _ summary = none

module _ (strip : String → String) (print : ℕ → String) (texts : Print)
    (has_automation_template : Bool) (own_send : Send) (l : Loaded)
    (first second : AgentAttempt) where
  abbrev pub event_of : (contact_id interaction_run_id : ℕ) → String → EventKind → Bool → Event
  event_of contact_id interaction_run_id internal_event_summary event_kind
        require_visible_delivery =
      record {
        strip = strip;
        print = print;
        texts = texts;
        deps = load_deps l contact_id interaction_run_id event_kind has_automation_template;
        internal_event_summary = internal_event_summary;
        require_visible_delivery = require_visible_delivery;
        own_send = own_send;
      }

  abbrev pub is_loaded : ℕ → Bool
  is_loaded contact_id =
      l.contact_exists
      && has_history
          (load_recent_messages l.trim contact_id history_limit history_max_chars l.messages)

  abbrev pub matching_of : ℕ → String → EventKind → List PendingAction
  matching_of contact_id internal_event_summary event_kind =
      matching_pending_actions contact_id l.now
        (reported_run l.parse_execution event_kind internal_event_summary) l.actions

  unfoldable pub run_interaction_event :
      (contact_id interaction_run_id : ℕ) → String → EventKind → Bool → Ended
  unfolding run_attempts matching_pending_actions confirmation_message send_visible
  run_interaction_event contact_id interaction_run_id internal_event_summary event_kind
        require_visible_delivery =
      if is_loaded contact_id
      then after_matching
          (event_of contact_id interaction_run_id internal_event_summary event_kind
            require_visible_delivery)
          (matching_of contact_id internal_event_summary event_kind) first second
          (fresh_turn l.messages)
      else ended (fresh_turn l.messages) none
