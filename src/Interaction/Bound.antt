-- ===== src/Interaction/Bound.antt =====
-- An event as a whole calls Twilio at most five times, and once for a reservation.
use whats_app_poke.Prelude.{ℕ, ◌≤◌, String, ◌≡◌, refl, Bool, some, List, arith, length}
use whats_app_poke.Table.{All, find, count}
use whats_app_poke.Messages.{Message, is_outbound_at}
use whats_app_poke.Interaction.{
  EventKind, TwilioCall, InteractionDeps, Turn, Send, max_visible_outbounds,
}
use whats_app_poke.Interaction.Texts.{Print}
use whats_app_poke.Interaction.Event.{
  AgentAttempt, Loaded, fresh_turn, load_deps, event_of, is_loaded, matching_of,
  run_interaction_event,
}
use whats_app_poke.Interaction.Tally.{is_for}
use whats_app_poke.Interaction.Keeps.{keeps-loaded}
use whats_app_poke.Interaction.Sends.{Sound, Sound-five, Sound-keeps, Sound-send_visible}

Sound-fresh : (deps : InteractionDeps) (messages : List Message) → Sound deps (fresh_turn messages)
unfolding count
Sound-fresh deps messages = record { held = tt; range = tt; once = λ k. omega arith; numbers = tt }

-- the calls of one event
pub record FewCalls (contact_id interaction_run_id : ℕ) (t : Turn) : Type 0 where
  pub at_most_five : length t.calls ≤ max_visible_outbounds
  pub once : (k : ℕ) → count (is_for k) t.calls ≤ 1
  pub reserved :
      All
        (λ c.
          (r : Message) × (find
              (is_outbound_at contact_id interaction_run_id (TwilioCall.sequence c))
              t.messages
            ≡ some r))
        t.calls

-- However the agent behaves in its two attempts, whatever Twilio and the database answer and
-- whatever rows others insert: an event calls Twilio at most five times, never twice for the same
-- sequence number, and each call has the row of its reservation in the table.
pub run_interaction_event-FewCalls :
    (strip : String → String) (print : ℕ → String) (texts : Print) (has_automation_template : Bool)
    (own_send : Send) (l : Loaded) (first second : AgentAttempt) (contact_id interaction_run_id : ℕ)
    (summary : String) (event_kind : EventKind) (require_visible_delivery : Bool)
    → FewCalls contact_id interaction_run_id
        (run_interaction_event strip print texts has_automation_template own_send l first second
          contact_id interaction_run_id summary event_kind require_visible_delivery).turn
unfolding run_interaction_event
run_interaction_event-FewCalls strip print texts has_automation_template own_send l first second
      contact_id interaction_run_id summary event_kind require_visible_delivery =
    few _ (
      keeps-loaded
        (event_of strip print texts has_automation_template own_send l first second contact_id
          interaction_run_id summary event_kind require_visible_delivery)
        (Sound deps) (λ e body id t s. Sound-send_visible deps strip print e body id t s)
        (λ o b t s. Sound-keeps deps t _ refl refl (λ k h. h) s)
        (is_loaded strip print texts has_automation_template own_send l first second contact_id)
        (matching_of strip print texts has_automation_template own_send l first second contact_id
          summary event_kind)
        first second (fresh_turn l.messages) (Sound-fresh deps l.messages))
  where
    deps : InteractionDeps
    deps = load_deps l contact_id interaction_run_id event_kind has_automation_template

    few : (t : Turn) → Sound deps t → FewCalls contact_id interaction_run_id t
    few t s = record { at_most_five = Sound-five deps t s; once = s.once; reserved = s.held }
