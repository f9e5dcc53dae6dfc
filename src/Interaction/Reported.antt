-- ===== src/Interaction/Reported.antt =====
-- What the answer of an event that reports a result says about its delivery.
use whats_app_poke.Prelude.{
  ℕ, String, ◌≡◌, refl, sym, ◌∙◌, inl, inr, Bool, true, false, ◌&&◌, ◌||◌, not, Option, none, some,
  List, [], ◌∷◌, ◌++◌, arith, ltb, if◌then◌else◌, is_some, Bool-cases, Option-cases,
}
use whats_app_poke.Table.{find}
use whats_app_poke.Messages.{Message, reserve_interaction_outbound}
use whats_app_poke.Actions.{PendingAction}
use whats_app_poke.Execution.Scope.{is_blank}
use whats_app_poke.Interaction.{
  execution_result, InteractionState, done, OutboundOutcome, skipped_empty, skipped_limit,
  deduplicated, send_failed, sent_persist_failed, sent, is_accepted, TwilioCall, InteractionDeps,
  Turn, Send, has_reserved, max_visible_outbounds, number_of, call_key, sequence_for, deliver,
  send_reserved, send_numbered, send_visible,
}
use whats_app_poke.Interaction.Texts.{Print}
use whats_app_poke.Interaction.Event.{
  counts_as_delivered, AgentEnd, produced, usage_limit_exceeded, model_failed, AgentAttempt, Ended,
  Event, Loaded, is_inbound_event, is_result_event, is_waiting, is_delivered, send_own, use_tools,
  conclude, after_output, after_attempt, run_attempts, send_confirmation, after_matching,
  fresh_turn, event_of, is_loaded, matching_of, run_interaction_event, ended,
}
use whats_app_poke.Interaction.Keeps.{keeps-loaded}

abbrev pub is_repeat : OutboundOutcome → Bool
is_repeat deduplicated = true
is_repeat _ = false

-- an outcome that counts as delivered rests on a message that Twilio took, or on a repeated call
abbrev BackedBy : List TwilioCall → List OutboundOutcome → Type 0
BackedBy calls outcomes =
    is_some (find counts_as_delivered outcomes) ≡ true
    → (is_some (find TwilioCall.is_accepted calls) || is_some (find is_repeat outcomes)) ≡ true

abbrev pub Backed : Turn → Type 0
Backed t = BackedBy t.calls t.outbound_outcomes

any-append :
    {A : Type 0} (p : A → Bool) (l : List A) (x : A)
    → is_some (find p (l ++ x ∷ [])) ≡ (is_some (find p l) || p x)
unfolding find
any-append p [] x = elim (Bool-cases (p x)) [ inl met ↦ rw met refl | inr unmet ↦ rw unmet refl ]
any-append p (y ∷ l) x = elim (Bool-cases (p y)) [
  | inl met ↦ rw met refl
  | inr unmet ↦ rw unmet (any-append p l x)
]

any-cons :
    {A : Type 0} (p : A → Bool) (x : A) (l : List A)
    → is_some (find p (x ∷ l)) ≡ (p x || is_some (find p l))
unfolding find
any-cons p x l = elim (Bool-cases (p x)) [ inl met ↦ rw met refl | inr unmet ↦ rw unmet refl ]

bool_step :
    (d a r x y : Bool)
    → (d ≡ true → (a || r) ≡ true)
    → (x ≡ true → (a || y) ≡ true)
    → (d || x) ≡ true
    → (a || (r || y)) ≡ true
bool_step d a true x y h g e = ground arith
bool_step d true false x y h g e = refl
bool_step true false false x y h g e = absurd (ground (arith, h refl))
bool_step false false false true y h g e = g refl
bool_step false false false false y h g e = absurd (ground arith)

Backed-record :
    (o : OutboundOutcome) (t : Turn)
    → Backed t
    → (counts_as_delivered o ≡ true
        → (is_some (find TwilioCall.is_accepted t.calls) || is_repeat o) ≡ true)
    → BackedBy t.calls (t.outbound_outcomes ++ o ∷ [])
Backed-record o t b new e = rw (any-append is_repeat t.outbound_outcomes o) (
    bool_step (is_some (find counts_as_delivered t.outbound_outcomes))
      (is_some (find TwilioCall.is_accepted t.calls)) (is_some (find is_repeat t.outbound_outcomes))
      (counts_as_delivered o) (is_repeat o) b new
      (sym (any-append counts_as_delivered t.outbound_outcomes o) ∙ e))

module _ (strip : String → String) (print : ℕ → String) (deps : InteractionDeps) (e : Send) where
  Backed-call : (c : TwilioCall) (t : Turn) → Backed t → BackedBy (c ∷ t.calls) t.outbound_outcomes
  Backed-call c t b d = rw (any-cons TwilioCall.is_accepted c t.calls) (
      wider (TwilioCall.is_accepted c) (is_some (find TwilioCall.is_accepted t.calls))
        (is_some (find is_repeat t.outbound_outcomes)) (b d))
    where
      wider : (x a r : Bool) → (a || r) ≡ true → ((x || a) || r) ≡ true
      wider true a r h = refl
      wider false a r h = h

  Backed-deliver :
      (id : Option String) (n : ℕ) (t : Turn)
      → Backed t
      → (is_accepted strip print deps e id ≡ true
          → is_some (find TwilioCall.is_accepted t.calls) ≡ true)
      → Backed (deliver strip print deps e id n t)
  Backed-deliver none n t b taken = Backed-record send_failed t b (λ q. absurd (ground arith))
  Backed-deliver (some id) n t b taken = elim (Bool-cases e.is_stored) [
    | inl stored ↦ rw stored (Backed-record sent t b (λ q. rw (taken refl) refl))
    | inr lost ↦ rw lost (Backed-record sent_persist_failed t b (λ q. rw (taken refl) refl))
  ]

  Backed-send_reserved :
      (n : ℕ) (message : String) (p : List Message × (Message × Bool)) (t : Turn)
      → Backed t
      → Backed (send_reserved strip print deps e n message p t)
  Backed-send_reserved n message (messages, (row, false)) t b =
      Backed-record deduplicated t b
        (λ q. rw (or_true (is_some (find TwilioCall.is_accepted t.calls))) refl)
    where
      or_true : (a : Bool) → (a || true) ≡ true
      or_true true = refl
      or_true false = refl
  Backed-send_reserved n message (messages, (row, true)) t b =
      Backed-deliver e.provider_message_id n _ (Backed-call _ t b)
        (λ q. any-cons TwilioCall.is_accepted _ t.calls ∙ rw q refl)

  Backed-send_numbered :
      (message : String) (p : Turn × ℕ)
      → Backed p.0
      → Backed (send_numbered strip print deps e message p)
  Backed-send_numbered message (t, n) b = elim (Bool-cases (ltb max_visible_outbounds n)) [
    | inl over ↦ rw over (Backed-record skipped_limit t b (λ q. absurd (ground arith)))
    | inr in_reach ↦ rw in_reach (
        Backed-send_reserved n message
          (reserve_interaction_outbound e.new_id e.now deps.contact_id deps.interaction_run_id n
            message (t.messages ++ e.arrived))
          t b)
  ]

  Backed-sequence_for :
      (id : Option String) (t : Turn) → Backed t → Backed (sequence_for strip print id t).0
  unfolding sequence_for
  Backed-sequence_for id t b =
      elim (Option-cases (number_of (call_key strip print id t) t.sequence_by_tool_call)) [
        | inl new ↦ rw new b
        | inr (n, known) ↦ rw known b
      ]

  Backed-send_visible :
      (body : String) (id : Option String) (t : Turn)
      → Backed t
      → Backed (send_visible strip print deps e body id t)
  unfolding send_visible
  Backed-send_visible body id t b = elim (Bool-cases (is_blank (strip body))) [
    | inl empty ↦ rw empty (Backed-record skipped_empty t b (λ q. absurd (ground arith)))
    | inr full ↦ rw full (
        Backed-send_numbered (strip body) (sequence_for strip print id t)
          (Backed-sequence_for id t b))
  ]

-- a state is only answered if something counts as delivered
module _ (v : Event) (asked : v.require_visible_delivery ≡ true)
    (result : is_result_event v.deps.event_kind ≡ true) where
  abbrev Answers : Ended → Type 0
  Answers f = (s : InteractionState) → f.output ≡ some s → is_delivered f.turn ≡ true

  Answers-conclude : (state : InteractionState) (t : Turn) → Answers (conclude v state t)
  Answers-conclude state t = elim (Bool-cases (is_delivered t)) [
    | inl got ↦ rw (asked, result) (rw got (λ s q. got))
    | inr short ↦ rw (asked, result) (rw short (λ s q. absurd (ground arith)))
  ]

  Answers-after_output : (state : InteractionState) (t : Turn) → Answers (after_output v state t)
  Answers-after_output state t =
      elim (Bool-cases (
        v.require_visible_delivery
        && (is_result_event v.deps.event_kind && not (has_reserved t)))) [
          | inl silent_result ↦ rw silent_result (Answers-conclude done _)
          | inr other ↦
              rw other
                (elim (Bool-cases (
                  is_inbound_event v.deps.event_kind
                  && (is_waiting state && not (t.dispatch_has_active_run || v.deps.has_active)))) [
                    | inl idle ↦ rw idle (Answers-conclude done t)
                    | inr busy ↦ rw busy (Answers-conclude state t)
                  ])
        ]

  Answers-after_attempt :
      (end : AgentEnd) (t : Turn) (next : Ended)
      → Answers next
      → Answers (after_attempt v end t next)
  Answers-after_attempt (produced state) t next later = Answers-after_output state t
  Answers-after_attempt usage_limit_exceeded t next later = elim (Bool-cases (has_reserved t)) [
    | inl held ↦ rw held (λ s q. absurd (ground arith))
    | inr free ↦ rw free (λ s q. absurd (ground arith))
  ]
  Answers-after_attempt model_failed t next later = elim (Bool-cases (has_reserved t)) [
    | inl held ↦ rw held (λ s q. absurd (ground arith))
    | inr free ↦ rw free later
  ]

  Answers-run_attempts :
      (attempts : List AgentAttempt) (t : Turn) → Answers (run_attempts v attempts t)
  unfolding run_attempts
  Answers-run_attempts [] t = λ s q. absurd (ground arith)
  Answers-run_attempts (a ∷ attempts) t =
      Answers-after_attempt a.end _ _ (Answers-run_attempts attempts (use_tools v a.tool_calls t))

  Answers-send_confirmation : (o : Option String) (t : Turn) → Answers (send_confirmation v o t)
  Answers-send_confirmation none t = λ s q. absurd (ground arith)
  Answers-send_confirmation (some body) t =
      elim (Bool-cases (is_delivered (send_own v body "pending-action-confirmation" t))) [
        | inl got ↦ rw got (λ s q. got)
        | inr short ↦ rw (short, asked) (λ s q. absurd (ground arith))
      ]

  Answers-loaded :
      (loaded : Bool) (rows : List PendingAction) (first second : AgentAttempt) (t : Turn)
      → Answers (if loaded then after_matching v rows first second t else ended t none)
  Answers-loaded false rows first second t = λ s q. absurd (ground arith)
  Answers-loaded true [] first second t = Answers-run_attempts (first ∷ second ∷ []) t
  Answers-loaded true (r ∷ rows) first second t = Answers-send_confirmation _ t

-- An event that reports the result of a run, and must be visible, returns a state only if Twilio took
-- a message of this event, or a send was skipped because its sequence number had been reserved
-- before, however the agent behaves and whatever Twilio and the database answer.
pub result_reported :
    (strip : String → String) (print : ℕ → String) (texts : Print) (has_automation_template : Bool)
    (own_send : Send) (l : Loaded) (first second : AgentAttempt) (contact_id interaction_run_id : ℕ)
    (summary : String) (s : InteractionState)
    → (let f =
          run_interaction_event strip print texts has_automation_template own_send l first second
            contact_id interaction_run_id summary execution_result true in
        f.output ≡ some s
        → (is_some (find TwilioCall.is_accepted f.turn.calls)
            || is_some (find is_repeat f.turn.outbound_outcomes))
          ≡ true)
unfolding run_interaction_event find
result_reported strip print texts has_automation_template own_send l first second contact_id
      interaction_run_id summary s =
    let v =
      event_of strip print texts has_automation_template own_send l first second contact_id
        interaction_run_id summary execution_result true in
    let loaded =
      is_loaded strip print texts has_automation_template own_send l first second contact_id in
    let rows =
      matching_of strip print texts has_automation_template own_send l first second contact_id
        summary execution_result in
    let turn = fresh_turn l.messages in
    λ q.
      keeps-loaded v Backed (λ e body id t b. Backed-send_visible strip print v.deps e body id t b)
        (λ o b t s. s) loaded rows first second turn (λ d. absurd (ground arith))
        (Answers-loaded v refl refl loaded rows first second turn s q)
