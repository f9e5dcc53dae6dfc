-- ===== src/Interaction/Sends.antt =====
-- How often an event calls Twilio.
use whats_app_poke.Prelude.{
  ℕ, suc, ◌≤◌, String, ◌≡◌, refl, sym, ap, ◌∙◌, inl, inr, Bool, Option, none, some, List, [], ◌∷◌,
  ◌++◌, arith, str_eq, ltb, if◌then◌else◌, length, Bool-cases, Option-cases,
}
use whats_app_poke.Table.{
  All, All-map, find, count, update_where, find-append_old, find-append_new, find-update,
}
use whats_app_poke.Messages.{
  Message, MessageDeliveryState, delivered, failed, is_outbound_at, reserve_interaction_outbound,
  reserved_message, with_delivery, update_interaction_outbound_delivery,
}
use whats_app_poke.Execution.Scope.{is_blank}
use whats_app_poke.Interaction.Tally.{is_for, length-once}
use whats_app_poke.Interaction.{
  call_key, TwilioCall, InteractionDeps, Turn, Send, max_visible_outbounds, number_of, sequence_for,
  deliver, send_reserved, send_numbered, send_visible,
}

-- What holds of the calls at every point of an event: their numbers are 1 to 5, each has its
-- reservation, and no number has two.
pub record Sound (deps : InteractionDeps) (t : Turn) : Type 0 where
  pub held :
      All
        (λ c.
          (r : Message) × (find
              (is_outbound_at deps.contact_id deps.interaction_run_id (TwilioCall.sequence c))
              t.messages
            ≡ some r))
        t.calls
  pub range : All (λ c. (1 ≤ c.sequence) × (c.sequence ≤ max_visible_outbounds)) t.calls
  pub once : (k : ℕ) → count (is_for k) t.calls ≤ 1
  pub numbers : All (λ (p : String × ℕ). 1 ≤ p.1) t.sequence_by_tool_call

-- so there are at most five
pub Sound-five :
    (deps : InteractionDeps) (t : Turn) → Sound deps t → length t.calls ≤ max_visible_outbounds
Sound-five deps t s = length-once max_visible_outbounds t.calls s.range s.once

module _ (deps : InteractionDeps) where
  abbrev own : ℕ → Message → Bool
  own k = is_outbound_at deps.contact_id deps.interaction_run_id k

  abbrev Held : List Message → ℕ → Type 0
  Held messages k = (r : Message) × (find (own k) messages ≡ some r)

  Held-append :
      (messages added : List Message) (k : ℕ) → Held messages k → Held (messages ++ added) k
  Held-append messages added k (r, e) = (r, find-append_old (own k) messages added e)

  Held-update_where :
      (q : Message → Bool) (state : MessageDeliveryState) (id : Option String)
      (messages : List Message) (k : ℕ)
      → Held messages k
      → Held (update_where q (with_delivery state id) messages) k
  Held-update_where q state id messages k (r, e) = (
    if q r then with_delivery state id r else r,
    rw (find-update (own k) q (with_delivery state id) (λ x. refl) messages, e) refl,
  )

  Held-delivery :
      (n : ℕ) (state : MessageDeliveryState) (id : Option String) (messages : List Message) (k : ℕ)
      → Held messages k
      → Held
          (update_interaction_outbound_delivery deps.contact_id deps.interaction_run_id n state id
            messages).0
          k
  unfolding update_interaction_outbound_delivery
  Held-delivery n state id messages k h = elim (Option-cases (find (own n) messages)) [
    | inl gone ↦ rw gone h
    | inr (r, here) ↦ rw here (Held-update_where (own n) state id messages k h)
  ]

  -- a reservation that is made: its number had none, and now has one
  Held-new :
      (id now n : ℕ) (body : String) (messages : List Message)
      → find (own n) messages ≡ none
      → Held
          (messages ++ reserved_message id now deps.contact_id deps.interaction_run_id n body ∷ [])
          n
  Held-new id now n body messages gone = (
    reserved_message id now deps.contact_id deps.interaction_run_id n body,
    find-append_new (own n) messages _ gone (ground arith),
  )

  not_called :
      (n : ℕ) (messages : List Message) (calls : List TwilioCall)
      → find (own n) messages ≡ none
      → All (λ c. Held messages (TwilioCall.sequence c)) calls
      → count (is_for n) calls ≡ 0
  unfolding count
  not_called n messages [] gone h = refl
  not_called n messages (c ∷ calls) gone h = elim (Bool-cases (is_for n c)) [
    | inl same ↦ absurd (clash h.0 (ground (arith, same)))
    | inr other ↦ rw other (not_called n messages calls gone h.1)
  ]
    where
      clash : Held messages c.sequence → c.sequence ≡ n → ⊥
      clash (r, e) same = none_is (sym gone ∙ ap (λ k. find (own k) messages) (sym same) ∙ e)
        where
          none_is : none ≡ some r → ⊥
          none_is q = cc

  once-more :
      (c : TwilioCall) (calls : List TwilioCall)
      → count (is_for c.sequence) calls ≡ 0
      → ((k : ℕ) → count (is_for k) calls ≤ 1)
      → (k : ℕ) → count (is_for k) (c ∷ calls) ≤ 1
  unfolding count
  once-more c calls new once k = elim (Bool-cases (is_for k c)) [
    | inl same ↦ rw same (first (ground (arith, same)))
    | inr other ↦ rw other (once k)
  ]
    where
      first : c.sequence ≡ k → suc (count (is_for k) calls) ≤ 1
      first e =
          let zero_calls : count (is_for k) calls ≡ 0 =
            ap (λ j. count (is_for j) calls) (sym e) ∙ new in
          omega arith

  -- the calls stay, and the reservations do too
  pub Sound-keeps :
      (t u : Turn)
      → u.calls ≡ t.calls
      → u.sequence_by_tool_call ≡ t.sequence_by_tool_call
      → ((k : ℕ) → Held t.messages k → Held u.messages k)
      → Sound deps t
      → Sound deps u
  Sound-keeps t u calls table kept s = record {
    held = rw calls (All-map t.calls s.held (λ c h. kept c.sequence h));
    range = rw calls s.range;
    once = λ k. rw calls (s.once k);
    numbers = rw table s.numbers;
  }

  number_of-All :
      (key : String) (l : List (String × ℕ)) {n : ℕ}
      → All (λ (p : String × ℕ). 1 ≤ p.1) l
      → number_of key l ≡ some n
      → 1 ≤ n
  unfolding number_of
  number_of-All key [] h e = absurd (ground arith)
  number_of-All key ((k, m) ∷ l) {n} h e = elim (Bool-cases (str_eq k key)) [
    | inl same ↦ ground (arith, same, h.0)
    | inr other ↦ number_of-All key l h.1 (ground (arith, other))
  ]

  module _ (strip : String → String) (print : ℕ → String) (e : Send) where
    Sound-deliver :
        (id : Option String) (n : ℕ) (t : Turn)
        → Sound deps t
        → Sound deps (deliver strip print deps e id n t)
    Sound-deliver none n t s = Sound-keeps t _ refl refl (Held-delivery n failed none t.messages) s
    Sound-deliver (some id) n t s = elim (Bool-cases e.is_stored) [
      | inl stored ↦
          rw stored (Sound-keeps t _ refl refl (Held-delivery n delivered (some id) t.messages) s)
      | inr lost ↦ rw lost (Sound-keeps t _ refl refl (λ k h. h) s)
    ]

    -- a call for a number that had no reservation before
    Sound-called :
        (c : TwilioCall) (reserved_sequences : List ℕ) (t : Turn) (before : List Message)
        (new : Message)
        → Sound deps t
        → 1 ≤ c.sequence
        → c.sequence ≤ max_visible_outbounds
        → find (own c.sequence) before ≡ none
        → All (λ c. Held before (TwilioCall.sequence c)) t.calls
        → Held (before ++ new ∷ []) c.sequence
        → Sound deps (record t {
          messages = before ++ new ∷ [];
          reserved_sequences = reserved_sequences;
          calls = c ∷ t.calls;
        })
    Sound-called c reserved_sequences t before new s low high gone others own_held = record {
      held = (own_held, All-map t.calls others (λ d h. Held-append before (new ∷ []) d.sequence h));
      range = ((low, high), s.range);
      once = once-more c t.calls (not_called c.sequence before t.calls gone others) s.once;
      numbers = s.numbers;
    }

    -- the session that reserves a number, and the call that follows
    Sound-send_reserved :
        (n : ℕ) (message : String) (t : Turn)
        → 1 ≤ n
        → n ≤ max_visible_outbounds
        → Sound deps t
        → Sound deps (
            send_reserved strip print deps e n message
              (reserve_interaction_outbound e.new_id e.now deps.contact_id deps.interaction_run_id n
                message
                (t.messages ++ e.arrived))
              t)
    unfolding reserve_interaction_outbound
    Sound-send_reserved n message t low high s =
        elim (Option-cases (find (own n) (t.messages ++ e.arrived))) [
          | inr (r, here) ↦ rw here (Sound-keeps t _ refl refl (Held-append t.messages e.arrived) s)
          | inl gone ↦ rw gone (
              Sound-deliver e.provider_message_id n _ (
                Sound-called _ _ t (t.messages ++ e.arrived) _ s low high gone
                  (All-map t.calls s.held (λ c h. Held-append t.messages e.arrived c.sequence h))
                  (Held-new e.new_id e.now n message (t.messages ++ e.arrived) gone)))
        ]

    Sound-sequence_for :
        (id : Option String) (t : Turn)
        → Sound deps t
        → Sound deps (sequence_for strip print id t).0 × (1 ≤ (sequence_for strip print id t).1)
    unfolding sequence_for
    Sound-sequence_for id t s =
        elim (Option-cases (number_of (call_key strip print id t) t.sequence_by_tool_call)) [
          | inl new ↦ rw new (
            record {
              held = s.held;
              range = s.range;
              once = s.once;
              numbers = (omega arith, s.numbers);
            },
            omega arith,
          )
          | inr (n, known) ↦ rw known (s, number_of-All _ t.sequence_by_tool_call s.numbers known)
        ]

    Sound-send_numbered :
        (message : String) (p : Turn × ℕ)
        → Sound deps p.0 × (1 ≤ p.1)
        → Sound deps (send_numbered strip print deps e message p)
    Sound-send_numbered message (t, n) (s, low) = elim (Bool-cases (ltb max_visible_outbounds n)) [
      | inl over ↦ rw over (Sound-keeps t _ refl refl (λ k h. h) s)
      | inr in_reach ↦
          rw in_reach (Sound-send_reserved n message t low (ground (arith, in_reach)) s)
    ]

    pub Sound-send_visible :
        (body : String) (id : Option String) (t : Turn)
        → Sound deps t
        → Sound deps (send_visible strip print deps e body id t)
    unfolding send_visible
    Sound-send_visible body id t s = elim (Bool-cases (is_blank (strip body))) [
      | inl empty ↦ rw empty (Sound-keeps t _ refl refl (λ k h. h) s)
      | inr full ↦ rw full (
          Sound-send_numbered (strip body) (sequence_for strip print id t)
            (Sound-sequence_for id t s))
    ]
