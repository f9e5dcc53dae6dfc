-- ===== src/Transport/Phone.antt =====
-- Phones that a webhook brings: what is taken, and that a reply goes back to it.
use whats_app_poke.Prelude.{
  ℕ, String, ◌≡◌, refl, sym, subst, ◌∙◌, inl, inr, Bool, true, false, ◌&&◌, not, Option, none, some,
  [], ◌∷◌, arith, if◌then◌else◌, Bool-cases, some_injective,
}
use whats_app_poke.Table.{All}
use whats_app_poke.Transport.{
  Text, is_empty, channel_prefix, non_empty, starts_with, after_colon, whatsapp_address,
  InboundMessage, strip_start, strip_end, strip, keep_digits, digits_phone, sid_of, or_sms_sid,
  body_of, has_media, message_of, parse_content, parse_phone, parse_from, parse_inbound,
}

-- What Python's `str` says of the characters of an address.
pub record Characters (is_space is_digit : ℕ → Bool) (lower : Text → Text) : Type 0 where
  pub digit_no_space : (c : ℕ) → is_digit c ≡ true → is_space c ≡ false
  pub prefix_no_space : All (λ c. is_space c ≡ false) channel_prefix
  pub plus_no_space : is_space 43 ≡ false
  pub plus_no_digit : is_digit 43 ≡ false
  pub lower_address :
      (d : Text) → All (λ c. is_digit c ≡ true) d → lower (whatsapp_address d) ≡ whatsapp_address d

module _ (is_space is_digit : ℕ → Bool) (lower : Text → Text)
    (laws : Characters is_space is_digit lower) where
  abbrev Digits : Text → Type 0
  Digits = All (λ c. is_digit c ≡ true)

  abbrev NoSpaces : Text → Type 0
  NoSpaces = All (λ c. is_space c ≡ false)

  keep_digits-Digits : (t : Text) → Digits (keep_digits is_space is_digit lower t)
  unfolding keep_digits
  keep_digits-Digits [] = tt
  keep_digits-Digits (c ∷ t) = elim (Bool-cases (is_digit c)) [
    | inl digit ↦ rw digit (digit, keep_digits-Digits t)
    | inr other ↦ rw other (keep_digits-Digits t)
  ]

  keep_digits-same : (d : Text) → Digits d → keep_digits is_space is_digit lower d ≡ d
  unfolding keep_digits
  keep_digits-same [] h = refl
  keep_digits-same (c ∷ d) h = rw (h.0, keep_digits-same d h.1) refl

  strip_end-same : (t : Text) → NoSpaces t → strip_end is_space is_digit lower t ≡ t
  unfolding strip_end
  strip_end-same [] h = refl
  strip_end-same (c ∷ t) h = rw (strip_end-same t h.1, h.0) (kept (is_empty t))
    where
      kept : (b : Bool) → (if b && false then [] else c ∷ t) ≡ c ∷ t
      kept true = refl
      kept false = refl

  Digits-NoSpaces : (d : Text) → Digits d → NoSpaces d
  Digits-NoSpaces [] h = tt
  Digits-NoSpaces (c ∷ d) h = (laws.digit_no_space c h.0, Digits-NoSpaces d h.1)

  address-NoSpaces : (d : Text) → Digits d → NoSpaces (whatsapp_address d)
  address-NoSpaces d h =
      let p = laws.prefix_no_space in
      (
        p.0,
        (
          p.1.0,
          (
            p.1.1.0,
            (
              p.1.1.1.0,
              (
                p.1.1.1.1.0,
                (
                  p.1.1.1.1.1.0,
                  (
                    p.1.1.1.1.1.1.0,
                    (
                      p.1.1.1.1.1.1.1.0,
                      (p.1.1.1.1.1.1.1.1.0, (laws.plus_no_space, Digits-NoSpaces d h)),
                    ),
                  ),
                ),
              ),
            ),
          ),
        ),
      )

  strip-address :
      (d : Text)
      → Digits d
      → strip is_space is_digit lower (whatsapp_address d) ≡ whatsapp_address d
  unfolding strip strip_start
  strip-address d h =
      rw laws.prefix_no_space.0 (strip_end-same (whatsapp_address d) (address-NoSpaces d h))

  digits_phone-address :
      (c : ℕ) (d : Text)
      → Digits (c ∷ d)
      → digits_phone is_space is_digit lower (whatsapp_address (c ∷ d)) ≡ some (c ∷ d)
  unfolding digits_phone starts_with after_colon keep_digits
  digits_phone-address c d h =
      rw (strip-address (c ∷ d) h, laws.lower_address (c ∷ d) h)
        (rw (laws.plus_no_digit, h.0, keep_digits-same d h.1) refl)

  -- a phone that was read is read again from its address
  phone_again :
      (digits : Text) {phone : Text}
      → Digits digits
      → non_empty digits ≡ some phone
      → Digits phone
        × (is_empty phone ≡ false)
        × (digits_phone is_space is_digit lower (whatsapp_address phone) ≡ some phone)
  phone_again [] h e = absurd (ground arith)
  phone_again (c ∷ d) h e =
      subst
        (λ t.
          Digits t
          × (is_empty t ≡ false)
          × (digits_phone is_space is_digit lower (whatsapp_address t) ≡ some t))
        (some_injective e) (h, refl, digits_phone-address c d h)

  digits_phone-again :
      (value : Text) {phone : Text}
      → digits_phone is_space is_digit lower value ≡ some phone
      → Digits phone
        × (is_empty phone ≡ false)
        × (digits_phone is_space is_digit lower (whatsapp_address phone) ≡ some phone)
  unfolding digits_phone
  digits_phone-again value e = phone_again _ (keep_digits-Digits _) e

  module _ (parse_int : Text → Option ℕ) (form : String → Option Text) where
    -- a message that was taken from the form
    pub record Accepted (m : InboundMessage) : Type 0 where
      pub from : Text
      pub sender : form "From" ≡ some from
      pub channel : starts_with channel_prefix (lower from) ≡ true
      pub phone_digits : Digits m.phone
      pub phone_given : is_empty m.phone ≡ false
      pub reply : digits_phone is_space is_digit lower (whatsapp_address m.phone) ≡ some m.phone
      pub sid_given : is_empty m.provider_message_id ≡ false
      pub content :
          (is_empty m.body && not (has_media is_space is_digit lower parse_int form)) ≡ false

    sid_of-full :
        (o : Option Text) {sid : Text}
        → sid_of is_space is_digit lower parse_int form o ≡ some sid
        → is_empty sid ≡ false
    sid_of-full none e = absurd (ground arith)
    sid_of-full (some []) e = absurd (ground arith)
    sid_of-full (some (c ∷ t)) e = rw (sym (some_injective e)) refl

    sid_full :
        (o : Option Text) {sid : Text}
        → or_sms_sid is_space is_digit lower parse_int form o ≡ some sid
        → is_empty sid ≡ false
    sid_full (some (c ∷ t)) e = rw (sym (some_injective e)) refl
    sid_full (some []) e = sid_of-full (form "SmsSid") e
    sid_full none e = sid_of-full (form "SmsSid") e

    module _ (from : Text) (sender : form "From" ≡ some from)
        (channel : starts_with channel_prefix (lower from) ≡ true) where
      content-Accepted :
          (phone : Text) (o : Option Text) (m : InboundMessage)
          → digits_phone is_space is_digit lower from ≡ some phone
          → or_sms_sid is_space is_digit lower parse_int form (form "MessageSid") ≡ o
          → parse_content is_space is_digit lower parse_int form from phone o ≡ some m
          → Accepted m
      content-Accepted phone none m read asked e = absurd (ground arith)
      content-Accepted phone (some sid) m read asked e =
          elim (Bool-cases (
            is_empty (body_of is_space is_digit lower parse_int form (form "Body"))
            && not (has_media is_space is_digit lower parse_int form))) [
              | inl void ↦ absurd (dropped (sym (rw void refl) ∙ e))
              | inr full ↦ subst Accepted (some_injective (sym (rw full refl) ∙ e)) (accepted full)
            ]
        where
          dropped : none ≡ some m → ⊥
          dropped q = cc

          accepted :
              (is_empty (body_of is_space is_digit lower parse_int form (form "Body"))
                  && not (has_media is_space is_digit lower parse_int form))
                ≡ false
              → Accepted (message_of is_space is_digit lower parse_int form from phone sid)
          accepted full =
              let (digits, given, reply) = digits_phone-again from read in
              record {
                from = from;
                sender = sender;
                channel = channel;
                phone_digits = digits;
                phone_given = given;
                reply = reply;
                sid_given = sid_full (form "MessageSid") asked;
                content = full;
              }

      phone-Accepted :
          (o : Option Text) (m : InboundMessage)
          → digits_phone is_space is_digit lower from ≡ o
          → parse_phone is_space is_digit lower parse_int form from o ≡ some m
          → Accepted m
      phone-Accepted none m read e = absurd (ground arith)
      phone-Accepted (some phone) m read e = content-Accepted phone _ m read refl e

    from-Accepted :
        (o : Option Text) (m : InboundMessage)
        → form "From" ≡ o
        → parse_from is_space is_digit lower parse_int form o ≡ some m
        → Accepted m
    from-Accepted none m sender e = absurd (ground arith)
    from-Accepted (some from) m sender e =
        elim (Bool-cases (starts_with channel_prefix (lower from))) [
          | inl ours ↦ phone-Accepted from sender ours _ m refl (sym (rw ours refl) ∙ e)
          | inr other ↦ absurd (dropped (sym (rw other refl) ∙ e))
        ]
      where
        dropped : none ≡ some m → ⊥
        dropped q = cc

    -- A message that is taken from a webhook came from a WhatsApp sender, names a message, and has a
    -- text or media. Its phone is digits and not empty, and the address of a reply to it is read as
    -- the same phone again.
    pub parse_inbound-Accepted :
        (m : InboundMessage)
        → parse_inbound is_space is_digit lower parse_int form ≡ some m
        → Accepted m
    unfolding parse_inbound
    parse_inbound-Accepted m e = from-Accepted (form "From") m refl e
