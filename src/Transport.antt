-- ===== src/Transport.antt =====
-- The Twilio wire format: app/transport/twilio_wa.py. A text that is walked is the list of its
-- characters. `is_space`, `is_digit` and `lower` stand for the methods of Python's `str`,
-- `parse_int` for `int` (none: it raised; the counts that Twilio sends are naturals), and
-- `form` for the form of the webhook, whose values are texts.
pub mod Phone
mod Tests
use whats_app_poke.Prelude.{
  ℕ, String, Bool, true, false, ◌&&◌, ◌||◌, not, Option, none, some, List, [], ◌∷◌, ◌++◌, ltb, ◌==◌,
  if◌then◌else◌, is_some,
}

abbrev pub Text : Type 0
Text = List ℕ

abbrev pub is_empty : Text → Bool
is_empty [] = true
is_empty (c ∷ t) = false

-- `whatsapp:`
abbrev pub channel_prefix : Text
channel_prefix = 119 ∷ 104 ∷ 97 ∷ 116 ∷ 115 ∷ 97 ∷ 112 ∷ 112 ∷ 58 ∷ []

-- `t or None`
abbrev pub non_empty : Text → Option Text
non_empty [] = none
non_empty (c ∷ t) = some (c ∷ t)

unfoldable pub starts_with : Text → Text → Bool
starts_with [] t = true
starts_with (p ∷ prefix) [] = false
starts_with (p ∷ prefix) (c ∷ t) = p == c && starts_with prefix t

-- `t.split(":", 1)[1]`, of a text with a colon
unfoldable pub after_colon : Text → Text
after_colon [] = []
after_colon (c ∷ t) = let rest = after_colon t in if c == 58 then t else rest

abbrev pub whatsapp_address : Text → Text
whatsapp_address phone_digits = channel_prefix ++ 43 ∷ phone_digits

pub record InboundMessage : Type 0 where
  pub phone : Text
  pub body : Text
  pub provider_message_id : Text
  pub sender_name : Option Text
  pub account_sid : Option Text
  pub from_address : Option Text
  pub to_address : Option Text
  pub num_media : Option ℕ
  pub media_url : Option Text
  pub media_content_type : Option Text
  pub wa_id : Option Text
  pub sms_status : Option Text
  pub api_version : Option Text
  pub num_segments : Option ℕ
  pub profile_name : Option Text

module _ (is_space is_digit : ℕ → Bool) (lower : Text → Text) where
  unfoldable pub strip_start : Text → Text
  strip_start [] = []
  strip_start (c ∷ t) = let rest = strip_start t in if is_space c then rest else c ∷ t

  unfoldable pub strip_end : Text → Text
  strip_end [] = []
  strip_end (c ∷ t) = let rest = strip_end t in if is_empty rest && is_space c then [] else c ∷ rest

  unfoldable pub strip : Text → Text
  unfolding strip_start strip_end
  strip t = strip_end (strip_start t)

  unfoldable pub keep_digits : Text → Text
  keep_digits [] = []
  keep_digits (c ∷ t) = let rest = keep_digits t in if is_digit c then c ∷ rest else rest

  unfoldable pub digits_phone : Text → Option Text
  unfolding strip keep_digits starts_with after_colon
  digits_phone value =
      let raw = strip value in
      non_empty
        (keep_digits (if starts_with channel_prefix (lower raw) then after_colon raw else raw))

  module _ (parse_int : Text → Option ℕ) (form : String → Option Text) where
    abbrev pub stripped : Option Text → Option Text
    stripped none = none
    stripped (some value) = non_empty (strip value)

    abbrev pub optional_str : String → Option Text
    optional_str key = stripped (form key)

    abbrev pub int_of : Option Text → Option ℕ
    int_of none = none
    int_of (some value) = if is_empty (strip value) then none else parse_int (strip value)

    abbrev pub optional_int : String → Option ℕ
    optional_int key = int_of (form key)

    abbrev pub sid_of : Option Text → Option Text
    sid_of none = none
    sid_of (some sid) = non_empty sid

    -- `form.get("MessageSid") or form.get("SmsSid")`, if it is not empty
    abbrev pub or_sms_sid : Option Text → Option Text
    or_sms_sid (some (c ∷ sid)) = some (c ∷ sid)
    or_sms_sid (some []) = sid_of (form "SmsSid")
    or_sms_sid none = sid_of (form "SmsSid")

    abbrev pub body_of : Option Text → Text
    body_of none = []
    body_of (some raw) = strip raw

    abbrev pub some_media : Option ℕ → Bool
    some_media none = false
    some_media (some n) = ltb 0 n

    abbrev pub has_media : Bool
    has_media = some_media (optional_int "NumMedia") || is_some (optional_str "MediaUrl0")

    abbrev pub message_of : Text → Text → Text → InboundMessage
    message_of from phone message_sid = record {
      phone = phone;
      body = body_of (form "Body");
      provider_message_id = message_sid;
      sender_name = optional_str "ProfileName";
      account_sid = optional_str "AccountSid";
      from_address = some (strip from);
      to_address = optional_str "To";
      num_media = optional_int "NumMedia";
      media_url = optional_str "MediaUrl0";
      media_content_type = optional_str "MediaContentType0";
      wa_id = optional_str "WaId";
      sms_status = optional_str "SmsStatus";
      api_version = optional_str "ApiVersion";
      num_segments = optional_int "NumSegments";
      profile_name = optional_str "ProfileName";
    }

    abbrev pub parse_content : Text → Text → Option Text → Option InboundMessage
    parse_content from phone none = none
    parse_content from phone (some message_sid) =
        if is_empty (body_of (form "Body")) && not has_media
        then none
        else some (message_of from phone message_sid)

    abbrev pub parse_phone : Text → Option Text → Option InboundMessage
    parse_phone from none = none
    parse_phone from (some phone) = parse_content from phone (or_sms_sid (form "MessageSid"))

    abbrev pub parse_from : Option Text → Option InboundMessage
    parse_from none = none
    parse_from (some from) =
        if starts_with channel_prefix (lower from)
        then parse_phone from (digits_phone from)
        else none

    unfoldable pub parse_inbound : Option InboundMessage
    unfolding digits_phone starts_with
    parse_inbound = parse_from (form "From")
