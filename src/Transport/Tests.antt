-- ===== src/Transport/Tests.antt =====
-- A webhook's form, and the theorem at an input that meets its hypotheses.
use whats_app_poke.Prelude.{
  ℕ, String, ◌≡◌, refl, Bool, ◌&&◌, Option, none, some, [], ◌∷◌, arith, leb, ◌==◌, str_eq,
  if◌then◌else◌,
}
use whats_app_poke.Transport.{
  Text, whatsapp_address, InboundMessage, starts_with, after_colon, strip_start, strip_end, strip,
  keep_digits, digits_phone, message_of, parse_inbound,
}
use whats_app_poke.Transport.Phone.{Characters, Accepted, parse_inbound-Accepted}

abbrev is_space : ℕ → Bool
is_space c = c == 32

abbrev is_digit : ℕ → Bool
is_digit c = leb 48 c && leb c 57

abbrev same_text : Text → Text
same_text t = t

abbrev no_number : Text → Option ℕ
no_number t = none

abbrev form : String → Option Text
form key =
    if str_eq key "From"
    then some (whatsapp_address (53 ∷ 54 ∷ []))
    else if str_eq key "MessageSid"
    then some (83 ∷ [])
    else if str_eq key "Body"
    then some (32 ∷ 111 ∷ 105 ∷ 32 ∷ [])
    else none

ascii : Characters is_space is_digit same_text
ascii = record {
  digit_no_space = λ c d. ground (arith, d);
  prefix_no_space = (refl, (refl, (refl, (refl, (refl, (refl, (refl, (refl, (refl, tt)))))))));
  plus_no_space = refl;
  plus_no_digit = refl;
  lower_address = λ d h. refl;
}

-- what the form holds
abbrev greeting : InboundMessage
greeting =
    message_of is_space is_digit same_text no_number form (whatsapp_address (53 ∷ 54 ∷ []))
      (53 ∷ 54 ∷ []) (83 ∷ [])

greeting_text : greeting.body ≡ 111 ∷ 105 ∷ []
unfolding strip strip_start strip_end
greeting_text = refl

taken : parse_inbound is_space is_digit same_text no_number form ≡ some greeting
unfolding parse_inbound digits_phone starts_with after_colon strip strip_start strip_end keep_digits
taken = refl

parse_inbound-Accepted_example : Accepted is_space is_digit same_text ascii no_number form greeting
parse_inbound-Accepted_example =
    parse_inbound-Accepted is_space is_digit same_text ascii no_number form greeting taken
