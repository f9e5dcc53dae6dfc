-- ===== src/Payload.antt =====
-- JSON values, the payload of a job or of a staged action (`dict[str, Any]`), and `payload_str`
-- of app/worker/_helpers.py.
use text.Mathlib.TextPositions.{eq_refl}
use whats_app_poke.Prelude.{
  String, ◌≡◌, Bool, Option, none, some, List, ◌∷◌, [], str_eq, if◌then◌else◌,
}

-- A number is kept as its JSON text.
mutual
  pub data Json : Type 0 where
    null : Json
    flag : Bool → Json
    number : String → Json
    str : String → Json
    array : Items → Json
    object : Fields → Json

  pub data Items : Type 0 where
    nil : Items
    item : Json → Items → Items

  pub data Fields : Type 0 where
    end : Fields
    field : String → Json → Fields → Fields

abbrev pub Payload : Type 0
Payload = List (String × Json)

-- `payload.get(key)`
unfoldable pub lookup : String → Payload → Option Json
lookup k [] = none
lookup k ((j, v) ∷ m) = if str_eq j k then some v else lookup k m

-- `value if isinstance(value, str) else None`
abbrev pub as_text : Option Json → Option String
as_text (some (str s)) = some s
as_text _ = none

-- `value if isinstance(value, str) and value else None`
unfoldable pub non_empty_text : Option Json → Option String
non_empty_text (some (str s)) = if str_eq s "" then none else some s
non_empty_text _ = none

unfoldable pub payload_str : Payload → String → Option String
unfolding lookup non_empty_text
payload_str payload key = non_empty_text (lookup key payload)

pub lookup-head : (k : String) (v : Json) (m : Payload) → lookup k ((k, v) ∷ m) ≡ some v
unfolding lookup
lookup-head k v m = simp eq_refl
