-- ===== src/Interaction/Texts.antt =====
-- The texts that the code, not the model, sends: `_confirmation_message` and `_result_fallback` of
-- app/agent/interaction.py. The record Print stands for Python's: `squeeze s` is
-- `" ".join(s.split())`, `cut n s` is `s[:n]`, `show` is `str`, `letters` the texts that a `for`
-- over a text gives, `is_nonzero` says that a number is not zero, and `loads` is `json.loads` (none: it raised).
use Prim.Native.String.{◌++◌ as ◌⧺◌}
use whats_app_poke.Prelude.{
  ℕ, String, Bool, true, false, not, ◌&&◌, Option, none, some, List, [], ◌∷◌, str_eq, if◌then◌else◌,
}
use whats_app_poke.Payload.{
  Json, null, flag, number, str, array, object, Items, nil, item, Fields, end, field, Payload,
  lookup,
}
use whats_app_poke.Actions.{PendingAction, PendingActionKind, send_email, create_event}
use whats_app_poke.Execution.Scope.{is_blank}

pub record Print : Type 0 where
  pub squeeze : String → String
  pub cut : ℕ → String → String
  pub show : Json → String
  pub is_nonzero : String → Bool
  pub letters : String → List String
  pub loads : String → Option Json

-- `payload.get(key, default)`
abbrev pub get_or : Json → Option Json → Json
get_or default none = default
get_or default (some v) = v

-- `", ".join(texts)`
unfoldable pub comma_joined : List String → String
comma_joined [] = ""
comma_joined (s ∷ []) = s
comma_joined (s ∷ t ∷ l) = s ⧺ ", " ⧺ comma_joined (t ∷ l)

-- the texts of the values that are true
unfoldable pub texts_of : List String → List String
texts_of [] = []
texts_of (s ∷ l) = let rest = texts_of l in if is_blank s then rest else s ∷ rest

module _ (x : Print) where
  abbrev pub field_text : String → Json → ℕ → Payload → String
  field_text key default limit payload =
      x.cut limit (x.squeeze (x.show (get_or default (lookup key payload))))

  -- whether a JSON value is true in a test
  abbrev pub is_true : Json → Bool
  is_true null = false
  is_true (flag b) = b
  is_true (number n) = x.is_nonzero n
  is_true (str s) = not (is_blank s)
  is_true (array nil) = false
  is_true (array (item v items)) = true
  is_true (object end) = false
  is_true (object (field k v fields)) = true

  unfoldable pub item_texts : Items → List String
  item_texts nil = []
  item_texts (item v items) =
      let rest = item_texts items in if is_true v then x.show v ∷ rest else rest

  unfoldable pub key_texts : Fields → List String
  key_texts end = []
  key_texts (field k v fields) =
      let rest = key_texts fields in if is_blank k then rest else k ∷ rest

  -- `str(item) for item in … if item`: a text gives its letters; none: the value raised
  abbrev pub recipients_of : Json → Option (List String)
  recipients_of (str s) = some (texts_of (x.letters s))
  recipients_of (array items) = some (item_texts items)
  recipients_of (object fields) = some (key_texts fields)
  recipients_of _ = none

  abbrev pub details : String → String → String → String
  details title start ends =
      title ⧺ ", em " ⧺ start ⧺ (if is_blank ends then "" else " até " ⧺ ends)

  abbrev pub event_message : Payload → String
  event_message payload =
      let title = field_text "title" (str "evento") 120 payload in
      let start = field_text "start" (str "horário combinado") 80 payload in
      let ends = field_text "end" (str "") 80 payload in
      "Posso criar o evento " ⧺ details title start ends ⧺ "?"

  abbrev pub email_message : Payload → List String → String
  email_message payload recipients =
      let joined = comma_joined recipients in
      let named = if is_blank joined then "os destinatários informados" else joined in
      let subject = field_text "subject" (str "(sem assunto)") 120 payload in
      let body = field_text "body" (get_or (str "") (lookup "draft" payload)) 180 payload in
      "Posso enviar o e-mail para "
      ⧺ named
      ⧺ ", assunto “"
      ⧺ subject
      ⧺ "”?"
      ⧺ (if is_blank body then "" else " Rascunho: " ⧺ body)

  abbrev pub email_message_to : Payload → Option (List String) → Option String
  email_message_to payload none = none
  email_message_to payload (some recipients) = some (email_message payload recipients)

  abbrev pub action_message : PendingActionKind → Payload → Option String
  action_message create_event payload = some (event_message payload)
  action_message send_email payload =
      email_message_to payload (recipients_of (get_or (array nil) (lookup "to" payload)))

  -- none: it raised, as on no row
  unfoldable pub confirmation_message : List PendingAction → Option String
  unfolding comma_joined texts_of item_texts key_texts lookup
  confirmation_message [] = none
  confirmation_message (row ∷ []) = action_message row.kind row.payload
  confirmation_message (row ∷ other ∷ rows) =
      some "Tenho mais de uma ação aguardando confirmação. Diga qual delas você quer confirmar."

  -- `payload.get(key)` of an object
  unfoldable pub field_of : String → Fields → Option Json
  field_of key end = none
  field_of key (field k v fields) = if str_eq k key then some v else field_of key fields

  abbrev pub json_is : Option Json → String → Bool
  json_is (some (str s)) t = str_eq s t
  json_is _ t = false

  abbrev pub unfinished : String
  unfinished = "Não consegui concluir essa tarefa. Tente de novo em instantes."

  -- the object in `result`, or the empty one
  abbrev pub result_of : Option Json → Fields
  result_of (some (object result)) = result
  result_of _ = end

  abbrev pub status_message : Option Json → String
  status_message status =
      if json_is status "timed_out"
      then "A tarefa demorou mais do que o esperado e não foi concluída."
      else if json_is status "cancelled"
      then "A tarefa foi cancelada."
      else if json_is status "failed"
      then "Não consegui concluir essa tarefa."
      else unfinished

  abbrev pub result_message : Option Json → Fields → String
  result_message status result =
      let text = x.cut 400 (x.squeeze (x.show (get_or (str "") (field_of "summary" result)))) in
      if is_blank text
      then status_message status
      else if json_is status "failed" && json_is (field_of "outcome" result) "needs_input"
      then text
      else if json_is status "succeeded"
      then text
      else "Não consegui concluir: " ⧺ text

  abbrev pub fallback_of : Option Json → String
  fallback_of (some (object payload)) =
      result_message (field_of "status" payload) (result_of (field_of "result" payload))
  fallback_of _ = unfinished

  unfoldable pub result_fallback : String → String
  unfolding field_of
  result_fallback summary = fallback_of (x.loads summary)
