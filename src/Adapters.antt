-- ===== src/Adapters.antt =====
-- The streams of src/providers/openai.ts and src/providers/ollama.ts, over the events and lines of the stream parser.
--
-- JSON.parse, `String` of a JSON value, and `trim` are arguments, and so is what a reading error becomes under the
-- deadline of src/providers/http-request.ts. The result is the script of a provider's stream. The checks of the
-- signal between two events are left out: the reader and the consumer make the same.
pub mod Endings
mod Examples
use model_mux.Prelude.{
  ℕ, Bool, true, false, not, ◌&&◌, ◌||◌, String, List, [], ◌∷◌, Option, none, some, ◌==◌,
  if◌then◌else◌, str_eq,
}
use model_mux.Prelude.Int.{ℤ, pos}
use model_mux.Errors.{Error, app, provider_response_error}
use model_mux.Streaming.{Text, ReadError, Yields}
use model_mux.Routing.Stream.{StreamScript, resolves, rejects, delta}
use model_mux.Json.{
  Json, Fields, json_null, json_bool, json_integer, json_string, json_array, json_object, no_fields,
  field, get_field,
}

unfoldable pub text_eq : Text → Text → Bool
text_eq [] [] = true
text_eq [] (d ∷ ds) = false
text_eq (c ∷ cs) [] = false
text_eq (c ∷ cs) (d ∷ ds) = c == d && text_eq cs ds

abbrev pub done_marker : Text
done_marker = 91 ∷ 68 ∷ 79 ∷ 78 ∷ 69 ∷ 93 ∷ []

-- `x == null`, `x === undefined`, and `isRecord`.
abbrev pub is_nullish : Option Json → Bool
is_nullish none = true
is_nullish (some json_null) = true
is_nullish _ = false

abbrev pub is_absent : Option Json → Bool
is_absent none = true
is_absent (some _) = false

abbrev pub record_of : Option Json → Option Fields
record_of (some (json_object fields)) = some fields
record_of _ = none

abbrev pub is_assistant : Option Json → Bool
is_assistant (some (json_string role)) = str_eq role "assistant"
is_assistant _ = false

-- `textContent`.
unfoldable pub text_content : Fields → Option String
text_content message = elim (get_field "content" message) [
  | some (json_string content) ↦ some content
  | content ↦
      if is_nullish content
      then elim (get_field "refusal" message) [
        | some (json_string refusal) ↦ some refusal
        | _ ↦ none
      ]
      else none
]

-- What follows the text of an event: the next event, the end of the answer, or an error.
pub data Ending : Type 0 where
  goes_on ends broken : Ending

-- What an event or a line means: it is malformed, it is passed over, or it has a text, which may be empty.
pub data Meaning : Type 0 where
  malformed ignored : Meaning
  says : String → Ending → Meaning

-- What the adapters use of their surroundings. `on_error` is how a stream rejects when its consumer does.
pub record Reader : Type 0 where
  pub parse : Text → Option Json
  pub show : Json → String
  pub is_blank : Text → Bool
  pub failed : ReadError → Error
  pub on_error : Error → Error

module _ (reader : Reader) where
  -- `parseStreamJson`.
  unfoldable pub parse_stream_json : Text → Option Fields
  parse_stream_json event = record_of (reader.parse event)

  abbrev pub is_finish_reason : Json → Bool
  is_finish_reason reason =
      let text = reader.show reason in
      str_eq text "stop" || str_eq text "length" || str_eq text "content_filter"

  -- A choice of OpenAI with its delta.
  unfoldable pub delta_meaning : Fields → Fields → Meaning
  delta_meaning choice message =
      if not (is_absent (get_field "role" message) || is_assistant (get_field "role" message))
        || not (is_absent (get_field "tool_calls" message))
        || not (is_absent (get_field "function_call" message))
      then malformed
      else elim (if is_nullish (get_field "content" message)
            && is_nullish (get_field "refusal" message)
          then some ""
          else text_content message) [
            | none ↦ malformed
            | some content ↦ elim (get_field "finish_reason" choice) [
              | none ↦ says content goes_on
              | some json_null ↦ says content goes_on
              | some reason ↦ says content (if is_finish_reason reason then ends else broken)
            ]
          ]

  abbrev pub is_first_choice : Option Json → Bool
  is_first_choice none = true
  is_first_choice (some (json_integer (pos n))) = n == 0
  is_first_choice _ = false

  unfoldable pub choice_meaning : Bool → Json → Meaning
  choice_meaning finished choice = elim (record_of (some choice)) [
    | none ↦ malformed
    | some c ↦ elim (record_of (get_field "delta" c)) [
      | none ↦ malformed
      | some message ↦
          if finished || not (is_first_choice (get_field "index" c))
          then malformed
          else delta_meaning c message
    ]
  ]

  unfoldable pub openai_meaning : Bool → Text → Meaning
  openai_meaning finished event = elim (parse_stream_json event) [
    | none ↦ malformed
    | some fields ↦
        if not (is_absent (get_field "error" fields))
        then malformed
        else elim (get_field "choices" fields) [
          | some (json_array no_fields) ↦ ignored
          | some (json_array (field _ choice _)) ↦ choice_meaning finished choice
          | _ ↦ malformed
        ]
  ]

  -- `if (content) await onDelta(content)`.
  abbrev pub spoken : String → StreamScript → StreamScript
  spoken content rest = if str_eq content "" then rest else delta content reader.on_error rest

  -- The end of the events, with the error of the reader if there is one.
  abbrev pub ended_early : String → Option ReadError → StreamScript
  ended_early name none = rejects (app (provider_response_error name))
  ended_early name (some e) = rejects (reader.failed e)

  -- The loop of `OpenAIProvider.stream`.
  unfoldable pub openai_stream : Bool → List Text → Option ReadError → StreamScript
  openai_stream finished [] thrown = ended_early "OpenAI" thrown
  openai_stream finished (event ∷ events) thrown = elim (text_eq event done_marker) [
    | true ↦ if finished then resolves else rejects (app (provider_response_error "OpenAI"))
    | false ↦ elim (openai_meaning finished event) [
      | malformed ↦ rejects (app (provider_response_error "OpenAI"))
      | ignored ↦ openai_stream finished events thrown
      | says content goes_on ↦ spoken content (openai_stream finished events thrown)
      | says content ends ↦ spoken content (openai_stream true events thrown)
      | says content broken ↦ spoken content (rejects (app (provider_response_error "OpenAI")))
    ]
  ]

  -- `data.message` of Ollama, with `data.done`.
  unfoldable pub message_meaning : Fields → Bool → Meaning
  message_meaning message done = elim (get_field "content" message) [
    | some (json_string content) ↦
        if not (is_absent (get_field "role" message) || is_assistant (get_field "role" message))
        then malformed
        else elim (get_field "tool_calls" message) [
          | some (json_array (field _ _ _)) ↦ malformed
          | _ ↦ says content (if done then ends else goes_on)
        ]
    | _ ↦ malformed
  ]

  unfoldable pub ollama_meaning : Text → Meaning
  ollama_meaning line = if reader.is_blank line then ignored else elim (parse_stream_json line) [
    | none ↦ malformed
    | some fields ↦
        if not (is_absent (get_field "error" fields))
        then malformed
        else elim (get_field "done" fields) [
          | some (json_bool done) ↦ elim (get_field "message" fields) [
            | none ↦ if done then says "" ends else malformed
            | some (json_object message) ↦ message_meaning message done
            | some _ ↦ malformed
          ]
          | _ ↦ malformed
        ]
  ]

  -- The loop of `OllamaProvider.stream`.
  unfoldable pub ollama_stream : List Text → Option ReadError → StreamScript
  ollama_stream [] thrown = ended_early "Ollama" thrown
  ollama_stream (line ∷ lines) thrown = elim (ollama_meaning line) [
    | malformed ↦ rejects (app (provider_response_error "Ollama"))
    | ignored ↦ ollama_stream lines thrown
    | says content goes_on ↦ spoken content (ollama_stream lines thrown)
    | says content ends ↦ spoken content resolves
    | says content broken ↦ spoken content (rejects (app (provider_response_error "Ollama")))
  ]
