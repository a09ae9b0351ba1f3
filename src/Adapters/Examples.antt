-- ===== src/Adapters/Examples.antt =====
-- An answer of one text, from either provider (src/providers/openai.ts, src/providers/ollama.ts).
use model_mux.Prelude.{◌≡◌, refl, true, false, str_eq, [], ◌∷◌, none, some, All}
use model_mux.Errors.{unexpected}
use model_mux.Streaming.{aborted}
use model_mux.Json.{
  Json, Fields, json_null, json_bool, json_string, json_array, json_object, no_fields, field,
}
use model_mux.Adapters.{Reader, text_eq, done_marker, openai_stream, ollama_stream}
use model_mux.Adapters.Endings.{
  texts, resolved, IsUnfinished, openai_stream-ends_well, ollama_stream-ends_well,
}

-- The last event of OpenAI before the end marker.
abbrev last_event : Json
last_event = json_object (
    field "choices"
      (json_array (
        field ""
          (json_object (
            field "delta" (json_object (field "content" (json_string "hi") no_fields))
              (field "finish_reason" (json_string "stop") no_fields)))
          no_fields))
      no_fields)

abbrev last_line : Json
last_line = json_object (
    field "done" (json_bool true)
      (field "message" (json_object (field "content" (json_string "hi") no_fields)) no_fields))

abbrev reader : Json → Reader
reader value = record {
  parse = λ _. some value;
  show = λ _. "stop";
  is_blank = λ _. false;
  failed = λ _. unexpected "reader";
  on_error = λ e. e;
}

openai_resolves :
    resolved (openai_stream (reader last_event) false ((1 ∷ []) ∷ done_marker ∷ []) none) ≡ true
unfolding openai_stream text_eq model_mux.Adapters.openai_meaning
    model_mux.Adapters.parse_stream_json model_mux.Json.get_field model_mux.Adapters.choice_meaning
    model_mux.Adapters.delta_meaning model_mux.Adapters.text_content
openai_resolves = refl

ollama_resolves : resolved (ollama_stream (reader last_line) ((1 ∷ []) ∷ []) none) ≡ true
unfolding ollama_stream model_mux.Adapters.ollama_meaning model_mux.Adapters.parse_stream_json
    model_mux.Json.get_field model_mux.Adapters.message_meaning
ollama_resolves = refl

openai_stream-ends_well_example :
    let script = openai_stream (reader last_event) false ((1 ∷ []) ∷ done_marker ∷ []) none in
    All (λ text. str_eq text "" ≡ false) (texts script)
    × (All (λ e. text_eq e done_marker ≡ false) ((1 ∷ []) ∷ done_marker ∷ [])
        → resolved script ≡ false)
    × (resolved script ≡ true
        → openai_stream
            (reader last_event)
            false
            ((1 ∷ []) ∷ done_marker ∷ (2 ∷ []) ∷ [])
            (some aborted)
          ≡ script)
openai_stream-ends_well_example =
    openai_stream-ends_well (reader last_event) ((1 ∷ []) ∷ done_marker ∷ []) ((2 ∷ []) ∷ []) none
      (some aborted)

ollama_stream-ends_well_example :
    let script = ollama_stream (reader last_line) ((1 ∷ []) ∷ []) none in
    All (λ text. str_eq text "" ≡ false) (texts script)
    × (IsUnfinished (reader last_line) ((1 ∷ []) ∷ []) → resolved script ≡ false)
    × (resolved script ≡ true
        → ollama_stream (reader last_line) ((1 ∷ []) ∷ (2 ∷ []) ∷ []) (some aborted) ≡ script)
ollama_stream-ends_well_example =
    ollama_stream-ends_well (reader last_line) ((1 ∷ []) ∷ []) ((2 ∷ []) ∷ []) none (some aborted)
