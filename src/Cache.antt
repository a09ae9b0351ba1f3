-- ===== src/Cache.antt =====
-- src/cache/redis-chat-cache.ts and src/cache/cache-key.ts: the cache of answers.
--
-- Redis is an association list from a key to a value that may have expired. `GETRANGE`, `SET … EX … NX` and the
-- timer act at once: whether a command is lost, times out or is cancelled is an argument of its own.
-- SHA-256 and JSON are arguments. A value is the list of its UTF-8 bytes.
pub mod Rounds
mod Examples
use model_mux.Prelude.{
  ℕ, ◌+◌, ◌*◌, Bool, true, false, ◌&&◌, ◌||◌, String, List, [], ◌∷◌, Option, none, some,
  if◌then◌else◌, str_eq, ltb, leb, length, zero, suc, ◌<>◌,
}
use model_mux.Prelude.Int.{ℤ, pos, pos_part}
use model_mux.Errors.{Error, request_aborted_error, unexpected}
use model_mux.Circuit.{Completion, returned, threw}
use model_mux.Routing.{ChatRequest, ChatResponse}
use model_mux.Json.{Json, Fields, json_string, json_object, no_fields, field, get_field}

pub record CacheOptions : Type 0 where
  pub namespace : String
  pub ttl_seconds : ℕ
  pub max_entry_bytes : ℕ
  pub timeout_ms : ℕ

abbrev pub max_option : ℕ
max_option = 2147483647

abbrev pub is_bad_option : ℕ → Bool
is_bad_option n = ltb n 1 || ltb max_option n

pub data CacheError : Type 0 where
  bad_ttl_seconds bad_max_entry_bytes bad_timeout_ms no_namespace : CacheError

-- The constructor; a number that is no integer, or negative, has no value here.
unfoldable pub new : CacheOptions → Completion CacheOptions CacheError
new o =
    if is_bad_option o.ttl_seconds
    then threw bad_ttl_seconds
    else if is_bad_option o.max_entry_bytes
    then threw bad_max_entry_bytes
    else if is_bad_option o.timeout_ms
    then threw bad_timeout_ms
    else if str_eq o.namespace ""
    then threw no_namespace
    else returned o

-- A value, with the time at which it expires in milliseconds.
pub record Entry : Type 0 where
  pub data_bytes : List ℕ
  pub expires_at_ms : ℕ

-- How a command ends: `never_ran` and `lost` reject, by the client, the timer or the abort signal, before or after
-- its effect; the flag tells that the signal of the request was aborted.
pub data CommandFate : Type 0 where
  answered : CommandFate
  never_ran lost : Bool → CommandFate

unfoldable pub content_of : Fields → Option String
content_of message = elim (get_field "role" message) [
  | some (json_string role) ↦
      if str_eq role "assistant"
      then elim (get_field "content" message) [
        | some (json_string content) ↦ some content
        | _ ↦ none
      ]
      else none
  | _ ↦ none
]

-- `isChatResponse`, with the response that `get` makes of it.
unfoldable pub chat_response_of : Json → Option ChatResponse
chat_response_of (json_object value) = elim (get_field "message" value) [
  | some (json_object message) ↦ elim (content_of message) [
    | none ↦ none
    | some content ↦ some (record { content = content })
  ]
  | _ ↦ none
]
chat_response_of _ = none

-- `{ message: { role: "assistant", content } }`.
abbrev pub json_of : ChatResponse → Json
json_of r = json_object (
    field "message"
      (json_object (
        field "role" (json_string "assistant") (field "content" (json_string r.content) no_fields)))
      no_fields)

abbrev pub Redis : Type 0
Redis = List (String × Entry)

unfoldable pub live_entry : String → ℕ → Redis → Option Entry
live_entry key now [] = none
live_entry key now ((k, e) ∷ rest) =
    if str_eq k key
    then (if leb e.expires_at_ms now then none else some e)
    else live_entry key now rest

unfoldable pub set_entry : String → Entry → Redis → Redis
set_entry key e [] = (key, e) ∷ []
set_entry key e ((k, e') ∷ rest) =
    if str_eq k key then (key, e) ∷ rest else (k, e') ∷ set_entry key e rest

-- `GETRANGE key 0 max`.
abbrev pub take : ℕ → List ℕ → List ℕ
take zero bs = []
take (suc n) [] = []
take (suc n) (b ∷ bs) = b ∷ take n bs

unfoldable pub getrange : String → ℕ → ℕ → Redis → List ℕ
getrange key max now redis = elim (live_entry key now redis) [
  | none ↦ []
  | some e ↦ take (suc max) e.data_bytes
]

-- `SET key value EX ttl NX`.
unfoldable pub set_nx : String → List ℕ → ℕ → ℕ → Redis → Redis
set_nx key value ttl_seconds now redis = elim (live_entry key now redis) [
  | some _ ↦ redis
  | none ↦
      set_entry key (record { data_bytes = value; expires_at_ms = now + ttl_seconds * 1000 }) redis
]

-- What `command` rejects with.
abbrev pub rejection : Bool → Error
rejection true = request_aborted_error
rejection false = unexpected "Chat cache timed out"

-- `command`, for an operation with its effect on Redis.
unfoldable pub command : {T : Type 0} → CommandFate → T × Redis → Redis → Completion T Error × Redis
command answered (x, after) redis = (returned x, after)
command (never_ran is_aborted) (x, after) redis = (threw (rejection is_aborted), redis)
command (lost is_aborted) (x, after) redis = (threw (rejection is_aborted), after)

-- What is not of this repository: SHA-256 of the canonical JSON of the key's parts, JSON.stringify as
-- bytes, JSON.parse of decoded bytes, and the number of bytes of a string.
pub record Codec : Type 0 where
  pub hash : String → String → ChatRequest → String
  pub stringify : Json → List ℕ
  pub parse : List ℕ → Option Json
  pub byte_length : String → ℕ

module _ (codec : Codec) (o : CacheOptions) where
  abbrev pub chat_cache_key : String → ChatRequest → String
  chat_cache_key owner_id request =
      "modelmux:chat-cache:v1:" <> codec.hash o.namespace owner_id request

  unfoldable pub read_value : List ℕ → Option ChatResponse
  read_value [] = none
  read_value (b ∷ bs) =
      if ltb o.max_entry_bytes (length (b ∷ bs))
      then none
      else elim (codec.parse (b ∷ bs)) [ none ↦ none | some value ↦ chat_response_of value ]

  unfoldable pub get :
      CommandFate
      → ℕ
      → String
      → ChatRequest
      → Bool
      → Redis
      → Completion (Option ChatResponse) Error × Redis
  get fate now owner_id request is_aborted redis =
      if is_aborted
      then (threw request_aborted_error, redis)
      else let (c, redis') =
          command fate
            (getrange (chat_cache_key owner_id request) o.max_entry_bytes now redis, redis) redis in
        (elim c [ returned bytes ↦ returned (read_value bytes) | threw e ↦ threw e ], redis')

  -- A response of the provider always has the form that `isChatResponse` asks for.
  unfoldable pub put :
      CommandFate
      → ℕ
      → String
      → ChatRequest
      → ChatResponse
      → Bool
      → Redis
      → Completion (Unit {0}) Error × Redis
  put fate now owner_id request response is_aborted redis =
      if is_aborted
      then (threw request_aborted_error, redis)
      else if ltb o.max_entry_bytes (codec.byte_length response.content)
      then (returned tt, redis)
      else let value = codec.stringify (json_of response) in
        if ltb o.max_entry_bytes (length value)
        then (returned tt, redis)
        else command fate
            (tt, set_nx (chat_cache_key owner_id request) value o.ttl_seconds now redis) redis
