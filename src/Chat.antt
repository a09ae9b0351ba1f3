-- ===== src/Chat.antt =====
-- The handlers of src/routes/chat.ts, with writeSse of src/routes/sse.ts.
--
-- The limiter, the cache, the provider and the socket are operations of a world `W`, which any other request may
-- change while one of them is awaited. A permit is a number. The abort signal of the request and
-- the state of the socket are read off the world. A handler writes what it does to others to a trace.
-- Log lines and the removal of listeners are left out.
pub mod Handlers
pub mod Orders
pub mod Answers
pub mod Trails
pub mod OpenCache
pub mod Streams
pub mod Faults
pub mod StreamTrails
mod Examples
use model_mux.Prelude.{
  ℕ, Bool, true, false, not, ◌&&◌, ◌||◌, String, List, [], ◌∷◌, ◌++◌, Option, none, some, ◌==◌,
  str_eq, if◌then◌else◌,
}
use model_mux.Errors.{
  AppError, Error, app, request_aborted_error, code, provider_streaming_unsupported_error,
}
use model_mux.Circuit.{Completion, returned, threw}
use model_mux.Routing.{ChatRequest, ChatResponse}
use model_mux.Streaming.{Text, after}
use model_mux.Auth.{drop_spaces, is_space}
use model_mux.Handling.{Handler, pure, raise, gets, modify, ◌>>=◌, ◌>>◌, catching, ensuring, either}

unfoldable pub trim_end : Text → Text
trim_end [] = []
trim_end (c ∷ cs) = elim (trim_end cs) [
  | [] ↦ if is_space c then [] else c ∷ []
  | d ∷ ds ↦ c ∷ d ∷ ds
]

-- `cacheControl.split(",")`.
unfoldable pub split_commas : Text → List Text
split_commas [] = [] ∷ []
split_commas (c ∷ cs) = elim (split_commas cs) [
  | [] ↦ []
  | part ∷ parts ↦ if c == 44 then [] ∷ part ∷ parts else (c ∷ part) ∷ parts
]

abbrev pub no_store : Text
no_store = 110 ∷ 111 ∷ 45 ∷ 115 ∷ 116 ∷ 111 ∷ 114 ∷ 101 ∷ []

abbrev pub no_cache : Text
no_cache = 110 ∷ 111 ∷ 45 ∷ 99 ∷ 97 ∷ 99 ∷ 104 ∷ 101 ∷ []

-- `(?:\s*=|$)`, at the end of the directive's name.
unfoldable pub ends_name : Text → Bool
ends_name [] = true
ends_name (c ∷ cs) = elim (drop_spaces (c ∷ cs)) [ [] ↦ false | d ∷ ds ↦ d == 61 ]

abbrev pub is_named : Text → Text → Bool
is_named name text = elim (after name text) [ none ↦ false | some rest ↦ ends_name rest ]

unfoldable pub forbids_cache : List Text → Bool
unfolding trim_end ends_name
forbids_cache [] = false
forbids_cache (directive ∷ directives) =
    let text = trim_end (drop_spaces directive) in
    is_named no_store text || is_named no_cache text || forbids_cache directives

-- `useCache`; the cache-control header is given in lower case.
unfoldable pub wants_cache : Bool → Option String → Text → Bool
unfolding split_commas forbids_cache
wants_cache has_cache none cache_control = false
wants_cache has_cache (some mode) cache_control =
    has_cache && str_eq mode "use" && not (forbids_cache (split_commas cache_control))

pub data CacheStatus : Type 0 where
  hit miss bypass : CacheStatus

pub data Phase : Type 0 where
  cache_phase queue_phase execution_phase : Phase

pub data SseEvent : Type 0 where
  delta_event : String → SseEvent
  done_event : SseEvent
  error_event : String → SseEvent

pub data StreamOutcome : Type 0 where
  stream_completed stream_failed stream_cancelled : StreamOutcome

-- What a handler does to others, in order. `called` is the provider's call, `wrote` a write to the socket.
pub data Effect : Type 0 where
  read_cache wrote_cache called sent_head ended destroyed : Effect
  acquired released : ℕ → Effect
  measured_cache : CacheStatus → Effect
  wrote : SseEvent → Effect
  measured_stream : StreamOutcome → Effect

pub record ChatCache (W : Type 0) : Type 0 where
  pub get : String → ChatRequest → W → Completion (Option ChatResponse) Error × W
  pub put : String → ChatRequest → ChatResponse → W → Completion (Unit {0}) Error × W

-- What a provider's stream does: it resolves, rejects, waits for its upstream, or awaits the consumer of
-- a text, where a consumer that rejects makes it reject with `on_error`.
pub data Deltas (W : Type 0) : Type 0 where
  resolves : Deltas W
  rejects : Error → Deltas W
  waits : (W → W) → Deltas W → Deltas W
  delta : String → (on_error : Error → Error) → Deltas W → Deltas W

-- `write` gives whether the event is out: it is not when the socket is closed or fails, the signal is aborted,
-- or the buffer stays full for too long.
pub record Gateway (W : Type 0) : Type 0 where
  pub is_aborted : W → Bool
  pub abort : W → W
  pub acquire : W → Completion ℕ Error × W
  pub release : ℕ → W → W
  pub chat : ChatRequest → W → Completion ChatResponse Error × W
  pub stream : Option (ChatRequest → W → Deltas W)
  pub chat_cache : Option (ChatCache W)
  pub is_destroyed : W → Bool
  pub needs_drain : W → Bool
  pub write : SseEvent → W → Bool × W

-- The variables of a handler, the world, and the trace.
pub record Session (W : Type 0) : Type 0 where
  pub world : W
  pub trace : List Effect
  pub permit : Option ℕ
  pub phase : Phase
  pub use_cache : Bool
  pub cache_status : CacheStatus
  pub started : Bool
  pub outcome : StreamOutcome

-- What a request is answered with: a response, or a socket that is destroyed.
pub data ChatReply : Type 0 where
  sent : ChatResponse → ChatReply
  hijacked : ChatReply

module _ {W : Type 0} where
  abbrev pub noted : Effect → Session W → Session W
  noted e s = record s { trace = s.trace ++ e ∷ [] }

  abbrev pub in_world : {T : Type 0} → (W → Completion T Error × W) → Handler (Session W) T
  in_world f s = let (c, w) = f s.world in (c, record s { world = w })

  -- `permit?.release(); permit = undefined`.
  unfoldable pub release_permit : Gateway W → Session W → Session W
  release_permit g s = elim s.permit [
    | none ↦ s
    | some id ↦ noted (released id) (record s { permit = none; world = g.release id s.world })
  ]

  unfoldable pub throw_if_cancelled : Gateway W → Handler (Session W) (Unit {0})
  throw_if_cancelled g s =
      (if g.is_aborted s.world then threw request_aborted_error else returned tt, s)

  -- `permit = await concurrencyLimiter.acquire(…)`.
  unfoldable pub take_permit : Gateway W → Handler (Session W) (Unit {0})
  take_permit g =
      in_world g.acquire >>= λ id. modify (λ s. noted (acquired id) (record s { permit = some id }))
