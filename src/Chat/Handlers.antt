-- ===== src/Chat/Handlers.antt =====
-- The two handlers of src/routes/chat.ts, and writeSse of src/routes/sse.ts.
use model_mux.Prelude.{
  Bool, true, false, not, ◌||◌, String, [], Option, none, some, str_eq, if◌then◌else◌,
}
use model_mux.Errors.{Error, app, request_aborted_error, code, provider_streaming_unsupported_error}
use model_mux.Circuit.{returned, threw}
use model_mux.Routing.{ChatRequest, ChatResponse}
use model_mux.Handling.{Handler, pure, raise, modify, ◌>>=◌, ◌>>◌, catching, ensuring, either}
use model_mux.Chat.{
  Gateway, ChatCache, Session, ChatReply, sent, hijacked, Deltas, resolves, rejects, waits, delta,
  noted, in_world, release_permit, throw_if_cancelled, take_permit, SseEvent, delta_event,
  done_event, error_event, read_cache, wrote_cache, called, sent_head, ended, destroyed,
  measured_cache, wrote, measured_stream, hit, miss, bypass, cache_phase, queue_phase,
  execution_phase, stream_completed, stream_failed, stream_cancelled,
}

-- `error instanceof RequestAbortedError`.
abbrev pub is_abort : Error → Bool
is_abort request_aborted_error = true
is_abort _ = false

-- `error instanceof AppError ? error.code : "INTERNAL_SERVER_ERROR"`.
unfoldable pub code_of : Error → String
code_of (app e) = code e
code_of _ = "INTERNAL_SERVER_ERROR"

module _ {W : Type 0} (g : Gateway W) where
  abbrev pub is_cancelled : Session W → Bool
  is_cancelled s = g.is_aborted s.world

  -- The catch clause of a cache operation, up to its log line.
  unfoldable pub tolerate : Error → Handler (Session W) (Unit {0})
  tolerate e = throw_if_cancelled g >> either (is_abort e) (raise e) (pure tt)

  unfoldable pub ask_cache :
      ChatCache W → String → ChatRequest → Handler (Session W) (Option ChatResponse)
  ask_cache cache owner_id request =
      modify (noted read_cache) >> in_world (cache.get owner_id request) >>= λ cached.
      throw_if_cancelled g
      >> modify (λ s. record s { cache_status = elim cached [ none ↦ miss | some _ ↦ hit ] })
      >> pure cached

  -- The part of the chat handler under `if (useCache)`, before the queue.
  unfoldable pub look_up :
      ChatCache W → String → ChatRequest → Handler (Session W) (Option ChatResponse)
  look_up cache owner_id request =
      catching (ask_cache cache owner_id request)
        (λ e. tolerate e >> modify (λ s. record s { use_cache = false }) >> pure none)

  unfoldable pub store :
      ChatCache W → String → ChatRequest → ChatResponse → Handler (Session W) (Unit {0})
  store cache owner_id request result =
      modify (λ s. noted wrote_cache (record s { phase = cache_phase }))
      >> catching (in_world (cache.put owner_id request result)) tolerate

  -- A cache operation runs if there is a cache and `useCache` is set.
  unfoldable pub with_cache :
      {T : Type 0} → (ChatCache W → Handler (Session W) T) → T → Handler (Session W) T
  with_cache operation default s = elim g.chat_cache [
    | none ↦ (returned default, s)
    | some cache ↦ either s.use_cache (operation cache) (pure default) s
  ]

  unfoldable pub generate : String → ChatRequest → Handler (Session W) ChatReply
  generate owner_id request =
      modify (λ s. record s { phase = queue_phase })
      >> take_permit g
      >> throw_if_cancelled g
      >> modify (λ s. record s { phase = execution_phase })
      >> ensuring (modify (noted called) >> in_world (g.chat request)) (release_permit g)
      >>= λ result.
          throw_if_cancelled g
          >> with_cache (λ cache. store cache owner_id request result) tt
          >> throw_if_cancelled g
          >> pure (sent result)

  unfoldable pub chat_body : String → ChatRequest → Handler (Session W) ChatReply
  chat_body owner_id request =
      with_cache (λ cache. look_up cache owner_id request) none >>= λ cached. elim cached [
        | some r ↦ pure (sent r)
        | none ↦ generate owner_id request
      ]

  -- The outer catch clause of the chat handler.
  unfoldable pub chat_failed : Error → Handler (Session W) ChatReply
  chat_failed e s =
      if is_abort e || is_cancelled s then (returned hijacked, noted destroyed s) else (threw e, s)

  unfoldable pub chat_done : Session W → Session W
  chat_done s =
      let s' = noted (measured_cache s.cache_status) s in
      release_permit g (record s' { world = g.abort s'.world })

  -- The handler of `/v1/chat`.
  unfoldable pub chat_handler : String → ChatRequest → Handler (Session W) ChatReply
  chat_handler owner_id request =
      ensuring (catching (chat_body owner_id request) chat_failed) chat_done

  -- `start`, with the head of the answer as one effect.
  unfoldable pub start : Handler (Session W) (Unit {0})
  start =
      throw_if_cancelled g
      >> modify (λ s. if s.started then s else noted sent_head (record s { started = true }))

  -- `writeSse`.
  unfoldable pub write_sse : SseEvent → Handler (Session W) (Unit {0})
  write_sse event = throw_if_cancelled g >> λ s.
      if g.is_destroyed s.world
      then (threw request_aborted_error, s)
      else let (out, w) = g.write event s.world in
        (
          if out then returned tt else threw request_aborted_error,
          noted (wrote event) (record s { world = w }),
        )

  -- The consumer of the provider's texts.
  unfoldable pub on_delta : String → Handler (Session W) (Unit {0})
  on_delta content = either (str_eq content "") (pure tt) (
      start
      >> catching (write_sse (delta_event content))
          (λ e. modify (λ s. record s { world = g.abort s.world }) >> raise e))

  unfoldable pub play : Deltas W → Handler (Session W) (Unit {0})
  play resolves = pure tt
  play (rejects e) = raise e
  play (waits f rest) = modify (λ s. record s { world = f s.world }) >> play rest
  play (delta content on_error rest) =
      catching (on_delta content) (λ e. raise (on_error e)) >> play rest

  -- `provider.stream`, if there is one.
  unfoldable pub call_stream :
      Option (ChatRequest → W → Deltas W) → ChatRequest → Handler (Session W) (Unit {0})
  call_stream none request = raise (app provider_streaming_unsupported_error)
  call_stream (some script) request = modify (noted called) >> λ s. play (script request s.world) s

  unfoldable pub stream_body : ChatRequest → Handler (Session W) (Unit {0})
  stream_body request =
      take_permit g
      >> throw_if_cancelled g
      >> call_stream g.stream request
      >> start
      >> write_sse done_event
      >> modify (λ s. noted ended (record s { outcome = stream_completed }))

  -- The catch clause of the stream handler.
  unfoldable pub stream_failed_with : Error → Handler (Session W) (Unit {0})
  stream_failed_with e s =
      if is_abort e || is_cancelled s
      then (returned tt, noted destroyed (record s { outcome = stream_cancelled }))
      else if not s.started
      then (threw e, s)
      else if g.needs_drain s.world
      then (returned tt, noted destroyed s)
      else catching (write_sse (error_event (code_of e)) >> modify (noted ended))
          (λ _. modify (noted destroyed)) s

  unfoldable pub stream_done : Session W → Session W
  stream_done s =
      let s' = noted (measured_stream s.outcome) s in
      release_permit g (record s' { world = g.abort s'.world })

  -- The handler of `/v1/chat/stream`.
  unfoldable pub stream_handler : ChatRequest → Handler (Session W) (Unit {0})
  stream_handler request = ensuring (catching (stream_body request) stream_failed_with) stream_done

-- The state in which a handler starts.
abbrev pub session : {W : Type 0} → Bool → W → Session W
session use_cache w = record {
  world = w;
  trace = [];
  permit = none;
  phase = cache_phase;
  use_cache = use_cache;
  cache_status = bypass;
  started = false;
  outcome = stream_failed;
}
