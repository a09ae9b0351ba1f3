-- ===== src/Routing/Stream.antt =====
-- `ProviderRouter.chat` and `ProviderRouter.stream` of src/providers/router.ts.
--
-- A provider's `chat` is an arbitrary function of the world. A provider's `stream` is a script: it
-- awaits (the world changes), hands a text to the consumer that it was given, and resolves or
-- rejects. When the consumer rejects, the provider rejects with an error of its choice, `on_error`: the
-- consumer's own, or a timeout that came first.
use model_mux.Prelude.{
  true, false, not, String, [], ◌∷◌, ◌++◌, Option, none, some, if◌then◌else◌, str_eq,
}
use model_mux.Errors.{
  Error, app, request_aborted_error, stream_consumer_error, provider_streaming_unsupported_error,
}
use model_mux.Circuit.{Completion, returned, threw}
use model_mux.Routing.{
  ChatRequest, ChatResponse, Target, ProviderRouter, World, Act, chat_mode, stream_mode, route,
}

pub data StreamScript : Type 0 where
  resolves : StreamScript
  rejects : Error → StreamScript
  awaits : (World → World) → StreamScript → StreamScript
  delta : String → (on_error : Error → Error) → StreamScript → StreamScript

-- The part of a pass that a provider sees is the world.
abbrev pub in_world : {T : Type 0} → (World → Completion T Error × World) → Act T
in_world f p = let (c, w) = f p.world in (c, record p { world = w })

unfoldable pub chat :
    ProviderRouter
    → (Target → ChatRequest → World → Completion ChatResponse Error × World)
    → ChatRequest
    → Act ChatResponse
chat r provider_chat request =
    route r (λ t sent. in_world (provider_chat t sent)) (λ _. true) chat_mode request

-- `consume`: `on_delta` is the client's writer.
unfoldable pub consume :
    (String → World → Completion (Unit {0}) Error × World) → Target → String → Act (Unit {0})
consume on_delta target content p =
    if p.is_cancelled
    then (threw request_aborted_error, p)
    else if str_eq content ""
    then (returned tt, p)
    else let (written, p') =
        in_world (on_delta content)
          (record p { emitted = true; deltas = p.deltas ++ (target, content) ∷ [] }) in
      (
        elim written [
          | returned _ ↦ returned tt
          | threw _ ↦
              if p'.is_cancelled then threw request_aborted_error else threw stream_consumer_error
        ],
        p',
      )

unfoldable pub play :
    (String → World → Completion (Unit {0}) Error × World) → Target → StreamScript → Act (Unit {0})
play on_delta target resolves p = (returned tt, p)
play on_delta target (rejects e) p = (threw e, p)
play on_delta target (awaits f rest) p = play on_delta target rest (record p { world = f p.world })
play on_delta target (delta content on_error rest) p =
    let (c, p') = consume on_delta target content p in
    let later = play on_delta target rest p' in
    elim c [ returned _ ↦ later | threw e ↦ (threw (on_error e), p') ]

-- A provider that cannot stream has no script.
unfoldable pub stream_from :
    (String → World → Completion (Unit {0}) Error × World)
    → (Target → Option (ChatRequest → World → StreamScript))
    → Target
    → ChatRequest
    → Act (Unit {0})
unfolding play
stream_from on_delta provider_stream target request p = elim (provider_stream target) [
  | none ↦ (threw (app provider_streaming_unsupported_error), p)
  | some script ↦ play on_delta target (script request p.world) p
]

unfoldable pub stream :
    ProviderRouter
    → (Target → Option (ChatRequest → World → StreamScript))
    → (String → World → Completion (Unit {0}) Error × World)
    → ChatRequest
    → Act (Unit {0})
unfolding stream_from
stream r provider_stream on_delta request p =
    route r (stream_from on_delta provider_stream) (λ q. not q.emitted) stream_mode request
      (record p { emitted = false })
