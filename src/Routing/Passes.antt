-- ===== src/Routing/Passes.antt =====
-- `ProviderRouter.chat`, `stream` and `call` of src/providers/router.ts: how often a pass calls its providers, and
-- what an open circuit answers.
use model_mux.Prelude.{
  ℕ, ◌≡◌, refl, inl, inr, true, false, not, String, [], Option, ◌∙◌, Bool-cases, Option-cases,
  str_eq,
}
use model_mux.Errors.{Error, app, provider_circuit_open_error}
use model_mux.Circuit.{Completion, threw, execute, admit, refused}
use model_mux.Routing.{
  ChatRequest, ChatResponse, Target, primary, fallback, ProviderRouter, World, Pass, Act, Mode,
  chat_mode, stream_mode, circuit_of, circuit_rejection, conclude, call, recorded, name_of,
}
use model_mux.Routing.Stream.{
  StreamScript, resolves, rejects, awaits, delta, in_world, chat, consume, play, stream_from,
  stream,
}
use model_mux.Routing.Books.{KeepsBooks}
use model_mux.Routing.Calls.{AtMostOnce, route-AtMostOnce}
use model_mux.Routing.Kept.{Completion-cases}

module _ (r : ProviderRouter)
    (provider_chat : Target → ChatRequest → World → Completion ChatResponse Error × World) where
  chat-KeepsBooks : (t : Target) (q : ChatRequest) → KeepsBooks (in_world (provider_chat t q))
  chat-KeepsBooks t q p = (refl, refl)

  -- A `chat` pass calls the primary provider at most once and then the fallback at most once, and
  -- every call that was started is measured to its end. The fallback is called only if the request
  -- was not cancelled, its model is mapped, and the primary failed transiently or its circuit was
  -- open.
  pub chat-AtMostOnce :
      (request : ChatRequest) (p : Pass)
      → p.metrics ≡ []
      → AtMostOnce r
          (λ t sent. in_world (provider_chat t sent))
          (λ _. true)
          chat_mode
          request
          (call r primary chat_mode (in_world (provider_chat primary request)) p)
          (chat r provider_chat request p).1
  unfolding chat
  chat-AtMostOnce request p e =
      route-AtMostOnce r (λ t sent. in_world (provider_chat t sent)) (λ _. true) chat_mode
        chat-KeepsBooks request p e

module _ (r : ProviderRouter)
    (provider_stream : Target → Option (ChatRequest → World → StreamScript))
    (on_delta : String → World → Completion (Unit {0}) Error × World) where
  consume-KeepsBooks : (t : Target) (content : String) → KeepsBooks (consume on_delta t content)
  unfolding consume
  consume-KeepsBooks t content p = elim (Bool-cases p.is_cancelled) [
    | inl c ↦ rw (c, consume) (refl, refl)
    | inr c ↦ elim (Bool-cases (str_eq content "")) [
      | inl empty ↦ rw (c, empty, consume) (refl, refl)
      | inr full ↦ rw (c, full, consume) (refl, refl)
    ]
  ]

  play-KeepsBooks : (t : Target) (script : StreamScript) → KeepsBooks (play on_delta t script)
  unfolding play
  play-KeepsBooks t resolves p = (refl, refl)
  play-KeepsBooks t (rejects e) p = (refl, refl)
  play-KeepsBooks t (awaits f rest) p = play-KeepsBooks t rest (record p { world = f p.world })
  play-KeepsBooks t (delta content on_error rest) p =
      let now = consume-KeepsBooks t content p in
      elim (Completion-cases (consume on_delta t content p).0) [
        | inl (x, e) ↦
            let later = play-KeepsBooks t rest (consume on_delta t content p).1 in
            rw (e, play) (later.0 ∙ now.0, later.1 ∙ now.1)
        | inr (x, e) ↦ rw (e, play) now
      ]

  stream_from-KeepsBooks :
      (t : Target) (q : ChatRequest) → KeepsBooks (stream_from on_delta provider_stream t q)
  unfolding stream_from
  stream_from-KeepsBooks t q p = elim (Option-cases (provider_stream t)) [
    | inl e ↦ rw (e, stream_from) (refl, refl)
    | inr (script, e) ↦ rw (e, stream_from) (play-KeepsBooks t (script q p.world) p)
  ]

  -- A `stream` pass calls the primary provider at most once and then the fallback at most once, and
  -- every call that was started is measured to its end. The fallback is called only if no write to
  -- the client was attempted, the request was not cancelled, its model is mapped, and the primary
  -- failed transiently or its circuit was open.
  pub stream-AtMostOnce :
      (request : ChatRequest) (p : Pass)
      → p.metrics ≡ []
      → AtMostOnce r
          (stream_from on_delta provider_stream)
          (λ q. not q.emitted)
          stream_mode
          request
          (call r primary stream_mode
            (stream_from on_delta provider_stream primary request)
            (record p { emitted = false }))
          (stream r provider_stream on_delta request p).1
  unfolding stream
  stream-AtMostOnce request p e =
      route-AtMostOnce r (stream_from on_delta provider_stream) (λ q. not q.emitted) stream_mode
        stream_from-KeepsBooks request (record p { emitted = false }) e

-- A call that the circuit of its target refuses does not reach the provider: nothing but the
-- rejection is measured, the world is left as it was, and the error carries the target's name and
-- the circuit's delay.
pub open_circuit_reported :
    {T : Type 0} (r : ProviderRouter) (t : Target) (mode : Mode) (operation : Act T) (p : Pass)
    (ms : ℕ)
    → admit p.now (circuit_of t p) ≡ refused ms
    → call r t mode operation p ≡ (
      threw (app (provider_circuit_open_error (name_of r t) ms)),
      recorded (circuit_rejection t mode) (record p { attempted = false }),
    )
unfolding call execute conclude
open_circuit_reported r primary mode operation p ms e = rw (e, call, execute) refl
open_circuit_reported r fallback mode operation p ms e = rw (e, call, execute) refl
