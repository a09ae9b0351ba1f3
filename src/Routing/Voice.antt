-- ===== src/Routing/Voice.antt =====
-- Whose texts a stream hands to the client (`ProviderRouter.stream` of src/providers/router.ts): after the first
-- write the pass never changes the provider.
use model_mux.Prelude.{
  ◌≡◌, ◌≢◌, refl, sym, subst, ◌⊎◌, inl, inr, Bool, true, false, not, ◌||◌, String, List, [], ◌∷◌,
  Option, arith, All, All-append, Bool-cases, Option-cases, str_eq,
}
use model_mux.Errors.{Error, is_retryable_provider_error}
use model_mux.Circuit.{Completion, returned, threw}
use model_mux.Routing.{
  ChatRequest, Target, primary, fallback, ProviderRouter, World, Pass, stream_mode, call, recover,
  attempt, mapped_model, recorded, fell_back,
}
use model_mux.Routing.Stream.{
  StreamScript, resolves, rejects, awaits, delta, consume, play, stream_from, stream,
}
use model_mux.Routing.Calls.{route-cancelled, route-live}
use model_mux.Routing.Kept.{Completion-cases, Holds, Keeps, call-Holds}

true_not_false : true ≢ false
true_not_false e = ground arith

-- Every text so far came from `t`, and there is none before the first write.
abbrev pub SpokenBy : Target → Bool → List (Target × String) → Type 0
SpokenBy t emitted deltas = All (λ d. d.0 ≡ t) deltas × (emitted ≡ false → deltas ≡ [])

SpokenBy-none :
    (t : Target) (emitted : Bool) (p : Pass) → p.deltas ≡ [] → SpokenBy t emitted p.deltas
SpokenBy-none t emitted p e = (subst (All (λ d. d.0 ≡ t)) (sym e) tt, λ _. e)

module _ (on_delta : String → World → Completion (Unit {0}) Error × World) (t : Target) where
  consume-SpokenBy : (content : String) → Keeps (SpokenBy t) (consume on_delta t content)
  unfolding consume
  consume-SpokenBy content p h = elim (Bool-cases p.is_cancelled) [
    | inl c ↦ rw (c, consume) h
    | inr c ↦ elim (Bool-cases (str_eq content "")) [
      | inl empty ↦ rw (c, empty, consume) h
      | inr full ↦
          rw (c, full, consume)
            (
              All-append (λ d. d.0 ≡ t) p.deltas ((t, content) ∷ []) h.0 (refl, tt),
              λ silent. elim (true_not_false silent) [ ],
            )
    ]
  ]

  play-SpokenBy : (script : StreamScript) → Keeps (SpokenBy t) (play on_delta t script)
  unfolding play
  play-SpokenBy resolves p h = h
  play-SpokenBy (rejects e) p h = h
  play-SpokenBy (awaits f rest) p h = play-SpokenBy rest (record p { world = f p.world }) h
  play-SpokenBy (delta content on_error rest) p h =
      elim (Completion-cases (consume on_delta t content p).0) [
        | inl (x, e) ↦
            rw (e, play)
              (play-SpokenBy rest (consume on_delta t content p).1 (consume-SpokenBy content p h))
        | inr (x, e) ↦ rw (e, play) (consume-SpokenBy content p h)
      ]

  pub stream_from-SpokenBy :
      (provider_stream : Target → Option (ChatRequest → World → StreamScript))
      (request : ChatRequest)
      → Keeps (SpokenBy t) (stream_from on_delta provider_stream t request)
  unfolding stream_from
  stream_from-SpokenBy provider_stream request p h = elim (Option-cases (provider_stream t)) [
    | inl e ↦ rw (e, stream_from) h
    | inr (script, e) ↦ rw (e, stream_from) (play-SpokenBy (script request p.world) p h)
  ]

module _ (r : ProviderRouter)
    (provider_stream : Target → Option (ChatRequest → World → StreamScript))
    (on_delta : String → World → Completion (Unit {0}) Error × World) where
  -- Every text of the pass came from one provider.
  abbrev pub OneVoice : Pass → Type 0
  OneVoice p = All (λ d. d.0 ≡ primary) p.deltas ⊎ All (λ d. d.0 ≡ fallback) p.deltas

  abbrev Recovers : ChatRequest → Error → Pass → Completion (Unit {0}) Error × Pass → Type 0
  Recovers request e p a =
      (a.1 ≡ p)
      ⊎ ((model : String) × (p.emitted ≡ false)
          × (a
              ≡ call r fallback stream_mode
                  (stream_from on_delta provider_stream fallback (record request { model = model }))
                  (recorded fell_back p)))

  recover-Recovers :
      (request : ChatRequest) (e : Error) (p : Pass)
      → Recovers request e p (
          recover r
            (stream_from on_delta provider_stream)
            (λ q. not q.emitted)
            stream_mode
            request
            e
            p)
  unfolding recover
  recover-Recovers request e p = elim (Option-cases (mapped_model r request.model)) [
    | inl n ↦ inl (ground arith)
    | inr (model, m) ↦
        elim (Bool-cases (p.is_cancelled || p.emitted || not (is_retryable_provider_error e))) [
          | inl stays ↦ inl (ground (arith, stays))
          | inr goes ↦
              let live : p.is_cancelled ≡ false = ground (arith, goes) in
              let silent : p.emitted ≡ false = ground (arith, goes) in
              let retryable : is_retryable_provider_error e ≡ true = ground (arith, goes) in
              inr (model, silent, simp (live, silent, retryable, m))
        ]
  ]

  recover-OneVoice :
      (request : ChatRequest) (e : Error) (p : Pass)
      → Holds (SpokenBy primary) p
      → OneVoice
          (recover r
            (stream_from on_delta provider_stream)
            (λ q. not q.emitted)
            stream_mode
            request
            e
            p).1
  recover-OneVoice request e p h = elim (recover-Recovers request e p) [
    | inl same ↦ inl (subst (λ q. All (λ d. d.0 ≡ primary) q.deltas) (sym same) h.0)
    | inr (model, silent, same) ↦ rw same (
        inr
          (call-Holds (SpokenBy fallback) r fallback stream_mode
            (stream_from on_delta provider_stream fallback (record request { model = model }))
            (stream_from-SpokenBy on_delta fallback provider_stream
              (record request { model = model }))
            (recorded fell_back p) (SpokenBy-none fallback _ p (h.1 silent))).0)
  ]

  attempt-OneVoice :
      (request : ChatRequest) (c : Completion (Unit {0}) Error) (p : Pass)
      → Holds (SpokenBy primary) p
      → OneVoice
          (attempt r
            (stream_from on_delta provider_stream)
            (λ q. not q.emitted)
            stream_mode
            request
            (c, p)).1
  unfolding attempt
  attempt-OneVoice request (returned x) p h = inl h.0
  attempt-OneVoice request (threw e) p h = recover-OneVoice request e p h

  -- In one stream, every text that reaches the client's writer comes from the same provider, whatever
  -- the providers, the writer and other requests do: once a write was attempted, the pass
  -- does not fall back.
  pub one_voice :
      (request : ChatRequest) (p : Pass)
      → p.deltas ≡ []
      → OneVoice (stream r provider_stream on_delta request p).1
  unfolding stream
  one_voice request p none_yet = elim (Bool-cases p.is_cancelled) [
    | inl c ↦
        rw
          (route-cancelled r (stream_from on_delta provider_stream) (λ q. not q.emitted) stream_mode
            request (record p { emitted = false }) c)
          (inl (SpokenBy-none primary false p none_yet).0)
    | inr c ↦
        let after =
          call r primary stream_mode (stream_from on_delta provider_stream primary request)
            (record p { emitted = false }) in
        let voice =
          call-Holds (SpokenBy primary) r primary stream_mode
            (stream_from on_delta provider_stream primary request)
            (stream_from-SpokenBy on_delta primary provider_stream request)
            (record p { emitted = false }) (SpokenBy-none primary false p none_yet) in
        rw
          (route-live r (stream_from on_delta provider_stream) (λ q. not q.emitted) stream_mode
            request (record p { emitted = false }) c)
          (attempt-OneVoice request after.0 after.1 voice)
  ]
