-- ===== src/Routing/Calls.antt =====
-- Which providers a routing pass calls (src/providers/router.ts), and what it measures.
use model_mux.Prelude.{
  ◌≡◌, refl, sym, ap, ◌⊎◌, ◌≢◌, inl, inr, Bool, true, false, [], ◌∷◌, ◌++◌, none, arith, ◌∙◌,
  Bool-cases, Option-cases,
}
use mathlib.Core.List.{append-nil}
use model_mux.Errors.{Error, is_retryable_provider_error, request_aborted_error}
use model_mux.Circuit.{Completion, returned, threw}
use model_mux.Routing.{
  ChatRequest, Target, primary, fallback, ProviderRouter, Pass, Act, Mode, fell_back, call, recover,
  attempt, route, recorded, mapped_model,
}
use model_mux.Routing.Books.{starts, ends, starts-append, ends-append, KeepsBooks, call-Counted}

-- A pass whose request was cancelled, and one that calls the primary provider.
module _ {T : Type 0} (r : ProviderRouter) (invoke : Target → ChatRequest → Act T)
    (can_fallback : Pass → Bool) (mode : Mode) where
  -- Why the fallback may be called after the primary call has ended with `c` in `p`.
  abbrev pub MayFallBack : ChatRequest → Completion T Error × Pass → Type 0
  MayFallBack request (c, p) =
      (can_fallback p ≡ true)
      × (p.is_cancelled ≡ false)
      × ((e : Error) × (c ≡ threw e) × (is_retryable_provider_error e ≡ true))
      × (mapped_model r request.model ≢ none)

  abbrev pub AtMostOnce : ChatRequest → Completion T Error × Pass → Pass → Type 0
  AtMostOnce request after_primary q =
      (starts q.metrics ≡ ends q.metrics)
      × ((starts q.metrics ≡ [])
          ⊎ (starts q.metrics ≡ primary ∷ [])
          ⊎ (((starts q.metrics ≡ fallback ∷ []) ⊎ (starts q.metrics ≡ primary ∷ fallback ∷ []))
              × MayFallBack request after_primary))

  pub route-cancelled :
      (request : ChatRequest) (p : Pass)
      → p.is_cancelled ≡ true
      → route r invoke can_fallback mode request p ≡ (threw request_aborted_error, p)
  unfolding route
  route-cancelled request p h = simp h

  pub route-live :
      (request : ChatRequest) (p : Pass)
      → p.is_cancelled ≡ false
      → route r invoke can_fallback mode request p
        ≡ attempt r invoke can_fallback mode request
            (call r primary mode (invoke primary request) p)
  unfolding route
  route-live request p h = simp h

-- The pass.
module _ {T : Type 0} (r : ProviderRouter) (invoke : Target → ChatRequest → Act T)
    (can_fallback : Pass → Bool) (mode : Mode)
    (keeps : (t : Target) (q : ChatRequest) → KeepsBooks (invoke t q)) where
  recover-starts :
      (request : ChatRequest) (e : Error) (p : Pass)
      → let q = (recover r invoke can_fallback mode request e p).1 in
        ((starts q.metrics ≡ starts p.metrics) × (ends q.metrics ≡ ends p.metrics))
        ⊎ ((starts q.metrics ≡ starts p.metrics ++ fallback ∷ [])
            × (ends q.metrics ≡ ends p.metrics ++ fallback ∷ [])
            × (is_retryable_provider_error e ≡ true)
            × (can_fallback p ≡ true)
            × (p.is_cancelled ≡ false)
            × (mapped_model r request.model ≢ none))
  unfolding recover
  recover-starts request e p = elim (Option-cases (mapped_model r request.model)) [
    | inl n ↦ rw (n, recover) (ground arith)
    | inr (model, m) ↦
        let counted =
          call-Counted r fallback mode (invoke fallback (record request { model = model }))
            (keeps fallback (record request { model = model })) (recorded fell_back p) in
        ground (
          arith,
          counted,
          starts-append p.metrics (fell_back ∷ []),
          append-nil (starts p.metrics),
          ends-append p.metrics (fell_back ∷ []),
          append-nil (ends p.metrics),
        )
  ]

  attempt-AtMostOnce :
      (request : ChatRequest) (c : Completion T Error) (p : Pass)
      → starts p.metrics ≡ ends p.metrics
      → (starts p.metrics ≡ []) ⊎ (starts p.metrics ≡ primary ∷ [])
      → AtMostOnce r invoke can_fallback mode request
          (c, p)
          (attempt r invoke can_fallback mode request (c, p)).1
  unfolding attempt
  attempt-AtMostOnce request (returned x) p b h = ground arith
  attempt-AtMostOnce request (threw e) p b h = elim (recover-starts request e p) [
    | inl same ↦ ground arith
    | inr (s, n, retryable, can, live, mapped) ↦
        (ground arith, inr (inr (ground arith, (can, live, (e, refl, retryable), mapped))))
  ]

  -- One pass calls the primary provider at most once and then the fallback at most once, and every
  -- call that was started is measured to its end. The fallback is called only if the pass could
  -- still fall back, the request was not cancelled, the model is mapped, and what went before was a
  -- transient failure of the primary (or its open circuit).
  pub route-AtMostOnce :
      (request : ChatRequest) (p : Pass)
      → p.metrics ≡ []
      → AtMostOnce r invoke can_fallback mode request
          (call r primary mode (invoke primary request) p)
          (route r invoke can_fallback mode request p).1
  route-AtMostOnce request p e = elim (Bool-cases p.is_cancelled) [
    | inl h ↦
        rw (route-cancelled r invoke can_fallback mode request p h)
          (ap starts e ∙ sym (ap ends e), inl (ap starts e))
    | inr h ↦
        let after = call r primary mode (invoke primary request) p in
        let counted =
          call-Counted r primary mode (invoke primary request) (keeps primary request) p in
        rw (route-live r invoke can_fallback mode request p h) (
          attempt-AtMostOnce request after.0 after.1 (ground (arith, counted))
            (ground (arith, counted)))
  ]
