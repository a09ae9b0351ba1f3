-- ===== src/Routing/Books.antt =====
-- What one call of a provider leaves in the metrics of a pass (`call` of src/providers/router.ts).
use model_mux.Prelude.{
  ℕ, ◌≡◌, refl, ap, ◌⊎◌, inl, inr, true, false, List, [], ◌∷◌, ◌++◌, arith, ◌∙◌, Bool-cases,
}
use mathlib.Core.List.{append-nil}
use model_mux.Errors.{Error, is_retryable_provider_error}
use model_mux.Circuit.{
  CircuitBreaker, Completion, returned, threw, Thrown, execute, admit, Admission, refused, admitted,
}
use model_mux.Routing.{
  Target, primary, fallback, ProviderRouter, Pass, Act, Mode, Metric, provider_start, provider_end,
  circuit_rejection, fell_back, circuit_of, set_circuit, guarded, conclude, call, recorded,
  is_ignored, success, ended, ProviderOutcome, is_circuit_open, cause_of,
}

-- The providers that were called, in order.
abbrev pub starts : List Metric → List Target
starts [] = []
starts (provider_start t m ∷ ms) = t ∷ starts ms
starts (provider_end t m o ∷ ms) = starts ms
starts (circuit_rejection t m ∷ ms) = starts ms
starts (fell_back ∷ ms) = starts ms

-- The providers whose call was measured to its end.
abbrev pub ends : List Metric → List Target
ends [] = []
ends (provider_start t m ∷ ms) = ends ms
ends (provider_end t m o ∷ ms) = t ∷ ends ms
ends (circuit_rejection t m ∷ ms) = ends ms
ends (fell_back ∷ ms) = ends ms

pub starts-append : (xs ys : List Metric) → starts (xs ++ ys) ≡ starts xs ++ starts ys
starts-append [] ys = refl
starts-append (provider_start t m ∷ xs) ys = ap (◌∷◌ t) (starts-append xs ys)
starts-append (provider_end t m o ∷ xs) ys = starts-append xs ys
starts-append (circuit_rejection t m ∷ xs) ys = starts-append xs ys
starts-append (fell_back ∷ xs) ys = starts-append xs ys

pub ends-append : (xs ys : List Metric) → ends (xs ++ ys) ≡ ends xs ++ ends ys
ends-append [] ys = refl
ends-append (provider_start t m ∷ xs) ys = ends-append xs ys
ends-append (provider_end t m o ∷ xs) ys = ap (◌∷◌ t) (ends-append xs ys)
ends-append (circuit_rejection t m ∷ xs) ys = ends-append xs ys
ends-append (fell_back ∷ xs) ys = ends-append xs ys

-- What a provider does leaves the books of the pass alone.
abbrev pub KeepsBooks : {T : Type 0} → Act T → Type 0
KeepsBooks a = (p : Pass) → ((a p).1.metrics ≡ p.metrics) × ((a p).1.attempted ≡ p.attempted)

pub Admission-cases :
    (a : Admission)
    → ((ms : ℕ) × (a ≡ refused ms)) ⊎ ((g : ℕ) × (b : CircuitBreaker) × (a ≡ admitted g b))
Admission-cases (refused ms) = inl (ms, refl)
Admission-cases (admitted g b) = inr (g, b, refl)

-- One call: the provider is called once or not at all, and each call is measured to its end.
module _ {T : Type 0} (r : ProviderRouter) (target : Target) (mode : Mode) (operation : Act T)
    (keeps : KeepsBooks operation) where
  -- What the circuit's `execute` leaves in the books.
  abbrev Booked : Pass → Pass → Type 0
  Booked p q =
      ((q.attempted ≡ false) × (q.metrics ≡ p.metrics))
      ⊎ ((q.attempted ≡ true) × (q.metrics ≡ p.metrics ++ provider_start target mode ∷ []))

  guarded-Booked : (p : Pass) → p.attempted ≡ false → Booked p (guarded target mode operation p).1
  unfolding guarded
  guarded-Booked p a =
      ground (arith, keeps (recorded (provider_start target mode) (record p { attempted = true })))

  set_circuit-Booked :
      (t : Target) (b : CircuitBreaker) (p q : Pass) → Booked p q → Booked p (set_circuit t b q)
  set_circuit-Booked primary b p q h = h
  set_circuit-Booked fallback b p q h = h

  Booked-set_circuit :
      (t : Target) (b : CircuitBreaker) (p q : Pass) → Booked (set_circuit t b p) q → Booked p q
  Booked-set_circuit primary b p q h = h
  Booked-set_circuit fallback b p q h = h

  not_attempted-set_circuit :
      (t : Target) (b : CircuitBreaker) (p : Pass)
      → p.attempted ≡ false
      → (set_circuit t b p).attempted ≡ false
  not_attempted-set_circuit primary b p h = h
  not_attempted-set_circuit fallback b p h = h

  execute-Booked :
      (p : Pass)
      → p.attempted ≡ false
      → Booked p
          (execute
            (circuit_of target)
            (set_circuit target)
            (λ q. q.now)
            (guarded target mode operation)
            is_retryable_provider_error
            is_ignored
            p).1
  unfolding execute
  execute-Booked p a = elim (Admission-cases (admit p.now (circuit_of target p))) [
    | inl (ms, e) ↦ rw (e, execute) (inl (a, refl))
    | inr (g, b, e) ↦
        rw (e, execute)
          (set_circuit-Booked target _ p (guarded target mode operation (set_circuit target b p)).1
            (Booked-set_circuit target b p
              (guarded target mode operation (set_circuit target b p)).1
              (guarded-Booked (set_circuit target b p) (not_attempted-set_circuit target b p a))))
  ]

  abbrev pub Counted : Pass → Pass → Type 0
  Counted p q =
      ((starts q.metrics ≡ starts p.metrics) × (ends q.metrics ≡ ends p.metrics))
      ⊎ ((starts q.metrics ≡ starts p.metrics ++ target ∷ [])
          × (ends q.metrics ≡ ends p.metrics ++ target ∷ []))

  -- The books before the `finally` block: a start, if the provider was called, has no end yet.
  abbrev Open : Pass → Pass → Type 0
  Open p q =
      ((q.attempted ≡ false)
        × (starts q.metrics ≡ starts p.metrics)
        × (ends q.metrics ≡ ends p.metrics))
      ⊎ ((q.attempted ≡ true)
          × (starts q.metrics ≡ starts p.metrics ++ target ∷ [])
          × (ends q.metrics ≡ ends p.metrics))

  Booked-Open : (p q : Pass) → Booked p q → Open p q
  Booked-Open p q (inl (a, m)) = inl (a, ap starts m, ap ends m)
  Booked-Open p q (inr (a, m)) = inr (
    a,
    ap starts m ∙ starts-append p.metrics (provider_start target mode ∷ []),
    ap ends m
        ∙ (ends-append p.metrics (provider_start target mode ∷ []) ∙ append-nil (ends p.metrics)),
  )

  rejection-Open : (p q : Pass) → Open p q → Open p (recorded (circuit_rejection target mode) q)
  rejection-Open p q h = ground (
    arith,
    starts-append q.metrics (circuit_rejection target mode ∷ []),
    append-nil (starts q.metrics),
    ends-append q.metrics (circuit_rejection target mode ∷ []),
    append-nil (ends q.metrics),
  )

  ended-Counted : (p q : Pass) (o : ProviderOutcome) → Open p q → Counted p (ended target mode o q)
  unfolding ended
  ended-Counted p q o h = ground (
    arith,
    starts-append q.metrics (provider_end target mode o ∷ []),
    append-nil (starts q.metrics),
    ends-append q.metrics (provider_end target mode o ∷ []),
  )

  conclude-Counted :
      (p q : Pass) (x : Completion T (Thrown Error))
      → Booked p q
      → Counted p (conclude r target mode (x, q)).1
  unfolding conclude
  conclude-Counted p q (returned x) h = ended-Counted p q success (Booked-Open p q h)
  conclude-Counted p q (threw e) h = elim (Bool-cases (is_circuit_open (cause_of e))) [
    | inl c ↦ rw c (
        ended-Counted p (recorded (circuit_rejection target mode) q) _
          (rejection-Open p q (Booked-Open p q h)))
    | inr c ↦ rw c (ended-Counted p q _ (Booked-Open p q h))
  ]

  pub call-Counted : (p : Pass) → Counted p (call r target mode operation p).1
  unfolding call
  call-Counted p = conclude-Counted p _ _ (execute-Booked (record p { attempted = false }) refl)
