-- ===== src/Routing/Kept.antt =====
-- Properties of what the client was sent that a call of a provider keeps (`call` of src/providers/router.ts).
use model_mux.Prelude.{◌≡◌, refl, ◌⊎◌, inl, inr, Bool, true, false, String, List, arith, Bool-cases}
use model_mux.Errors.{Error, is_retryable_provider_error}
use model_mux.Circuit.{CircuitBreaker, Completion, returned, threw, Thrown, execute, admit}
use model_mux.Routing.{
  Target, primary, fallback, ProviderRouter, Pass, Act, Mode, circuit_of, set_circuit, guarded,
  conclude, call, is_ignored, ended, recorded, ProviderOutcome, is_circuit_open, cause_of, success,
  circuit_rejection, provider_start,
}
use model_mux.Routing.Books.{Admission-cases}

pub Completion-cases :
    {T E : Type 0} (c : Completion T E) → ((x : T) × (c ≡ returned x)) ⊎ ((e : E) × (c ≡ threw e))
Completion-cases (returned x) = inl (x, refl)
Completion-cases (threw e) = inr (e, refl)

-- A property of what the client was sent is kept by a call whose provider keeps it.
module _ (P : Bool → List (Target × String) → Type 0) where
  abbrev pub Holds : Pass → Type 0
  Holds p = P p.emitted p.deltas

  abbrev pub Keeps : {T : Type 0} → Act T → Type 0
  Keeps a = (p : Pass) → Holds p → Holds (a p).1

  set_circuit-Holds :
      (t : Target) (b : CircuitBreaker) (p : Pass) → Holds p → Holds (set_circuit t b p)
  set_circuit-Holds primary b p h = h
  set_circuit-Holds fallback b p h = h

  module _ {T : Type 0} (r : ProviderRouter) (t : Target) (mode : Mode) (operation : Act T)
      (keeps : Keeps operation) where
    guarded-Holds : Keeps (guarded t mode operation)
    unfolding guarded
    guarded-Holds p h =
        ground (arith, keeps (recorded (provider_start t mode) (record p { attempted = true })) h)

    execute-Holds :
        (p : Pass)
        → Holds p
        → Holds
            (execute
              (circuit_of t)
              (set_circuit t)
              (λ q. q.now)
              (guarded t mode operation)
              is_retryable_provider_error
              is_ignored
              p).1
    unfolding execute
    execute-Holds p h = elim (Admission-cases (admit p.now (circuit_of t p))) [
      | inl (ms, e) ↦ rw (e, execute) h
      | inr (g, b, e) ↦
          rw (e, execute)
            (set_circuit-Holds t _ (guarded t mode operation (set_circuit t b p)).1
              (guarded-Holds (set_circuit t b p) (set_circuit-Holds t b p h)))
    ]

    ended-Holds : (o : ProviderOutcome) (p : Pass) → Holds p → Holds (ended t mode o p)
    unfolding ended
    ended-Holds o p h = ground arith

    conclude-Holds :
        (c : Completion T (Thrown Error)) (p : Pass) → Holds p → Holds (conclude r t mode (c, p)).1
    unfolding conclude
    conclude-Holds (returned x) p h = ended-Holds success p h
    conclude-Holds (threw e) p h = elim (Bool-cases (is_circuit_open (cause_of e))) [
      | inl c ↦ rw c (ended-Holds _ (recorded (circuit_rejection t mode) p) h)
      | inr c ↦ rw c (ended-Holds _ p h)
    ]

    pub call-Holds : Keeps (call r t mode operation)
    unfolding call
    call-Holds p h = conclude-Holds _ _ (execute-Holds (record p { attempted = false }) h)
