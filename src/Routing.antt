-- ===== src/Routing.antt =====
-- src/providers/router.ts, src/providers/provider.ts and src/types/chat.ts: one routing pass over the
-- primary provider and its configured fallback.
--
-- A pass runs in a `World` that it shares with other requests: the circuits of both targets, the clock,
-- and the abort signal of its own request. What a provider does, and what other requests do while it
-- is awaited, is an arbitrary change of that world. What belongs to the pass alone is in `Pass`.
-- Log lines are left out; `recordMetric` appends to `metrics`, where a target stands for its name.
pub mod Stream
pub mod Books
pub mod Calls
pub mod Kept
pub mod Voice
pub mod Passes
mod Examples
mod State
pub use State.*
use model_mux.Prelude.{
  ℕ, Bool, true, false, not, ◌&&◌, ◌||◌, String, List, [], ◌∷◌, ◌++◌, Option, none, some,
  if◌then◌else◌, str_eq,
}
use model_mux.Prelude.Int.{ℤ}
use model_mux.Errors.{
  Error, app, request_aborted_error, circuit_open_error, stream_consumer_error, unexpected,
  provider_circuit_open_error, is_retryable_provider_error,
}
use model_mux.Circuit.{
  CircuitBreaker, CircuitSnapshot, Completion, returned, threw, Thrown, operation_error, execute,
  snapshot,
}
use model_mux.Circuit

abbrev pub circuit_of : Target → Pass → CircuitBreaker
circuit_of primary p = p.primary_circuit
circuit_of fallback p = p.fallback_circuit

abbrev pub set_circuit : Target → CircuitBreaker → Pass → Pass
set_circuit primary b p = record p { world = record (p.world) { primary_circuit = b } }
set_circuit fallback b p = record p { world = record (p.world) { fallback_circuit = b } }

abbrev pub recorded : Metric → Pass → Pass
recorded m p = record p { metrics = p.metrics ++ m ∷ [] }

abbrev pub name_of : ProviderRouter → Target → String
name_of r primary = r.primary_name
name_of r fallback = elim r.fallback_target [ none ↦ "" | some f ↦ f.name ]

-- The health entries of `snapshot`.
unfoldable pub health : ProviderRouter → Pass → List (String × CircuitSnapshot)
health r p = elim r.fallback_target [
  | none ↦ (r.primary_name, snapshot p.now p.primary_circuit) ∷ []
  | some f ↦
      (r.primary_name, snapshot p.now p.primary_circuit)
      ∷ (f.name, snapshot p.now p.fallback_circuit)
      ∷ []
]

-- The operation that `call` hands to the circuit.
unfoldable pub guarded : {T : Type 0} → Target → Mode → Act T → Act T
guarded target mode operation p =
    if p.is_cancelled
    then (threw request_aborted_error, p)
    else let (result, p') =
        operation (recorded (provider_start target mode) (record p { attempted = true })) in
      (if p'.is_cancelled then threw request_aborted_error else result, p')

unfoldable pub is_ignored : Error → Bool
is_ignored request_aborted_error = true
is_ignored stream_consumer_error = true
is_ignored _ = false

-- The error that `execute` rejects with.
unfoldable pub cause_of : Thrown Error → Error
cause_of (Circuit.circuit_open_error ms) = circuit_open_error ms
cause_of (operation_error e) = e

unfoldable pub outcome_of : Error → ProviderOutcome
outcome_of request_aborted_error = cancelled
outcome_of stream_consumer_error = consumer_error
outcome_of e = if is_retryable_provider_error e then transient_error else permanent_error

unfoldable pub reported : String → Error → Error
reported name (circuit_open_error ms) = app (provider_circuit_open_error name ms)
reported name e = e

abbrev pub is_circuit_open : Error → Bool
is_circuit_open (circuit_open_error _) = true
is_circuit_open _ = false

-- The `finally` block: an end for each start.
unfoldable pub ended : Target → Mode → ProviderOutcome → Pass → Pass
ended target mode outcome p =
    if p.attempted then recorded (provider_end target mode outcome) p else p

unfoldable pub conclude :
    {T : Type 0}
    → ProviderRouter
    → Target
    → Mode
    → Completion T (Thrown Error) × Pass
    → Completion T Error × Pass
unfolding ended cause_of outcome_of reported
conclude r target mode (returned x, p) = (returned x, ended target mode success p)
conclude r target mode (threw t, p) =
    let cause = cause_of t in
    let p' = if is_circuit_open cause then recorded (circuit_rejection target mode) p else p in
    (threw (reported (name_of r target) cause), ended target mode (outcome_of cause) p')

unfoldable pub call : {T : Type 0} → ProviderRouter → Target → Mode → Act T → Act T
unfolding conclude guarded
call r target mode operation p = conclude r target mode (
    execute (circuit_of target) (set_circuit target) (λ q. q.now) (guarded target mode operation)
      is_retryable_provider_error is_ignored (record p { attempted = false }))

-- `Object.hasOwn(modelMap, model) ? modelMap[model]`, for a map with distinct keys.
unfoldable pub lookup : String → List (String × String) → Option String
lookup model [] = none
lookup model ((local, hosted) ∷ rest) =
    if str_eq local model then some hosted else lookup model rest

-- The hosted model for a request, if a fallback is configured for it under a name that is not empty.
unfoldable pub mapped_model : ProviderRouter → String → Option String
unfolding lookup
mapped_model r model = elim r.fallback_target [
  | none ↦ none
  | some f ↦ elim (lookup model f.model_map) [
    | none ↦ none
    | some hosted ↦ if str_eq hosted "" then none else some hosted
  ]
]

-- The `catch` block of `route`.
unfoldable pub recover :
    {T : Type 0}
    → ProviderRouter
    → (Target → ChatRequest → Act T)
    → (Pass → Bool)
    → Mode
    → ChatRequest
    → Error
    → Act T
recover r invoke can_fallback mode request error p =
    if p.is_cancelled
    then (threw request_aborted_error, p)
    else if not (can_fallback p) || not (is_retryable_provider_error error)
    then (threw error, p)
    else elim (mapped_model r request.model) [
      | none ↦ (threw error, p)
      | some model ↦
          call r fallback mode (invoke fallback (record request { model = model }))
            (recorded fell_back p)
    ]

unfoldable pub attempt :
    {T : Type 0}
    → ProviderRouter
    → (Target → ChatRequest → Act T)
    → (Pass → Bool)
    → Mode
    → ChatRequest
    → Completion T Error × Pass
    → Completion T Error × Pass
unfolding recover
attempt r invoke can_fallback mode request (returned x, p) = (returned x, p)
attempt r invoke can_fallback mode request (threw error, p) =
    recover r invoke can_fallback mode request error p

unfoldable pub route :
    {T : Type 0}
    → ProviderRouter
    → (Target → ChatRequest → Act T)
    → (Pass → Bool)
    → Mode
    → ChatRequest
    → Act T
unfolding attempt
route r invoke can_fallback mode request p =
    if p.is_cancelled
    then (threw request_aborted_error, p)
    else attempt r invoke can_fallback mode request (call r primary mode (invoke primary request) p)
