-- ===== src/Circuit.antt =====
-- src/providers/circuit-breaker.ts: the process-local circuit breaker of a provider.
--
-- A class instance is a record, and a method returns the new record. Clock readings are integers of
-- milliseconds; `openedAt` may lie before the clock's origin, so they are signed. `execute` awaits
-- the provider in its middle: `admit` is the part before the await, `settle` the part after it, and
-- what other calls do in between is left open (`System` in Circuit/Reach.antt, and the operation's
-- own effect on the world in `execute`).
pub mod Options
pub mod Laws
pub mod Reach
pub mod Runs
pub mod Trips
mod Examples
use model_mux.Prelude.{ℕ, ◌+◌, Bool, true, false, ◌||◌, ltb, leb, ◌==◌, if◌then◌else◌}
use model_mux.Prelude.Int.{ℤ, pos, ◌-ℤ◌, pos_part}

pub data CircuitState : Type 0 where
  closed opened half_open : CircuitState

pub record CircuitBreakerOptions : Type 0 where
  pub failure_threshold : ℤ
  pub reset_timeout_ms : ℤ

pub record CircuitSnapshot : Type 0 where
  pub state : CircuitState
  pub consecutive_failures : ℕ
  pub retry_after_ms : ℕ

pub record CircuitBreaker : Type 0 where
  pub state : CircuitState
  pub consecutive_failures : ℕ
  pub opened_at : ℤ
  pub generation : ℕ
  pub failure_threshold : ℕ
  pub reset_timeout_ms : ℕ

abbrev pub max_safe_integer : ℕ
max_safe_integer = 9007199254740991

pub data OptionsError : Type 0 where
  bad_failure_threshold bad_reset_timeout : OptionsError

pub data Built : Type 0 where
  built : CircuitBreaker → Built
  invalid : OptionsError → Built

-- `!Number.isSafeInteger(n) || n < 1`; a number that is no integer has no value here.
is_not_positive_safe : ℤ → Bool
is_not_positive_safe n = ltb max_safe_integer (pos_part n) || ltb (pos_part n) 1

-- The constructor. A field that the class initialises stands at its initial value.
pub new : CircuitBreakerOptions → Built
unfolding is_not_positive_safe
new o =
    if is_not_positive_safe o.failure_threshold
    then invalid bad_failure_threshold
    else if is_not_positive_safe o.reset_timeout_ms
    then invalid bad_reset_timeout
    else built (record {
      state = closed;
      consecutive_failures = 0;
      opened_at = pos 0;
      generation = 0;
      failure_threshold = pos_part o.failure_threshold;
      reset_timeout_ms = pos_part o.reset_timeout_ms;
    })

-- `Math.max(0, n)`.
abbrev pub max_zero : ℤ → ℕ
max_zero = pos_part

retry_after : CircuitState → ℤ → CircuitBreaker → ℕ
retry_after opened now b = max_zero (pos b.reset_timeout_ms -ℤ (now -ℤ b.opened_at))
retry_after half_open now b = b.reset_timeout_ms
retry_after closed now b = 0

unfoldable pub snapshot : ℤ → CircuitBreaker → CircuitSnapshot
unfolding retry_after
snapshot now b = record {
  state = b.state;
  consecutive_failures = b.consecutive_failures;
  retry_after_ms = retry_after b.state now b;
}

abbrev pub is_half_open : CircuitState → Bool
is_half_open half_open = true
is_half_open _ = false

abbrev pub is_opened : CircuitState → Bool
is_opened opened = true
is_opened _ = false

unfoldable pub record_healthy : CircuitBreaker → CircuitBreaker
record_healthy b = record b {
  generation = if is_half_open b.state then b.generation + 1 else b.generation;
  state = closed;
  consecutive_failures = 0;
}

unfoldable pub record_failure : ℤ → CircuitBreaker → CircuitBreaker
record_failure now b =
    let failures = b.consecutive_failures + 1 in
    if is_half_open b.state || leb b.failure_threshold failures
    then record b {
      consecutive_failures = failures;
      state = opened;
      opened_at = now;
      generation = b.generation + 1;
    }
    else record b { consecutive_failures = failures }

-- The part of `execute` before `await operation()`: refused with a delay, or the generation that the
-- call captures and the circuit after the reservation of a probe.
pub data Admission : Type 0 where
  refused : ℕ → Admission
  admitted : ℕ → CircuitBreaker → Admission

-- Reserve the probe before awaiting, so that concurrent callers cannot enter.
unfoldable pub reserve : CircuitBreaker → CircuitBreaker
reserve b = if is_opened b.state then record b { state = half_open } else b

unfoldable pub admit : ℤ → CircuitBreaker → Admission
unfolding snapshot reserve
admit now b =
    let s = snapshot now b in
    if is_half_open s.state || ltb 0 s.retry_after_ms
    then refused s.retry_after_ms
    else admitted b.generation (reserve b)

-- How an awaited operation ends: it returns, or it throws an error.
pub data Completion {ℓ κ} (T : Type ℓ) (E : Type κ) : Type (ℓ ⊔ κ) where
  returned : T → Completion T E
  threw : E → Completion T E

release_probe : ℤ → CircuitBreaker → CircuitBreaker
release_probe now b =
    if is_half_open b.state
    then record b {
      state = opened;
      opened_at = now -ℤ pos b.reset_timeout_ms;
      generation = b.generation + 1;
    }
    else b

-- The part after the await, for a call that captured `generation`.
module _ {ℓ κ} {T : Type ℓ} {E : Type κ} (is_failure is_ignored : E → Bool) where
  settle_current : Completion T E → ℤ → CircuitBreaker → CircuitBreaker
  settle_current (returned _) now b = record_healthy b
  settle_current (threw e) now b =
      if is_ignored e
      then release_probe now b
      else if is_failure e
      then record_failure now b
      else record_healthy b

  unfoldable pub settle : Completion T E → ℕ → ℤ → CircuitBreaker → CircuitBreaker
  unfolding settle_current record_healthy record_failure release_probe
  settle c generation now b = if generation == b.generation then settle_current c now b else b

-- What `execute` rejects with: `CircuitOpenError`, or the operation's own error.
pub data Thrown {κ} (E : Type κ) : Type κ where
  circuit_open_error : ℕ → Thrown E
  operation_error : E → Thrown E

rethrown {ℓ κ} : {T : Type ℓ} {E : Type κ} → Completion T E → Completion T (Thrown E)
rethrown (returned t) = returned t
rethrown (threw e) = threw (operation_error e)

-- `execute` in a world `W` that holds the circuit and the clock. `operation` may do anything to the
-- world, as other requests do while the call is awaited.
module _ {ℓ κ μ} {T : Type ℓ} {E : Type κ} {W : Type μ} (circuit : W → CircuitBreaker)
    (set_circuit : CircuitBreaker → W → W) (now : W → ℤ) where
  admitted_call :
      (W → Completion T E × W)
      → (E → Bool)
      → (E → Bool)
      → W
      → Admission
      → Completion T (Thrown E) × W
  unfolding rethrown
  admitted_call operation is_failure is_ignored w (refused ms) = (threw (circuit_open_error ms), w)
  admitted_call operation is_failure is_ignored w (admitted generation b) =
      let (c, w') = operation (set_circuit b w) in
      (rethrown c, set_circuit (settle is_failure is_ignored c generation (now w') (circuit w')) w')

  unfoldable pub execute :
      (W → Completion T E × W) → (E → Bool) → (E → Bool) → W → Completion T (Thrown E) × W
  unfolding admitted_call
  execute operation is_failure is_ignored w =
      admitted_call operation is_failure is_ignored w (admit (now w) (circuit w))
