-- ===== src/Circuit/Options.antt =====
-- The options that the constructor of src/providers/circuit-breaker.ts accepts.
use model_mux.Prelude.{ℕ, ◌≤◌, ◌≡◌, arith}
use model_mux.Prelude.Int.{pos}
use model_mux.Circuit.{CircuitBreaker, built, closed, new, max_safe_integer, is_not_positive_safe}

-- A closed circuit with no failures.
abbrev idle : ℕ → ℕ → CircuitBreaker
idle threshold timeout = record {
  state = closed;
  consecutive_failures = 0;
  opened_at = pos 0;
  generation = 0;
  failure_threshold = threshold;
  reset_timeout_ms = timeout;
}

new-idle :
    (threshold timeout : ℕ)
    → 1 ≤ threshold
    → threshold ≤ max_safe_integer
    → 1 ≤ timeout
    → timeout ≤ max_safe_integer
    → new (record { failure_threshold = pos threshold; reset_timeout_ms = pos timeout })
      ≡ built (idle threshold timeout)
unfolding new is_not_positive_safe
new-idle threshold timeout h1 h2 h3 h4 = ground arith

pub new-built :
    (threshold timeout : ℕ)
    → 1 ≤ threshold
    → threshold ≤ max_safe_integer
    → 1 ≤ timeout
    → timeout ≤ max_safe_integer
    → (b : CircuitBreaker) × (new
          (record { failure_threshold = pos threshold; reset_timeout_ms = pos timeout })
        ≡ built b)
new-built threshold timeout h1 h2 h3 h4 =
    (idle threshold timeout, new-idle threshold timeout h1 h2 h3 h4)
