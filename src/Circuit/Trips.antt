-- ===== src/Circuit/Trips.antt =====
-- How consecutive failures open the circuit (src/providers/circuit-breaker.ts), and what an abandoned
-- probe leaves behind. The calls are whole runs of `execute`, one after the other.
use model_mux.Prelude.{◌+◌, ◌<◌, ◌≡◌, List, [], ◌∷◌, Bool, true, false, arith, length}
use model_mux.Prelude.Int.{ℤ, pos, ◌-ℤ◌, ◌≤ℤ◌, -ℤ_parts}
use model_mux.Circuit.{
  CircuitBreaker, closed, opened, half_open, admitted, admit, Completion, threw, Thrown,
  operation_error, settle, execute,
}
use model_mux.Circuit.Laws.{IsValid}

module _ (T : Type 0) {E : Type 0} (is_failure is_ignored : E → Bool) where
  -- One call of `execute` at time `t`, by an operation that ends at once with `c`.
  abbrev pub call_at :
      Completion T E → ℤ → CircuitBreaker → Completion T (Thrown E) × CircuitBreaker
  call_at c t b =
      let r =
        execute {W = CircuitBreaker × ℤ} (λ w. w.0) (λ b' w. (b', w.1)) (λ w. w.1) (λ w. (c, w))
          is_failure is_ignored (b, t) in
      (r.0, r.1.0)

  -- Calls that fail with `e`, one at each of the times.
  abbrev pub fail_at : E → List ℤ → CircuitBreaker → CircuitBreaker
  fail_at e [] b = b
  fail_at e (t ∷ ts) b = fail_at e ts (call_at (threw e) t b).1

  fail_once :
      (e : E) (t : ℤ) (b : CircuitBreaker)
      → is_failure e ≡ true
      → is_ignored e ≡ false
      → b.state ≡ closed
      → b.consecutive_failures + 1 < b.failure_threshold
      → (call_at (threw e) t b).1 ≡ record b { consecutive_failures = b.consecutive_failures + 1 }
  unfolding execute admit settle
  fail_once e t b f i c h = ground arith

  fail_below :
      (e : E) (ts : List ℤ) (b : CircuitBreaker)
      → is_failure e ≡ true
      → is_ignored e ≡ false
      → b.state ≡ closed
      → b.consecutive_failures + length ts < b.failure_threshold
      → fail_at e ts b ≡ record b { consecutive_failures = b.consecutive_failures + length ts }
  fail_below e [] b f i c h = ground arith
  fail_below e (t ∷ ts) b f i c h = rw (fail_once e t b f i c (omega arith)) (
      ground (
        arith,
        fail_below e ts (record b { consecutive_failures = b.consecutive_failures + 1 }) f i c,
      ))

  -- A closed circuit counts transient failures, and stays closed while they are fewer than the
  -- threshold. The call that reaches the threshold opens it, at the time of that failure, and starts
  -- a new generation. Each caller still receives its own error.
  pub failures_trip :
      (e : E) (ts : List ℤ) (t : ℤ) (b : CircuitBreaker)
      → is_failure e ≡ true
      → is_ignored e ≡ false
      → b.state ≡ closed
      → b.consecutive_failures + length ts + 1 ≡ b.failure_threshold
      → (fail_at e ts b ≡ record b { consecutive_failures = b.consecutive_failures + length ts })
        × (call_at (threw e) t (fail_at e ts b) ≡ (
          threw (operation_error e),
          record b {
            state = opened;
            consecutive_failures = b.failure_threshold;
            opened_at = t;
            generation = b.generation + 1;
          },
        ))
  unfolding execute admit settle
  failures_trip e ts t b f i c h =
      let below = fail_below e ts b f i c (omega arith) in (below, rw below (ground arith))

  -- A probe that is abandoned (its error is ignored) gives the slot back without a verdict: the count
  -- stays, and the next call, at any later time, may be the probe.
  pub abandoned_probe :
      (e : E) (now later : ℤ) (b : CircuitBreaker)
      → IsValid b
      → b.state ≡ half_open
      → is_ignored e ≡ true
      → now ≤ℤ later
      → let c : Completion T E = threw e in
        let b' = settle is_failure is_ignored c b.generation now b in
        (b'.state ≡ opened)
        × (b'.consecutive_failures ≡ b.consecutive_failures)
        × (admit later b' ≡ admitted b'.generation (record b' { state = half_open }))
  unfolding settle admit
  abandoned_probe e now later b v s i h = ground (
    arith,
    -ℤ_parts now (pos b.reset_timeout_ms),
    -ℤ_parts later (now -ℤ pos b.reset_timeout_ms),
    -ℤ_parts (pos b.reset_timeout_ms) (later -ℤ (now -ℤ pos b.reset_timeout_ms)),
  )
