-- ===== src/Circuit/Runs.antt =====
-- What the states of the circuit (src/providers/circuit-breaker.ts) mean over time: how it opens, how
-- long it stays open, and that recovery is tried by one call at a time.
use model_mux.Prelude.{◌≤◌, ◌<◌, ◌≡◌, refl, ◌≢◌, ◌⊎◌, inl, [], ◌∷◌, arith, Bool}
use model_mux.Prelude.Int.{ℤ, pos, ◌-ℤ◌, -ℤ_parts}
use model_mux.Circuit.{
  CircuitBreaker, CircuitBreakerOptions, closed, opened, half_open, admit, built, new, snapshot,
}
use model_mux.Circuit.Laws.{IsValid, IsCooled}
use model_mux.Circuit.Reach.{
  System, Step, enter, turn_away, finish, wait, Reach, Inv, current, Reach-Inv, finish_not_closed,
}

new-IsValid :
    (o : CircuitBreakerOptions) {b : CircuitBreaker}
    → new o ≡ built b
    → IsValid b × (b.state ≡ closed)
unfolding new
new-IsValid o e = ground arith

-- The state of the process when the circuit is made: no call is in flight.
abbrev pub start : CircuitBreaker → ℤ → System
start b t = record { breaker = b; clock = t; in_flight = [] }

start-Inv : (b : CircuitBreaker) (t : ℤ) → IsValid b → b.state ≡ closed → Inv (start b t)
start-Inv b t v e = record {
  valid = v;
  known = tt;
  none_while_open = λ _. refl;
  one_probe = λ q. cc;
  opened_before = λ q. cc;
}

module _ (T : Type 0) {E : Type 0} (is_failure is_ignored : E → Bool) where
  -- From a circuit that the constructor made, whatever calls overlap and however they end: while it
  -- is open, no call in flight counts; while it is half-open, exactly one does, the probe; and it
  -- is closed exactly while fewer failures than the threshold are counted.
  pub single_probe :
      (o : CircuitBreakerOptions) (b : CircuitBreaker) (t : ℤ) (s : System)
      → new o ≡ built b
      → Reach T is_failure is_ignored (start b t) s
      → let c = s.breaker in
        (c.state ≡ opened → current c.generation s.in_flight ≡ 0)
        × (c.state ≡ half_open → current c.generation s.in_flight ≡ 1)
        × (c.state ≡ closed → c.consecutive_failures < c.failure_threshold)
        × (c.state ≢ closed → c.failure_threshold ≤ c.consecutive_failures)
  single_probe o b t s e r = (v.none_while_open, v.one_probe, v.valid.closed_below, v.valid.tripped)
    where
      v : Inv s
      v = Reach-Inv is_failure is_ignored (start-Inv b t (new-IsValid o e).0 (new-IsValid o e).1) r

  -- In a system that keeps the invariant: an open circuit is left alone by every step, late outcomes of
  -- earlier calls included, until its cooldown is over and a call enters; the circuit is then half-open, and
  -- that call carries its generation.
  pub open_until_probe :
      {s t : System}
      → Inv s
      → Step T is_failure is_ignored s t
      → s.breaker.state ≡ opened
      → (t.breaker ≡ s.breaker)
        ⊎ (IsCooled s.clock s.breaker
            × (t.breaker.state ≡ half_open)
            × (t.in_flight ≡ s.breaker.generation ∷ s.in_flight))
  unfolding admit
  open_until_probe v (enter s g b e) q =
      ground (arith, -ℤ_parts (pos s.breaker.reset_timeout_ms) (s.clock -ℤ s.breaker.opened_at))
  open_until_probe v (turn_away s ms e) q = inl refl
  open_until_probe v (wait s t h) q = inl refl
  open_until_probe v (finish s c xs g ys e) q =
      ground (arith, finish_not_closed is_failure is_ignored s c xs g ys e v (λ r. cc))

  -- The delay that a client is told never exceeds the configured cooldown.
  pub retry_after_bounded :
      {s : System}
      → Inv s
      → (snapshot s.clock s.breaker).retry_after_ms ≤ s.breaker.reset_timeout_ms
  unfolding snapshot
  retry_after_bounded {s} v = ground (
    arith,
    -ℤ_parts (pos s.breaker.reset_timeout_ms) (s.clock -ℤ s.breaker.opened_at),
    -ℤ_parts s.clock s.breaker.opened_at,
  )
