-- ===== src/Circuit/Examples.antt =====
-- A circuit with the threshold 2 and a cooldown of 100 ms (src/providers/circuit-breaker.ts), run by hand.
use model_mux.Prelude.{ℕ, List, ◌⊎◌, ◌<◌, ◌≡◌, refl, inr, [], ◌∷◌, true, false, arith}
use model_mux.Prelude.Int.{pos, ◌-ℤ◌}
use model_mux.Circuit.{
  CircuitBreaker, CircuitBreakerOptions, closed, opened, half_open, admitted, admit, new, reserve,
  threw, operation_error, settle,
}
use model_mux.Circuit.Laws.{IsValid, IsCooled, admit_exactly}
use model_mux.Circuit.Reach.{enter, finish, wait, Reach, here, next, Inv}
use model_mux.Circuit.Runs.{start, single_probe, open_until_probe}
use model_mux.Circuit.Trips.{call_at, fail_at, failures_trip}

abbrev options : CircuitBreakerOptions
options = record { failure_threshold = pos 2; reset_timeout_ms = pos 100 }

abbrev fresh : CircuitBreaker
fresh = record {
  state = closed;
  consecutive_failures = 0;
  opened_at = pos 0;
  generation = 0;
  failure_threshold = 2;
  reset_timeout_ms = 100;
}

abbrev tripped : CircuitBreaker
tripped = record fresh {
  state = opened;
  consecutive_failures = 2;
  opened_at = pos 7;
  generation = 1;
}

abbrev probing : CircuitBreaker
probing = record tripped { state = half_open }

tripped-IsValid : IsValid tripped
tripped-IsValid = record {
  threshold_pos = omega arith;
  timeout_pos = omega arith;
  closed_below = λ e. cc;
  tripped = λ e. omega arith;
}

tripped-Inv : Inv (record { breaker = tripped; clock = pos 107; in_flight = 0 ∷ [] })
tripped-Inv = record {
  valid = tripped-IsValid;
  known = (omega arith, tt);
  none_while_open = λ _. refl;
  one_probe = λ e. cc;
  opened_before = λ _. omega arith;
}

-- Two overlapping calls, one of which fails.
history :
    Reach
      (Unit {0})
      {E = Unit {0}}
      (λ _. true)
      (λ _. false)
      (start fresh (pos 5))
      (record {
        breaker = record fresh { consecutive_failures = 1 };
        clock = pos 7;
        in_flight = 0 ∷ [];
      })
unfolding admit settle reserve
history =
    next
      (next
        (next (next here (enter (start fresh (pos 5)) 0 fresh refl))
          (enter (record { breaker = fresh; clock = pos 5; in_flight = 0 ∷ [] }) 0 fresh refl))
        (wait (record { breaker = fresh; clock = pos 5; in_flight = 0 ∷ 0 ∷ [] }) (pos 7)
          (omega arith)))
      (finish (record { breaker = fresh; clock = pos 7; in_flight = 0 ∷ 0 ∷ [] }) (threw tt) [] 0
        (0 ∷ []) refl)

single_probe_example : 1 < 2
unfolding new
single_probe_example =
    (single_probe (Unit {0}) {E = Unit {0}} (λ _. true) (λ _. false) options fresh (pos 5)
        (record {
          breaker = record fresh { consecutive_failures = 1 };
          clock = pos 7;
          in_flight = 0 ∷ [];
        })
        refl history).2
      refl

admit_exactly_example : admit (pos 107) tripped ≡ admitted 1 probing
unfolding reserve ◌-ℤ◌
admit_exactly_example =
    (admit_exactly (pos 107) tripped tripped-IsValid).0 (inr (refl, omega arith))

failures_trip_example :
    (fail_at (Unit {0}) {E = Unit {0}} (λ _. true) (λ _. false) tt (pos 3 ∷ []) fresh
      ≡ record fresh { consecutive_failures = 1 })
    × (call_at
          (Unit {0})
          {E = Unit {0}}
          (λ _. true)
          (λ _. false)
          (threw tt)
          (pos 7)
          (fail_at (Unit {0}) {E = Unit {0}} (λ _. true) (λ _. false) tt (pos 3 ∷ []) fresh)
        ≡ (threw (operation_error tt), tripped))
failures_trip_example =
    failures_trip (Unit {0}) {E = Unit {0}} (λ _. true) (λ _. false) tt (pos 3 ∷ []) (pos 7) fresh
      refl refl refl refl

-- The cooldown is over, and a call enters as the probe.
open_until_probe_example :
    (probing ≡ tripped)
    ⊎ (IsCooled (pos 107) tripped
        × (probing.state ≡ half_open)
        × (◌≡◌ {A = List ℕ} (1 ∷ 0 ∷ []) (tripped.generation ∷ 0 ∷ [])))
unfolding reserve admit ◌-ℤ◌
open_until_probe_example =
    open_until_probe (Unit {0}) {E = Unit {0}} (λ _. true) (λ _. false) tripped-Inv
      (enter (record { breaker = tripped; clock = pos 107; in_flight = 0 ∷ [] }) 1 probing refl)
      refl
