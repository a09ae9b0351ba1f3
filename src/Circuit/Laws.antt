-- ===== src/Circuit/Laws.antt =====
-- When the circuit breaker (src/providers/circuit-breaker.ts) lets a call through, and its bounds.
use model_mux.Prelude.{ℕ, ◌≤◌, ◌<◌, ◌≡◌, ◌≢◌, ◌⊎◌, Bool, arith}
use model_mux.Prelude.Int.{ℤ, pos, ◌-ℤ◌, ◌≤ℤ◌, -ℤ_parts}
use model_mux.Circuit.{
  CircuitBreaker, closed, opened, half_open, refused, admitted, admit, reserve, snapshot,
  Completion, returned, threw, settle,
}

-- The cooldown that began at `opened_at` is over.
abbrev pub IsCooled : ℤ → CircuitBreaker → Type 0
IsCooled now b = pos b.reset_timeout_ms ≤ℤ (now -ℤ b.opened_at)

-- A call may enter: the circuit is closed, or open with its cooldown over.
abbrev pub CanEnter : ℤ → CircuitBreaker → Type 0
CanEnter now b = (b.state ≡ closed) ⊎ ((b.state ≡ opened) × IsCooled now b)

-- What a circuit keeps between calls, whatever the calls do.
pub record IsValid (b : CircuitBreaker) : Type 0 where
  pub threshold_pos : 0 < b.failure_threshold
  pub timeout_pos : 0 < b.reset_timeout_ms
  pub closed_below : b.state ≡ closed → b.consecutive_failures < b.failure_threshold
  pub tripped : b.state ≢ closed → b.failure_threshold ≤ b.consecutive_failures

admit_enters :
    (now : ℤ) (b : CircuitBreaker)
    → CanEnter now b
    → admit now b ≡ admitted b.generation (reserve b)
unfolding admit
admit_enters now b h = ground (arith, -ℤ_parts (pos b.reset_timeout_ms) (now -ℤ b.opened_at))

admit_refuses :
    (now : ℤ) (b : CircuitBreaker)
    → IsValid b
    → ¬ CanEnter now b
    → (ms : ℕ) × (admit now b ≡ refused ms)
      × (0 < ms)
      × (b.state ≡ opened → pos ms ≡ pos b.reset_timeout_ms -ℤ (now -ℤ b.opened_at))
      × (b.state ≡ half_open → ms ≡ b.reset_timeout_ms)
unfolding admit
admit_refuses now b v h = (
  (snapshot now b).retry_after_ms,
  ground (arith, -ℤ_parts (pos b.reset_timeout_ms) (now -ℤ b.opened_at)),
  ground (arith, -ℤ_parts (pos b.reset_timeout_ms) (now -ℤ b.opened_at)),
  ground (arith, -ℤ_parts (pos b.reset_timeout_ms) (now -ℤ b.opened_at)),
  ground arith,
)

-- A call enters exactly when `CanEnter` holds, with the probe reserved if the circuit was open. A call
-- that is turned away changes nothing, and is told a positive delay: what is left of the cooldown,
-- or the whole of it while a probe is under way.
pub admit_exactly :
    (now : ℤ) (b : CircuitBreaker)
    → IsValid b
    → (CanEnter now b → admit now b ≡ admitted b.generation (reserve b))
      × (¬ CanEnter now b
          → (ms : ℕ) × (admit now b ≡ refused ms)
            × (0 < ms)
            × (b.state ≡ opened → pos ms ≡ pos b.reset_timeout_ms -ℤ (now -ℤ b.opened_at))
            × (b.state ≡ half_open → ms ≡ b.reset_timeout_ms))
unfolding admit
admit_exactly now b v = (admit_enters now b, admit_refuses now b v)

pub admit-IsValid :
    (now : ℤ) (b : CircuitBreaker) {g : ℕ} {b' : CircuitBreaker}
    → admit now b ≡ admitted g b'
    → IsValid b
    → IsValid b'
unfolding admit
admit-IsValid now b e v = ground arith

module _ {T E : Type 0} (is_failure is_ignored : E → Bool) where
  pub settle-IsValid :
      (c : Completion T E) (g : ℕ) (now : ℤ) (b : CircuitBreaker)
      → IsValid b
      → IsValid (settle is_failure is_ignored c g now b)
  unfolding settle
  settle-IsValid (returned t) g now b v = ground arith
  settle-IsValid (threw e) g now b v = ground arith
