-- ===== src/Errors/Delays.antt =====
-- The Retry-After header of src/errors.ts.
use model_mux.Prelude.{ℕ, ◌*◌, ◌≤◌, ◌≡◌, refl, String, [], ◌∷◌, arith}
use model_mux.Errors.{provider_circuit_open_error, retry_after, headers, retry_seconds}

-- A client that waits for the seconds of the header finds the circuit's delay over: the header is the
-- least positive number of whole seconds that covers the delay.
pub delay_covered :
    (provider : String) (ms : ℕ)
    → (n : ℕ) × (headers (provider_circuit_open_error provider ms) ≡ retry_after n ∷ [])
      × (1 ≤ n)
      × (ms ≤ n * 1000)
      × ((m : ℕ) → 1 ≤ m → ms ≤ m * 1000 → n ≤ m)
unfolding headers retry_seconds
delay_covered provider ms = (retry_seconds ms, refl, omega arith, omega arith, λ m h k. omega arith)
