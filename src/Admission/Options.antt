-- ===== src/Admission/Options.antt =====
-- The options that the constructor of src/concurrency/in-memory-concurrency-limiter.ts accepts.
use model_mux.Prelude.{ℕ, ◌≤◌, ◌≡◌, refl, arith, none}
use model_mux.Prelude.Int.{pos}
use model_mux.Admission.{built, init, new, validate_options, is_negative}

validate_options-none :
    (max_concurrent max_queue_size wait_timeout : ℕ)
    → 1 ≤ max_concurrent
    → 1 ≤ wait_timeout
    → validate_options (pos max_concurrent) (pos max_queue_size) (pos wait_timeout) ≡ none
unfolding validate_options is_negative
validate_options-none a b c h k = ground arith

pub new-built :
    (max_concurrent max_queue_size wait_timeout : ℕ)
    → 1 ≤ max_concurrent
    → 1 ≤ wait_timeout
    → new (pos max_concurrent) (pos max_queue_size) (pos wait_timeout)
      ≡ built (
          init (record {
            max_concurrent = max_concurrent;
            max_queue_size = max_queue_size;
            wait_timeout_ms = wait_timeout;
          }))
unfolding new
new-built a b c h k = rw (new, validate_options-none a b c h k) refl
