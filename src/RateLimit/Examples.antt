-- ===== src/RateLimit/Examples.antt =====
-- A bucket of two tokens that refills one token in two seconds (src/rate-limit/redis-token-bucket.ts).
use model_mux.Prelude.{◌+◌, ◌-◌, ◌*◌, ◌≤◌, ◌≡◌, refl, none, some, [], ◌∷◌, arith}
use model_mux.RateLimit.{Bucket, decide, script, cost, full}
use model_mux.RateLimit.Refill.{expiry_invisible}
use model_mux.RateLimit.Window.{admitted, window_bounded}

-- A token is 2000 units; a full bucket expires after eight seconds.
abbrev drained : Bucket
drained = record { tokens = 500; updated_at_ms = 1000; expires_at_ms = 9000 }

expiry_invisible_example : script 2 1 2 20000 (some drained) ≡ decide 2 1 2 20000 (some drained)
unfolding model_mux.RateLimit.ttl_seconds
expiry_invisible_example =
    expiry_invisible 2 1 2 (omega arith) 20000 drained
      (record { capped = omega arith; expiry = refl })

window_bounded_example :
    admitted 2 1 2 (omega arith) none (0 ∷ 1 ∷ 2 ∷ 4000 ∷ []) * 2000 ≤ 4000 + (4000 - 0) * 1
window_bounded_example = window_bounded 2 1 2 (omega arith) none 0 (1 ∷ 2 ∷ 4000 ∷ []) (omega arith)
