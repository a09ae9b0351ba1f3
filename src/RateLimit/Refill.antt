-- ===== src/RateLimit/Refill.antt =====
-- The bucket between two calls (src/rate-limit/redis-token-bucket.ts): refill, capacity and expiry.
use model_mux.Prelude.{
  ℕ, ◌+◌, ◌-◌, ◌*◌, ◌≤◌, ◌<◌, ◌≡◌, refl, inl, inr, Option, none, some, arith, leb, leb→le,
  Bool-cases,
}
use native.Mathlib.Nat.{lt-div-mul-add, mul-le-mul_right, mul_assoc, mul_left_comm}
use model_mux.RateLimit.{
  Bucket, ceil_div, stored, cost, full, refilled, ttl_seconds, write, decide, script,
}

ceil_div-covers : (a b : ℕ) → 0 < b → a ≤ ceil_div a b * b
unfolding ceil_div
ceil_div-covers a b h = omega (arith, lt-div-mul-add {a = a + (b - 1)} h)

module _ (c p q : ℕ) (p_pos : 0 < p) where
  -- A key as the script writes it: never above the capacity, and with its expiry.
  pub record IsWritten (b : Bucket) : Type 0 where
    pub capped : b.tokens ≤ full c p q
    pub expiry : b.expires_at_ms ≡ b.updated_at_ms + 1000 * ttl_seconds c p q

  expired_full :
      (now : ℕ) (b : Bucket)
      → IsWritten b
      → b.expires_at_ms ≤ now
      → full c p q ≤ (now - b.updated_at_ms) * p
  unfolding ttl_seconds
  expired_full now b v h =
      let ttl = ceil_div (2 * (c * q)) p in
      let waited : 1000 * ttl ≤ now - b.updated_at_ms = omega (arith, h, v.expiry) in
      omega (
        arith,
        ceil_div-covers (2 * (c * q)) p p_pos,
        mul-le-mul_right p waited,
        mul_assoc 1000 ttl p,
        mul_left_comm c 1000 q,
      )

  -- Where the script reads an expired key as none, it finds the bucket full either way.
  pub refilled-stored :
      (now : ℕ) (b : Bucket)
      → IsWritten b
      → refilled c p q now (stored now (some b)) ≡ refilled c p q now (some b)
  unfolding refilled stored
  refilled-stored now b v = elim (Bool-cases (leb b.expires_at_ms now)) [
    | inl h ↦ rw (h, stored, refilled) (omega (arith, expired_full now b v (leb→le _ _ h)))
    | inr h ↦ rw (h, stored, refilled) refl
  ]

  pub refilled-le_full : (now : ℕ) (key : Option Bucket) → refilled c p q now key ≤ full c p q
  unfolding refilled
  refilled-le_full now none = omega arith
  refilled-le_full now (some b) = omega arith

  pub decide_lem :
      (now : ℕ) (state : Option Bucket)
      → let (r, b) = decide c p q now state in
        (b.tokens + r.allowed * cost c p q ≡ refilled c p q now state)
        × (b.updated_at_ms ≡ now)
        × IsWritten b
  unfolding decide write
  decide_lem now state = elim (Bool-cases (leb (cost c p q) (refilled c p q now state))) [
    | inl h ↦
        rw (h, decide)
          (
            omega (arith, leb→le _ _ h),
            refl,
            record { capped = omega (arith, refilled-le_full now state); expiry = refl },
          )
    | inr h ↦
        rw (h, decide)
          (omega arith, refl, record { capped = refilled-le_full now state; expiry = refl })
  ]

  pub script-refilled :
      (now : ℕ) (b : Bucket)
      → IsWritten b
      → refilled c p q now (stored now (some b)) ≤ b.tokens + (now - b.updated_at_ms) * p
  unfolding refilled
  script-refilled now b v = rw (refilled-stored now b v) (omega arith)

  -- Expiry is invisible: whether Redis has dropped the key or still holds it, the script answers and
  -- writes the same.
  pub expiry_invisible :
      (now : ℕ) (b : Bucket) → IsWritten b → script c p q now (some b) ≡ decide c p q now (some b)
  unfolding script decide
  expiry_invisible now b v = rw (refilled-stored now b v) refl
