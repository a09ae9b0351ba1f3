-- ===== src/RateLimit.antt =====
-- src/rate-limit/rate-limiter.ts and src/rate-limit/redis-token-bucket.ts: the token bucket of an API key.
--
-- The refill rate is the fraction `refill_num / refill_den`. Tokens are counted in units of 1/(1000 ·
-- refill_den), in which every number of the script is whole: one token is `cost`, and a millisecond brings
-- `refill_num` units. So the arithmetic is exact where the script's doubles round: where the exact count
-- is close to a whole token, or the exact delay to a whole second, the script may decide otherwise, or tell another delay. A Redis key
-- that has expired reads as a key that is not there.
pub mod Refill
pub mod Window
mod Examples
use model_mux.Prelude.{
  ℕ, ◌+◌, ◌-◌, ◌*◌, ◌/◌, min, max, Bool, true, false, ◌||◌, List, [], ◌∷◌, Option, none, some, ltb,
  leb, ◌==◌, if◌then◌else◌,
}
use model_mux.Prelude.Int.{ℤ, pos_part}
use model_mux.Errors.{AppError, rate_limiter_unavailable_error}
use model_mux.Circuit.{Completion, returned, threw}

pub record RateLimitPolicy : Type 0 where
  pub capacity : ℤ
  pub refill_num : ℤ
  pub refill_den : ℕ

pub record RateLimitDecision : Type 0 where
  pub allowed : Bool
  pub remaining : ℕ
  pub retry_after_seconds : ℕ

-- The hash under the key, and when the key expires.
pub record Bucket : Type 0 where
  pub tokens : ℕ
  pub updated_at_ms : ℕ
  pub expires_at_ms : ℕ

-- What the script returns: `allowed` as 1 or 0, the whole tokens, and the seconds.
pub record ScriptResult : Type 0 where
  pub allowed : ℕ
  pub tokens : ℕ
  pub retry_after_seconds : ℕ

unfoldable pub ceil_div : ℕ → ℕ → ℕ
ceil_div a b = (a + (b - 1)) / b

-- HMGET: an expired key has no fields.
unfoldable pub stored : ℕ → Option Bucket → Option Bucket
stored now_ms none = none
stored now_ms (some b) = if leb b.expires_at_ms now_ms then none else some b

module _ (capacity refill_num refill_den : ℕ) where
  abbrev pub cost : ℕ
  cost = 1000 * refill_den

  abbrev pub full : ℕ
  full = capacity * cost

  -- The tokens before the decision, not rounded.
  unfoldable pub refilled : ℕ → Option Bucket → ℕ
  refilled now_ms none = min full (full + (now_ms - now_ms) * refill_num)
  refilled now_ms (some b) = min full (b.tokens + (now_ms - b.updated_at_ms) * refill_num)

  unfoldable pub ttl_seconds : ℕ
  unfolding ceil_div
  ttl_seconds = max 1 (ceil_div (2 * (capacity * refill_den)) refill_num)

  -- HSET and EXPIRE.
  unfoldable pub write : ℕ → ℕ → Bucket
  unfolding ttl_seconds
  write now_ms tokens = record {
    tokens = tokens;
    updated_at_ms = now_ms;
    expires_at_ms = now_ms + 1000 * ttl_seconds;
  }

  -- The script after its reads; the delay is the ceiling of the exact quotient.
  unfoldable pub decide : ℕ → Option Bucket → ScriptResult × Bucket
  unfolding refilled write ceil_div
  decide now_ms state =
      let tokens = refilled now_ms state in
      if leb cost tokens
      then (
        record { allowed = 1; tokens = (tokens - cost) / cost; retry_after_seconds = 0 },
        write now_ms (tokens - cost),
      )
      else (
        record {
          allowed = 0;
          tokens = tokens / cost;
          retry_after_seconds = max 1 (ceil_div (cost - tokens) (1000 * refill_num));
        },
        write now_ms tokens,
      )

  -- TOKEN_BUCKET_SCRIPT at the time `now_ms` of Redis.
  unfoldable pub script : ℕ → Option Bucket → ScriptResult × Bucket
  unfolding stored decide
  script now_ms key = decide now_ms (stored now_ms key)

-- What `eval` gives for a result of the script: it never ran, its answer was lost, or an answer, a list
-- whose items may be other things than finite numbers.
pub data EvalReply : Type 0 where
  unreachable lost : EvalReply
  answered : List (Option ℕ) → EvalReply

-- `isTokenBucketResult`, with the decision that is read off.
unfoldable pub decision_of : List (Option ℕ) → Option RateLimitDecision
decision_of (some a ∷ some r ∷ some s ∷ []) =
    some (record { allowed = a == 1; remaining = r; retry_after_seconds = s })
decision_of _ = none

-- `validatePolicy`; a capacity or a rate that is no integer or no finite number has no value here.
unfoldable pub is_invalid : RateLimitPolicy → Bool
is_invalid p = ltb (pos_part p.capacity) 1 || ltb (pos_part p.refill_num) 1

unfoldable pub consume :
    (ScriptResult → EvalReply)
    → RateLimitPolicy
    → ℕ
    → Option Bucket
    → Completion RateLimitDecision AppError × Option Bucket
unfolding is_invalid script decision_of
consume redis policy now_ms key =
    if is_invalid policy
    then (threw rate_limiter_unavailable_error, key)
    else let (result, bucket) =
        script (pos_part policy.capacity) (pos_part policy.refill_num) policy.refill_den now_ms
          key in
      elim (redis result) [
        | unreachable ↦ (threw rate_limiter_unavailable_error, key)
        | lost ↦ (threw rate_limiter_unavailable_error, some bucket)
        | answered items ↦ elim (decision_of items) [
          | none ↦ (threw rate_limiter_unavailable_error, some bucket)
          | some d ↦ (returned d, some bucket)
        ]
      ]

-- What the documented client gives: the three numbers of the script.
abbrev pub faithful : ScriptResult → EvalReply
faithful r = answered (some r.allowed ∷ some r.tokens ∷ some r.retry_after_seconds ∷ [])
