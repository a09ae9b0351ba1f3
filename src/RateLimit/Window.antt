-- ===== src/RateLimit/Window.antt =====
-- What a client may do in a window of time, by src/rate-limit/redis-token-bucket.ts.
use model_mux.Prelude.{ℕ, ◌+◌, ◌-◌, ◌*◌, ◌≤◌, ◌<◌, ◌≡◌, ap, ◌∙◌, List, [], ◌∷◌, Option, some, arith}
use native.Mathlib.Nat.{add-mul}
use model_mux.RateLimit.{Bucket, stored, cost, full, script}
use model_mux.RateLimit.Refill.{IsWritten, refilled-le_full, decide_lem, script-refilled}

module _ (c p q : ℕ) (p_pos : 0 < p) where
  -- How many of the calls at the given times are allowed.
  abbrev pub admitted : Option Bucket → List ℕ → ℕ
  admitted key [] = 0
  admitted key (t ∷ ts) = let (r, b) = script c p q t key in r.allowed + admitted (some b) ts

  abbrev pub InOrder : ℕ → List ℕ → Type 0
  InOrder s [] = Unit {0}
  InOrder s (t ∷ ts) = (s ≤ t) × InOrder t ts

  abbrev pub last : ℕ → List ℕ → ℕ
  last s [] = s
  last s (t ∷ ts) = last t ts

  le-last : (s : ℕ) (ts : List ℕ) → InOrder s ts → s ≤ last s ts
  le-last s [] o = omega arith
  le-last s (t ∷ ts) o = omega (arith, o.0, le-last t ts o.1)

  -- One call takes `paid` units at `t`, and what follows is bounded from there.
  split_window :
      (s t end_time : ℕ)
      → s ≤ t
      → t ≤ end_time
      → (end_time - s) * p ≡ (t - s) * p + (end_time - t) * p
  split_window s t end_time h k =
      let e : end_time - s ≡ (t - s) + (end_time - t) = omega arith in
      ap (λ x. x * p) e ∙ add-mul (t - s) (end_time - t) p

  later_calls :
      (b : Bucket) (s : ℕ) (ts : List ℕ)
      → IsWritten c p q p_pos b
      → b.updated_at_ms ≡ s
      → InOrder s ts
      → admitted (some b) ts * cost c p q ≤ b.tokens + (last s ts - s) * p
  unfolding script
  later_calls b s [] v e o = omega arith
  later_calls b s (t ∷ ts) v e o =
      let d = decide_lem c p q p_pos t (stored t (some b)) in
      let (r, b') = script c p q t (some b) in
      omega (
        arith,
        add-mul r.allowed (admitted (some b') ts) (cost c p q),
        d.0,
        later_calls b' t ts d.2 d.1 o.1,
        script-refilled c p q p_pos t b v,
        ap (λ x. (t - x) * p) e,
        split_window s t (last t ts) o.0 (le-last t ts o.1),
      )

  -- In any window, whatever the state of the key and however many calls are made, in the order of
  -- their times, the calls that are allowed cost no more than one full bucket and what the
  -- window refills.
  pub window_bounded :
      (key : Option Bucket) (t : ℕ) (ts : List ℕ)
      → InOrder t ts
      → admitted key (t ∷ ts) * cost c p q ≤ full c p q + (last t ts - t) * p
  unfolding script
  window_bounded key t ts o =
      let d = decide_lem c p q p_pos t (stored t key) in
      let (r, b) = script c p q t key in
      omega (
        arith,
        add-mul r.allowed (admitted (some b) ts) (cost c p q),
        d.0,
        later_calls b t ts d.2 d.1 o,
        refilled-le_full c p q p_pos t (stored t key),
      )
