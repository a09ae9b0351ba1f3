-- ===== src/Admission/Releases.antt =====
-- Each permit of the limiter (src/concurrency/in-memory-concurrency-limiter.ts) counts for one release.
use model_mux.Prelude.{ℕ, ◌≡◌, List, [], ◌∷◌, ◌++◌, none, some, Bool, true, false, arith}
use model_mux.Admission.{
  Limiter, ConcurrencyPermit, Event, acquires, releases, aborts, times_out, acquire, on_abort,
  on_timeout, find_permit, mark_released, release, step, run,
}

-- The call `id` holds a permit that was given back.
abbrev pub is_released : ℕ → List ConcurrencyPermit → Bool
is_released id ps = elim (find_permit id ps) [ none ↦ false | some p ↦ p.released ]

is_released-append :
    (id : ℕ) (ps qs : List ConcurrencyPermit)
    → is_released id ps ≡ true
    → is_released id (ps ++ qs) ≡ true
unfolding find_permit
is_released-append id [] qs h = cc
is_released-append id (p ∷ ps) qs h = ground (arith, is_released-append id ps qs)

is_released-mark_released :
    (id j : ℕ) (ps : List ConcurrencyPermit)
    → is_released id ps ≡ true
    → is_released id (mark_released j ps) ≡ true
unfolding find_permit mark_released
is_released-mark_released id j [] h = cc
is_released-mark_released id j (p ∷ ps) h = ground (arith, is_released-mark_released id j ps)

is_released_self :
    (id : ℕ) (ps : List ConcurrencyPermit) (p : ConcurrencyPermit)
    → find_permit id ps ≡ some p
    → is_released id (mark_released id ps) ≡ true
unfolding find_permit mark_released
is_released_self id [] p h = cc
is_released_self id (q ∷ ps) p h = ground (arith, is_released_self id ps p)

is_released-step :
    (id : ℕ) (l : Limiter) (e : ℕ × Event)
    → is_released id l.permits ≡ true
    → is_released id (step l e).permits ≡ true
unfolding step acquire release on_abort on_timeout
is_released-step id l (now, acquires is_aborted) h = grind (arith, is_released-append)
is_released-step id l (now, releases j) h =
    grind (arith, is_released-append, is_released-mark_released)
is_released-step id l (now, aborts j) h = ground arith
is_released-step id l (now, times_out j) h = ground arith

is_released-run :
    (id : ℕ) (l : Limiter) (es : List (ℕ × Event))
    → is_released id l.permits ≡ true
    → is_released id (run l es).permits ≡ true
unfolding run
is_released-run id l [] h = h
is_released-run id l (e ∷ es) h = is_released-run id (step l e) es (is_released-step id l e h)

release_again : (id now : ℕ) (l : Limiter) → is_released id l.permits ≡ true → release id now l ≡ l
unfolding release
release_again id now l h = ground arith

is_released-release :
    (id now : ℕ) (l : Limiter) (p : ConcurrencyPermit)
    → find_permit id l.permits ≡ some p
    → is_released id (release id now l).permits ≡ true
unfolding release
is_released-release id now l p e = grind (arith, is_released-append, is_released_self)

-- Once `release` was called on a permit that was handed out, every later call of `release` on it changes
-- nothing, whatever has happened in between.
pub release_once :
    (id now later : ℕ) (l : Limiter) (p : ConcurrencyPermit) (es : List (ℕ × Event))
    → find_permit id l.permits ≡ some p
    → let s = run (release id now l) es in release id later s ≡ s
release_once id now later l p es e =
    release_again id later _
      (is_released-run id (release id now l) es (is_released-release id now l p e))
