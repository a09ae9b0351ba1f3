-- ===== src/Admission/Order.antt =====
-- Lists of call numbers: the order of arrival, and what the limiter's list operations
-- (src/concurrency/in-memory-concurrency-limiter.ts) do to it.
use mathlib.Core.List.{append_assoc, map-append}
use model_mux.Prelude.{
  ℕ, suc, ◌+◌, ◌≤◌, ◌≡◌, refl, List, [], ◌∷◌, ◌++◌, map, some, true, false, arith, length,
}
use model_mux.Admission.{
  PendingAcquire, ConcurrencyPermit, find_pending, remove_pending, find_permit, mark_released,
}

-- The numbers rise strictly, from `lo` on, and stay below `hi`.
abbrev pub Rising : ℕ → ℕ → List ℕ → Type 0
Rising lo hi [] = lo ≤ hi
Rising lo hi (x ∷ xs) = (lo ≤ x) × Rising (suc x) hi xs

pub Rising-le : (lo hi : ℕ) (xs : List ℕ) → Rising lo hi xs → lo ≤ hi
Rising-le lo hi [] h = h
Rising-le lo hi (x ∷ xs) h = omega (arith, Rising-le (suc x) hi xs h.1)

pub Rising-weaken :
    {lo lo' : ℕ} (hi : ℕ) (xs : List ℕ) → lo' ≤ lo → Rising lo hi xs → Rising lo' hi xs
Rising-weaken hi [] h r = omega arith
Rising-weaken hi (x ∷ xs) h r = (omega arith, r.1)

pub Rising-suc : (lo hi : ℕ) (xs : List ℕ) → Rising lo hi xs → Rising lo (hi + 1) xs
Rising-suc lo hi [] h = omega arith
Rising-suc lo hi (x ∷ xs) h = (h.0, Rising-suc (suc x) hi xs h.1)

pub Rising-concat : (lo hi : ℕ) (xs : List ℕ) → Rising lo hi xs → Rising lo (hi + 1) (xs ++ hi ∷ [])
Rising-concat lo hi [] h = (h, omega arith)
Rising-concat lo hi (x ∷ xs) h = (h.0, Rising-concat (suc x) hi xs h.1)

abbrev pub holders : List ConcurrencyPermit → List ℕ
holders = map (λ p. p.id)

abbrev pub waiters : List PendingAcquire → List ℕ
waiters = map (λ p. p.id)

-- How many permits are out: handed out and not released.
abbrev pub held : List ConcurrencyPermit → ℕ
held [] = 0
held (p ∷ ps) = elim p.released [ true ↦ held ps | false ↦ suc (held ps) ]

abbrev pub total_wait : List ConcurrencyPermit → ℕ
total_wait [] = 0
total_wait (p ∷ ps) = p.wait_time_ms + total_wait ps

pub held-append : (ps qs : List ConcurrencyPermit) → held (ps ++ qs) ≡ held ps + held qs
held-append [] qs = omega arith
held-append (p ∷ ps) qs = ground (arith, held-append ps qs)

pub total_wait-append :
    (ps qs : List ConcurrencyPermit) → total_wait (ps ++ qs) ≡ total_wait ps + total_wait qs
total_wait-append [] qs = omega arith
total_wait-append (p ∷ ps) qs = omega (arith, total_wait-append ps qs)

pub holders-mark_released :
    (id : ℕ) (ps : List ConcurrencyPermit) → holders (mark_released id ps) ≡ holders ps
unfolding mark_released
holders-mark_released id [] = refl
holders-mark_released id (p ∷ ps) = ground (arith, holders-mark_released id ps)

pub total_wait-mark_released :
    (id : ℕ) (ps : List ConcurrencyPermit) → total_wait (mark_released id ps) ≡ total_wait ps
unfolding mark_released
total_wait-mark_released id [] = refl
total_wait-mark_released id (p ∷ ps) = ground (arith, total_wait-mark_released id ps)

pub length-mark_released :
    (id : ℕ) (ps : List ConcurrencyPermit) → length (mark_released id ps) ≡ length ps
unfolding mark_released
length-mark_released id [] = refl
length-mark_released id (p ∷ ps) = ground (arith, length-mark_released id ps)

pub held-mark_released :
    (id : ℕ) (ps : List ConcurrencyPermit) (p : ConcurrencyPermit)
    → find_permit id ps ≡ some p
    → p.released ≡ false
    → held ps ≡ held (mark_released id ps) + 1
unfolding find_permit mark_released
held-mark_released id [] p e h = cc
held-mark_released id (q ∷ ps) p e h = ground (arith, held-mark_released id ps p)

pub length-remove_pending :
    (id : ℕ) (ps : List PendingAcquire) (p : PendingAcquire)
    → find_pending id ps ≡ some p
    → length ps ≡ length (remove_pending id ps) + 1
unfolding find_pending remove_pending
length-remove_pending id [] p e = cc
length-remove_pending id (q ∷ ps) p e = ground (arith, length-remove_pending id ps p)

Rising-remove_pending :
    (lo hi id : ℕ) (ps : List PendingAcquire)
    → Rising lo hi (waiters ps)
    → Rising lo hi (waiters (remove_pending id ps))
unfolding remove_pending
Rising-remove_pending lo hi id [] r = r
Rising-remove_pending lo hi id (q ∷ ps) r = ground (
  arith,
  Rising-remove_pending (suc q.id) hi id ps r.1,
  Rising-weaken {lo = suc q.id} {lo' = lo} hi (waiters ps),
)

-- A waiter that leaves the queue keeps the order of the others.
pub Rising-without :
    (lo hi id : ℕ) (xs : List ℕ) (ps : List PendingAcquire)
    → Rising lo hi (xs ++ waiters ps)
    → Rising lo hi (xs ++ waiters (remove_pending id ps))
Rising-without lo hi id [] ps r = Rising-remove_pending lo hi id ps r
Rising-without lo hi id (x ∷ xs) ps r = (r.0, Rising-without (suc x) hi id xs ps r.1)

-- The oldest waiter moves from the head of the queue to the end of the permits.
pub order_handed_over :
    (ps : List ConcurrencyPermit) (p : ConcurrencyPermit) (xs : List ℕ)
    → holders (ps ++ p ∷ []) ++ xs ≡ holders ps ++ p.id ∷ xs
order_handed_over ps p xs = rw (map-append (λ q. q.id) ps (p ∷ []), append_assoc)
