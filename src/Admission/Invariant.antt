-- ===== src/Admission/Invariant.antt =====
-- What holds of the limiter (src/concurrency/in-memory-concurrency-limiter.ts) between two events.
use mathlib.Core.List.{append_assoc, append-nil, map-append}
use model_mux.Prelude.{
  ℕ, ◌+◌, ◌-◌, ◌≤◌, ◌<◌, ◌≡◌, refl, inl, inr, List, [], ◌∷◌, ◌++◌, Bool, true, false, arith, length,
  length-concat, Bool-cases, Option-cases, ltb, leb,
}
use model_mux.Admission.{
  Limiter, LimiterOptions, AdmissionMetric, PendingAcquire, ConcurrencyPermit, init, admit,
  outcome_admitted, outcome_cancelled, outcome_queue_full, outcome_timeout, acquire, on_abort,
  on_timeout, find_pending,
}
use model_mux.Admission.Order.{
  Rising, Rising-suc, Rising-concat, Rising-without, holders, waiters, held, total_wait,
  held-append, total_wait-append, length-remove_pending, order_handed_over,
}

pub record Inv (l : Limiter) : Type 0 where
  pub positive : 0 < l.max_concurrent
  pub capped : l.active ≤ l.max_concurrent
  pub held_active : held l.permits ≡ l.active
  pub queue_capped : length l.queue ≤ l.max_queue_size
  pub busy : 0 < length l.queue → l.active ≡ l.max_concurrent
  pub in_order : Rising 0 l.next_id (holders l.permits ++ waiters l.queue)
  pub accounted : l.next_id ≡ l.admitted + l.rejected + l.timed_out + l.aborted + length l.queue
  pub handed_out : l.admitted ≡ length l.permits
  pub recorded : length l.metrics ≡ l.admitted + l.rejected + l.timed_out + l.aborted
  pub waited : l.total_wait_time_ms ≡ total_wait l.permits

pub init-Inv : (o : LimiterOptions) → 0 < o.max_concurrent → Inv (init o)
unfolding init
init-Inv o h = ground arith

-- The moment before `admit` hands a permit to the call `id`: its slot is counted, the permit is not.
pub record Ready (id : ℕ) (l : Limiter) : Type 0 where
  pub positive : 0 < l.max_concurrent
  pub capped : l.active ≤ l.max_concurrent
  pub held_active : held l.permits + 1 ≡ l.active
  pub queue_capped : length l.queue ≤ l.max_queue_size
  pub busy : 0 < length l.queue → l.active ≡ l.max_concurrent
  pub in_order : Rising 0 l.next_id (holders l.permits ++ id ∷ waiters l.queue)
  pub accounted : l.next_id ≡ l.admitted + 1 + l.rejected + l.timed_out + l.aborted + length l.queue
  pub handed_out : l.admitted ≡ length l.permits
  pub recorded : length l.metrics ≡ l.admitted + l.rejected + l.timed_out + l.aborted
  pub waited : l.total_wait_time_ms ≡ total_wait l.permits

pub admit-Inv : (id ms : ℕ) (l : Limiter) → Ready id l → Inv (admit id ms l).1
unfolding admit
admit-Inv id ms l v =
    let p : ConcurrencyPermit = (admit id ms l).0 in
    let m : AdmissionMetric = record { outcome = outcome_admitted; duration_ms = ms } in
    record {
      positive = v.positive;
      capped = v.capped;
      held_active = omega (arith, v.held_active, held-append l.permits (p ∷ []));
      queue_capped = v.queue_capped;
      busy = v.busy;
      in_order = rw (order_handed_over l.permits p (waiters l.queue)) v.in_order;
      accounted = omega (arith, v.accounted);
      handed_out = omega (arith, v.handed_out, length-concat l.permits p);
      recorded = omega (arith, v.recorded, length-concat l.metrics m);
      waited = omega (arith, v.waited, total_wait-append l.permits (p ∷ []));
    }

queued-in_order :
    (n : ℕ) (xs : List ℕ) (ps : List PendingAcquire) (p : PendingAcquire)
    → p.id ≡ n
    → Rising 0 n (xs ++ waiters ps)
    → Rising 0 (n + 1) (xs ++ waiters (ps ++ p ∷ []))
queued-in_order n xs ps p i r =
    rw (map-append (λ q. q.id) ps (p ∷ []), ← append_assoc)
      (rw i (Rising-concat 0 n (xs ++ waiters ps) r))

taken-in_order :
    (n : ℕ) (xs : List ℕ) (ps : List PendingAcquire)
    → ps ≡ []
    → Rising 0 n (xs ++ waiters ps)
    → Rising 0 (n + 1) (xs ++ n ∷ waiters ps)
taken-in_order n xs ps e r = rw e (Rising-concat 0 n xs (rw append-nil at (rw e at r)))

module _ (l : Limiter) (v : Inv l) where
  empty_queue : l.active < l.max_concurrent → l.queue ≡ []
  empty_queue h = ground (arith, v.busy)

  pub acquire-Inv : (is_aborted : Bool) (now : ℕ) → Inv (acquire is_aborted now l).1
  unfolding acquire
  acquire-Inv true now = ground (
    arith,
    length-concat l.metrics (record { outcome = outcome_cancelled; duration_ms = 0 }),
    Rising-suc 0 l.next_id (holders l.permits ++ waiters l.queue) v.in_order,
  )
  acquire-Inv false now = elim (Bool-cases (ltb l.active l.max_concurrent)) [
    | inl free ↦ rw free (
        admit-Inv l.next_id 0 (record l { active = l.active + 1; next_id = l.next_id + 1 })
          (taken free))
    | inr full ↦ rw full (elim (Bool-cases (leb l.max_queue_size (length l.queue))) [
      | inl e ↦ rw e (turned_away e)
      | inr e ↦ rw e (queued full e)
    ])
  ]
    where
      taken :
          ltb l.active l.max_concurrent ≡ true
          → Ready l.next_id (record l { active = l.active + 1; next_id = l.next_id + 1 })
      taken free = record {
        positive = v.positive;
        capped = ground arith;
        held_active = omega (arith, v.held_active);
        queue_capped = v.queue_capped;
        busy = ground (arith, v.busy);
        in_order =
            taken-in_order l.next_id (holders l.permits) l.queue (empty_queue (ground arith))
              v.in_order;
        accounted = omega (arith, v.accounted);
        handed_out = v.handed_out;
        recorded = v.recorded;
        waited = v.waited;
      }

      turned_away :
          leb l.max_queue_size (length l.queue) ≡ true
          → Inv (record l {
            rejected = l.rejected + 1;
            next_id = l.next_id + 1;
            metrics = l.metrics ++ record { outcome = outcome_queue_full; duration_ms = 0 } ∷ [];
          })
      turned_away e = ground (
        arith,
        length-concat l.metrics (record { outcome = outcome_queue_full; duration_ms = 0 }),
        Rising-suc 0 l.next_id (holders l.permits ++ waiters l.queue) v.in_order,
      )

      queued :
          ltb l.active l.max_concurrent ≡ false
          → leb l.max_queue_size (length l.queue) ≡ false
          → Inv (record l {
            queue = l.queue ++ record { id = l.next_id; enqueued_at = now } ∷ [];
            next_id = l.next_id + 1;
          })
      queued full e = ground (
        arith,
        length-concat l.queue (record { id = l.next_id; enqueued_at = now }),
        queued-in_order l.next_id (holders l.permits) l.queue
            (record { id = l.next_id; enqueued_at = now }) refl v.in_order,
      )

  pub on_abort-Inv : (id now : ℕ) → Inv (on_abort id now l).1
  unfolding on_abort
  on_abort-Inv id now = elim (Option-cases (find_pending id l.queue)) [
    | inl e ↦ rw (e, on_abort) v
    | inr (p, e) ↦
        rw (e, on_abort)
          (record {
            positive = v.positive;
            capped = v.capped;
            held_active = v.held_active;
            queue_capped = omega (arith, length-remove_pending id l.queue p e);
            busy = ground (arith, v.busy, length-remove_pending id l.queue p e);
            in_order = Rising-without 0 l.next_id id (holders l.permits) l.queue v.in_order;
            accounted = omega (arith, length-remove_pending id l.queue p e);
            handed_out = v.handed_out;
            recorded = omega (
              arith,
              length-concat l.metrics
                  (record { outcome = outcome_cancelled; duration_ms = now - p.enqueued_at }),
            );
            waited = v.waited;
          })
  ]

  pub on_timeout-Inv : (id now : ℕ) → Inv (on_timeout id now l).1
  unfolding on_timeout
  on_timeout-Inv id now = elim (Option-cases (find_pending id l.queue)) [
    | inl e ↦ rw (e, on_timeout) v
    | inr (p, e) ↦
        rw (e, on_timeout)
          (record {
            positive = v.positive;
            capped = v.capped;
            held_active = v.held_active;
            queue_capped = omega (arith, length-remove_pending id l.queue p e);
            busy = ground (arith, v.busy, length-remove_pending id l.queue p e);
            in_order = Rising-without 0 l.next_id id (holders l.permits) l.queue v.in_order;
            accounted = omega (arith, length-remove_pending id l.queue p e);
            handed_out = v.handed_out;
            recorded = omega (
              arith,
              length-concat l.metrics
                  (record { outcome = outcome_timeout; duration_ms = now - p.enqueued_at }),
            );
            waited = v.waited;
          })
  ]
