-- ===== src/Admission/Runs.antt =====
-- The invariant of the limiter (src/concurrency/in-memory-concurrency-limiter.ts) after a release, and after any
-- history of events.
use model_mux.Prelude.{
  ℕ, ◌+◌, ◌-◌, ◌≤◌, ◌<◌, ◌≡◌, refl, ap, subst, inl, inr, List, [], ◌∷◌, ◌++◌, some, false, arith,
  length, Bool-cases, Option-cases,
}
use model_mux.Admission.{
  Limiter, PendingAcquire, ConcurrencyPermit, Event, acquires, releases, aborts, times_out,
  find_permit, mark_released, release_slot, release, step, run,
}
use model_mux.Admission.Order.{
  Rising, holders, waiters, held, total_wait, holders-mark_released, total_wait-mark_released,
  length-mark_released, held-mark_released,
}
use model_mux.Admission.Invariant.{Inv, admit-Inv, acquire-Inv, on_abort-Inv, on_timeout-Inv}

-- The permit of `id` has just been marked, and its slot is still counted.
record Returning (l : Limiter) : Type 0 where
  positive : 0 < l.max_concurrent
  capped : l.active ≤ l.max_concurrent
  held_active : held l.permits + 1 ≡ l.active
  queue_capped : length l.queue ≤ l.max_queue_size
  busy : 0 < length l.queue → l.active ≡ l.max_concurrent
  in_order : Rising 0 l.next_id (holders l.permits ++ waiters l.queue)
  accounted : l.next_id ≡ l.admitted + l.rejected + l.timed_out + l.aborted + length l.queue
  handed_out : l.admitted ≡ length l.permits
  recorded : length l.metrics ≡ l.admitted + l.rejected + l.timed_out + l.aborted
  waited : l.total_wait_time_ms ≡ total_wait l.permits

release_slot-Inv :
    (now : ℕ) (l : Limiter) (q : List PendingAcquire)
    → l.queue ≡ q
    → Returning l
    → Inv (release_slot now l)
unfolding release_slot
release_slot-Inv now l [] e v =
    rw (e, release_slot)
      (record {
        positive = v.positive;
        capped = omega (arith, v.capped);
        held_active = omega (arith, v.held_active);
        queue_capped = v.queue_capped;
        busy = λ h. absurd (omega (arith, ap length e));
        in_order = v.in_order;
        accounted = v.accounted;
        handed_out = v.handed_out;
        recorded = v.recorded;
        waited = v.waited;
      })
release_slot-Inv now l (next ∷ rest) e v =
    rw (e, release_slot)
      (admit-Inv next.id (now - next.enqueued_at) (record l { queue = rest })
        (record {
          positive = v.positive;
          capped = v.capped;
          held_active = v.held_active;
          queue_capped = omega (arith, v.queue_capped, ap length e);
          busy = λ h. v.busy (omega (arith, ap length e));
          in_order = subst (λ q. Rising 0 l.next_id (holders l.permits ++ waiters q)) e v.in_order;
          accounted = omega (arith, v.accounted, ap length e);
          handed_out = v.handed_out;
          recorded = v.recorded;
          waited = v.waited;
        }))

marked-Returning :
    (id : ℕ) (l : Limiter) (p : ConcurrencyPermit)
    → find_permit id l.permits ≡ some p
    → p.released ≡ false
    → Inv l
    → Returning (record l { permits = mark_released id l.permits })
marked-Returning id l p e h v = record {
  positive = v.positive;
  capped = v.capped;
  held_active = omega (arith, v.held_active, held-mark_released id l.permits p e h);
  queue_capped = v.queue_capped;
  busy = v.busy;
  in_order = rw (holders-mark_released id l.permits) v.in_order;
  accounted = v.accounted;
  handed_out = omega (arith, v.handed_out, length-mark_released id l.permits);
  recorded = v.recorded;
  waited = omega (arith, v.waited, total_wait-mark_released id l.permits);
}

release-Inv : (id now : ℕ) (l : Limiter) → Inv l → Inv (release id now l)
unfolding release
release-Inv id now l v = elim (Option-cases (find_permit id l.permits)) [
  | inl e ↦ rw (e, release) v
  | inr (p, e) ↦
      rw (e, release)
        (elim (Bool-cases p.released) [
          | inl h ↦ rw h v
          | inr h ↦ rw h (
              release_slot-Inv now (record l { permits = mark_released id l.permits }) l.queue refl
                (marked-Returning id l p e h v))
        ])
]

pub step-Inv : (l : Limiter) (e : ℕ × Event) → Inv l → Inv (step l e)
unfolding step
step-Inv l (now, acquires is_aborted) v = acquire-Inv l v is_aborted now
step-Inv l (now, releases id) v = release-Inv id now l v
step-Inv l (now, aborts id) v = on_abort-Inv l v id now
step-Inv l (now, times_out id) v = on_timeout-Inv l v id now

pub run-Inv : (l : Limiter) (es : List (ℕ × Event)) → Inv l → Inv (run l es)
unfolding run
run-Inv l [] v = v
run-Inv l (e ∷ es) v = run-Inv (step l e) es (step-Inv l e v)
