-- ===== src/Admission/Waiting.antt =====
-- What the limiter (src/concurrency/in-memory-concurrency-limiter.ts) promises its callers: the bounds,
-- the order of service, and that each call is answered once.
use model_mux.Prelude.{
  ℕ, ◌+◌, ◌-◌, ◌≤◌, ◌<◌, ◌≡◌, refl, ◌∙◌, List, [], ◌∷◌, ◌++◌, some, false, arith, length,
}
use model_mux.Prelude.Int.{ℤ}
use model_mux.Admission.{
  Limiter, PendingAcquire, ConcurrencyPermit, Event, acquires, releases, aborts, times_out, new,
  built, init, admit, acquire, on_abort, on_timeout, find_permit, mark_released, release, step, run,
}
use model_mux.Admission.Order.{Rising, holders, waiters, held}
use model_mux.Admission.Invariant.{Inv}
use model_mux.Admission.Runs.{run-Inv}

new-Inv : (a b c : ℤ) {l : Limiter} → new a b c ≡ built l → Inv l
unfolding new init
new-Inv a b c e = ground arith

options-step : (l : Limiter) (e : ℕ × Event) → (step l e).options ≡ l.options
unfolding step acquire release on_abort on_timeout
options-step l (now, acquires is_aborted) = ground arith
options-step l (now, releases id) = ground arith
options-step l (now, aborts id) = ground arith
options-step l (now, times_out id) = ground arith

options-run : (l : Limiter) (es : List (ℕ × Event)) → (run l es).options ≡ l.options
unfolding run
options-run l [] = refl
options-run l (e ∷ es) = options-run (step l e) es ∙ options-step l e

-- After any history of a limiter that the constructor made: at most `max_concurrent` permits are out
-- and `active` counts them; at most `max_queue_size` calls wait, and none waits while a slot is
-- free; and every call was admitted, rejected, timed out or aborted, or still waits.
pub run_bounds :
    (a b c : ℤ) (l : Limiter) (es : List (ℕ × Event))
    → new a b c ≡ built l
    → let s = run l es in
      (s.active ≡ held s.permits)
      × (held s.permits ≤ l.max_concurrent)
      × (length s.queue ≤ l.max_queue_size)
      × (0 < length s.queue → held s.permits ≡ l.max_concurrent)
      × (s.next_id ≡ length s.permits + s.rejected + s.timed_out + s.aborted + length s.queue)
run_bounds a b c l es e =
    let v = run-Inv l es (new-Inv a b c e) in
    ground (
      arith,
      v.held_active,
      v.capped,
      v.queue_capped,
      v.busy,
      v.accounted,
      v.handed_out,
      options-run l es,
    )

-- Calls are numbered in the order of their arrival. Those that were handed a permit, in the order of
-- the handing out, followed by those that wait, oldest first, rise strictly: no call overtakes
-- another, and none is admitted twice or waits after its admission.
pub admission_order :
    (a b c : ℤ) (l : Limiter) (es : List (ℕ × Event))
    → new a b c ≡ built l
    → let s = run l es in Rising 0 s.next_id (holders s.permits ++ waiters s.queue)
admission_order a b c l es e = (run-Inv l es (new-Inv a b c e)).in_order

-- A released slot goes to the oldest waiter in the same step: the slot stays occupied, and the permit
-- records how long that call has waited. With nobody waiting the slot becomes free.
pub release_hands_over :
    (id now : ℕ) (l : Limiter) (p : ConcurrencyPermit)
    → find_permit id l.permits ≡ some p
    → p.released ≡ false
    → ((next : PendingAcquire) (rest : List PendingAcquire)
        → l.queue ≡ next ∷ rest
        → let s = release id now l in
          (s.active ≡ l.active)
          × (s.queue ≡ rest)
          × (s.permits
              ≡ mark_released id l.permits
                ++ record {
                  id = next.id;
                  wait_time_ms = now - next.enqueued_at;
                  active_at_admission = l.active;
                  queued_at_admission = length rest;
                  released = false;
                }
                  ∷ []))
      × (l.queue ≡ []
          → release id now l
            ≡ record l { active = l.active - 1; permits = mark_released id l.permits })
unfolding release admit
release_hands_over id now l p e h = (λ next rest q. ground arith, λ q. ground arith)
