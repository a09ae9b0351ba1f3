-- ===== src/Admission/Examples.antt =====
-- A limiter with one slot and two places to wait (src/concurrency/in-memory-concurrency-limiter.ts), run by hand.
use model_mux.Prelude.{ℕ, ◌+◌, ◌≤◌, ◌<◌, ◌≡◌, refl, ◌++◌, List, [], ◌∷◌, false, length}
use model_mux.Prelude.Int.{pos}
use model_mux.Admission.{
  Limiter, PendingAcquire, ConcurrencyPermit, Event, acquires, releases, times_out, new, init,
  find_permit, release, run,
}
use model_mux.Admission.Order.{Rising, holders, waiters, held}
use model_mux.Admission.Waiting.{run_bounds, admission_order}
use model_mux.Admission.Releases.{release_once}
use model_mux.Admission.Answers.{served_in_turn}

abbrev empty : Limiter
empty = record {
  options = record { max_concurrent = 1; max_queue_size = 2; wait_timeout_ms = 50 };
  active = 0;
  queue = [];
  admitted = 0;
  rejected = 0;
  timed_out = 0;
  aborted = 0;
  total_wait_time_ms = 0;
  max_wait_time_ms = 0;
  permits = [];
  next_id = 0;
  metrics = [];
}

-- Call 0 is admitted, 1 and 2 wait, 3 is turned away, and 1 times out.
abbrev rush : List (ℕ × Event)
rush =
    (1, acquires false)
    ∷ (2, acquires false)
    ∷ (3, acquires false)
    ∷ (4, acquires false)
    ∷ (52, times_out 1)
    ∷ []

abbrev first_permit : ConcurrencyPermit
first_permit = record {
  id = 0;
  wait_time_ms = 0;
  active_at_admission = 1;
  queued_at_admission = 0;
  released = false;
}

abbrev second : PendingAcquire
second = record { id = 1; enqueued_at = 2 }

-- Call 0 holds the slot, and call 1 waits.
abbrev busy : Limiter
busy = record empty {
  active = 1;
  admitted = 1;
  queue = second ∷ [];
  permits = first_permit ∷ [];
  next_id = 2;
}

run_bounds_example :
    let s = run empty rush in
    (s.active ≡ held s.permits)
    × (held s.permits ≤ 1)
    × (length s.queue ≤ 2)
    × (0 < length s.queue → held s.permits ≡ 1)
    × (s.next_id ≡ length s.permits + s.rejected + s.timed_out + s.aborted + length s.queue)
unfolding new init
run_bounds_example = run_bounds (pos 1) (pos 2) (pos 50) empty rush refl

admission_order_example :
    let s = run empty rush in Rising 0 s.next_id (holders s.permits ++ waiters s.queue)
unfolding new init
admission_order_example = admission_order (pos 1) (pos 2) (pos 50) empty rush refl

served_in_turn_example :
    let s = run busy ((9, releases 0) ∷ []) in
    (s.queue ≡ [])
    × ((ps : List ConcurrencyPermit) × (p : ConcurrencyPermit) × (s.permits ≡ ps ++ p ∷ [])
        × (p.id ≡ 1)
        × (p.released ≡ false))
unfolding find_permit
served_in_turn_example =
    served_in_turn busy [] second [] ((9, releases 0) ∷ []) refl refl
      (0, first_permit, refl, refl, refl, tt)

release_once_example :
    let s = run (release 0 9 busy) ((10, acquires false) ∷ []) in release 0 11 s ≡ s
unfolding find_permit
release_once_example = release_once 0 9 11 busy first_permit ((10, acquires false) ∷ []) refl
