-- ===== src/Admission.antt =====
-- src/concurrency/in-memory-concurrency-limiter.ts and concurrency-limiter.ts: the bounded FIFO
-- semaphore in front of the providers.
--
-- The class instance is the record `Limiter`; a method returns the new record and its result. Every
-- call of `acquire` has a number, which stands for the identity of its `PendingAcquire` and of its
-- permit. A permit's closure variable `released` is a field of the permit, and `permits` is the heap
-- of all permits that were handed out. Clock readings are milliseconds in ℕ: `performance.now()` does
-- not run backwards, so `now - enqueued_at` loses nothing where ℕ stops at 0. The timer
-- and the abort listener of a waiter may fire at any time, also late: `on_timeout` and `on_abort` look
-- for the waiter first, as the callbacks do. `recordMetric` appends to `metrics`.
pub mod Options
pub mod Order
pub mod Invariant
pub mod Runs
pub mod Waiting
pub mod Answers
pub mod Releases
mod Examples
mod State
pub use State.*
use model_mux.Prelude.{
  ℕ, suc, ◌+◌, ◌-◌, max, Bool, true, false, List, [], ◌∷◌, ◌++◌, Option, none, some, ltb, leb, ◌==◌,
  if◌then◌else◌, length, not, ◌||◌,
}
use model_mux.Prelude.Int.{ℤ, pos, negsuc, pos_part}

is_negative : ℤ → Bool
is_negative (pos n) = false
is_negative (negsuc n) = true

-- `validateOptions`; an option that is no integer has no value here.
pub validate_options : ℤ → ℤ → ℤ → Option InvalidOption
unfolding is_negative
validate_options max_concurrent max_queue_size wait_timeout_ms =
    if ltb (pos_part max_concurrent) 1
    then some bad_max_concurrent
    else if is_negative max_queue_size
    then some bad_max_queue_size
    else if ltb (pos_part wait_timeout_ms) 1
    then some bad_wait_timeout
    else none

-- The constructor, past its validation.
pub init : LimiterOptions → Limiter
init o = record {
  options = o;
  active = 0;
  queue = [];
  admitted = 0;
  rejected = 0;
  timed_out = 0;
  aborted = 0;
  total_wait_time_ms = 0;
  max_wait_time_ms = 0;
  permits = [];
  next_id = 0;
  metrics = [];
}

pub data Built : Type 0 where
  built : Limiter → Built
  invalid : InvalidOption → Built

pub new : ℤ → ℤ → ℤ → Built
unfolding validate_options init
new max_concurrent max_queue_size wait_timeout_ms =
    elim (validate_options max_concurrent max_queue_size wait_timeout_ms) [
      | some e ↦ invalid e
      | none ↦ built (
          init (record {
            max_concurrent = pos_part max_concurrent;
            max_queue_size = pos_part max_queue_size;
            wait_timeout_ms = pos_part wait_timeout_ms;
          }))
    ]

record_metric : AdmissionOutcome → ℕ → Limiter → Limiter
record_metric o ms l = record l {
  metrics = l.metrics ++ record { outcome = o; duration_ms = ms } ∷ [];
}

-- `admit`, for the acquire call `id`: the permit, and the limiter that has handed it out.
pub admit : ℕ → ℕ → Limiter → ConcurrencyPermit × Limiter
unfolding record_metric
admit id wait_time_ms l =
    let permit : ConcurrencyPermit = record {
      id = id;
      wait_time_ms = wait_time_ms;
      active_at_admission = l.active;
      queued_at_admission = length l.queue;
      released = false;
    } in
    (
      permit,
      record (record_metric outcome_admitted wait_time_ms l) {
        admitted = l.admitted + 1;
        total_wait_time_ms = l.total_wait_time_ms + wait_time_ms;
        max_wait_time_ms = max l.max_wait_time_ms wait_time_ms;
        permits = l.permits ++ permit ∷ [];
      },
    )

-- What `acquire` has done when it first returns to its caller: thrown, resolved, or left pending.
pub data Acquired : Type 0 where
  threw : LimiterError → Acquired
  granted : ConcurrencyPermit → Acquired
  waiting : ℕ → Acquired

pub acquire : Bool → ℕ → Limiter → Acquired × Limiter
unfolding admit record_metric
acquire is_aborted now l =
    let id = l.next_id in
    let l' = record l { next_id = l.next_id + 1 } in
    if is_aborted
    then (
      threw request_aborted,
      record_metric outcome_cancelled 0 (record l' { aborted = l.aborted + 1 }),
    )
    else if ltb l.active l.max_concurrent
    then (let (permit, l'') = admit id 0 (record l' { active = l.active + 1 }) in
        (granted permit, l''))
    else if leb l.max_queue_size (length l.queue)
    then (
      threw (queue_full l.max_concurrent l.max_queue_size),
      record_metric outcome_queue_full 0 (record l' { rejected = l.rejected + 1 }),
    )
    else (waiting id, record l' { queue = l.queue ++ record { id = id; enqueued_at = now } ∷ [] })

-- `remove()`: the waiter, if it is still queued, and the queue without it.
pub find_pending : ℕ → List PendingAcquire → Option PendingAcquire
find_pending id [] = none
find_pending id (p ∷ ps) = if p.id == id then some p else find_pending id ps

pub remove_pending : ℕ → List PendingAcquire → List PendingAcquire
remove_pending id [] = []
remove_pending id (p ∷ ps) = if p.id == id then ps else p ∷ remove_pending id ps

-- The abort listener of the acquire call `id`: what the waiter is rejected with, if it still waits.
pub on_abort : ℕ → ℕ → Limiter → Option LimiterError × Limiter
unfolding record_metric
on_abort id now l = elim (find_pending id l.queue) [
  | none ↦ (none, l)
  | some p ↦ (
    some request_aborted,
    record_metric outcome_cancelled (now - p.enqueued_at)
        (record l { queue = remove_pending id l.queue; aborted = l.aborted + 1 }),
  )
]

-- The timer of the acquire call `id`.
pub on_timeout : ℕ → ℕ → Limiter → Option LimiterError × Limiter
unfolding record_metric
on_timeout id now l = elim (find_pending id l.queue) [
  | none ↦ (none, l)
  | some p ↦ (
    some (wait_timeout l.wait_timeout_ms),
    record_metric outcome_timeout (now - p.enqueued_at)
        (record l { queue = remove_pending id l.queue; timed_out = l.timed_out + 1 }),
  )
]

-- The private `release`. JS subtracts below 0 where ℕ stops; `active` is positive whenever a permit is
-- out (`Inv` in Admission/Invariant.antt).
pub release_slot : ℕ → Limiter → Limiter
unfolding admit
release_slot now l = elim l.queue [
  | [] ↦ record l { active = l.active - 1 }
  | next ∷ rest ↦ (admit next.id (now - next.enqueued_at) (record l { queue = rest })).1
]

pub find_permit : ℕ → List ConcurrencyPermit → Option ConcurrencyPermit
find_permit id [] = none
find_permit id (p ∷ ps) = if p.id == id then some p else find_permit id ps

pub mark_released : ℕ → List ConcurrencyPermit → List ConcurrencyPermit
mark_released id [] = []
mark_released id (p ∷ ps) =
    if p.id == id then record p { released = true } ∷ ps else p ∷ mark_released id ps

release_found : Option ConcurrencyPermit → ℕ → ℕ → Limiter → Limiter
unfolding release_slot
release_found none id now l = l
release_found (some p) id now l =
    if p.released then l else release_slot now (record l { permits = mark_released id l.permits })

-- `permit.release()` on the permit of the acquire call `id`.
pub release : ℕ → ℕ → Limiter → Limiter
unfolding release_found
release id now l = release_found (find_permit id l.permits) id now l

pub record ConcurrencySnapshot : Type 0 where
  pub active : ℕ
  pub queued : ℕ
  pub admitted : ℕ
  pub rejected : ℕ
  pub timed_out : ℕ
  pub aborted : ℕ
  pub total_wait_time_ms : ℕ
  pub max_wait_time_ms : ℕ

pub snapshot : Limiter → ConcurrencySnapshot
snapshot l = record {
  active = l.active;
  queued = length l.queue;
  admitted = l.admitted;
  rejected = l.rejected;
  timed_out = l.timed_out;
  aborted = l.aborted;
  total_wait_time_ms = l.total_wait_time_ms;
  max_wait_time_ms = l.max_wait_time_ms;
}

-- What may happen next: a call of `acquire` (with its signal aborted already or not), a call of a
-- permit's `release`, or a callback.
pub data Event : Type 0 where
  acquires : Bool → Event
  releases aborts times_out : ℕ → Event

pub step : Limiter → ℕ × Event → Limiter
step l (now, acquires is_aborted) = (acquire is_aborted now l).1
step l (now, releases id) = release id now l
step l (now, aborts id) = (on_abort id now l).1
step l (now, times_out id) = (on_timeout id now l).1

pub run : Limiter → List (ℕ × Event) → Limiter
run l [] = l
run l (e ∷ es) = run (step l e) es
