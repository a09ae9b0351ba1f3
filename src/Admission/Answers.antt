-- ===== src/Admission/Answers.antt =====
-- Each waiting call of the limiter (src/concurrency/in-memory-concurrency-limiter.ts) gets one answer, and a
-- waiter is served once those before it are.
use model_mux.Prelude.{
  ℕ, ◌+◌, ◌-◌, ◌<◌, ◌≡◌, refl, ◌≢◌, List, [], ◌∷◌, ◌++◌, none, some, false, arith, length,
}
use model_mux.Admission.{
  Limiter, PendingAcquire, ConcurrencyPermit, Event, acquires, releases, aborts, times_out, acquire,
  on_abort, on_timeout, find_pending, find_permit, remove_pending, release_slot, mark_released,
  release, step, run,
}
use model_mux.Admission.Waiting.{release_hands_over}

find_permit_concat :
    (id : ℕ) (ps : List ConcurrencyPermit) (p : ConcurrencyPermit)
    → find_permit id ps ≡ none
    → p.id ≢ id
    → find_permit id (ps ++ p ∷ []) ≡ none
unfolding find_permit
find_permit_concat id [] p h n = ground arith
find_permit_concat id (q ∷ ps) p h n = ground (arith, find_permit_concat id ps p)

find_permit-mark_released :
    (id j : ℕ) (ps : List ConcurrencyPermit)
    → find_permit id ps ≡ none
    → find_permit id (mark_released j ps) ≡ none
unfolding find_permit mark_released
find_permit-mark_released id j [] h = refl
find_permit-mark_released id j (q ∷ ps) h = ground (arith, find_permit-mark_released id j ps)

find_pending_concat :
    (id : ℕ) (ps : List PendingAcquire) (p : PendingAcquire)
    → find_pending id ps ≡ none
    → p.id ≢ id
    → find_pending id (ps ++ p ∷ []) ≡ none
unfolding find_pending
find_pending_concat id [] p h n = ground arith
find_pending_concat id (q ∷ ps) p h n = ground (arith, find_pending_concat id ps p)

find_pending-remove_pending :
    (id j : ℕ) (ps : List PendingAcquire)
    → find_pending id ps ≡ none
    → find_pending id (remove_pending j ps) ≡ none
unfolding find_pending remove_pending
find_pending-remove_pending id j [] h = refl
find_pending-remove_pending id j (q ∷ ps) h = ground (arith, find_pending-remove_pending id j ps)

-- The call `id` was made and does not wait.
record Answered (id : ℕ) (l : Limiter) : Type 0 where
  made : id < l.next_id
  not_waiting : find_pending id l.queue ≡ none

-- What an event may do to a call that was answered: nothing.
abbrev StaysAnswered : ℕ → Limiter → Limiter → Type 0
StaysAnswered id l s =
    Answered id s × (find_permit id l.permits ≡ none → find_permit id s.permits ≡ none)

release_slot-StaysAnswered :
    (id now : ℕ) (l : Limiter) → Answered id l → StaysAnswered id l (release_slot now l)
unfolding release_slot find_pending
release_slot-StaysAnswered id now l h = grind (arith, find_permit_concat)

Answered-step :
    (id : ℕ) (l : Limiter) (e : ℕ × Event) → Answered id l → StaysAnswered id l (step l e)
unfolding step acquire release on_abort on_timeout
Answered-step id l (now, acquires is_aborted) h =
    grind (arith, find_permit_concat, find_pending_concat)
Answered-step id l (now, releases j) h =
    let l' = record l { permits = mark_released j l.permits } in
    let slot =
      release_slot-StaysAnswered id now l'
        (record { made = h.made; not_waiting = h.not_waiting }) in
    ground (arith, slot, find_permit-mark_released id j l.permits)
Answered-step id l (now, aborts j) h = ground (arith, find_pending-remove_pending id j l.queue)
Answered-step id l (now, times_out j) h = ground (arith, find_pending-remove_pending id j l.queue)

Answered-run :
    (id : ℕ) (l : Limiter) (es : List (ℕ × Event)) → Answered id l → StaysAnswered id l (run l es)
unfolding run
Answered-run id l [] h = (h, λ e. e)
Answered-run id l (e ∷ es) h =
    let (a, f) = Answered-step id l e h in
    let (a', f') = Answered-run id (step l e) es a in (a', λ q. f' (f q))

-- A call that was made and no longer waits has had its only answer: whatever happens afterwards, its
-- timer and its abort listener do nothing, and if it was turned away it is never given a permit.
pub answered_once :
    (id now : ℕ) (l : Limiter) (es : List (ℕ × Event))
    → id < l.next_id
    → find_pending id l.queue ≡ none
    → let s = run l es in
      (on_abort id now s ≡ (none, s))
      × (on_timeout id now s ≡ (none, s))
      × (find_permit id l.permits ≡ none → find_permit id s.permits ≡ none)
unfolding on_abort on_timeout
answered_once id now l es m w =
    let (a, f) = Answered-run id l es (record { made = m; not_waiting = w }) in
    (ground (arith, a.not_waiting), ground (arith, a.not_waiting), f)

-- Each event is a first release of a permit that is out.
abbrev pub AreReleases : Limiter → List (ℕ × Event) → Type 0
AreReleases l [] = Unit {0}
AreReleases l ((now, e) ∷ es) =
    (id : ℕ) × (p : ConcurrencyPermit) × (e ≡ releases id)
    × (find_permit id l.permits ≡ some p)
    × (p.released ≡ false)
    × AreReleases (step l (now, e)) es

-- A first release, as an event: the waiter `next` gets the permit `permit_of`.
abbrev permit_of : ℕ → Limiter → PendingAcquire → List PendingAcquire → ConcurrencyPermit
permit_of now l next rest = record {
  id = next.id;
  wait_time_ms = now - next.enqueued_at;
  active_at_admission = l.active;
  queued_at_admission = length rest;
  released = false;
}

step_serves :
    (now id : ℕ) (l : Limiter) (e : Event) (p : ConcurrencyPermit) (next : PendingAcquire)
    (rest : List PendingAcquire)
    → e ≡ releases id
    → find_permit id l.permits ≡ some p
    → p.released ≡ false
    → l.queue ≡ next ∷ rest
    → ((step l (now, e)).queue ≡ rest)
      × ((step l (now, e)).permits ≡ mark_released id l.permits ++ permit_of now l next rest ∷ [])
unfolding step
step_serves now id l e p next rest k f u q =
    let r = (release_hands_over id now l p f u).0 next rest q in rw k (r.1, r.2)

-- A waiter with `k` calls before it is served by the release number `k + 1`: it then holds the newest
-- permit, and exactly those behind it still wait.
pub served_in_turn :
    (l : Limiter) (ahead : List PendingAcquire) (w : PendingAcquire) (behind : List PendingAcquire)
    (es : List (ℕ × Event))
    → l.queue ≡ ahead ++ w ∷ behind
    → length es ≡ length ahead + 1
    → AreReleases l es
    → let s = run l es in
      (s.queue ≡ behind)
      × ((ps : List ConcurrencyPermit) × (p : ConcurrencyPermit) × (s.permits ≡ ps ++ p ∷ [])
          × (p.id ≡ w.id)
          × (p.released ≡ false))
unfolding run
served_in_turn l ahead w behind [] q n r = absurd (omega arith)
served_in_turn l [] w behind ((now, e) ∷ []) q n (id, p, k, f, u, _) =
    let r = step_serves now id l e p w behind k f u q in
    (r.0, (mark_released id l.permits, permit_of now l w behind, r.1, refl, refl))
served_in_turn l [] w behind (e ∷ e' ∷ es) q n r = absurd (omega arith)
served_in_turn l (x ∷ ahead) w behind ((now, e) ∷ es) q n (id, p, k, f, u, r) =
    let s = step_serves now id l e p x (ahead ++ w ∷ behind) k f u q in
    served_in_turn (step l (now, e)) ahead w behind es s.0 (omega arith) r
