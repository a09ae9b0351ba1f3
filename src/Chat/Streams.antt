-- ===== src/Chat/Streams.antt =====
-- The order in which the stream handler of src/routes/chat.ts writes to its client, and what its parts do in it.
use model_mux.Prelude.{
  ℕ, ◌≡◌, refl, sym, ◌∙◌, inl, inr, ◌⊎◌, Bool, true, false, String, str_eq, Option, none, some,
  ◌==◌, if◌then◌else◌, Bool-cases,
}
use model_mux.Errors.{Error}
use model_mux.Routing.{ChatRequest}
use model_mux.Handling.Triples.{
  Triple, bind-Triple, catching-Triple, weaker-Triple, either-Triple, pure-Triple, raise-Triple,
  modify-Triple,
}
use model_mux.Chat.{
  Gateway, Session, Deltas, resolves, rejects, waits, delta, noted, SseEvent, delta_event,
  done_event, error_event, Effect, called, sent_head, ended, destroyed, acquired, released, wrote,
  measured_stream, stream_completed, stream_failed, stream_cancelled,
}
use model_mux.Chat.Handlers.{is_abort, start, write_sse, on_delta, play, call_stream}
use model_mux.Chat.Orders.{follow, follow-noted, throw_if_cancelled-Triple}

-- Where a stream stands; the number is the permit that is held. `gone`: its socket is destroyed. `silent` and
-- `over`: its outcome is measured, before or after an answer was begun.
pub data StreamStage : Type 0 where
  waiting : StreamStage
  admitted streaming begun said_done said_error completed cut_short : ℕ → StreamStage
  gone silent over : Option ℕ → StreamStage

-- The order that is allowed.
abbrev pub next_stream : StreamStage → Effect → Option StreamStage
next_stream waiting (acquired id) = some (admitted id)
next_stream waiting destroyed = some (gone none)
next_stream waiting (measured_stream stream_failed) = some (silent none)
next_stream (admitted id) called = some (streaming id)
next_stream (admitted id) destroyed = some (gone (some id))
next_stream (admitted id) (measured_stream stream_failed) = some (silent (some id))
next_stream (streaming id) sent_head = some (begun id)
next_stream (streaming id) destroyed = some (gone (some id))
next_stream (streaming id) (measured_stream stream_failed) = some (silent (some id))
next_stream (begun id) (wrote (delta_event _)) = some (begun id)
next_stream (begun id) (wrote done_event) = some (said_done id)
next_stream (begun id) (wrote (error_event _)) = some (said_error id)
next_stream (begun id) destroyed = some (gone (some id))
next_stream (said_done id) ended = some (completed id)
next_stream (said_done id) destroyed = some (gone (some id))
next_stream (said_error id) ended = some (cut_short id)
next_stream (said_error id) destroyed = some (gone (some id))
next_stream (completed id) (measured_stream stream_completed) = some (over (some id))
next_stream (cut_short id) (measured_stream stream_failed) = some (over (some id))
next_stream (gone p) (measured_stream stream_cancelled) = some (over p)
next_stream (gone p) (measured_stream stream_failed) = some (over p)
next_stream (silent (some id)) (released p) = if p == id then some (silent none) else none
next_stream (over (some id)) (released p) = if p == id then some (over none) else none
next_stream _ _ = none

abbrev pub held_stream : StreamStage → Option ℕ
held_stream waiting = none
held_stream (gone p) = p
held_stream (silent p) = p
held_stream (over p) = p
held_stream (admitted id) = some id
held_stream (streaming id) = some id
held_stream (begun id) = some id
held_stream (said_done id) = some id
held_stream (said_error id) = some id
held_stream (completed id) = some id
held_stream (cut_short id) = some id

module _ {W : Type 0} where
  -- A session that has come to a stage, with the head sent or not.
  abbrev pub Stands : Bool → StreamStage → Session W → Type 0
  Stands head a s =
      (follow next_stream waiting s.trace ≡ some a)
      × (s.permit ≡ held_stream a)
      × (s.started ≡ head)
      × (s.outcome ≡ stream_failed)

  pub noted-Stands :
      (head : Bool) (a b : StreamStage) (e : Effect) (s : Session W)
      → Stands head a s
      → next_stream a e ≡ some b
      → held_stream b ≡ held_stream a
      → Stands head b (noted e s)
  noted-Stands head a b e s h n same =
      (follow-noted next_stream waiting a b s.trace e h.0 n, h.1 ∙ sym same, h.2, h.3)

  abbrev pub Running : Session W → Type 0
  Running s = (id : ℕ) × (Stands false (streaming id) s ⊎ Stands true (begun id) s)

  abbrev pub Spoken : Session W → Type 0
  Spoken s = (id : ℕ) × Stands true (begun id) s

  abbrev pub Admitted : Session W → Type 0
  Admitted s = (id : ℕ) × Stands false (admitted id) s

  abbrev pub Waiting : Session W → Type 0
  Waiting s = Stands false waiting s

  -- What an error finds: no head sent, or an answer that was begun, or, for an abort, one that was ended.
  abbrev pub Fault : Error → Session W → Type 0
  Fault e s =
      Waiting s
      ⊎ (Admitted s
          ⊎ (Running s ⊎ (((id : ℕ) × Stands true (said_done id) s) × (is_abort e ≡ true))))

  module _ (g : Gateway W) where
    head_sent :
        (s : Session W)
        → Running s
        → Spoken (if s.started then s else noted sent_head (record s { started = true }))
    head_sent s (id, inl h) = rw (h.2) (
      id,
      (
        follow-noted next_stream waiting (streaming id) (begun id) s.trace sent_head h.0 refl,
        h.1,
        refl,
        h.3,
      ),
    )
    head_sent s (id, inr h) = rw (h.2) (id, (h.0, h.1, refl, h.3))

    pub start-Triple :
        Triple Running (start g) (λ _. Spoken) (λ e s. Running s × (is_abort e ≡ true))
    unfolding start
    start-Triple =
        bind-Triple
          (throw_if_cancelled-Triple g Running (λ e s. Running s × (is_abort e ≡ true))
            (λ e s h a. (h, a)))
          (λ _. modify-Triple head_sent)

    pub write_sse-Triple :
        (event : SseEvent) (id : ℕ) (b : StreamStage)
        → next_stream (begun id) (wrote event) ≡ some b
        → held_stream b ≡ some id
        → Triple
            (Stands true (begun id))
            (write_sse g event)
            (λ _. Stands true b)
            (λ e s. (is_abort e ≡ true) × (Stands true (begun id) s ⊎ Stands true b s))
    unfolding write_sse
    write_sse-Triple event id b n same =
        bind-Triple
          (throw_if_cancelled-Triple g (Stands true (begun id))
            (λ e s. (is_abort e ≡ true) × (Stands true (begun id) s ⊎ Stands true b s))
            (λ e s h a. (a, inl h)))
          (λ _. record {
            runs = λ s h. elim (Bool-cases (g.is_destroyed s.world)) [
              | inl d ↦ rw (d) (refl, inl h)
              | inr d ↦
                  rw (d)
                    let h' =
                        noted-Stands true (begun id) b (wrote event)
                          (record s { world = (g.write event s.world).1 }) h n same in
                      elim (Bool-cases (g.write event s.world).0) [
                        | inl o ↦ rw (o) h'
                        | inr o ↦ rw (o) (refl, inr h')
                      ]
            ];
          })

    pub on_delta-Triple :
        (content : String) → Triple Running (on_delta g content) (λ _. Running) (λ _. Running)
    unfolding on_delta
    on_delta-Triple content =
        either-Triple (str_eq content "") (λ _. pure-Triple tt (λ s h. h))
          (λ _.
            bind-Triple (weaker-Triple start-Triple (λ s h. h) (λ _ s h. h) (λ _ s h. h.0)) (λ _.
              catching-Triple {R = λ _. Spoken}
                (record {
                  runs = λ s (id, h).
                      (weaker-Triple
                          (write_sse-Triple (delta_event content) id (begun id) refl refl)
                          (λ s h. h) (λ _ s h. (id, inr h))
                          (λ e s h. elim h.1 [ inl x ↦ (id, x) | inr x ↦ (id, x) ])).runs
                        s h;
                })
                (λ e.
                  bind-Triple {Q = λ _. Spoken} (modify-Triple (λ s h. h))
                    (λ _. raise-Triple e (λ s (id, h). (id, inr h))))))

    play-Triple : (d : Deltas W) → Triple Running (play g d) (λ _. Running) (λ _. Running)
    unfolding play
    play-Triple resolves = pure-Triple tt (λ s h. h)
    play-Triple (rejects e) = raise-Triple e (λ s h. h)
    play-Triple (waits f rest) =
        bind-Triple {Q = λ _. Running} (modify-Triple (λ s h. h)) (λ _. play-Triple rest)
    play-Triple (delta content on_error rest) =
        bind-Triple
          (catching-Triple (on_delta-Triple content) (λ e. raise-Triple (on_error e) (λ s h. h)))
          (λ _. play-Triple rest)

    pub call_stream-Triple :
        (script : Option (ChatRequest → W → Deltas W)) (request : ChatRequest)
        → Triple Admitted (call_stream g script request) (λ _. Running) Fault
    unfolding call_stream
    call_stream-Triple none request = raise-Triple _ (λ s h. inr (inl h))
    call_stream-Triple (some script) request =
        bind-Triple {Q = λ _. Running}
          (modify-Triple (λ s (id, h).
            (id, inl (noted-Stands false (admitted id) (streaming id) called s h refl refl))))
          (λ _. record {
            runs = λ s h.
                (weaker-Triple (play-Triple (script request s.world)) (λ s h. h) (λ _ s h. h)
                    (λ _ s h. inr (inr (inl h)))).runs
                  s h;
          })
