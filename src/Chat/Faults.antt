-- ===== src/Chat/Faults.antt =====
-- How the parts of the stream handler of src/routes/chat.ts end, errors included.
use model_mux.Prelude.{
  ℕ, ◌≡◌, refl, inl, inr, ◌⊎◌, Bool, true, false, ◌||◌, not, String, some, arith,
}
use model_mux.Errors.{Error}
use model_mux.Routing.{ChatRequest}
use model_mux.Handling.{modify, ◌>>◌, catching}
use model_mux.Handling.Triples.{
  Ends-if, Triple, bind-Triple, catching-Triple, weaker-Triple, modify-Triple,
}
use model_mux.Chat.{
  Gateway, Session, noted, take_permit, done_event, error_event, ended, destroyed, acquired,
  measured_stream, StreamOutcome, stream_completed, stream_failed, stream_cancelled,
}
use model_mux.Chat.Handlers.{is_abort, write_sse, stream_body}
use model_mux.Chat.Orders.{follow, follow-noted, in_world-Triple, throw_if_cancelled-Triple}
use model_mux.Chat.Handlers.{code_of, stream_failed_with}
use model_mux.Chat.Streams.{
  StreamStage, waiting, admitted, streaming, begun, said_done, said_error, completed, cut_short,
  gone, over, next_stream, held_stream, Stands, Running, Spoken, Admitted, Waiting, Fault,
  start-Triple, write_sse-Triple, call_stream-Triple,
}

module _ {W : Type 0} where
  -- The answer is ended, or its socket is destroyed.
  abbrev pub Ended : Session W → Type 0
  Ended s =
      (a : StreamStage) × (follow next_stream waiting s.trace ≡ some a)
      × (s.permit ≡ held_stream a)
      × (next_stream a (measured_stream s.outcome) ≡ some (over (held_stream a)))

  -- Nothing was sent.
  abbrev pub Silent : Session W → Type 0
  Silent s = Waiting s ⊎ (Admitted s ⊎ ((id : ℕ) × Stands false (streaming id) s))

module _ {W : Type 0} (g : Gateway W) where
  take_permit-Waiting : Triple Waiting (take_permit g) (λ _. Admitted) Fault
  unfolding take_permit
  take_permit-Waiting =
      bind-Triple {Q = λ _. Waiting}
        (weaker-Triple (in_world-Triple Waiting (λ s w h. h) g.acquire) (λ s h. h) (λ _ s h. h)
          (λ _ s h. inl h))
        (λ id. modify-Triple (λ s h. (
          id,
          (
            follow-noted next_stream waiting waiting (admitted id) s.trace (acquired id) h.0 refl,
            refl,
            h.2,
            h.3,
          ),
        )))

  completed-Ended :
      (id : ℕ) (s : Session W)
      → Stands true (said_done id) s
      → Ended (noted ended (record s { outcome = stream_completed }))
  completed-Ended id s h = (
    completed id,
    follow-noted next_stream waiting (said_done id) (completed id) s.trace ended h.0 refl,
    h.1,
    refl,
  )

  say_done-Triple :
      Triple Spoken (write_sse g done_event) (λ _ s. (id : ℕ) × Stands true (said_done id) s) Fault
  say_done-Triple = record {
    runs = λ s (id, h).
        (weaker-Triple (write_sse-Triple g done_event id (said_done id) refl refl) (λ s h. h)
            (λ _ s h. (id, h))
            (λ e s h. elim h.1 [
              | inl x ↦ inr (inr (inl (id, inr x)))
              | inr x ↦ inr (inr (inr ((id, x), h.0)))
            ])).runs
          s h;
  }

  pub stream_body-Triple :
      (request : ChatRequest) → Triple Waiting (stream_body g request) (λ _. Ended) Fault
  unfolding stream_body
  stream_body-Triple request =
      bind-Triple
        (bind-Triple
          (bind-Triple {Q = λ _. Running}
            (bind-Triple {Q = λ _. Admitted}
              (bind-Triple take_permit-Waiting
                (λ _. throw_if_cancelled-Triple g Admitted Fault (λ e s h _. inr (inl h))))
              (λ _. call_stream-Triple g g.stream request))
            (λ _.
              weaker-Triple (start-Triple g) (λ s h. h) (λ _ s h. h)
                (λ _ s h. inr (inr (inl h.0)))))
          (λ _. say_done-Triple))
        (λ _. modify-Triple (λ s (id, h). completed-Ended id s h))

  torn-Ended :
      (head : Bool) (a : StreamStage) (o : StreamOutcome) (s : Session W)
      → Stands head a s
      → next_stream a destroyed ≡ some (gone (held_stream a))
      → next_stream (gone (held_stream a)) (measured_stream o) ≡ some (over (held_stream a))
      → Ended (noted destroyed (record s { outcome = o }))
  torn-Ended head a o s h n m = (
    gone (held_stream a),
    follow-noted next_stream waiting a (gone (held_stream a)) s.trace destroyed h.0 n,
    h.1,
    m,
  )

  Fault-torn :
      (e : Error) (s : Session W)
      → Fault e s
      → Ended (noted destroyed (record s { outcome = stream_cancelled }))
  Fault-torn e s (inl h) = torn-Ended false waiting stream_cancelled s h refl refl
  Fault-torn e s (inr (inl (id, h))) = torn-Ended false (admitted id) stream_cancelled s h refl refl
  Fault-torn e s (inr (inr (inl (id, inl h)))) =
      torn-Ended false (streaming id) stream_cancelled s h refl refl
  Fault-torn e s (inr (inr (inl (id, inr h)))) =
      torn-Ended true (begun id) stream_cancelled s h refl refl
  Fault-torn e s (inr (inr (inr ((id, h), k)))) =
      torn-Ended true (said_done id) stream_cancelled s h refl refl

  Fault-quiet :
      (e : Error) (s : Session W) → Fault e s → is_abort e ≡ false → s.started ≡ false → Silent s
  Fault-quiet e s (inl h) k q = inl h
  Fault-quiet e s (inr (inl h)) k q = inr (inl h)
  Fault-quiet e s (inr (inr (inl (id, inl h)))) k q = inr (inr (id, h))
  Fault-quiet e s (inr (inr (inl (id, inr h)))) k q = ground (arith, h.2)
  Fault-quiet e s (inr (inr (inr ((id, h), a)))) k q = ground arith

  Fault-Spoken :
      (e : Error) (s : Session W) → Fault e s → is_abort e ≡ false → s.started ≡ true → Spoken s
  Fault-Spoken e s (inl h) k q = ground (arith, h.2)
  Fault-Spoken e s (inr (inl (id, h))) k q = ground (arith, h.2)
  Fault-Spoken e s (inr (inr (inl (id, inl h)))) k q = ground (arith, h.2)
  Fault-Spoken e s (inr (inr (inl (id, inr h)))) k q = (id, h)
  Fault-Spoken e s (inr (inr (inr ((id, h), a)))) k q = ground arith

  destroyed-Ended :
      (a : StreamStage) (s : Session W)
      → Stands true a s
      → next_stream a destroyed ≡ some (gone (held_stream a))
      → next_stream (gone (held_stream a)) (measured_stream stream_failed)
        ≡ some (over (held_stream a))
      → Ended (noted destroyed s)
  destroyed-Ended a s h n m = (
    gone (held_stream a),
    follow-noted next_stream waiting a (gone (held_stream a)) s.trace destroyed h.0 n,
    h.1,
    rw (h.3) m,
  )

  say_error-Triple :
      (code : String) (id : ℕ)
      → Triple
          (Stands true (begun id))
          (catching
            (write_sse g (error_event code) >> modify (noted ended))
            (λ _. modify (noted destroyed)))
          (λ _. Ended)
          (λ _. Silent)
  say_error-Triple code id =
      catching-Triple
        (bind-Triple (write_sse-Triple g (error_event code) id (said_error id) refl refl) (λ _.
          modify-Triple (λ s h. (
            cut_short id,
            follow-noted next_stream waiting (said_error id) (cut_short id) s.trace ended h.0 refl,
            h.1,
            rw (h.3) refl,
          ))))
        (λ _. modify-Triple (λ s h. elim h.1 [
          | inl x ↦ destroyed-Ended (begun id) s x refl refl
          | inr x ↦ destroyed-Ended (said_error id) s x refl refl
        ]))

  pub stream_failed_with-Triple :
      (e : Error) → Triple (Fault e) (stream_failed_with g e) (λ _. Ended) (λ _. Silent)
  unfolding stream_failed_with
  stream_failed_with-Triple e = record {
    runs = λ s h.
        Ends-if (λ _. Ended) (λ _. Silent) (is_abort e || g.is_aborted s.world) _ _
          (λ _. Fault-torn e s h)
          (λ c.
            let other : is_abort e ≡ false = ground arith in
            Ends-if (λ _. Ended) (λ _. Silent) (not s.started) _ _
              (λ q. Fault-quiet e s h other (ground arith))
              (λ q.
                let (id, spoken) = Fault-Spoken e s h other (ground arith) in
                Ends-if (λ _. Ended) (λ _. Silent) (g.needs_drain s.world) _ _
                  (λ _. destroyed-Ended (begun id) s spoken refl refl)
                  (λ _. (say_error-Triple (code_of e) id).runs s spoken)));
  }
