-- ===== src/Chat/StreamTrails.antt =====
-- How a stream ends, by src/routes/chat.ts.
use model_mux.Prelude.{
  ℕ, ◌≡◌, refl, ap, ◌∙◌, inl, inr, false, [], ◌∷◌, ◌++◌, Option, none, some, arith, Option-cases,
}
use model_mux.Errors.{Error}
use model_mux.Circuit.{Completion, returned, threw}
use model_mux.Routing.{ChatRequest}
use model_mux.Handling.Triples.{Ends, Triple, catching-Triple, ensuring-Triple}
use model_mux.Chat.{Gateway, Session, release_permit, released, measured_stream}
use model_mux.Chat.Orders.{follow, follow-noted}
use model_mux.Chat.Handlers.{stream_done, stream_handler, session}
use model_mux.Chat.Streams.{
  StreamStage, waiting, admitted, streaming, silent, over, next_stream, held_stream, Waiting,
}
use model_mux.Chat.Faults.{Ended, Silent, stream_body-Triple, stream_failed_with-Triple}

-- Where a stream ends.
abbrev pub stream_end : Completion (Unit {0}) Error → StreamStage
stream_end (returned _) = over none
stream_end (threw _) = silent none

module _ {W : Type 0} (g : Gateway W) where
  Silenced : Session W → Type 0
  Silenced s = follow next_stream waiting s.trace ≡ some (silent none)

  Over : Session W → Type 0
  Over s = follow next_stream waiting s.trace ≡ some (over none)

  -- The outcome is measured, and a permit that is held is released.
  module _ (close : Option ℕ → StreamStage)
      (closes : (id : ℕ) → next_stream (close (some id)) (released id) ≡ some (close none)) where
    closed :
        (a : StreamStage) (s : Session W)
        → follow next_stream waiting s.trace ≡ some a
        → s.permit ≡ held_stream a
        → next_stream a (measured_stream s.outcome) ≡ some (close (held_stream a))
        → follow next_stream waiting (stream_done g s).trace ≡ some (close none)
    unfolding stream_done release_permit
    closed a s h p m =
        let t =
          follow-noted next_stream waiting a (close (held_stream a)) s.trace
            (measured_stream s.outcome) h m in
        elim (Option-cases (held_stream a)) [
          | inl e ↦ rw (p, e) (t ∙ ap (λ x. some (close x)) e)
          | inr (id, e) ↦
              rw (p, e)
                (follow-noted next_stream waiting (close (some id)) (close none)
                  (s.trace ++ measured_stream s.outcome ∷ []) (released id)
                  (t ∙ ap (λ x. some (close x)) e) (closes id))
        ]

  Ended-Over : (s : Session W) → Ended s → Over (stream_done g s)
  unfolding Over
  Ended-Over s (a, h, p, m) = closed over (λ id. ground arith) a s h p m

  Silent-Silenced : (s : Session W) → Silent s → Silenced (stream_done g s)
  unfolding Silenced
  Silent-Silenced s (inl h) = closed silent (λ id. ground arith) waiting s h.0 h.1 (rw (h.3) refl)
  Silent-Silenced s (inr (inl (id, h))) =
      closed silent (λ id. ground arith) (admitted id) s h.0 h.1 (rw (h.3) refl)
  Silent-Silenced s (inr (inr (id, h))) =
      closed silent (λ id. ground arith) (streaming id) s h.0 h.1 (rw (h.3) refl)

  Ends-stream_end :
      (c : Completion (Unit {0}) Error) (s : Session W)
      → Ends (λ _. Over) (λ _. Silenced) c s
      → follow next_stream waiting s.trace ≡ some (stream_end c)
  unfolding Over Silenced
  Ends-stream_end (returned _) s h = h
  Ends-stream_end (threw e) s h = h

  -- On every path of the stream handler: it writes only while it holds a permit and after the provider was
  -- called; the head is sent once and before any event; after a done event or an error event
  -- nothing is written; a stream counts as completed exactly when its done event is out and the answer is ended;
  -- the outcome is measured once; a permit is released exactly once, at the end. The handler throws
  -- exactly if no head was sent and the socket is left to the error handler.
  pub stream_handler-order :
      (request : ChatRequest) (w : W)
      → let (c, s) = stream_handler g request (session false w) in
        follow next_stream waiting s.trace ≡ some (stream_end c)
  unfolding stream_handler
  stream_handler-order request w =
      let done : Triple Waiting (stream_handler g request) (λ _. Over) (λ _. Silenced) =
        ensuring-Triple (stream_done g)
          (catching-Triple (stream_body-Triple g request) (λ e. stream_failed_with-Triple g e))
          (λ _ s h. Ended-Over s h) (λ e s h. Silent-Silenced s h) in
      let (c, s) = stream_handler g request (session false w) in
      Ends-stream_end c s (done.runs (session false w) (refl, refl, refl, refl))
