-- ===== src/Chat/Trails.antt =====
-- The order in which the chat handler of src/routes/chat.ts uses the cache, the limiter and the provider.
use model_mux.Prelude.{
  ℕ, ◌≡◌, refl, ◌∙◌, inl, inr, Bool, false, ◌||◌, [], ◌∷◌, ◌++◌, Option, none, some, arith,
  Bool-cases, String, ◌⊎◌,
}
use model_mux.Errors.{Error}
use model_mux.Circuit.{Completion, returned, threw}
use model_mux.Routing.{ChatRequest}
use model_mux.Handling.Triples.{Ends, Triple, catching-Triple, ensuring-Triple}
use model_mux.Chat.{
  Gateway, Session, ChatReply, sent, hijacked, noted, release_permit, destroyed, released,
  measured_cache,
}
use model_mux.Chat.Handlers.{is_abort, chat_failed, chat_done, chat_handler, session}
use model_mux.Chat.Orders.{
  Stage, fresh, asked, freed, stored, holding, torn, answered, dropped, next, follow, follow-noted,
  held, At, noted-At, Missed, Unserved, Served, Stopped, Fresh, Fresh-Missed, Ready,
}
use model_mux.Chat.Answers.{chat_body-Triple}

-- Where a request ends.
abbrev pub end_of : Completion ChatReply Error → Stage
end_of (returned hijacked) = dropped none
end_of _ = answered none

module _ {W : Type 0} (g : Gateway W) where
  torn-Ready :
      (s : Session W) (a : Stage)
      → At a s
      → Missed s
      → next a destroyed ≡ some (torn (held a))
      → Ready hijacked (noted destroyed s)
  torn-Ready s a h m n = (held a, noted-At a (torn (held a)) destroyed s h n refl, m)

  Stopped-torn : (e : Error) (s : Session W) → Stopped e s → Ready hijacked (noted destroyed s)
  Stopped-torn e s (inl (inl h)) = torn-Ready s fresh h.0 (Fresh-Missed s h) refl
  Stopped-torn e s (inl (inr h)) = torn-Ready s asked h.0 h.1 refl
  Stopped-torn e s (inr (inl (inl h))) = torn-Ready s freed h.0 h.1 refl
  Stopped-torn e s (inr (inl (inr h))) = torn-Ready s stored h.0 h.1 refl
  Stopped-torn e s (inr (inr ((id, a, m), k))) = torn-Ready s (holding id) a m refl

  abbrev pub Failed : Error → Session W → Type 0
  Failed e s = Unserved s ⊎ Served s

  Stopped-Failed : (e : Error) (s : Session W) → Stopped e s → is_abort e ≡ false → Failed e s
  Stopped-Failed e s (inl h) k = inl h
  Stopped-Failed e s (inr (inl h)) k = inr h
  Stopped-Failed e s (inr (inr (h, a))) k = ground arith

  chat_failed-Triple : (e : Error) → Triple (Stopped e) (chat_failed g e) Ready Failed
  unfolding chat_failed
  chat_failed-Triple e = record {
    runs = λ s h. elim (Bool-cases (is_abort e || g.is_aborted s.world)) [
      | inl c ↦ rw (c) (Stopped-torn e s h)
      | inr c ↦ rw (c) (Stopped-Failed e s h (ground arith))
    ];
  }

  After : Stage → Session W → Type 0
  After a s = follow next fresh s.trace ≡ some a

  released_nothing : (s : Session W) → s.permit ≡ none → (release_permit g s).trace ≡ s.trace
  unfolding release_permit
  released_nothing s h = rw (h) refl

  chat_done-answered :
      (a : Stage) (s : Session W)
      → At a s
      → held a ≡ none
      → next a (measured_cache s.cache_status) ≡ some (answered none)
      → After (answered none) (chat_done g s)
  unfolding chat_done After
  chat_done-answered a s h free n =
      let s' = noted (measured_cache s.cache_status) s in
      rw (released_nothing (record s' { world = g.abort s'.world }) (h.1 ∙ free))
        (follow-noted next fresh a (answered none) s.trace (measured_cache s.cache_status) h.0 n)

  Served-answered : (s : Session W) → Served s → After (answered none) (chat_done g s)
  Served-answered s (inl (a, m)) = chat_done-answered freed s a refl (rw (m) refl)
  Served-answered s (inr (a, m)) = chat_done-answered stored s a refl (rw (m) refl)

  Failed-answered : (e : Error) (s : Session W) → Failed e s → After (answered none) (chat_done g s)
  Failed-answered e s (inl (inl (a, b))) = chat_done-answered fresh s a refl (rw (b) refl)
  Failed-answered e s (inl (inr (a, m))) = chat_done-answered asked s a refl refl
  Failed-answered e s (inr h) = Served-answered s h

  chat_done-dropped :
      (p : Option ℕ) (s : Session W)
      → At (torn p) s
      → Missed s
      → After (dropped none) (chat_done g s)
  unfolding chat_done release_permit After
  chat_done-dropped none s h m = rw (h.1) (
      follow-noted next fresh (torn none) (dropped none) s.trace (measured_cache s.cache_status) h.0
        (rw (m) refl))
  chat_done-dropped (some id) s h m = rw (h.1) (
      follow-noted next fresh (dropped (some id)) (dropped none)
        (s.trace ++ measured_cache s.cache_status ∷ []) (released id)
        (follow-noted next fresh (torn (some id)) (dropped (some id)) s.trace
          (measured_cache s.cache_status) h.0 (rw (m) refl))
        (ground arith))

  Ready-over :
      (r : ChatReply) (s : Session W) → Ready r s → After (end_of (returned r)) (chat_done g s)
  Ready-over (sent r) s (inl h) = chat_done-answered asked s h refl refl
  Ready-over (sent r) s (inr h) = Served-answered s h
  Ready-over hijacked s (p, h, m) = chat_done-dropped p s h m

  Ends-end_of :
      (c : Completion ChatReply Error) (s : Session W)
      → Ends (λ r. After (end_of (returned r))) (λ _. After (answered none)) c s
      → After (end_of c) s
  Ends-end_of (returned r) s h = h
  Ends-end_of (threw e) s h = h

  -- On every path of the chat handler: the cache is read at most once and before the queue, and only a request that
  -- ends there counts as a hit; at most one permit is taken; the provider is called at most once,
  -- while the permit is held; a permit that was taken is released exactly once, after the provider's
  -- call and before the cache is written, or at the end if the provider was not called; and the cache status is
  -- measured once. The socket is destroyed exactly if the request is neither answered nor failed.
  pub chat_handler-order :
      (owner_id : String) (request : ChatRequest) (use_cache : Bool) (w : W)
      → let (c, s) = chat_handler g owner_id request (session use_cache w) in
        follow next fresh s.trace ≡ some (end_of c)
  unfolding chat_handler After
  chat_handler-order owner_id request use_cache w =
      let done : Triple Fresh (chat_handler g owner_id request) (λ r. After (end_of (returned r)))
          (λ _. After (answered none)) =
        ensuring-Triple (chat_done g)
          (catching-Triple (chat_body-Triple g owner_id request) (λ e. chat_failed-Triple e))
          (λ r s h. Ready-over r s h) (λ e s h. Failed-answered e s h) in
      let (c, s) = chat_handler g owner_id request (session use_cache w) in
      Ends-end_of c s (done.runs (session use_cache w) ((refl, refl), refl))
