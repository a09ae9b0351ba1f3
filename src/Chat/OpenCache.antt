-- ===== src/Chat/OpenCache.antt =====
-- What a cache that cannot be read does to an answer of the chat handler of src/routes/chat.ts.
use model_mux.Prelude.{
  ◌≡◌, refl, sym, ap, ◌∙◌, inl, inr, true, false, ◌||◌, [], ◌∷◌, none, some, if◌then◌else◌,
  Bool-cases, Option-cases, String,
}
use model_mux.Errors.{Error, request_aborted_error}
use model_mux.Circuit.{Completion, returned, threw}
use model_mux.Routing.{ChatRequest}
use model_mux.Handling.{Handler}
use model_mux.Handling.Relations.{
  Alike, bind-Alike, catching-Alike, ensuring-Alike, pure-Alike, modify-Alike,
}
use model_mux.Handling.Steps.{bind-returned, bind-threw, catching-threw, ensuring-same}
use model_mux.Chat.{
  Gateway, ChatCache, Session, sent, read_cache, in_world, release_permit, throw_if_cancelled,
  take_permit,
}
use model_mux.Chat.Handlers.{
  is_abort, tolerate, ask_cache, look_up, with_cache, generate, chat_body, chat_failed, chat_done,
  chat_handler, session,
}

module _ {W : Type 0} (g : Gateway W) (cache : ChatCache W) where
  abbrev pub cached_gateway : Gateway W
  cached_gateway = record g { chat_cache = some cache }

  abbrev pub plain_gateway : Gateway W
  plain_gateway = record g { chat_cache = none }

  -- The world and the permit are the same, and the cache is given up.
  abbrev Like : Session W → Session W → Type 0
  Like s s' = (s.world ≡ s'.world) × (s.permit ≡ s'.permit) × (s.use_cache ≡ false)

  in_world-Alike :
      {T : Type 0} (f : W → Completion T Error × W) → Alike Like (in_world f) (in_world f)
  in_world-Alike f = record {
    runs = λ s s' r. (ap (λ w. (f w).0) r.0, (ap (λ w. (f w).1) r.0, r.1, r.2));
  }

  throw_if_cancelled-Alike :
      Alike Like (throw_if_cancelled cached_gateway) (throw_if_cancelled plain_gateway)
  unfolding throw_if_cancelled
  throw_if_cancelled-Alike = record {
    runs = λ s s' r.
        (ap (λ w. if g.is_aborted w then threw request_aborted_error else returned tt) r.0, r);
  }

  take_permit-Alike : Alike Like (take_permit cached_gateway) (take_permit plain_gateway)
  unfolding take_permit
  take_permit-Alike =
      bind-Alike Like (in_world-Alike g.acquire)
        (λ id. modify-Alike Like (λ s s' r. (r.0, refl, r.2)))

  release_permit-Like :
      (s s' : Session W)
      → Like s s'
      → Like (release_permit cached_gateway s) (release_permit plain_gateway s')
  unfolding release_permit
  release_permit-Like s s' r = elim (Option-cases s'.permit) [
    | inl e ↦ rw (r.1, e) (r.0, refl, r.2)
    | inr (id, e) ↦ rw (r.1, e) (ap (g.release id) r.0, refl, r.2)
  ]

  with_cache-Alike :
      (f h : ChatCache W → Handler (Session W) (Unit {0}))
      → Alike Like (with_cache cached_gateway f tt) (with_cache plain_gateway h tt)
  unfolding with_cache
  with_cache-Alike f h = record { runs = λ s s' r. rw (r.2) (refl, (r.0, r.1, refl)) }

  generate-Alike :
      (owner_id : String) (request : ChatRequest)
      → Alike Like
          (generate cached_gateway owner_id request)
          (generate plain_gateway owner_id request)
  unfolding generate
  generate-Alike owner_id request =
      bind-Alike Like
        (bind-Alike Like
          (bind-Alike Like
            (bind-Alike Like
              (bind-Alike Like (modify-Alike Like (λ s s' r. r)) (λ _. take_permit-Alike))
              (λ _. throw_if_cancelled-Alike))
            (λ _. modify-Alike Like (λ s s' r. r)))
          (λ _.
            ensuring-Alike Like (release_permit cached_gateway) (release_permit plain_gateway)
              (bind-Alike Like (modify-Alike Like (λ s s' r. r))
                (λ _. in_world-Alike (g.chat request)))
              release_permit-Like))
        (λ result.
          bind-Alike Like
            (bind-Alike Like (bind-Alike Like throw_if_cancelled-Alike (λ _. with_cache-Alike _ _))
              (λ _. throw_if_cancelled-Alike))
            (λ _. pure-Alike Like (sent result)))

  chat_failed-Alike :
      (e : Error) → Alike Like (chat_failed cached_gateway e) (chat_failed plain_gateway e)
  unfolding chat_failed
  chat_failed-Alike e = record {
    runs = λ s s' r. elim (Bool-cases (is_abort e || g.is_aborted s'.world)) [
      | inl c ↦ rw (r.0, c) (refl, (refl, r.1, r.2))
      | inr c ↦ rw (r.0, c) (refl, (refl, r.1, r.2))
    ];
  }

  chat_done-Like :
      (s s' : Session W)
      → Like s s'
      → Like (chat_done cached_gateway s) (chat_done plain_gateway s')
  unfolding chat_done
  chat_done-Like s s' r = release_permit-Like _ _ (ap g.abort r.0, r.1, r.2)

  module _ (owner_id : String) (request : ChatRequest) (w : W) (e : Error)
      (fails : (cache.get owner_id request w).0 ≡ threw e) (other : is_abort e ≡ false) where
    -- The world after the read, with what other requests did to it in the meantime.
    abbrev after_read : W
    after_read = (cache.get owner_id request w).1

    -- The session after the read.
    abbrev given_up : Session W
    given_up = record (session true w) {
      world = after_read;
      trace = read_cache ∷ [];
      use_cache = false;
    }

    abbrev asked : Session W
    asked = record (session true w) { world = after_read; trace = read_cache ∷ [] }

    asked_in_vain :
        ask_cache cached_gateway cache owner_id request (session true w) ≡ (threw e, asked)
    unfolding ask_cache
    asked_in_vain = bind-threw _ _ _ (
        bind-returned _ _ (λ _. in_world (cache.get owner_id request)) refl
        ∙ ap (λ c. (c, asked)) fails)

    live_check :
        (s : Session W)
        → g.is_aborted s.world ≡ false
        → throw_if_cancelled cached_gateway s ≡ (returned tt, s)
    unfolding throw_if_cancelled
    live_check s live = rw (live) refl

    tolerated :
        (s : Session W)
        → g.is_aborted s.world ≡ false
        → tolerate cached_gateway e s ≡ (returned tt, s)
    unfolding tolerate
    tolerated s live = bind-returned _ _ _ (live_check s live) ∙ rw (other) refl

    looked_up :
        g.is_aborted after_read ≡ false
        → look_up cached_gateway cache owner_id request (session true w) ≡ (returned none, given_up)
    unfolding look_up
    looked_up live =
        catching-threw _ _ _ asked_in_vain
        ∙ bind-returned _ _ _ (bind-returned _ _ _ (tolerated asked live))

    begun :
        g.is_aborted after_read ≡ false
        → chat_body cached_gateway owner_id request (session true w)
          ≡ generate cached_gateway owner_id request given_up
    unfolding chat_body with_cache
    begun live = bind-returned _ _ _ (looked_up live)

    begun_plain :
        (s : Session W)
        → chat_body plain_gateway owner_id request s ≡ generate plain_gateway owner_id request s
    unfolding chat_body with_cache
    begun_plain s = bind-returned _ _ _ refl

    -- A cache that cannot be read does not matter: if the read fails, and not by a cancellation, and the
    -- request is live after it, then the handler goes on as it does without a cache from there: it gives the
    -- same answer or error, and leaves the same world, as the handler of a gateway without a cache that starts
    -- in the world after the read.
    pub chat_handler-fails_open :
        g.is_aborted after_read ≡ false
        → let (c, s) = chat_handler cached_gateway owner_id request (session true w) in
          let (c', s') = chat_handler plain_gateway owner_id request (session true after_read) in
          (c ≡ c') × (s.world ≡ s'.world)
    unfolding chat_handler
    chat_handler-fails_open live =
        let s = session true after_read in
        let cached =
          ensuring-same _ _ (chat_failed cached_gateway) (chat_done cached_gateway) (session true w)
            given_up (begun live) in
        let plain =
          ensuring-same _ _ (chat_failed plain_gateway) (chat_done plain_gateway) s s
            (begun_plain s) in
        let alike =
          ensuring-Alike Like (chat_done cached_gateway) (chat_done plain_gateway)
            (catching-Alike Like (generate-Alike owner_id request) chat_failed-Alike)
            chat_done-Like in
        let (c, like) = alike.runs given_up s (refl, refl, refl) in
        (
          ap (λ p. p.0) cached ∙ c ∙ ap (λ p. p.0) (sym plain),
          ap (λ p. p.1.world) cached ∙ like.0 ∙ ap (λ p. p.1.world) (sym plain),
        )
