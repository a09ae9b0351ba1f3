-- ===== src/Chat/Answers.antt =====
-- The order in which the body of the chat handler of src/routes/chat.ts uses the cache, the limiter and the provider.
use model_mux.Prelude.{ℕ, refl, ap, inl, inr, Option, none, some, arith, Option-cases, String}
use model_mux.Errors.{Error}
use model_mux.Routing.{ChatRequest, ChatResponse}
use model_mux.Handling.{Handler, pure, modify, ◌>>◌, ensuring}
use model_mux.Handling.Triples.{
  Triple, bind-Triple, catching-Triple, ensuring-Triple, weaker-Triple, either-Triple, pure-Triple,
  modify-Triple,
}
use model_mux.Chat.{
  Gateway, ChatCache, Session, sent, noted, in_world, release_permit, throw_if_cancelled,
  take_permit, read_cache, wrote_cache, called, acquired, released, hit, miss,
}
use model_mux.Chat.Handlers.{ask_cache, look_up, store, with_cache, generate, chat_body}
use model_mux.Chat.Orders.{
  fresh, asked, freed, stored, holding, calling, not_hit, next, follow-noted, At, noted-At, Missed,
  Unserved, Holding, Calling, Served, Stopped, in_world-Triple, throw_if_cancelled-Triple,
  tolerate-Triple, Looked, Fresh, Asked, Fresh-Missed, Ready,
}

module _ {W : Type 0} (g : Gateway W) where
  Asked-Looked :
      (cached : Option ChatResponse) (s : Session W)
      → Asked s
      → Looked cached (record s { cache_status = elim cached [ none ↦ miss | some _ ↦ hit ] })
  Asked-Looked none s h = inr (h.0, refl)
  Asked-Looked (some r) s h = h.0

  ask_cache-Triple :
      (cache : ChatCache W) (owner_id : String) (request : ChatRequest)
      → Triple Fresh (ask_cache g cache owner_id request) Looked (λ _. Asked)
  unfolding ask_cache
  ask_cache-Triple cache owner_id request =
      bind-Triple
        (bind-Triple {Q = λ _. Asked}
          (modify-Triple
            (λ s h. (noted-At fresh asked read_cache s h.0 refl refl, Fresh-Missed s h)))
          (λ _. in_world-Triple Asked (λ s w h. h) (cache.get owner_id request)))
        (λ cached.
          bind-Triple {Q = λ _. Looked cached}
            (bind-Triple (throw_if_cancelled-Triple g Asked (λ _. Asked) (λ e s h _. h))
              (λ _. modify-Triple (Asked-Looked cached)))
            (λ _. pure-Triple cached (λ s h. h)))

  look_up-Triple :
      (cache : ChatCache W) (owner_id : String) (request : ChatRequest)
      → Triple Fresh (look_up g cache owner_id request) Looked (λ _. Unserved)
  unfolding look_up
  look_up-Triple cache owner_id request =
      catching-Triple (ask_cache-Triple cache owner_id request) (λ e.
        bind-Triple {Q = λ _. Asked}
          (bind-Triple (tolerate-Triple g Asked (λ _. Unserved) (λ _ s h _. inr h) e)
            (λ _. modify-Triple (λ s h. h)))
          (λ _. pure-Triple none (λ s h. inr h)))

  with_cache-Triple :
      {T : Type 0} {P : Session W → Type 0} {Q : T → Session W → Type 0}
      {R : Error → Session W → Type 0} {operation : ChatCache W → Handler (Session W) T}
      {default : T}
      → ((cache : ChatCache W) → Triple P (operation cache) Q R)
      → ((s : Session W) → P s → Q default s)
      → Triple P (with_cache g operation default) Q R
  unfolding with_cache
  with_cache-Triple {operation} {default} ho hd = record {
    runs = λ s h. elim (Option-cases g.chat_cache) [
      | inl e ↦ rw (e) (hd s h)
      | inr (cache, e) ↦
          rw (e)
            ((either-Triple s.use_cache (λ _. ho cache) (λ _. pure-Triple default hd)).runs s h)
    ];
  }

  Unserved-Holding :
      (id : ℕ) (s : Session W)
      → Unserved s
      → Holding (noted (acquired id) (record s { permit = some id }))
  Unserved-Holding id s (inl (a, b)) = (
    id,
    (follow-noted next fresh fresh (holding id) s.trace (acquired id) a.0 refl, refl),
    ap not_hit b,
  )
  Unserved-Holding id s (inr (a, m)) =
      (id, (follow-noted next fresh asked (holding id) s.trace (acquired id) a.0 refl, refl), m)

  take_permit-Triple : Triple Unserved (take_permit g) (λ _. Holding) (λ _. Unserved)
  unfolding take_permit
  take_permit-Triple =
      bind-Triple (in_world-Triple Unserved (λ s w h. h) g.acquire)
        (λ id. modify-Triple (λ s h. Unserved-Holding id s h))

  Calling-freed :
      (s : Session W) → Calling s → At freed (release_permit g s) × Missed (release_permit g s)
  unfolding release_permit
  Calling-freed s (id, a, m) = rw (a.1) (
    (follow-noted next fresh (calling id) freed s.trace (released id) a.0 (ground arith), refl),
    m,
  )

  call_provider-Triple :
      (request : ChatRequest)
      → Triple Holding
          (ensuring (modify (noted called) >> in_world (g.chat request)) (release_permit g))
          (λ _ s. At freed s × Missed s)
          (λ _ s. At freed s × Missed s)
  call_provider-Triple request =
      ensuring-Triple (release_permit g)
        (bind-Triple {Q = λ _. Calling}
          (modify-Triple
            (λ s h. (h.0, noted-At (holding h.0) (calling h.0) called s h.1 refl refl, h.2)))
          (λ _. in_world-Triple Calling (λ s w h. h) (g.chat request)))
        (λ _ s h. Calling-freed s h) (λ _ s h. Calling-freed s h)

  store-Triple :
      (cache : ChatCache W) (owner_id : String) (request : ChatRequest) (result : ChatResponse)
      → Triple
          (λ s. At freed s × Missed s)
          (store g cache owner_id request result)
          (λ _. Served)
          (λ _. Served)
  unfolding store
  store-Triple cache owner_id request result =
      bind-Triple {Q = λ _ s. At stored s × Missed s}
        (modify-Triple (λ s h. (noted-At freed stored wrote_cache s h.0 refl refl, h.1)))
        (λ _.
          catching-Triple
            (weaker-Triple
              (in_world-Triple (λ s. At stored s × Missed s) (λ s w h. h)
                (cache.put owner_id request result))
              (λ s h. h) (λ _ s h. inr h) (λ _ s h. h))
            (λ e.
              weaker-Triple
                (tolerate-Triple g (λ s. At stored s × Missed s) (λ _. Served) (λ _ s h _. inr h) e)
                (λ s h. h) (λ _ s h. inr h) (λ _ s h. h)))

  keep_result-Triple :
      (owner_id : String) (request : ChatRequest) (result : ChatResponse)
      → Triple
          (λ s. At freed s × Missed s)
          (throw_if_cancelled g
            >> with_cache g (λ cache. store g cache owner_id request result) tt
            >> throw_if_cancelled g
            >> pure (sent result))
          Ready
          Stopped
  keep_result-Triple owner_id request result =
      bind-Triple {Q = λ _. Served}
        (bind-Triple {Q = λ _. Served}
          (bind-Triple {Q = λ _ s. At freed s × Missed s}
            (throw_if_cancelled-Triple g (λ s. At freed s × Missed s) Stopped
              (λ e s h _. inr (inl (inl h))))
            (λ _.
              with_cache-Triple
                (λ cache.
                  weaker-Triple (store-Triple cache owner_id request result) (λ s h. h) (λ _ s h. h)
                    (λ _ s h. inr (inl h)))
                (λ s h. inl h)))
          (λ _. throw_if_cancelled-Triple g Served Stopped (λ e s h _. inr (inl h))))
        (λ _. pure-Triple (sent result) (λ s h. inr h))

  generate-Triple :
      (owner_id : String) (request : ChatRequest)
      → Triple Unserved (generate g owner_id request) Ready Stopped
  unfolding generate
  generate-Triple owner_id request =
      bind-Triple
        (bind-Triple
          (bind-Triple {Q = λ _. Holding}
            (bind-Triple {Q = λ _. Holding}
              (bind-Triple {P = Unserved} {Q = λ _. Unserved} (modify-Triple (λ s h. h))
                (λ _. weaker-Triple take_permit-Triple (λ s h. h) (λ _ s h. h) (λ _ s h. inl h)))
              (λ _. throw_if_cancelled-Triple g Holding Stopped (λ e s h a. inr (inr (h, a)))))
            (λ _. modify-Triple (λ s h. h)))
          (λ _.
            weaker-Triple (call_provider-Triple request) (λ s h. h) (λ _ s h. h)
              (λ _ s h. inr (inl (inl h)))))
        (λ result. keep_result-Triple owner_id request result)

  generated_from :
      (owner_id : String) (request : ChatRequest) (cached : Option ChatResponse)
      → Triple
          (Looked cached)
          (elim cached [ some r ↦ pure (sent r) | none ↦ generate g owner_id request ])
          Ready
          Stopped
  generated_from owner_id request none = generate-Triple owner_id request
  generated_from owner_id request (some r) = pure-Triple (sent r) (λ s h. inl h)

  pub chat_body-Triple :
      (owner_id : String) (request : ChatRequest)
      → Triple Fresh (chat_body g owner_id request) Ready Stopped
  unfolding chat_body
  chat_body-Triple owner_id request =
      bind-Triple {Q = Looked}
        (with_cache-Triple
          (λ cache.
            weaker-Triple (look_up-Triple cache owner_id request) (λ s h. h) (λ _ s h. h)
              (λ _ s h. inl h))
          (λ s h. inl h))
        (λ cached. generated_from owner_id request cached)
