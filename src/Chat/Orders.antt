-- ===== src/Chat/Orders.antt =====
-- The order in which the chat handler of src/routes/chat.ts may use the cache, the limiter and the provider.
use model_mux.Prelude.{
  ℕ, ◌≡◌, refl, sym, ap, ◌∙◌, inl, inr, Bool, true, false, List, [], ◌∷◌, ◌++◌, Option, none, some,
  arith, ◌==◌, if◌then◌else◌, Bool-cases, Option-cases, ◌⊎◌,
}
use model_mux.Errors.{Error, request_aborted_error}
use model_mux.Circuit.{Completion}
use model_mux.Routing.{ChatResponse}
use model_mux.Handling.Triples.{
  Ends-both, Triple, bind-Triple, either-Triple, pure-Triple, raise-Triple,
}
use model_mux.Chat.{
  Gateway, Session, ChatReply, sent, hijacked, noted, in_world, throw_if_cancelled, Effect,
  read_cache, wrote_cache, called, destroyed, acquired, released, measured_cache, CacheStatus, hit,
  bypass,
}
use model_mux.Chat.Handlers.{is_abort, tolerate}

-- Where a request stands. `torn`: its socket is destroyed. `answered` and `dropped`: its cache status is
-- measured. The number is the permit that is held.
pub data Stage : Type 0 where
  fresh asked freed stored : Stage
  holding calling : ℕ → Stage
  torn answered dropped : Option ℕ → Stage

-- Only a request that got no further than the cache may be measured as a hit.
abbrev pub not_hit : CacheStatus → Bool
not_hit hit = false
not_hit _ = true

-- The order that is allowed.
abbrev pub next : Stage → Effect → Option Stage
next fresh read_cache = some asked
next fresh (acquired id) = some (holding id)
next fresh destroyed = some (torn none)
next fresh (measured_cache bypass) = some (answered none)
next asked (acquired id) = some (holding id)
next asked destroyed = some (torn none)
next asked (measured_cache _) = some (answered none)
next (holding id) called = some (calling id)
next (holding id) destroyed = some (torn (some id))
next (calling id) (released p) = if p == id then some freed else none
next freed wrote_cache = some stored
next freed destroyed = some (torn none)
next freed (measured_cache c) = if not_hit c then some (answered none) else none
next stored destroyed = some (torn none)
next stored (measured_cache c) = if not_hit c then some (answered none) else none
next (torn p) (measured_cache c) = if not_hit c then some (dropped p) else none
next (dropped (some id)) (released p) = if p == id then some (dropped none) else none
next _ _ = none

module _ {A : Type 0} (step : A → Effect → Option A) where
  -- The stage after a list of effects, if their order is allowed.
  abbrev pub follow : A → List Effect → Option A
  follow a [] = some a
  follow a (e ∷ es) = elim (step a e) [ none ↦ none | some b ↦ follow b es ]

  pub follow-noted :
      (a b c : A) (es : List Effect) (e : Effect)
      → follow a es ≡ some b
      → step b e ≡ some c
      → follow a (es ++ e ∷ []) ≡ some c
  follow-noted a b c [] e h n = let same : a ≡ b = ground arith in rw (same, n) refl
  follow-noted a b c (x ∷ es) e h n = elim (Option-cases (step a x)) [
    | inl k ↦ ground arith
    | inr (a', k) ↦ rw (k) (follow-noted a' b c es e (ground arith) n)
  ]

-- The permit that is held at a stage.
abbrev pub held : Stage → Option ℕ
held (holding id) = some id
held (calling id) = some id
held (torn p) = p
held (dropped p) = p
held _ = none

module _ {W : Type 0} where
  -- A session that has come to a stage.
  abbrev pub At : Stage → Session W → Type 0
  At a s = (follow next fresh s.trace ≡ some a) × (s.permit ≡ held a)

  pub noted-At :
      (a b : Stage) (e : Effect) (s : Session W)
      → At a s
      → next a e ≡ some b
      → held b ≡ held a
      → At b (noted e s)
  noted-At a b e s h n same = (follow-noted next fresh a b s.trace e h.0 n, h.1 ∙ sym same)

  abbrev pub Missed : Session W → Type 0
  Missed s = not_hit s.cache_status ≡ true

  -- No permit was asked for, and the request is no hit.
  abbrev pub Unserved : Session W → Type 0
  Unserved s = (At fresh s × (s.cache_status ≡ bypass)) ⊎ (At asked s × Missed s)

  abbrev pub Holding : Session W → Type 0
  Holding s = (id : ℕ) × At (holding id) s × Missed s

  abbrev pub Calling : Session W → Type 0
  Calling s = (id : ℕ) × At (calling id) s × Missed s

  abbrev pub Served : Session W → Type 0
  Served s = (At freed s × Missed s) ⊎ (At stored s × Missed s)

  -- An error at a stage where no permit is held, or an abort.
  abbrev pub Stopped : Error → Session W → Type 0
  Stopped e s = Unserved s ⊎ (Served s ⊎ (Holding s × (is_abort e ≡ true)))

  -- What a look-up leaves.
  abbrev pub Looked : Option ChatResponse → Session W → Type 0
  Looked none s = Unserved s
  Looked (some r) s = At asked s

  abbrev pub Fresh : Session W → Type 0
  Fresh s = At fresh s × (s.cache_status ≡ bypass)

  abbrev pub Asked : Session W → Type 0
  Asked s = At asked s × Missed s

  pub Fresh-Missed : (s : Session W) → Fresh s → Missed s
  Fresh-Missed s h = ap not_hit h.1

  -- What the body leaves with a reply.
  abbrev pub Ready : ChatReply → Session W → Type 0
  Ready (sent r) s = At asked s ⊎ Served s
  Ready hijacked s = (p : Option ℕ) × At (torn p) s × Missed s

  module _ (P : Session W → Type 0)
      (kept : (s : Session W) (w : W) → P s → P (record s { world = w })) where
    pub in_world-Triple :
        {T : Type 0} (f : W → Completion T Error × W) → Triple P (in_world f) (λ _. P) (λ _. P)
    in_world-Triple f = record {
      runs = λ s h.
          Ends-both P (f s.world).0 (record s { world = (f s.world).1 }) (kept s (f s.world).1 h);
    }

  module _ (g : Gateway W) (P : Session W → Type 0) (R : Error → Session W → Type 0)
      (stops : (e : Error) (s : Session W) → P s → is_abort e ≡ true → R e s) where
    pub throw_if_cancelled-Triple : Triple P (throw_if_cancelled g) (λ _. P) R
    unfolding throw_if_cancelled
    throw_if_cancelled-Triple = record {
      runs = λ s h. elim (Bool-cases (g.is_aborted s.world)) [
        | inl c ↦ rw (c) (stops request_aborted_error s h refl)
        | inr c ↦ rw (c) h
      ];
    }

    pub tolerate-Triple : (e : Error) → Triple P (tolerate g e) (λ _. P) R
    unfolding tolerate
    tolerate-Triple e = bind-Triple throw_if_cancelled-Triple (λ _.
        either-Triple (is_abort e) (λ a. raise-Triple e (λ s h. stops e s h a))
          (λ _. pure-Triple tt (λ s h. h)))
