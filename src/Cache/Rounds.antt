-- ===== src/Cache/Rounds.antt =====
-- What the cache of src/cache/redis-chat-cache.ts gives back.
use model_mux.Prelude.{
  ℕ, zero, suc, ◌+◌, ◌*◌, ◌≤◌, ◌<◌, ◌≡◌, refl, sym, ap, subst, ◌∙◌, inl, inr, ◌⊎◌, Bool, true,
  false, String, List, [], ◌∷◌, none, some, arith, str_eq, eq_iff, eq_refl, ltb, leb, length,
  Bool-cases, Option-cases,
}
use model_mux.Circuit.{returned}
use model_mux.Routing.{ChatRequest, ChatResponse}
use model_mux.Json.{Json, get_field}
use model_mux.Cache.{
  CacheOptions, Entry, CommandFate, answered, never_ran, lost, json_of, chat_response_of,
  content_of, Redis, live_entry, set_entry, take, getrange, set_nx, command, Codec, chat_cache_key,
  read_value, get, put,
}

take-all : (n : ℕ) (bs : List ℕ) → length bs ≤ n → take n bs ≡ bs
take-all zero [] h = refl
take-all (suc n) [] h = refl
take-all zero (b ∷ bs) h = absurd (omega (arith, h))
take-all (suc n) (b ∷ bs) h = ap (λ x. b ∷ x) (take-all n bs (omega (arith, h)))

live_entry-set_entry :
    (key : String) (e : Entry) (now : ℕ) (redis : Redis)
    → leb e.expires_at_ms now ≡ false
    → live_entry key now (set_entry key e redis) ≡ some e
unfolding live_entry set_entry
live_entry-set_entry key e now [] h = rw (eq_refl key, h) refl
live_entry-set_entry key e now ((k, e') ∷ rest) h = elim (Bool-cases (str_eq k key)) [
  | inl c ↦ rw (c, live_entry, eq_refl key, h) refl
  | inr c ↦ rw (c, live_entry, c) (live_entry-set_entry key e now rest h)
]

live_entry-other :
    (key other : String) (e : Entry) (now : ℕ) (redis : Redis)
    → str_eq key other ≡ false
    → live_entry other now (set_entry key e redis) ≡ live_entry other now redis
unfolding live_entry set_entry
live_entry-other key other e now [] h = rw (h) refl
live_entry-other key other e now ((k, e') ∷ rest) h = elim (Bool-cases (str_eq k key)) [
  | inl c ↦
      let n : str_eq k other ≡ false =
        subst (λ x. str_eq x other ≡ false) (sym ((eq_iff k key).0 c)) h in
      rw (c, live_entry, h, n) refl
  | inr c ↦ elim (Bool-cases (str_eq k other)) [
    | inl n ↦ rw (c, live_entry, n) refl
    | inr n ↦ rw (c, live_entry, n) (live_entry-other key other e now rest h)
  ]
]

response_read_back : (r : ChatResponse) → chat_response_of (json_of r) ≡ some r
unfolding chat_response_of get_field content_of
response_read_back r = refl

nonempty_list : (bs : List ℕ) → 1 ≤ length bs → (b : ℕ) × (rest : List ℕ) × (bs ≡ b ∷ rest)
nonempty_list [] h = absurd (omega (arith, h))
nonempty_list (b ∷ bs) h = (b, bs, refl)

module _ (codec : Codec) (o : CacheOptions) where
  set_nx-other :
      (key other : String) (value : List ℕ) (now at : ℕ) (redis : Redis)
      → str_eq key other ≡ false
      → live_entry other at (set_nx key value o.ttl_seconds now redis) ≡ live_entry other at redis
  unfolding set_nx
  set_nx-other key other value now at redis h = elim (Option-cases (live_entry key now redis)) [
    | inl e ↦ rw (set_nx, e) (live_entry-other key other _ at redis h)
    | inr (x, e) ↦ rw (set_nx, e) refl
  ]

  set_nx-live :
      (key : String) (value : List ℕ) (now : ℕ) (redis : Redis) (e : Entry)
      → live_entry key now redis ≡ some e
      → set_nx key value o.ttl_seconds now redis ≡ redis
  unfolding set_nx
  set_nx-live key value now redis e h = rw (set_nx, h) refl

  command-cases :
      (fate : CommandFate) (after redis : Redis)
      → ((command fate (tt, after) redis).1 ≡ redis) ⊎ ((command fate (tt, after) redis).1 ≡ after)
  unfolding command
  command-cases answered after redis = inr refl
  command-cases (never_ran _) after redis = inl refl
  command-cases (lost _) after redis = inr refl

  put-cases :
      (fate : CommandFate) (now : ℕ) (owner_id : String) (request : ChatRequest) (r : ChatResponse)
      (is_aborted : Bool) (redis : Redis)
      → let after = (put codec o fate now owner_id request r is_aborted redis).1 in
        (after ≡ redis)
        ⊎ (after
            ≡ set_nx
                (chat_cache_key codec o owner_id request)
                (codec.stringify (json_of r))
                o.ttl_seconds
                now
                redis)
  unfolding put
  put-cases fate now owner_id request r true redis = inl refl
  put-cases fate now owner_id request r false redis =
      elim (Bool-cases (ltb o.max_entry_bytes (codec.byte_length r.content))) [
        | inl h ↦ rw (h) (inl refl)
        | inr h ↦ elim (Bool-cases (ltb o.max_entry_bytes (length (codec.stringify (json_of r))))) [
          | inl k ↦ rw (h, k) (inl refl)
          | inr k ↦ rw (h, k) (command-cases fate _ redis)
        ]
      ]

  -- Whatever becomes of the command: an answer that is still in the cache is never replaced, nor its
  -- lifetime, and the answers under all other keys stay as they are.
  pub put-keeps :
      (fate : CommandFate) (now : ℕ) (owner_id : String) (request : ChatRequest) (r : ChatResponse)
      (is_aborted : Bool) (redis : Redis)
      → let key = chat_cache_key codec o owner_id request in
        let after = (put codec o fate now owner_id request r is_aborted redis).1 in
        ((e : Entry) → live_entry key now redis ≡ some e → after ≡ redis)
        × ((other : String) (at : ℕ)
            → str_eq key other ≡ false
            → live_entry other at after ≡ live_entry other at redis)
  put-keeps fate now owner_id request r is_aborted redis =
      elim (put-cases fate now owner_id request r is_aborted redis) [
        | inl h ↦ (λ e _. h, λ other at _. ap (live_entry other at) h)
        | inr h ↦ (
          λ e live. h ∙ set_nx-live _ _ now redis e live,
          λ other at n. ap (live_entry other at) h ∙ set_nx-other _ other _ now at redis n,
        )
      ]

  read_written :
      (j : Json) (r : ChatResponse)
      → codec.parse (codec.stringify j) ≡ some j
      → chat_response_of j ≡ some r
      → 1 ≤ length (codec.stringify j)
      → length (codec.stringify j) ≤ o.max_entry_bytes
      → read_value codec o (codec.stringify j) ≡ some r
  unfolding read_value
  read_written j r parses is_response nonempty fits =
      let (b, bs, e) = nonempty_list (codec.stringify j) nonempty in
      let fits' : length (b ∷ bs) ≤ o.max_entry_bytes =
        subst (λ x. length x ≤ o.max_entry_bytes) e fits in
      let parses' : codec.parse (b ∷ bs) ≡ some j = subst (λ x. codec.parse x ≡ some j) e parses in
      let fits'' : ltb o.max_entry_bytes (length (b ∷ bs)) ≡ false = ground (arith, fits') in
      rw (e, read_value, fits'', parses') is_response

  put-stored :
      (now : ℕ) (owner_id : String) (request : ChatRequest) (r : ChatResponse) (redis : Redis)
      → let key = chat_cache_key codec o owner_id request in
        live_entry key now redis ≡ none
        → codec.byte_length r.content ≤ o.max_entry_bytes
        → length (codec.stringify (json_of r)) ≤ o.max_entry_bytes
        → (put codec o answered now owner_id request r false redis).1
          ≡ set_entry key
              (record {
                data_bytes = codec.stringify (json_of r);
                expires_at_ms = now + o.ttl_seconds * 1000;
              })
              redis
  unfolding put command set_nx set_entry
  put-stored now owner_id request r redis free small fits =
      let small' : ltb o.max_entry_bytes (codec.byte_length r.content) ≡ false = ground arith in
      let fits' : ltb o.max_entry_bytes (length (codec.stringify (json_of r))) ≡ false =
        ground arith in
      rw (small', fits', set_nx, free) refl

  get-found :
      (later : ℕ) (owner_id : String) (request : ChatRequest) (e : Entry) (redis : Redis)
      → live_entry (chat_cache_key codec o owner_id request) later redis ≡ some e
      → length e.data_bytes ≤ o.max_entry_bytes
      → (get codec o answered later owner_id request false redis).0
        ≡ returned (read_value codec o e.data_bytes)
  unfolding get command getrange read_value
  get-found later owner_id request e redis found fits =
      rw (getrange, found, take-all (suc o.max_entry_bytes) e.data_bytes (omega (arith, fits))) refl

  -- An answer that is put under a key with no live answer, and that is small enough, is what `get` returns under
  -- that key until its time is over, if JSON.parse reads what JSON.stringify writes.
  pub get-put :
      (now later : ℕ) (owner_id : String) (request : ChatRequest) (r : ChatResponse) (redis : Redis)
      → codec.parse (codec.stringify (json_of r)) ≡ some (json_of r)
      → live_entry (chat_cache_key codec o owner_id request) now redis ≡ none
      → codec.byte_length r.content ≤ o.max_entry_bytes
      → 1 ≤ length (codec.stringify (json_of r))
      → length (codec.stringify (json_of r)) ≤ o.max_entry_bytes
      → later < now + o.ttl_seconds * 1000
      → let redis' = (put codec o answered now owner_id request r false redis).1 in
        (get codec o answered later owner_id request false redis').0 ≡ returned (some r)
  get-put now later owner_id request r redis parses free small nonempty fits soon =
      let key = chat_cache_key codec o owner_id request in
      let e : Entry = record {
        data_bytes = codec.stringify (json_of r);
        expires_at_ms = now + o.ttl_seconds * 1000;
      } in
      let live : leb (now + o.ttl_seconds * 1000) later ≡ false = ground arith in
      let found : live_entry key later (set_entry key e redis) ≡ some e =
        live_entry-set_entry key e later redis live in
      ap (λ x. (get codec o answered later owner_id request false x).0)
        (put-stored now owner_id request r redis free small fits)
      ∙ get-found later owner_id request e (set_entry key e redis) found fits
      ∙ ap returned (read_written (json_of r) r parses (response_read_back r) nonempty fits)
