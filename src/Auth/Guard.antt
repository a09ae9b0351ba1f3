-- ===== src/Auth/Guard.antt =====
-- What the hook of src/auth/guard.ts lets through, and what it charges.
use model_mux.Prelude.{
  ℕ, ◌≡◌, refl, sym, ap, subst, ◌∙◌, ◌⊎◌, inl, inr, Bool, true, false, ◌&&◌, String, List, [], ◌∷◌,
  Option, none, some, arith, Bool-cases, Option-cases, str_eq, eq_iff, eq_refl,
}
use mathlib.Core.List.{Memᴰ}
use mathlib.Core.List.Memᴰ.{head, tail}
use model_mux.Errors.{AppError}
use model_mux.Circuit.{Completion, returned, threw}
use model_mux.Streaming.{Text}
use model_mux.Routing.Kept.{Completion-cases}
use model_mux.RateLimit.{Bucket, ScriptResult, EvalReply, is_invalid, consume, RateLimitDecision}
use model_mux.Auth.{
  ApiKeyPrincipal, ApiKeyRow, GuardState, find_key, principal, find_enabled_by_hash, authenticate,
  bucket_of, set_bucket, limited, identified, guard, parse_bearer_token,
}

bucket_of-set_bucket :
    (id : String) (b : Bucket) (bs : List (String × Bucket))
    → bucket_of id (set_bucket id (some b) bs) ≡ some b
unfolding bucket_of set_bucket
bucket_of-set_bucket id b [] = ground (arith, eq_refl id)
bucket_of-set_bucket id b ((key, b') ∷ bs) = elim (Bool-cases (str_eq key id)) [
  | inl e ↦ rw (e, set_bucket, bucket_of, e) refl
  | inr e ↦ rw (e, set_bucket, bucket_of, e) (bucket_of-set_bucket id b bs)
]

bucket_of-own :
    (id : String) (b : Option Bucket) (bs : List (String × Bucket))
    → (b ≡ none → bucket_of id bs ≡ none)
    → bucket_of id (set_bucket id b bs) ≡ b
unfolding set_bucket
bucket_of-own id none bs h = h refl
bucket_of-own id (some b) bs h = bucket_of-set_bucket id b bs

bucket_of-other :
    (id other : String) (b : Option Bucket) (bs : List (String × Bucket))
    → str_eq id other ≡ false
    → bucket_of other (set_bucket id b bs) ≡ bucket_of other bs
unfolding bucket_of set_bucket
bucket_of-other id other none bs h = refl
bucket_of-other id other (some b) [] h = rw (h, bucket_of) refl
bucket_of-other id other (some b) ((key, b') ∷ bs) h = elim (Bool-cases (str_eq key id)) [
  | inl e ↦
      let k : str_eq key other ≡ false =
        subst (λ x. str_eq x other ≡ false) (sym ((eq_iff key id).0 e)) h in
      rw (e, bucket_of, k) refl
  | inr e ↦ elim (Bool-cases (str_eq key other)) [
    | inl k ↦ rw (e, set_bucket, bucket_of, k) refl
    | inr k ↦ rw (e, set_bucket, bucket_of, k) (bucket_of-other id other (some b) bs h)
  ]
]

-- The key names a row of the table that is enabled, has the hash of the token and a valid limit.
pub record IsKeyOf (hash : Text → String) (rows : List ApiKeyRow) (header : Option Text)
    (key : ApiKeyPrincipal) : Type 0 where
  pub raw : Text
  pub row : ApiKeyRow
  pub is_sent : parse_bearer_token header ≡ some raw
  pub is_stored : Memᴰ row rows
  pub is_hashed : row.key_hash ≡ hash raw
  pub is_enabled : row.enabled ≡ true
  pub is_limited : is_invalid row.rate_limit ≡ false
  pub is_key : key ≡ principal row

find_key_sound :
    (key_hash : String) (rows : List ApiKeyRow) (r : ApiKeyRow)
    → find_key key_hash rows ≡ some r
    → Memᴰ r rows × (r.key_hash ≡ key_hash) × (r.enabled ≡ true)
unfolding find_key
find_key_sound key_hash [] r h = cc
find_key_sound key_hash (x ∷ rows) r h =
    elim (Bool-cases (str_eq x.key_hash key_hash && x.enabled)) [
      | inl e ↦
          let same : x ≡ r = ground arith in
          (head (sym same), ground (arith, eq_iff x.key_hash key_hash, same), ground (arith, same))
      | inr e ↦ let (m, k, b) = find_key_sound key_hash rows r (ground arith) in (tail m, k, b)
    ]

authenticate-IsKeyOf :
    (hash : Text → String) (is_down : Bool) (rows : List ApiKeyRow) (header : Option Text)
    (key : ApiKeyPrincipal)
    → authenticate hash is_down rows header ≡ returned key
    → IsKeyOf hash rows header key
unfolding authenticate find_enabled_by_hash
authenticate-IsKeyOf hash true rows header key h = elim (Option-cases (parse_bearer_token header)) [
  | inl e ↦ ground arith
  | inr (raw, e) ↦ ground arith
]
authenticate-IsKeyOf hash false rows header key h =
    elim (Option-cases (parse_bearer_token header)) [
      | inl e ↦ ground arith
      | inr (raw, e) ↦ elim (Option-cases (find_key (hash raw) rows)) [
        | inl f ↦ ground arith
        | inr (r, f) ↦ elim (Bool-cases (is_invalid r.rate_limit)) [
          | inl v ↦ ground arith
          | inr v ↦
              let (m, k, b) = find_key_sound (hash raw) rows r f in
              record {
                raw = raw;
                row = r;
                is_sent = e;
                is_stored = m;
                is_hashed = k;
                is_enabled = b;
                is_limited = v;
                is_key = ground arith;
              }
        ]
      ]
    ]

guard-returned :
    (hash : Text → String) (is_down : Bool) (rows : List ApiKeyRow)
    (redis : ScriptResult → EvalReply) (header : Option Text) (now_ms : ℕ) (s : GuardState)
    (key : ApiKeyPrincipal)
    → (guard hash is_down rows redis header now_ms s).0 ≡ returned key
    → (authenticate hash is_down rows header ≡ returned key)
      × ((d : RateLimitDecision) × ((consume redis key.rate_limit now_ms
              (bucket_of key.id s.buckets)).0
            ≡ returned d)
          × (d.allowed ≡ true))
unfolding guard identified limited
guard-returned hash is_down rows redis header now_ms s key h =
    elim (Completion-cases (authenticate hash is_down rows header)) [
      | inr (e, a) ↦ ground arith
      | inl (k, a) ↦
          elim (Completion-cases (consume redis k.rate_limit now_ms (bucket_of k.id s.buckets)).0) [
            | inr (e, c) ↦ ground arith
            | inl (d, c) ↦ elim (Bool-cases d.allowed) [
              | inr n ↦ ground arith
              | inl n ↦
                  let same : k ≡ key = ground arith in
                  (
                    a ∙ ap returned same,
                    subst
                        (λ x.
                          (d : RateLimitDecision) × ((consume redis x.rate_limit now_ms
                              (bucket_of x.id s.buckets)).0
                            ≡ returned d)
                          × (d.allowed ≡ true))
                        same (d, c, n),
                  )
            ]
          ]
    ]

-- A request that the hook lets through was sent with a token whose hash stands in the table of API keys, in a
-- row that is enabled and has a valid limit; it goes on under the key of that row, and the
-- limiter allowed it on that key's bucket.
pub guard-IsKeyOf :
    (hash : Text → String) (is_down : Bool) (rows : List ApiKeyRow)
    (redis : ScriptResult → EvalReply) (header : Option Text) (now_ms : ℕ) (s : GuardState)
    (key : ApiKeyPrincipal)
    → (guard hash is_down rows redis header now_ms s).0 ≡ returned key
    → IsKeyOf hash rows header key
      × ((d : RateLimitDecision) × ((consume redis key.rate_limit now_ms
              (bucket_of key.id s.buckets)).0
            ≡ returned d)
          × (d.allowed ≡ true))
guard-IsKeyOf hash is_down rows redis header now_ms s key h =
    let (a, d) = guard-returned hash is_down rows redis header now_ms s key h in
    (authenticate-IsKeyOf hash is_down rows header key a, d)

limited-buckets :
    (key : ApiKeyPrincipal) (d : Completion RateLimitDecision AppError) (s : GuardState)
    → (limited key d s).1.buckets ≡ s.buckets
unfolding limited
limited-buckets key (threw e) s = refl
limited-buckets key (returned d) s = elim (Bool-cases d.allowed) [
  | inl e ↦ rw (e) refl
  | inr e ↦ rw (e) refl
]

consume-none :
    (redis : ScriptResult → EvalReply) (p : _) (now_ms : ℕ) (b : Option Bucket)
    → (consume redis p now_ms b).1 ≡ none
    → b ≡ none
unfolding consume
consume-none redis p now_ms b h = ground arith

-- A request whose key is not accepted leaves the buckets of all keys as they are. Any other request, allowed
-- or not, leaves the bucket of its own key as the limiter left it, and the buckets of all others
-- as they were.
pub guard-buckets :
    (hash : Text → String) (is_down : Bool) (rows : List ApiKeyRow)
    (redis : ScriptResult → EvalReply) (header : Option Text) (now_ms : ℕ) (s : GuardState)
    → let after = (guard hash is_down rows redis header now_ms s).1.buckets in
      ((e : AppError) × (authenticate hash is_down rows header ≡ threw e) × (after ≡ s.buckets))
      ⊎ ((key : ApiKeyPrincipal) × (authenticate hash is_down rows header ≡ returned key)
          × (bucket_of key.id after
              ≡ (consume redis key.rate_limit now_ms (bucket_of key.id s.buckets)).1)
          × ((other : String)
              → str_eq key.id other ≡ false
              → bucket_of other after ≡ bucket_of other s.buckets))
unfolding guard identified
guard-buckets hash is_down rows redis header now_ms s =
    elim (Completion-cases (authenticate hash is_down rows header)) [
      | inr (e, a) ↦ inl (e, a, rw (a, identified) refl)
      | inl (k, a) ↦
          let (d, b) = consume redis k.rate_limit now_ms (bucket_of k.id s.buckets) in
          let kept =
            limited-buckets k d
              (record s { api_key = some k; buckets = set_bucket k.id b s.buckets }) in
          inr (
            k,
            a,
            rw (a, identified, kept)
                (bucket_of-own k.id b s.buckets
                  (consume-none redis k.rate_limit now_ms (bucket_of k.id s.buckets))),
            λ other h. rw (a, identified, kept) (bucket_of-other k.id other b s.buckets h),
          )
    ]
