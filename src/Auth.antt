-- ===== src/Auth.antt =====
-- src/auth/api-keys.ts, src/auth/postgres-api-key-store.ts and src/auth/guard.ts: who may make a request.
--
-- A header is the list of its UTF-16 code units. SHA-256 is an argument. The table of API keys is a list of
-- rows, and the Redis keys of the rate limiter are an association list by the id of the API key, which the
-- key's name holds. A refill rate is a fraction with a denominator of 1 or more.
pub mod Bearer
pub mod Guard
mod Examples
use model_mux.Prelude.{
  ℕ, ◌+◌, Bool, true, false, not, ◌&&◌, ◌||◌, String, List, [], ◌∷◌, ◌++◌, Option, none, some, leb,
  ◌==◌, if◌then◌else◌, str_eq,
}
use model_mux.Prelude.Int.{ℤ}
use model_mux.Errors.{
  AppError, authentication_error, api_key_store_unavailable_error, rate_limit_exceeded_error,
}
use model_mux.Circuit.{Completion, returned, threw}
use model_mux.Streaming.{Text}
use model_mux.RateLimit.{
  RateLimitPolicy, RateLimitDecision, Bucket, ScriptResult, EvalReply, is_invalid, consume,
}

pub record ApiKeyPrincipal : Type 0 where
  pub id : String
  pub name : String
  pub key_prefix : String
  pub rate_limit : RateLimitPolicy

pub record ApiKeyRow : Type 0 where
  pub id : String
  pub name : String
  pub key_prefix : String
  pub key_hash : String
  pub enabled : Bool
  pub rate_limit : RateLimitPolicy

-- `\s` of a regular expression: white space and line terminators.
unfoldable pub is_space : ℕ → Bool
is_space c =
    (leb 9 c && leb c 13)
    || c == 32
    || c == 160
    || c == 5760
    || (leb 8192 c && leb c 8202)
    || c == 8232
    || c == 8233
    || c == 8239
    || c == 8287
    || c == 12288
    || c == 65279

-- A letter of the pattern under the flag `i`, by its code in lower case.
abbrev pub is_letter : ℕ → ℕ → Bool
is_letter lower c = c == lower || c + 32 == lower

-- The text after a word of ASCII letters, in any case.
unfoldable pub after_word : Text → Text → Option Text
after_word [] text = some text
after_word (l ∷ ls) [] = none
after_word (l ∷ ls) (c ∷ cs) = elim (is_letter l c) [ true ↦ after_word ls cs | false ↦ none ]

unfoldable pub drop_spaces : Text → Text
drop_spaces [] = []
drop_spaces (c ∷ cs) = elim (is_space c) [ true ↦ drop_spaces cs | false ↦ c ∷ cs ]

unfoldable pub has_space : Text → Bool
has_space [] = false
has_space (c ∷ cs) = is_space c || has_space cs

abbrev pub bearer : Text
bearer = 98 ∷ 101 ∷ 97 ∷ 114 ∷ 101 ∷ 114 ∷ []

-- `(\S+)$`.
unfoldable pub whole_token : Text → Option Text
unfolding has_space
whole_token [] = none
whole_token (c ∷ cs) = if has_space (c ∷ cs) then none else some (c ∷ cs)

-- `\s+(\S+)$`. No character is both white space and not, so there is one way to match.
unfoldable pub after_spaces : Text → Option Text
unfolding whole_token drop_spaces
after_spaces [] = none
after_spaces (c ∷ cs) = if is_space c then whole_token (drop_spaces cs) else none

-- `parseBearerToken`: the token of `/^Bearer\s+(\S+)$/i`.
unfoldable pub parse_bearer_token : Option Text → Option Text
unfolding after_word after_spaces
parse_bearer_token none = none
parse_bearer_token (some header) = elim (after_word bearer header) [
  | none ↦ none
  | some rest ↦ after_spaces rest
]

unfoldable pub find_key : String → List ApiKeyRow → Option ApiKeyRow
find_key key_hash [] = none
find_key key_hash (r ∷ rows) =
    if str_eq r.key_hash key_hash && r.enabled then some r else find_key key_hash rows

abbrev pub principal : ApiKeyRow → ApiKeyPrincipal
principal r = record {
  id = r.id;
  name = r.name;
  key_prefix = r.key_prefix;
  rate_limit = r.rate_limit;
}

-- `PostgresApiKeyStore.findEnabledByHash`; `is_down` tells that the query was rejected.
unfoldable pub find_enabled_by_hash :
    Bool → List ApiKeyRow → String → Completion (Option ApiKeyPrincipal) AppError
unfolding find_key
find_enabled_by_hash is_down rows key_hash =
    if is_down then threw api_key_store_unavailable_error else elim (find_key key_hash rows) [
      | none ↦ returned none
      | some r ↦
          if is_invalid r.rate_limit
          then threw api_key_store_unavailable_error
          else returned (some (principal r))
    ]

-- `StoredApiKeyAuthenticator.authenticate`.
unfoldable pub authenticate :
    (Text → String) → Bool → List ApiKeyRow → Option Text → Completion ApiKeyPrincipal AppError
unfolding parse_bearer_token find_enabled_by_hash
authenticate hash is_down rows header = elim (parse_bearer_token header) [
  | none ↦ threw authentication_error
  | some raw ↦ elim (find_enabled_by_hash is_down rows (hash raw)) [
    | threw e ↦ threw e
    | returned none ↦ threw authentication_error
    | returned (some key) ↦ returned key
  ]
]

unfoldable pub bucket_of : String → List (String × Bucket) → Option Bucket
bucket_of id [] = none
bucket_of id ((key, b) ∷ bs) = if str_eq key id then some b else bucket_of id bs

unfoldable pub set_bucket : String → Option Bucket → List (String × Bucket) → List (String × Bucket)
set_bucket id none bs = bs
set_bucket id (some b) [] = (id, b) ∷ []
set_bucket id (some b) ((key, b') ∷ bs) =
    if str_eq key id then (key, b) ∷ bs else (key, b') ∷ set_bucket id (some b) bs

-- What the hook leaves: the API key of the request, the two rate-limit headers, the Redis keys, and how
-- often a rejection was measured.
pub record GuardState : Type 0 where
  pub api_key : Option ApiKeyPrincipal
  pub limit_headers : Option (ℤ × ℕ)
  pub buckets : List (String × Bucket)
  pub rejections : ℕ

-- After `consume` was awaited.
unfoldable pub limited :
    ApiKeyPrincipal
    → Completion RateLimitDecision AppError
    → GuardState
    → Completion ApiKeyPrincipal AppError × GuardState
limited key (threw e) s = (threw e, s)
limited key (returned d) s =
    let s' = record s { limit_headers = some (key.rate_limit.capacity, d.remaining) } in
    if d.allowed then (returned key, s') else (
      threw (rate_limit_exceeded_error d.retry_after_seconds),
      record s' { rejections = s.rejections + 1 },
    )

-- After `authenticate` was awaited.
unfoldable pub identified :
    (ScriptResult → EvalReply)
    → ℕ
    → Completion ApiKeyPrincipal AppError
    → GuardState
    → Completion ApiKeyPrincipal AppError × GuardState
unfolding limited bucket_of set_bucket
identified redis now_ms (threw e) s = (threw e, s)
identified redis now_ms (returned key) s =
    let (d, bucket) = consume redis key.rate_limit now_ms (bucket_of key.id s.buckets) in
    limited key d (record s { api_key = some key; buckets = set_bucket key.id bucket s.buckets })

-- The `onRequest` hook: a request goes on with its API key, or fails.
unfoldable pub guard :
    (Text → String)
    → Bool
    → List ApiKeyRow
    → (ScriptResult → EvalReply)
    → Option Text
    → ℕ
    → GuardState
    → Completion ApiKeyPrincipal AppError × GuardState
unfolding authenticate identified
guard hash is_down rows redis header now_ms s =
    identified redis now_ms (authenticate hash is_down rows header) s
