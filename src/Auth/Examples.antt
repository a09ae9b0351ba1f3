-- ===== src/Auth/Examples.antt =====
-- One API key, whose token is "ab" (src/auth).
use model_mux.Prelude.{◌≡◌, refl, ◌⊎◌, ◌↔◌, true, false, String, [], ◌∷◌, none, some, str_eq}
use model_mux.Prelude.Int.{pos}
use model_mux.Errors.{AppError}
use model_mux.Circuit.{returned, threw}
use model_mux.Streaming.{Text}
use model_mux.RateLimit.{RateLimitPolicy, RateLimitDecision, consume, faithful}
use model_mux.Auth.{
  ApiKeyPrincipal, ApiKeyRow, GuardState, guard, authenticate, bucket_of, principal,
  parse_bearer_token,
}
use model_mux.Auth.Bearer.{IsHeader, parse_bearer_token-IsHeader}
use model_mux.Auth.Guard.{IsKeyOf, guard-IsKeyOf, guard-buckets}

abbrev policy : RateLimitPolicy
policy = record { capacity = pos 2; refill_num = pos 1; refill_den = 2 }

abbrev key_row : ApiKeyRow
key_row = record {
  id = "k1";
  name = "tests";
  key_prefix = "ab";
  key_hash = "h";
  enabled = true;
  rate_limit = policy;
}

-- "bEARER  ab".
abbrev header : Text
header = 98 ∷ 69 ∷ 65 ∷ 82 ∷ 69 ∷ 82 ∷ 32 ∷ 32 ∷ 97 ∷ 98 ∷ []

abbrev hash : Text → String
hash t = "h"

abbrev idle : GuardState
idle = record { api_key = none; limit_headers = none; buckets = []; rejections = 0 }

parse_bearer_token-IsHeader_example :
    IsHeader header (97 ∷ 98 ∷ []) ↔ (parse_bearer_token (some header) ≡ some (97 ∷ 98 ∷ []))
parse_bearer_token-IsHeader_example = parse_bearer_token-IsHeader header (97 ∷ 98 ∷ [])

guard-IsKeyOf_example :
    IsKeyOf hash (key_row ∷ []) (some header) (principal key_row)
    × ((d : RateLimitDecision) × ((consume faithful policy 1000 none).0 ≡ returned d)
        × (d.allowed ≡ true))
unfolding guard model_mux.Auth.is_space model_mux.RateLimit.is_invalid consume
guard-IsKeyOf_example =
    guard-IsKeyOf hash false (key_row ∷ []) faithful (some header) 1000 idle (principal key_row)
      refl

guard-buckets_example :
    let after = (guard hash false (key_row ∷ []) faithful (some header) 1000 idle).1.buckets in
    ((e : AppError) × (authenticate hash false (key_row ∷ []) (some header) ≡ threw e)
      × (after ≡ []))
    ⊎ ((key : ApiKeyPrincipal) × (authenticate hash false (key_row ∷ []) (some header)
          ≡ returned key)
        × (bucket_of key.id after ≡ (consume faithful key.rate_limit 1000 (bucket_of key.id [])).1)
        × ((other : String)
            → str_eq key.id other ≡ false
            → bucket_of other after ≡ bucket_of other []))
guard-buckets_example = guard-buckets hash false (key_row ∷ []) faithful (some header) 1000 idle
