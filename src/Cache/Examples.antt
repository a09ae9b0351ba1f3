-- ===== src/Cache/Examples.antt =====
-- A cache of answers of at most four bytes, for ten seconds (src/cache/redis-chat-cache.ts).
use model_mux.Prelude.{
  ℕ, ◌≡◌, refl, String, str_eq, true, false, List, [], ◌∷◌, Option, some, arith,
}
use model_mux.Circuit.{returned}
use model_mux.Routing.{ChatRequest, ChatResponse}
use model_mux.Json.{Json}
use model_mux.Cache.{CacheOptions, lost, answered, json_of, Codec, Entry, live_entry, get, put}
use model_mux.Cache.Rounds.{put-keeps, get-put}

-- The requests of an owner share one key, and one JSON value has a byte.
abbrev codec : (Json → List ℕ) → (List ℕ → Option Json) → Codec
codec stringify parse = record {
  hash = λ _ owner_id _. owner_id;
  stringify = stringify;
  parse = parse;
  byte_length = λ _. 1;
}

abbrev options : CacheOptions
options = record { namespace = "n"; ttl_seconds = 10; max_entry_bytes = 4; timeout_ms = 100 }

abbrev request : ChatRequest
request = record { model = "m"; messages = [] }

abbrev answer : ChatResponse
answer = record { content = "a" }

abbrev byte_codec : Codec
byte_codec = codec (λ _. 65 ∷ []) (λ _. some (json_of answer))

put-keeps_example :
    let after = (put byte_codec options (lost true) 5 "o" request answer false []).1 in
    ((e : Entry) → live_entry "modelmux:chat-cache:v1:o" 5 [] ≡ some e → after ≡ [])
    × ((other : String) (at : ℕ)
        → str_eq "modelmux:chat-cache:v1:o" other ≡ false
        → live_entry other at after ≡ live_entry other at [])
put-keeps_example = put-keeps byte_codec options (lost true) 5 "o" request answer false []

get-put_example :
    let redis = (put byte_codec options answered 5 "o" request answer false []).1 in
    (get byte_codec options answered 10004 "o" request false redis).0 ≡ returned (some answer)
unfolding live_entry
get-put_example =
    get-put byte_codec options 5 10004 "o" request answer [] refl refl (omega arith) (omega arith)
      (omega arith) (omega arith)
