-- ===== src/Config/Providers/Building.antt =====
-- When the providers of src/providers/create-provider.ts are built.
use model_mux.Prelude.{
  ltb, subst, ℕ, ◌≤◌, ◌≡◌, ◌≢◌, refl, ap, ◌∙◌, ◌⊎◌, inl, inr, true, false, String, [], ◌∷◌, Option,
  none, some, arith, All, Bool-cases, Option-cases,
}
use model_mux.Circuit.{CircuitBreaker, Completion, returned, threw}
use model_mux.Circuit.Options.{new-built}
use model_mux.Streaming.{Text}
use model_mux.Config.{Host, Config, OpenAiConfig, max_int, ◌>>=◌}
use model_mux.Config.Bounds.{IsBounded, IsWithin}
use model_mux.Config.Providers.{
  StartupError, is_token, all_visible, normalized_base_url, new_ollama, new_openai, new_circuit,
  Fallback, Providers, create_fallback, create_provider, bad_api_key,
}

-- A key of visible ASCII characters, at least one.
pub IsToken : Text → Type 0
IsToken text = (text ≢ []) × All (λ c. (33 ≤ c) × (c ≤ 126)) text

all_visible-All : (text : Text) → all_visible text ≡ true → All (λ c. (33 ≤ c) × (c ≤ 126)) text
unfolding all_visible
all_visible-All [] h = tt
all_visible-All (c ∷ cs) h =
    ((ground (arith, h), ground (arith, h)), all_visible-All cs (ground (arith, h)))

All-all_visible : (text : Text) → All (λ c. (33 ≤ c) × (c ≤ 126)) text → all_visible text ≡ true
unfolding all_visible
All-all_visible [] h = refl
All-all_visible (c ∷ cs) h = let rest = All-all_visible cs h.1 in ground (arith, h.0.0, h.0.1, rest)

is_token-IsToken : (text : Text) → is_token text ≡ true → IsToken text
unfolding is_token IsToken
is_token-IsToken [] h = cc
is_token-IsToken (c ∷ cs) h = ((λ e. cc), all_visible-All (c ∷ cs) h)

IsToken-is_token : (text : Text) → IsToken text → is_token text ≡ true
unfolding is_token IsToken
IsToken-is_token [] h = absurd (h.0 refl)
IsToken-is_token (c ∷ cs) h = All-all_visible (c ∷ cs) h.1

bound-returned :
    {A B E : Type 0} (m : Completion A E) (f : A → Completion B E) (x : A) (k : Completion B E)
    → m ≡ returned x
    → f x ≡ k
    → (m >>= f) ≡ k
unfolding ◌>>=◌
bound-returned (returned y) f x k h e = let same : y ≡ x = cc in ap f same ∙ e
bound-returned (threw d) f x k h e = cc

bound-threw :
    {A B E : Type 0} (m : Completion A E) (f : A → Completion B E) (d : E)
    → m ≡ threw d
    → (m >>= f) ≡ threw d
unfolding ◌>>=◌
bound-threw (returned y) f d h = cc
bound-threw (threw e) f d h = let same : e ≡ d = cc in ap threw same

circuit_made : (c : Config) → IsBounded c → (b : CircuitBreaker) × (new_circuit c ≡ returned b)
unfolding new_circuit IsWithin
circuit_made c b =
    let (k, e) =
      new-built c.circuit_breaker.failure_threshold c.circuit_breaker.reset_timeout_ms b.threshold.0
        (omega (arith, b.threshold.1)) b.reset.0 (omega (arith, b.reset.1)) in
    (k, rw (e, new_circuit) refl)

-- `new URL` accepts a path on a base that is an http or https URL, with a slash put at its end if there is none.
unfoldable pub Resolves : Host → Type 0
Resolves host =
    (base : String)
    → (host.protocol base ≡ some "http:") ⊎ (host.protocol base ≡ some "https:")
    → (url : String) × (host.resolve "api/chat" (normalized_base_url host base) ≡ some url)

ollama_made :
    (host : Host) (base url : String) (ms : ℕ)
    → host.resolve "api/chat" (normalized_base_url host base) ≡ some url
    → IsWithin 1 max_int ms
    → new_ollama host base ms ≡ returned (record { chat_url = url; request_timeout_ms = ms })
unfolding new_ollama IsWithin
ollama_made host base url ms h w =
    let low : ltb ms 1 ≡ false = ground (arith, w.0) in
    let high : ltb max_int ms ≡ false = ground (arith, w.1) in rw (low, high, h) refl

openai_made :
    (host : Host) (key : String) (ms : ℕ)
    → is_token (host.code_units key) ≡ true
    → IsWithin 1 max_int ms
    → new_openai host key ms ≡ returned (record { api_key = key; request_timeout_ms = ms })
unfolding new_openai IsWithin
openai_made host key ms h w =
    let low : ltb ms 1 ≡ false = ground (arith, w.0) in
    let high : ltb max_int ms ≡ false = ground (arith, w.1) in rw (h, low, high) refl

openai_refused :
    (host : Host) (key : String) (ms : ℕ)
    → is_token (host.code_units key) ≡ false
    → new_openai host key ms ≡ threw bad_api_key
unfolding new_openai
openai_refused host key ms h = rw (h) refl

-- The fallback is built, with a key that is a token; or its key is none.
pub FallbackFate : Host → Config → Completion (Option Fallback) StartupError → Type 0
FallbackFate host c result =
    ((f : Option Fallback) × (result ≡ returned f)
      × ((o : OpenAiConfig) → c.openai ≡ some o → IsToken (host.code_units o.api_key)))
    ⊎ ((o : OpenAiConfig) × (c.openai ≡ some o)
        × (IsToken (host.code_units o.api_key) → ⊥)
        × (result ≡ threw bad_api_key))

fallback_fate :
    (host : Host) (c : Config) → IsBounded c → FallbackFate host c (create_fallback host c c.openai)
unfolding create_fallback FallbackFate
fallback_fate host c b = elim (Option-cases c.openai) [
  | inl e ↦ inl (none, ap (create_fallback host c) e, λ o h. ground (arith, e, h))
  | inr (o, e) ↦
      let (k, made) = circuit_made c b in
      let units = host.code_units o.api_key in
      elim (Bool-cases (is_token units)) [
        | inl t ↦
            let key = openai_made host o.api_key o.request_timeout_ms t (b.openai_timeout o e) in
            inl (
              some (record {
                provider = record {
                  api_key = o.api_key;
                  request_timeout_ms = o.request_timeout_ms;
                };
                circuit = k;
                model_map = o.model_map;
              }),
              ap (create_fallback host c) e
                  ∙ bound-returned _ _ _ _ key (bound-returned _ _ _ _ made refl),
              λ x h.
                  let same : o ≡ x = ground (arith, e, h) in
                  subst (λ y. IsToken (host.code_units y.api_key)) same (is_token-IsToken units t),
            )
        | inr n ↦ inr (
          o,
          e,
          λ t. let y = IsToken-is_token units t in absurd (ground (arith, n, y)),
          ap (create_fallback host c) e
              ∙ bound-threw _ _ _ (openai_refused host o.api_key o.request_timeout_ms n),
        )
      ]
]

-- What `createProvider` gives: the providers, or the error of an API key that is no token.
pub ProviderFate : Host → Config → Type 0
ProviderFate host c =
    ((p : Providers) × (create_provider host c ≡ returned p)
      × ((o : OpenAiConfig) → c.openai ≡ some o → IsToken (host.code_units o.api_key)))
    ⊎ ((o : OpenAiConfig) × (c.openai ≡ some o)
        × (IsToken (host.code_units o.api_key) → ⊥)
        × (create_provider host c ≡ threw bad_api_key))

pub provider_fate :
    (host : Host) (c : Config) (url : String)
    → IsBounded c
    → host.resolve "api/chat" (normalized_base_url host c.ollama_base_url) ≡ some url
    → ProviderFate host c
unfolding create_provider FallbackFate ProviderFate
provider_fate host c url b h =
    let (k, made) = circuit_made c b in
    let ollama =
      ollama_made host c.ollama_base_url url c.ollama_request_timeout_ms h b.ollama_timeout in
    elim (fallback_fate host c b) [
      | inl (f, e, t) ↦ inl (
        _,
        bound-returned _ _ _ _ ollama (bound-returned _ _ _ _ made (bound-returned _ _ _ _ e refl)),
        t,
      )
      | inr (o, s, n, e) ↦ inr (
        o,
        s,
        n,
        bound-returned _ _ _ _ ollama (bound-returned _ _ _ _ made (bound-threw _ _ _ e)),
      )
    ]
