-- ===== src/Config/Providers.antt =====
-- src/providers/create-provider.ts: the providers, their circuits and the router, with the constructors of
-- src/providers/ollama.ts and src/providers/openai.ts.
pub mod Building
use model_mux.Prelude.{
  ℕ, Bool, true, false, not, ◌&&◌, ◌||◌, ◌==◌, String, ◌<>◌, List, [], ◌∷◌, Option, none, some,
  if◌then◌else◌, ltb, leb,
}
use model_mux.Prelude.Int.{pos}
use model_mux.Circuit.{
  CircuitBreakerOptions, CircuitBreaker, OptionsError, built, invalid, Completion, returned, threw,
}
use model_mux.Circuit
use model_mux.Streaming.{Text}
use model_mux.Routing.{ProviderRouter}
use model_mux.Config.{Host, Config, OpenAiConfig, max_int, ◌>>=◌, ◌>>◌}

pub data StartupError : Type 0 where
  bad_request_timeout bad_base_url bad_api_key : StartupError
  bad_circuit : OptionsError → StartupError

abbrev pub Started : Type 0 → Type 0
Started T = Completion T StartupError

pub record OllamaProvider : Type 0 where
  pub chat_url : String
  pub request_timeout_ms : ℕ

pub record OpenAiProvider : Type 0 where
  pub api_key : String
  pub request_timeout_ms : ℕ

-- `/^[\x21-\x7E]+$/`.
unfoldable pub all_visible : Text → Bool
all_visible [] = true
all_visible (c ∷ cs) = leb 33 c && leb c 126 && all_visible cs

unfoldable pub is_token : Text → Bool
unfolding all_visible
is_token [] = false
is_token (c ∷ cs) = all_visible (c ∷ cs)

-- `baseUrl.endsWith("/")`.
abbrev pub ends_with_slash : Text → Bool
ends_with_slash [] = false
ends_with_slash (c ∷ []) = c == 47
ends_with_slash (c ∷ d ∷ ds) = ends_with_slash (d ∷ ds)

module _ (host : Host) where
  abbrev pub normalized_base_url : String → String
  normalized_base_url base_url =
      if ends_with_slash (host.code_units base_url) then base_url else base_url <> "/"

  -- The constructor of `OllamaProvider`.
  unfoldable pub new_ollama : String → ℕ → Started OllamaProvider
  new_ollama base_url ms =
      if ltb ms 1 || ltb max_int ms
      then threw bad_request_timeout
      else elim (host.resolve "api/chat" (normalized_base_url base_url)) [
        | none ↦ threw bad_base_url
        | some url ↦ returned (record { chat_url = url; request_timeout_ms = ms })
      ]

  -- The constructor of `OpenAIProvider`.
  unfoldable pub new_openai : String → ℕ → Started OpenAiProvider
  unfolding is_token
  new_openai api_key ms =
      if not (is_token (host.code_units api_key))
      then threw bad_api_key
      else if ltb ms 1 || ltb max_int ms
      then threw bad_request_timeout
      else returned (record { api_key = api_key; request_timeout_ms = ms })

abbrev pub circuit_options : Config → CircuitBreakerOptions
circuit_options config = record {
  failure_threshold = pos config.circuit_breaker.failure_threshold;
  reset_timeout_ms = pos config.circuit_breaker.reset_timeout_ms;
}

-- `new CircuitBreaker(config.circuitBreaker)`.
unfoldable pub new_circuit : Config → Started CircuitBreaker
new_circuit config = elim (Circuit.new (circuit_options config)) [
  | built b ↦ returned b
  | invalid e ↦ threw (bad_circuit e)
]

-- The fallback's part of the router, with its model map.
pub record Fallback : Type 0 where
  pub provider : OpenAiProvider
  pub circuit : CircuitBreaker
  pub model_map : List (String × String)

pub record Providers : Type 0 where
  pub ollama : OllamaProvider
  pub primary_circuit : CircuitBreaker
  pub fallback : Option Fallback
  pub router : ProviderRouter

abbrev pub router_with : Option Fallback → ProviderRouter
router_with fallback = record {
  primary_name = "ollama";
  fallback_target = elim fallback [
    | none ↦ none
    | some f ↦ some (record { name = "openai"; model_map = f.model_map })
  ];
}

module _ (host : Host) (config : Config) where
  unfoldable pub create_fallback : Option OpenAiConfig → Started (Option Fallback)
  create_fallback none = returned none
  create_fallback (some o) = do
    provider ← new_openai host o.api_key o.request_timeout_ms
    circuit ← new_circuit config
    returned (some (record { provider = provider; circuit = circuit; model_map = o.model_map }))

  -- `createProvider`.
  unfoldable pub create_provider : Started Providers
  create_provider = do
    ollama ← new_ollama host config.ollama_base_url config.ollama_request_timeout_ms
    primary_circuit ← new_circuit config
    fallback ← create_fallback config.openai
    returned (record {
      ollama = ollama;
      primary_circuit = primary_circuit;
      fallback = fallback;
      router = router_with fallback;
    })
