-- ===== src/Config.antt =====
-- src/config.ts: the configuration from the environment, and what src/server.ts, src/worker.ts and
-- src/providers/create-provider.ts build from it.
--
-- `Number`, `trim`, `JSON.parse`, `new URL` and the code units of a string are fields of `Host`. A variable that is not set is `none`. An error
-- is its kind and the name of the variable; the text of its message is left out.
pub mod Load
pub mod Startup
pub mod Providers
pub mod Bounds
pub mod Sound
mod Examples
use model_mux.Prelude.{
  ℕ, ◌+◌, Bool, true, false, not, ◌&&◌, ◌||◌, String, List, [], ◌∷◌, Option, none, some,
  if◌then◌else◌, str_eq, ltb,
}
use model_mux.Prelude.Int.{ℤ, pos, negsuc, pos_part, neg_part}
use model_mux.Circuit.{Completion, returned, threw}
use model_mux.Streaming.{Text}

-- What JSON.parse gives for the model map: it throws, it is no object, or the entries of an object, each
-- with its value if that is a string.
pub data ParsedMap : Type 0 where
  no_json not_object : ParsedMap
  entries : List (String × Option String) → ParsedMap

-- `number`: `Number(value)`, if it is an integer. `protocol`: `new URL(value).protocol`, if the URL is valid.
-- `resolve`: `new URL(path, base)`, if it is valid.
pub record Host : Type 0 where
  pub number : String → Option ℤ
  pub trim : String → String
  pub protocol : String → Option String
  pub parse_json : String → ParsedMap
  pub code_units : String → Text
  pub resolve : (path base : String) → Option String

pub record Environment : Type 0 where
  pub port : Option String
  pub ollama_base_url : Option String
  pub ollama_request_timeout_ms : Option String
  pub database_url : Option String
  pub redis_url : Option String
  pub rabbitmq_url : Option String
  pub provider_max_concurrency : Option String
  pub provider_max_queue_size : Option String
  pub provider_queue_timeout_ms : Option String
  pub job_concurrency : Option String
  pub job_max_attempts : Option String
  pub job_backoff_ms : Option String
  pub openai_fallback_model_map : Option String
  pub openai_api_key : Option String
  pub openai_request_timeout_ms : Option String
  pub circuit_breaker_failure_threshold : Option String
  pub circuit_breaker_reset_timeout_ms : Option String
  pub chat_cache_ttl_seconds : Option String
  pub chat_cache_max_entry_bytes : Option String
  pub chat_cache_timeout_ms : Option String
  pub chat_cache_version : Option String
  pub metrics_host : Option String
  pub gateway_metrics_port : Option String
  pub worker_metrics_port : Option String

pub record OpenAiConfig : Type 0 where
  pub api_key : String
  pub request_timeout_ms : ℕ
  pub model_map : List (String × String)

pub record CircuitBreakerConfig : Type 0 where
  pub failure_threshold : ℕ
  pub reset_timeout_ms : ℕ

pub record ChatCacheConfig : Type 0 where
  pub ttl_seconds : ℕ
  pub max_entry_bytes : ℕ
  pub timeout_ms : ℕ
  pub version : String

pub record MetricsConfig : Type 0 where
  pub host : String
  pub gateway_port : ℕ
  pub worker_port : ℕ

pub record Config : Type 0 where
  pub port : ℕ
  pub ollama_base_url : String
  pub ollama_request_timeout_ms : ℕ
  pub database_url : String
  pub redis_url : String
  pub rabbitmq_url : String
  pub provider_max_concurrency : ℕ
  pub provider_max_queue_size : ℕ
  pub provider_queue_timeout_ms : ℕ
  pub job_concurrency : ℕ
  pub job_max_attempts : ℕ
  pub job_backoff_ms : ℕ
  pub openai : Option OpenAiConfig
  pub circuit_breaker : CircuitBreakerConfig
  pub chat_cache : ChatCacheConfig
  pub metrics : MetricsConfig

pub data ConfigError : Type 0 where
  bad_port not_positive not_natural bad_url bad_protocol : String → ConfigError
  bad_json no_object bad_names no_api_key : ConfigError

abbrev pub Loaded : Type 0 → Type 0
Loaded T = Completion T ConfigError

infixl 5 ◌>>=◌ ◌>>◌
unfoldable pub ◌>>=◌ : {A B E : Type 0} → Completion A E → (A → Completion B E) → Completion B E
◌>>=◌ m f = elim m [ returned x ↦ f x | threw e ↦ threw e ]

abbrev pub ◌>>◌ : {A B E : Type 0} → Completion A E → Completion B E → Completion B E
m >> k = m >>= λ _. k

abbrev pub max_int : ℕ
max_int = 2147483647

-- `env.X ?? default`.
abbrev pub or_default : Option String → String → String
or_default none default = default
or_default (some value) default = value

-- The numbers from `low` to `high` that the parsers accept. A number that is no integer has no value.
unfoldable pub in_range : (low high : ℕ) → ConfigError → Option ℤ → Loaded ℕ
in_range low high e none = threw e
in_range low high e (some (negsuc n)) = threw e
in_range low high e (some (pos n)) = if ltb n low || ltb high n then threw e else returned n

module _ (host : Host) where
  unfoldable pub parse_port : String → String → Loaded ℕ
  parse_port value name = in_range 1 65535 (bad_port name) (host.number value)

  unfoldable pub parse_positive_integer : String → String → Loaded ℕ
  parse_positive_integer value name = in_range 1 max_int (not_positive name) (host.number value)

  unfoldable pub parse_non_negative_integer : String → String → Loaded ℕ
  parse_non_negative_integer value name = in_range 0 max_int (not_natural name) (host.number value)

  -- `env.X?.trim() || default`.
  unfoldable pub trimmed_or : Option String → String → String
  trimmed_or none default = default
  trimmed_or (some value) default = if str_eq (host.trim value) "" then default else host.trim value

  abbrev pub includes : String → List String → Bool
  includes x [] = false
  includes x (y ∷ ys) = str_eq x y || includes x ys

  unfoldable pub validate_url : String → String → List String → Loaded (Unit {0})
  validate_url value name allowed_protocols = elim (host.protocol value) [
    | none ↦ threw (bad_url name)
    | some protocol ↦
        if includes protocol allowed_protocols then returned tt else threw (bad_protocol name)
  ]

  -- `!name.trim() || name !== name.trim()`.
  abbrev pub is_unclean : String → Bool
  is_unclean name = str_eq (host.trim name) "" || not (str_eq name (host.trim name))

  -- The loop over the entries, with the entries as a map of strings.
  unfoldable pub model_names : List (String × Option String) → Loaded (List (String × String))
  model_names [] = returned []
  model_names ((local, none) ∷ rest) = threw bad_names
  model_names ((local, some hosted) ∷ rest) =
      let later = model_names rest in
      if is_unclean local || is_unclean hosted
      then threw bad_names
      else later >>= λ names. returned ((local, hosted) ∷ names)

  -- `loadOpenAIConfig`, past the check of the entries.
  unfoldable pub openai_from : List (String × String) → Environment → Loaded (Option OpenAiConfig)
  openai_from [] env = returned none
  openai_from (m ∷ ms) env =
      let api_key = trimmed_or env.openai_api_key "" in
      if str_eq api_key ""
      then threw no_api_key
      else parse_positive_integer (or_default env.openai_request_timeout_ms "30000")
          "OPENAI_REQUEST_TIMEOUT_MS"
        >>= λ ms'.
            returned
              (some (record { api_key = api_key; request_timeout_ms = ms'; model_map = m ∷ ms }))

  -- `loadOpenAIConfig`, past JSON.parse.
  unfoldable pub openai_parsed : ParsedMap → Environment → Loaded (Option OpenAiConfig)
  openai_parsed no_json env = threw bad_json
  openai_parsed not_object env = threw no_object
  openai_parsed (entries es) env = model_names es >>= λ names. openai_from names env

  unfoldable pub load_openai_config : Environment → Loaded (Option OpenAiConfig)
  load_openai_config env =
      let raw_map = trimmed_or env.openai_fallback_model_map "" in
      if str_eq raw_map "" then returned none else openai_parsed (host.parse_json raw_map) env
