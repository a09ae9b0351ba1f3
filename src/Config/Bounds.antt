-- ===== src/Config/Bounds.antt =====
-- The bounds of every configuration that `loadConfig` of src/config.ts accepts.
use model_mux.Prelude.{
  ℕ, ◌≤◌, ◌≡◌, refl, ap, subst, ◌∙◌, inl, inr, ◌||◌, String, List, [], ◌∷◌, Option, none, some,
  arith, str_eq, eq_iff, true, ◌⊎◌, Option-cases, ltb, Bool-cases,
}
use model_mux.Prelude.Int.{ℤ, pos, negsuc}
use model_mux.Circuit.{returned, threw}
use model_mux.Config.{
  Host, Environment, Config, ConfigError, OpenAiConfig, Loaded, ◌>>=◌, max_int, in_range,
  parse_port, parse_positive_integer, parse_non_negative_integer, load_openai_config, ParsedMap,
  includes, validate_url, openai_parsed, openai_from, trimmed_or, or_default, no_json, not_object,
  entries,
}
use model_mux.Config.Load.{parse_config, load_config}

bound_first :
    {A B : Type 0} (m : Loaded A) (f : A → Loaded B) (y : B)
    → (m >>= f) ≡ returned y
    → (x : A) × (m ≡ returned x) × (f x ≡ returned y)
unfolding ◌>>=◌
bound_first (returned x) f y h = (x, refl, h)
bound_first (threw e) f y h = cc

returned-injective : {A : Type 0} (x y : A) → ◌≡◌ {A = Loaded A} (returned x) (returned y) → x ≡ y
returned-injective x y h = cc

unfoldable pub IsWithin : ℕ → ℕ → ℕ → Type 0
IsWithin low high n = (low ≤ n) × (n ≤ high)

in_range-IsWithin :
    (low high : ℕ) (e : ConfigError) (o : Option ℤ) (n : ℕ)
    → in_range low high e o ≡ returned n
    → IsWithin low high n
unfolding in_range IsWithin
in_range-IsWithin low high e none n h = cc
in_range-IsWithin low high e (some (negsuc k)) n h = cc
in_range-IsWithin low high e (some (pos k)) n h = elim (Bool-cases (ltb k low || ltb high k)) [
  | inl c ↦ ground arith
  | inr c ↦ ground arith
]

-- The bounds of the numbers of a configuration.
pub record IsBounded (c : Config) : Type 0 where
  pub port : IsWithin 1 65535 c.port
  pub gateway_port : IsWithin 1 65535 c.metrics.gateway_port
  pub worker_port : IsWithin 1 65535 c.metrics.worker_port
  pub ollama_timeout : IsWithin 1 max_int c.ollama_request_timeout_ms
  pub openai_timeout :
      (o : OpenAiConfig) → c.openai ≡ some o → IsWithin 1 max_int o.request_timeout_ms
  pub concurrency : IsWithin 1 max_int c.provider_max_concurrency
  pub queue_size : IsWithin 0 max_int c.provider_max_queue_size
  pub queue_timeout : IsWithin 1 max_int c.provider_queue_timeout_ms
  pub job_concurrency : IsWithin 1 max_int c.job_concurrency
  pub job_attempts : IsWithin 1 max_int c.job_max_attempts
  pub job_backoff : IsWithin 1 max_int c.job_backoff_ms
  pub threshold : IsWithin 1 max_int c.circuit_breaker.failure_threshold
  pub reset : IsWithin 1 max_int c.circuit_breaker.reset_timeout_ms
  pub ttl : IsWithin 0 max_int c.chat_cache.ttl_seconds
  pub entry_bytes : IsWithin 1 max_int c.chat_cache.max_entry_bytes
  pub cache_timeout : IsWithin 1 max_int c.chat_cache.timeout_ms

module _ (host : Host) (env : Environment) where
  port-IsWithin :
      (value name : String) (n : ℕ) → parse_port host value name ≡ returned n → IsWithin 1 65535 n
  unfolding parse_port
  port-IsWithin value name n h = in_range-IsWithin 1 65535 _ (host.number value) n h

  positive-IsWithin :
      (value name : String) (n : ℕ)
      → parse_positive_integer host value name ≡ returned n
      → IsWithin 1 max_int n
  unfolding parse_positive_integer
  positive-IsWithin value name n h = in_range-IsWithin 1 max_int _ (host.number value) n h

  natural-IsWithin :
      (value name : String) (n : ℕ)
      → parse_non_negative_integer host value name ≡ returned n
      → IsWithin 0 max_int n
  unfolding parse_non_negative_integer
  natural-IsWithin value name n h = in_range-IsWithin 0 max_int _ (host.number value) n h

  openai_from-IsWithin :
      (names : List (String × String)) (o : OpenAiConfig)
      → openai_from host names env ≡ returned (some o)
      → IsWithin 1 max_int o.request_timeout_ms
  unfolding openai_from
  openai_from-IsWithin [] o h = cc
  openai_from-IsWithin (m ∷ ms) o h =
      elim (Bool-cases (str_eq (trimmed_or host env.openai_api_key "") "")) [
        | inl c ↦ ground arith
        | inr c ↦
            let kept : (parse_positive_integer host
                    (or_default env.openai_request_timeout_ms "30000") "OPENAI_REQUEST_TIMEOUT_MS"
                  >>= λ n. returned (
                      some (record {
                        api_key = trimmed_or host env.openai_api_key "";
                        request_timeout_ms = n;
                        model_map = m ∷ ms;
                      })))
                ≡ returned (some o) =
              ground arith in
            let (n, p, q) = bound_first _ _ (some o) kept in
            subst (λ x. IsWithin 1 max_int x) (ground (arith, q)) (positive-IsWithin _ _ n p)
      ]

  openai_parsed-IsWithin :
      (m : ParsedMap) (o : OpenAiConfig)
      → openai_parsed host m env ≡ returned (some o)
      → IsWithin 1 max_int o.request_timeout_ms
  unfolding openai_parsed
  openai_parsed-IsWithin no_json o h = cc
  openai_parsed-IsWithin not_object o h = cc
  openai_parsed-IsWithin (entries es) o h =
      let (names, _, k) = bound_first _ _ (some o) h in openai_from-IsWithin names o k

  load_openai_config-IsWithin :
      (o : OpenAiConfig)
      → load_openai_config host env ≡ returned (some o)
      → IsWithin 1 max_int o.request_timeout_ms
  unfolding load_openai_config
  load_openai_config-IsWithin o h =
      let raw_map = trimmed_or host env.openai_fallback_model_map "" in
      elim (Bool-cases (str_eq raw_map "")) [
        | inl c ↦ ground arith
        | inr c ↦ openai_parsed-IsWithin (host.parse_json raw_map) o (ground arith)
      ]

  parse_config-IsBounded : (c : Config) → parse_config host env ≡ returned c → IsBounded c
  unfolding parse_config
  parse_config-IsBounded c h =
      let (port, h1, k1) = bound_first _ _ c h in
      let (ollama, h2, k2) = bound_first _ _ c k1 in
      let (concurrency, h3, k3) = bound_first _ _ c k2 in
      let (queue_size, h4, k4) = bound_first _ _ c k3 in
      let (queue_timeout, h5, k5) = bound_first _ _ c k4 in
      let (job_concurrency, h6, k6) = bound_first _ _ c k5 in
      let (job_attempts, h7, k7) = bound_first _ _ c k6 in
      let (job_backoff, h8, k8) = bound_first _ _ c k7 in
      let (openai, h9, k9) = bound_first _ _ c k8 in
      let (threshold, h10, k10) = bound_first _ _ c k9 in
      let (reset, h11, k11) = bound_first _ _ c k10 in
      let (ttl, h12, k12) = bound_first _ _ c k11 in
      let (entry_bytes, h13, k13) = bound_first _ _ c k12 in
      let (cache_timeout, h14, k14) = bound_first _ _ c k13 in
      let (gateway_port, h15, k15) = bound_first _ _ c k14 in
      let (worker_port, h16, k16) = bound_first _ _ c k15 in
      subst IsBounded (returned-injective _ c k16) (record {
        port = port-IsWithin _ _ port h1;
        gateway_port = port-IsWithin _ _ gateway_port h15;
        worker_port = port-IsWithin _ _ worker_port h16;
        ollama_timeout = positive-IsWithin _ _ ollama h2;
        openai_timeout = λ o e. load_openai_config-IsWithin o (h9 ∙ ap returned e);
        concurrency = positive-IsWithin _ _ concurrency h3;
        queue_size = natural-IsWithin _ _ queue_size h4;
        queue_timeout = positive-IsWithin _ _ queue_timeout h5;
        job_concurrency = positive-IsWithin _ _ job_concurrency h6;
        job_attempts = positive-IsWithin _ _ job_attempts h7;
        job_backoff = positive-IsWithin _ _ job_backoff h8;
        threshold = positive-IsWithin _ _ threshold h10;
        reset = positive-IsWithin _ _ reset h11;
        ttl = natural-IsWithin _ _ ttl h12;
        entry_bytes = positive-IsWithin _ _ entry_bytes h13;
        cache_timeout = positive-IsWithin _ _ cache_timeout h14;
      })

  pub load_config-IsBounded : (c : Config) → load_config host env ≡ returned c → IsBounded c
  unfolding load_config
  load_config-IsBounded c h =
      let (x, h1, k1) = bound_first _ _ c h in
      let (_, _, k2) = bound_first _ _ c k1 in
      let (_, _, k3) = bound_first _ _ c k2 in
      let (_, _, k4) = bound_first _ _ c k3 in
      let (_, _, k5) = bound_first _ _ c k4 in
      subst IsBounded (returned-injective x c k5) (parse_config-IsBounded x h1)

  includes-either : (x a b : String) → includes host x (a ∷ b ∷ []) ≡ true → (x ≡ a) ⊎ (x ≡ b)
  includes-either x a b h = elim (Bool-cases (str_eq x a)) [
    | inl e ↦ inl ((eq_iff x a).0 e)
    | inr e ↦ inr ((eq_iff x b).0 (ground (arith, h, e)))
  ]

  validate_url-protocol :
      (value name a b : String) (u : Unit)
      → validate_url host value name (a ∷ b ∷ []) ≡ returned u
      → (host.protocol value ≡ some a) ⊎ (host.protocol value ≡ some b)
  unfolding validate_url
  validate_url-protocol value name a b u h = elim (Option-cases (host.protocol value)) [
    | inl e ↦ ground arith
    | inr (p, e) ↦ elim (Bool-cases (includes host p (a ∷ b ∷ []))) [
      | inr n ↦ ground arith
      | inl y ↦ elim (includes-either p a b y) [
        | inl same ↦ inl (e ∙ ap some same)
        | inr same ↦ inr (e ∙ ap some same)
      ]
    ]
  ]

  pub load_config-base_url :
      (c : Config)
      → load_config host env ≡ returned c
      → (host.protocol c.ollama_base_url ≡ some "http:")
        ⊎ (host.protocol c.ollama_base_url ≡ some "https:")
  unfolding load_config
  load_config-base_url c h =
      let (x, h1, k1) = bound_first _ _ c h in
      let (u, valid, k2) = bound_first _ _ c k1 in
      let (_, _, k3) = bound_first _ _ c k2 in
      let (_, _, k4) = bound_first _ _ c k3 in
      let (_, _, k5) = bound_first _ _ c k4 in
      let found = validate_url-protocol x.ollama_base_url _ _ _ u valid in
      subst
        (λ y.
          (host.protocol y.ollama_base_url ≡ some "http:")
          ⊎ (host.protocol y.ollama_base_url ≡ some "https:"))
        (returned-injective x c k5) found
