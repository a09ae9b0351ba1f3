-- ===== src/Config/Sound.antt =====
-- What every configuration that `loadConfig` of src/config.ts accepts is good for.
use model_mux.Prelude.{◌+◌, ◌*◌, ◌≤◌, ◌<◌, ◌≡◌, String, some}
use model_mux.Circuit.{Completion, returned}
use model_mux.Admission
use model_mux.Admission.Options.{new-built as limiter_new}
use model_mux.Cache.{CacheOptions, CacheError}
use model_mux.Cache
use model_mux.Config.{Host, Config, max_int}
use model_mux.Config.Load.{provider_execution_timeout_ms}
use model_mux.Config.Providers.Building.{ProviderFate}
use model_mux.Config.Startup.{concurrency_limiter, job_store_options, chat_cache}

-- What can be built from a configuration.
pub record IsSound (host : Host) (namespace : String) (c : Config) : Type 0 where
  pub limiter : (l : Admission.Limiter) × (concurrency_limiter c ≡ Admission.built l)
  pub providers : ProviderFate host c
  pub cache :
      (x : Completion CacheOptions CacheError)
      → chat_cache namespace c ≡ some x
      → (o : CacheOptions) × (x ≡ returned o)
  pub job_attempts :
      (1 ≤ (job_store_options c).max_attempts) × ((job_store_options c).max_attempts ≤ max_int)
  pub job_backoff :
      (1 ≤ (job_store_options c).backoff_ms) × ((job_store_options c).backoff_ms ≤ max_int)
  pub lease :
      (provider_execution_timeout_ms c < (job_store_options c).lease_ms)
      × ((job_store_options c).lease_ms ≤ 2 * max_int + 30000)
