-- ===== src/Config/Startup.antt =====
-- The limiter, the store and the cache that src/server.ts and src/worker.ts build from a configuration.
use model_mux.Prelude.{◌+◌, String, Option, none, some, if◌then◌else◌, ltb}
use model_mux.Prelude.Int.{pos}
use model_mux.Circuit.{Completion}
use model_mux.Admission
use model_mux.Jobs.{JobStoreOptions}
use model_mux.Cache.{CacheOptions, CacheError}
use model_mux.Cache
use model_mux.Config.{Config}
use model_mux.Config.Load.{provider_execution_timeout_ms}

unfoldable pub concurrency_limiter : Config → Admission.Built
concurrency_limiter config =
    Admission.new (pos config.provider_max_concurrency) (pos config.provider_max_queue_size)
      (pos config.provider_queue_timeout_ms)

-- The options of the job store, the same in the gateway and the worker.
unfoldable pub job_store_options : Config → JobStoreOptions
job_store_options config = record {
  name = "modelmux-inference";
  max_attempts = config.job_max_attempts;
  backoff_ms = config.job_backoff_ms;
  lease_ms = provider_execution_timeout_ms config + 30000;
}

-- The cache of answers, under the namespace that is hashed from the configuration.
unfoldable pub chat_cache :
    (namespace : String) → Config → Option (Completion CacheOptions CacheError)
chat_cache namespace config =
    if ltb 0 config.chat_cache.ttl_seconds
    then some (
        Cache.new (record {
          namespace = namespace;
          ttl_seconds = config.chat_cache.ttl_seconds;
          max_entry_bytes = config.chat_cache.max_entry_bytes;
          timeout_ms = config.chat_cache.timeout_ms;
        }))
    else none
