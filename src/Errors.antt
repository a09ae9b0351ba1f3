-- ===== src/Errors.antt =====
-- src/errors.ts, src/cancellation.ts (RequestAbortedError) and src/providers/failure-policy.ts: the
-- errors that the gateway throws, how they are reported, and which of them are transient.
--
-- A class that extends AppError is a constructor with the fields that the class keeps; the JS `cause`
-- and the stack are left out. `Error` is any value that a `catch` of the modelled code may meet.
-- A delay of a circuit is a whole number of milliseconds.
pub mod Delays
use model_mux.Prelude.{
  ℕ, ◌+◌, ◌/◌, max, Bool, true, false, ◌||◌, String, ◌<>◌, Option, none, some, List, [], ◌∷◌, leb,
  ◌==◌,
}

pub data AppError : Type 0 where
  provider_http_error : String → ℕ → Option String → AppError
  provider_connection_error : String → AppError
  provider_response_error : String → AppError
  provider_timeout_error : String → ℕ → AppError
  provider_circuit_open_error : String → ℕ → AppError
  provider_streaming_unsupported_error : AppError
  authentication_error : AppError
  api_key_store_unavailable_error : AppError
  rate_limit_exceeded_error : ℕ → AppError
  rate_limiter_unavailable_error : AppError
  concurrency_queue_full_error : ℕ → ℕ → AppError
  concurrency_wait_timeout_error : ℕ → AppError
  job_queue_unavailable_error : AppError
  job_not_found_error : AppError
  idempotency_conflict_error : AppError

pub data Error : Type 0 where
  app : AppError → Error
  request_aborted_error : Error
  circuit_open_error : ℕ → Error
  stream_consumer_error : Error
  unexpected : String → Error

unfoldable pub status_code : AppError → ℕ
status_code (provider_http_error _ _ _) = 502
status_code (provider_connection_error _) = 503
status_code (provider_response_error _) = 502
status_code (provider_timeout_error _ _) = 504
status_code (provider_circuit_open_error _ _) = 503
status_code provider_streaming_unsupported_error = 501
status_code authentication_error = 401
status_code api_key_store_unavailable_error = 503
status_code (rate_limit_exceeded_error _) = 429
status_code rate_limiter_unavailable_error = 503
status_code (concurrency_queue_full_error _ _) = 503
status_code (concurrency_wait_timeout_error _) = 503
status_code job_queue_unavailable_error = 503
status_code job_not_found_error = 404
status_code idempotency_conflict_error = 409

unfoldable pub code : AppError → String
code (provider_http_error _ _ _) = "PROVIDER_ERROR"
code (provider_connection_error _) = "PROVIDER_UNAVAILABLE"
code (provider_response_error _) = "INVALID_PROVIDER_RESPONSE"
code (provider_timeout_error _ _) = "PROVIDER_TIMEOUT"
code (provider_circuit_open_error _ _) = "PROVIDER_CIRCUIT_OPEN"
code provider_streaming_unsupported_error = "STREAMING_UNSUPPORTED"
code authentication_error = "INVALID_API_KEY"
code api_key_store_unavailable_error = "API_KEY_STORE_UNAVAILABLE"
code (rate_limit_exceeded_error _) = "RATE_LIMIT_EXCEEDED"
code rate_limiter_unavailable_error = "RATE_LIMITER_UNAVAILABLE"
code (concurrency_queue_full_error _ _) = "CONCURRENCY_QUEUE_FULL"
code (concurrency_wait_timeout_error _) = "CONCURRENCY_WAIT_TIMEOUT"
code job_queue_unavailable_error = "JOB_QUEUE_UNAVAILABLE"
code job_not_found_error = "JOB_NOT_FOUND"
code idempotency_conflict_error = "IDEMPOTENCY_CONFLICT"

unfoldable pub message : AppError → String
message (provider_http_error provider _ _) = provider <> " request failed"
message (provider_connection_error provider) = "Unable to connect to " <> provider
message (provider_response_error provider) = provider <> " returned an invalid response"
message (provider_timeout_error provider _) = provider <> " request timed out"
message (provider_circuit_open_error provider _) = provider <> " circuit is temporarily open"
message provider_streaming_unsupported_error = "The configured provider does not support streaming"
message authentication_error = "Missing or invalid API key"
message api_key_store_unavailable_error = "API key service is unavailable"
message (rate_limit_exceeded_error _) = "Rate limit exceeded"
message rate_limiter_unavailable_error = "Rate limiter is unavailable"
message (concurrency_queue_full_error _ _) = "Provider execution queue is full"
message (concurrency_wait_timeout_error _) = "Timed out waiting for provider capacity"
message job_queue_unavailable_error = "Inference job queue is unavailable"
message job_not_found_error = "Job not found"
message idempotency_conflict_error =
    "Idempotency key has already been used with a different request"

-- A header of an error reply; `retry_after n` is the header "retry-after" with `String(n)`.
pub data Header : Type 0 where
  retry_after : ℕ → Header
  www_authenticate : String → Header

-- `Math.max(1, Math.ceil(ms / 1_000))`.
unfoldable pub retry_seconds : ℕ → ℕ
retry_seconds ms = max 1 ((ms + 999) / 1000)

unfoldable pub headers : AppError → List Header
unfolding retry_seconds
headers (provider_circuit_open_error _ ms) = retry_after (retry_seconds ms) ∷ []
headers authentication_error = www_authenticate "Bearer realm=\"modelmux\"" ∷ []
headers (rate_limit_exceeded_error seconds) = retry_after seconds ∷ []
headers (concurrency_queue_full_error _ _) = retry_after 1 ∷ []
headers (concurrency_wait_timeout_error _) = retry_after 1 ∷ []
headers job_queue_unavailable_error = retry_after 1 ∷ []
headers _ = []

-- `upstreamStatus === 429 || upstreamStatus >= 500`.
is_transient_status : ℕ → Bool
is_transient_status s = s == 429 || leb 500 s

unfoldable pub is_retryable_provider_error : Error → Bool
unfolding is_transient_status
is_retryable_provider_error (app (provider_circuit_open_error _ _)) = true
is_retryable_provider_error (app (provider_connection_error _)) = true
is_retryable_provider_error (app (provider_timeout_error _ _)) = true
is_retryable_provider_error (app (provider_http_error _ status _)) = is_transient_status status
is_retryable_provider_error _ = false
