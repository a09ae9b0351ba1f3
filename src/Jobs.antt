-- ===== src/Jobs.antt =====
-- src/queue/job-queue.ts, src/queue/job-error.ts and the row type of src/queue/postgres-job-store.ts:
-- inference jobs, their receipts and states, and the errors that a poller may see.
pub mod Table
pub mod Rows
pub mod Life
pub mod Fence
pub mod Outcome
pub mod Retry
pub mod Contract
pub mod Dispatch
pub mod Methods
pub mod Submission
pub mod Attempts
mod Examples
use model_mux.Prelude.{
  ℕ, Bool, true, false, ◌||◌, String, Option, none, some, if◌then◌else◌, str_eq,
}

pub data Status : Type 0 where
  queued active retrying completed failed : Status

pub data JobErrorCode : Type 0 where
  provider_unavailable provider_timeout provider_circuit_open : JobErrorCode
  provider_error invalid_provider_response job_failed : JobErrorCode

-- The keys of `publicErrors`.
unfoldable pub code_text : JobErrorCode → String
code_text provider_unavailable = "PROVIDER_UNAVAILABLE"
code_text provider_timeout = "PROVIDER_TIMEOUT"
code_text provider_circuit_open = "PROVIDER_CIRCUIT_OPEN"
code_text provider_error = "PROVIDER_ERROR"
code_text invalid_provider_response = "INVALID_PROVIDER_RESPONSE"
code_text job_failed = "JOB_FAILED"

-- The values of `publicErrors`.
unfoldable pub public_message : JobErrorCode → String
public_message provider_unavailable = "Unable to connect to the inference provider"
public_message provider_timeout = "Inference provider request timed out"
public_message provider_circuit_open = "Inference provider is temporarily unavailable"
public_message provider_error = "Inference provider request failed"
public_message invalid_provider_response = "Inference provider returned an invalid response"
public_message job_failed = "Inference job failed"

pub record JobProcessingError : Type 0 where
  pub code : JobErrorCode
  pub retryable : Bool
  pub retry_after_ms : ℕ

pub record PublicError : Type 0 where
  pub code : JobErrorCode
  pub message : String

-- `Object.hasOwn(publicErrors, reason) ? reason : "JOB_FAILED"`.
unfoldable pub own_code : String → JobErrorCode
own_code reason =
    if str_eq reason "PROVIDER_UNAVAILABLE"
    then provider_unavailable
    else if str_eq reason "PROVIDER_TIMEOUT"
    then provider_timeout
    else if str_eq reason "PROVIDER_CIRCUIT_OPEN"
    then provider_circuit_open
    else if str_eq reason "PROVIDER_ERROR"
    then provider_error
    else if str_eq reason "INVALID_PROVIDER_RESPONSE"
    then invalid_provider_response
    else job_failed

unfoldable pub public_job_error : String → PublicError
unfolding own_code public_message
public_job_error reason = record {
  code = own_code reason;
  message = public_message (own_code reason);
}

pub record JobSubmission (D : Type 0) : Type 0 where
  pub owner_id : String
  pub request_id : String
  pub idempotency_key : String
  pub job_data : D

pub record JobReceipt : Type 0 where
  pub id : String
  pub request_id : String

pub record JobStatus (R : Type 0) : Type 0 where
  pub id : String
  pub request_id : String
  pub status : Status
  pub attempts_made : ℕ
  pub response : Option R
  pub error : Option PublicError

pub record JobEnvelope : Type 0 where
  pub id : String
  pub attempt : ℕ

pub record ProcessingJob (D : Type 0) : Type 0 where
  pub id : String
  pub owner_id : String
  pub request_id : String
  pub job_data : D
  pub attempt : ℕ
  pub queue_wait_time_ms : ℕ

pub record JobStoreOptions : Type 0 where
  pub name : String
  pub max_attempts : ℕ
  pub backoff_ms : ℕ
  pub lease_ms : ℕ

-- A row of the table inference_jobs (db/migrations/002_create_inference_jobs.sql). Times are
-- milliseconds; a NULL is `none`.
pub record JobRow (D R : Type 0) : Type 0 where
  pub id : String
  pub queue_name : String
  pub owner_id : String
  pub idempotency_hash : String
  pub payload_hash : String
  pub request_id : String
  pub job_data : D
  pub status : Status
  pub attempts_made : ℕ
  pub max_attempts : ℕ
  pub backoff_ms : ℕ
  pub response : Option R
  pub error_code : Option String
  pub dispatch_pending : Bool
  pub available_at : ℕ
  pub lease_until : Option ℕ
  pub finished_at : Option ℕ
