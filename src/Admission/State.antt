-- ===== src/Admission/State.antt =====
-- The state of the limiter: the options, fields, waiters and permits of
-- src/concurrency/in-memory-concurrency-limiter.ts.
use model_mux.Prelude.{ℕ, Bool, List}

pub record LimiterOptions : Type 0 where
  pub max_concurrent : ℕ
  pub max_queue_size : ℕ
  pub wait_timeout_ms : ℕ

pub record PendingAcquire : Type 0 where
  pub id : ℕ
  pub enqueued_at : ℕ

pub record ConcurrencyPermit : Type 0 where
  pub id : ℕ
  pub wait_time_ms : ℕ
  pub active_at_admission : ℕ
  pub queued_at_admission : ℕ
  pub released : Bool

pub data AdmissionOutcome : Type 0 where
  outcome_admitted outcome_queue_full outcome_timeout outcome_cancelled : AdmissionOutcome

pub record AdmissionMetric : Type 0 where
  pub outcome : AdmissionOutcome
  pub duration_ms : ℕ

pub record Limiter : Type 0 where
  pub options : LimiterOptions
  pub open options use *
  pub active : ℕ
  pub queue : List PendingAcquire
  pub admitted : ℕ
  pub rejected : ℕ
  pub timed_out : ℕ
  pub aborted : ℕ
  pub total_wait_time_ms : ℕ
  pub max_wait_time_ms : ℕ
  pub permits : List ConcurrencyPermit
  pub next_id : ℕ
  pub metrics : List AdmissionMetric

pub data LimiterError : Type 0 where
  request_aborted : LimiterError
  queue_full : ℕ → ℕ → LimiterError
  wait_timeout : ℕ → LimiterError

pub data InvalidOption : Type 0 where
  bad_max_concurrent bad_max_queue_size bad_wait_timeout : InvalidOption
