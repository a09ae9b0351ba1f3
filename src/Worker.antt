-- ===== src/Worker.antt =====
-- src/queue/rabbitmq.ts (`RabbitMqJobWorker.execute`) and src/jobs/inference-processor.ts: what a worker
-- does with one delivered message.
--
-- The database is the table of Jobs.antt and its clock. The pool of connections may fail a statement:
-- before it took effect, or after, with its answer lost. While the processor is awaited, others
-- may do anything to the database. Log lines are left out.
pub mod Execution
pub mod Failures
mod Examples
use model_mux.Prelude.{
  ℕ, Bool, true, false, List, [], ◌∷◌, ◌++◌, Option, none, some, if◌then◌else◌, ltb,
}
use model_mux.Errors.{
  AppError, Error, app, provider_http_error, provider_response_error, provider_connection_error,
  provider_timeout_error, provider_circuit_open_error, is_retryable_provider_error,
}
use model_mux.Circuit.{Completion, returned, threw}
use model_mux.Jobs.{
  Status, failed, JobErrorCode, provider_unavailable, provider_timeout, provider_circuit_open,
  provider_error, invalid_provider_response, job_failed, JobProcessingError, JobEnvelope,
  ProcessingJob, JobStoreOptions, JobRow,
}
use model_mux.Jobs.Table.{is_failed}
use model_mux.Jobs.Attempts.{claim, complete, fail}

pub data Delivery : Type 0 where
  ack dead_letter : Delivery

-- `reported s` is the status `s` that `fail` returned.
pub data JobOutcome : Type 0 where
  success obsolete infrastructure_error : JobOutcome
  reported : Status → JobOutcome

pub data JobMetric : Type 0 where
  job_start : (retry : Bool) → (queue_wait_time_ms : ℕ) → JobMetric
  job_end : JobOutcome → JobMetric

pub record Database (D R : Type 0) : Type 0 where
  pub rows : List (JobRow D R)
  pub now : ℕ

pub record WorkerState (D R : Type 0) : Type 0 where
  pub database : Database D R
  pub metrics : List JobMetric

-- What the pool does with a statement.
pub data Fault : Type 0 where
  works : Fault
  refuses loses_answer : Error → Fault

pub record Pool : Type 0 where
  pub on_claim : Fault
  pub on_complete : Fault
  pub on_fail : Fault

-- What the processor throws: a `JobProcessingError`, or anything else.
pub data ProcessorError : Type 0 where
  job_processing_error : JobProcessingError → ProcessorError
  other_error : Error → ProcessorError

-- `error instanceof JobProcessingError ? error : new JobProcessingError("JOB_FAILED", false)`.
unfoldable pub failure_of : ProcessorError → JobProcessingError
failure_of (job_processing_error e) = e
failure_of (other_error _) = record { code = job_failed; retryable = false; retry_after_ms = 0 }

-- `status ?? "obsolete"`.
unfoldable pub outcome_of : Option Status → JobOutcome
outcome_of none = obsolete
outcome_of (some s) = reported s

-- `status === "failed" ? "dead-letter" : "ack"`.
unfoldable pub delivery_of : Option Status → Delivery
delivery_of none = ack
delivery_of (some s) = if is_failed s then dead_letter else ack

module _ {D R : Type 0} where
  unfoldable pub query :
      {A : Type 0}
      → Fault
      → (ℕ → List (JobRow D R) → A × List (JobRow D R))
      → WorkerState D R
      → Completion A Error × WorkerState D R
  query works statement w =
      let (answer, rows) = statement w.database.now w.database.rows in
      (returned answer, record w { database = record (w.database) { rows = rows } })
  query (refuses e) statement w = (threw e, w)
  query (loses_answer e) statement w = (
    threw e,
    record w {
      database = record (w.database) { rows = (statement w.database.now w.database.rows).1 };
    },
  )

  abbrev pub recorded : JobMetric → WorkerState D R → WorkerState D R
  recorded m w = record w { metrics = w.metrics ++ m ∷ [] }

  -- After `complete` or `fail` was awaited: the `finally` block, and the answer to the broker.
  unfoldable pub ended :
      {A : Type 0}
      → (A → JobOutcome)
      → (A → Delivery)
      → Completion A Error × WorkerState D R
      → Completion Delivery Error × WorkerState D R
  ended outcome delivery (returned a, w) = (returned (delivery a), recorded (job_end (outcome a)) w)
  ended outcome delivery (threw e, w) = (threw e, recorded (job_end infrastructure_error) w)

  -- After the processor was awaited.
  unfoldable pub processed :
      JobStoreOptions
      → Pool
      → JobEnvelope
      → Completion R ProcessorError
      → WorkerState D R
      → Completion Delivery Error × WorkerState D R
  unfolding query ended failure_of outcome_of delivery_of
  processed o pool m (returned response) w =
      ended (λ _. success) (λ _. ack)
        (query {A = Unit {0}} pool.on_complete (λ now rows. (tt, complete o m response now rows)) w)
  processed o pool m (threw e) w =
      ended outcome_of delivery_of
        (query pool.on_fail (λ now rows. fail o m (failure_of e) now rows) w)

  -- After `claim` was awaited.
  unfoldable pub claimed_by :
      JobStoreOptions
      → Pool
      → (ProcessingJob D → Database D R → Completion R ProcessorError × Database D R)
      → JobEnvelope
      → Completion (Option (ProcessingJob D)) Error × WorkerState D R
      → Completion Delivery Error × WorkerState D R
  unfolding processed
  claimed_by o pool processor m (threw e, w) = (threw e, w)
  claimed_by o pool processor m (returned none, w) = (returned ack, w)
  claimed_by o pool processor m (returned (some job), w) =
      let started = recorded (job_start (ltb 1 job.attempt) job.queue_wait_time_ms) w in
      let (c, database) = processor job started.database in
      processed o pool m c (record started { database = database })

  unfoldable pub execute :
      JobStoreOptions
      → Pool
      → (ProcessingJob D → Database D R → Completion R ProcessorError × Database D R)
      → JobEnvelope
      → WorkerState D R
      → Completion Delivery Error × WorkerState D R
  unfolding claimed_by
  execute o pool processor m w =
      claimed_by o pool processor m (query pool.on_claim (λ now rows. claim o m now rows) w)

-- `error.code`, for an error with a code that a job may report.
abbrev pub code_of : AppError → JobErrorCode
code_of (provider_http_error _ _ _) = provider_error
code_of (provider_connection_error _) = provider_unavailable
code_of (provider_response_error _) = invalid_provider_response
code_of (provider_timeout_error _ _) = provider_timeout
code_of (provider_circuit_open_error _ _) = provider_circuit_open
code_of _ = job_failed

-- `error instanceof ProviderCircuitOpenError ? error.retryAfterMs : 0`.
abbrev pub retry_after_of : AppError → ℕ
retry_after_of (provider_circuit_open_error _ ms) = ms
retry_after_of _ = 0

-- The `catch` block of the inference processor. Of the errors that are not retryable only those of a
-- provider's HTTP status and of its response keep their code.
unfoldable pub processing_error : Error → JobProcessingError
processing_error (app a) =
    if is_retryable_provider_error (app a)
    then record { code = code_of a; retryable = true; retry_after_ms = retry_after_of a }
    else record { code = code_of a; retryable = false; retry_after_ms = 0 }
processing_error _ = record { code = job_failed; retryable = false; retry_after_ms = 0 }

-- `createInferenceProcessor`, over the provider's `chat`.
unfoldable pub process :
    {D R : Type 0}
    → (D → Database D R → Completion R Error × Database D R)
    → ProcessingJob D
    → Database D R
    → Completion R ProcessorError × Database D R
unfolding processing_error
process chat job d =
    let (c, d') = chat job.job_data d in
    (
      elim c [
        | returned response ↦ returned response
        | threw e ↦ threw (job_processing_error (processing_error e))
      ],
      d',
    )
