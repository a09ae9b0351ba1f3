-- ===== src/Http.antt =====
-- src/app.ts (the error handler) and the error wrapping of src/queue/rabbitmq.ts (`RabbitMqJobQueue`): what a client
-- is told when a request fails.
--
-- Fastify's errors are given by the fields that the handler reads. The `x-request-id` header and the log
-- lines are left out.
pub mod Replies
mod Examples
use model_mux.Prelude.{
  ℕ, Bool, true, false, ◌&&◌, String, ◌<>◌, List, [], ◌∷◌, map, Option, none, some, ltb, leb,
  if◌then◌else◌, str_eq,
}
use model_mux.Errors.{
  AppError, job_queue_unavailable_error, job_not_found_error, idempotency_conflict_error, Header,
  headers, status_code, code, message,
}
use model_mux.Circuit.{Completion, returned, threw}
use model_mux.Jobs.{JobReceipt, JobStatus, JobStoreOptions, JobRow, JobSubmission}
use model_mux.Jobs.Table.{
  Answer, ok, throws, StoreError, idempotency_conflict, job_not_found, job_disappeared,
  duplicate_id, publish_failed,
}
use model_mux.Jobs.Submission.{enqueue, get_job}

pub record ValidationIssue : Type 0 where
  pub instance_path : String
  pub message : Option String

-- An error that reaches the handler: Fastify's validation error with its context, an AppError, or
-- anything else with the fields that it may have.
pub data RequestError : Type 0 where
  validation : Option String → List ValidationIssue → RequestError
  app_error : AppError → RequestError
  other : (status : Option ℕ) → (code : Option String) → (message : String) → RequestError

pub record Detail : Type 0 where
  pub path : String
  pub message : String

pub record Reply : Type 0 where
  pub status : ℕ
  pub headers : List Header
  pub code : String
  pub message : String
  pub details : Option (List Detail)
  pub request_id : String

-- `text || fallback`, for a text that may be missing.
abbrev pub or_else : Option String → String → String
or_else none fallback = fallback
or_else (some text) fallback = if str_eq text "" then fallback else text

-- `text ?? fallback`.
abbrev pub if_missing : Option String → String → String
if_missing none fallback = fallback
if_missing (some text) fallback = text

unfoldable pub detail : ValidationIssue → Detail
detail i = record {
  path = or_else (some i.instance_path) "/";
  message = if_missing i.message "is invalid";
}

-- `typeof error.statusCode === "number" && error.statusCode >= 400 && error.statusCode < 500`.
abbrev pub is_client_status : Option ℕ → Bool
is_client_status none = false
is_client_status (some s) = leb 400 s && ltb s 500

abbrev pub internal_error : String → Reply
internal_error request_id = record {
  status = 500;
  headers = [];
  code = "INTERNAL_SERVER_ERROR";
  message = "Internal server error";
  details = none;
  request_id = request_id;
}

unfoldable pub handle_error : String → RequestError → Reply
unfolding detail
handle_error request_id (validation context issues) = record {
  status = 400;
  headers = [];
  code = "VALIDATION_ERROR";
  message = "Invalid request " <> if_missing context "body";
  details = some (map detail issues);
  request_id = request_id;
}
handle_error request_id (app_error e) = record {
  status = status_code e;
  headers = headers e;
  code = code e;
  message = message e;
  details = none;
  request_id = request_id;
}
handle_error request_id (other none c m) = internal_error request_id
handle_error request_id (other (some s) c m) =
    if is_client_status (some s)
    then record {
      status = s;
      headers = [];
      code = or_else c "BAD_REQUEST";
      message = m;
      details = none;
      request_id = request_id;
    }
    else internal_error request_id

-- `if (error instanceof AppError) throw error; throw new JobQueueUnavailableError(error)`. Of the store's
-- errors the first two are AppErrors.
unfoldable pub queue_error : StoreError → AppError
queue_error idempotency_conflict = idempotency_conflict_error
queue_error job_not_found = job_not_found_error
queue_error job_disappeared = job_queue_unavailable_error
queue_error duplicate_id = job_queue_unavailable_error
queue_error publish_failed = job_queue_unavailable_error

unfoldable pub wrapped : {A : Type 0} → Answer A → Completion A AppError
unfolding queue_error
wrapped (ok a) = returned a
wrapped (throws e) = threw (queue_error e)

module _ {D R : Type 0} (o : JobStoreOptions) where
  -- `RabbitMqJobQueue.enqueue`, with the arguments of the store's `enqueue`.
  unfoldable pub submit :
      (hash_key : String → String)
      → (hash_data : D → String) → (meanwhile : List (JobRow D R) → List (JobRow D R))
      → JobSubmission D
      → String
      → ℕ
      → List (JobRow D R)
      → Completion JobReceipt AppError × List (JobRow D R)
  unfolding wrapped
  submit hash_key hash_data meanwhile s id now rows =
      let (answer, rows') = enqueue o hash_key hash_data meanwhile s id now rows in
      (wrapped answer, rows')

  -- `RabbitMqJobQueue.getJob`; `is_down` tells that the query was rejected.
  unfoldable pub poll :
      (is_down : Bool) → String → String → List (JobRow D R) → Completion (JobStatus R) AppError
  unfolding wrapped
  poll is_down id owner rows =
      if is_down then threw job_queue_unavailable_error else wrapped (get_job o id owner rows)
