-- ===== src/Jobs/Submission.antt =====
-- src/queue/postgres-job-store.ts, the gateway's side: `enqueue` and `getJob`.
--
-- The table is a list of rows, and a statement is a function on it; `NOW()` is an argument. A statement
-- is atomic. Where a method awaits between two statements, an argument `meanwhile` or `during` is
-- whatever other connections do to the table in between. SHA-256 over canonical JSON and `randomUUID` are not
-- of this repository: the hashes and the new id are arguments.
use model_mux.Prelude.{
  ℕ, Bool, true, ◌&&◌, String, List, ◌∷◌, Option, none, some, if◌then◌else◌, str_eq,
}
use model_mux.Jobs.Table.{
  is_completed, is_failed, find_row, has_id, Answer, ok, throws, idempotency_conflict,
  job_not_found, job_disappeared, duplicate_id,
}
use model_mux.Jobs.{
  queued, public_job_error, JobSubmission, JobReceipt, JobStatus, JobStoreOptions, JobRow,
}

module _ {D R : Type 0} where
  abbrev pub has_key : String → String → String → JobRow D R → Bool
  has_key name owner key_hash r =
      str_eq r.queue_name name && str_eq r.owner_id owner && str_eq r.idempotency_hash key_hash

  -- The row that `enqueue` inserts; the rest are the defaults of the table.
  unfoldable pub new_row :
      JobStoreOptions → JobSubmission D → String → String → String → ℕ → JobRow D R
  new_row o s id key_hash payload_hash now = record {
    id = id;
    queue_name = o.name;
    owner_id = s.owner_id;
    idempotency_hash = key_hash;
    payload_hash = payload_hash;
    request_id = s.request_id;
    job_data = s.job_data;
    status = queued;
    attempts_made = 0;
    max_attempts = o.max_attempts;
    backoff_ms = o.backoff_ms;
    response = none;
    error_code = none;
    dispatch_pending = true;
    available_at = now;
    lease_until = none;
    finished_at = none;
  }

  -- The two tests that follow the statements of `enqueue`.
  unfoldable pub receipt : String → Option (JobRow D R) → Answer JobReceipt
  receipt payload_hash none = throws job_disappeared
  receipt payload_hash (some r) =
      if str_eq r.payload_hash payload_hash
      then ok (record { id = r.id; request_id = r.request_id })
      else throws idempotency_conflict

  -- INSERT … ON CONFLICT DO NOTHING, and a SELECT where the key was there already. The table is
  -- changed by others (`meanwhile`) between the two. A second row with the same `id` violates
  -- the primary key.
  unfoldable pub enqueue :
      JobStoreOptions
      → (hash_key : String → String) → (hash_data : D → String)
      → (meanwhile : List (JobRow D R) → List (JobRow D R)) → JobSubmission D
      → String
      → ℕ
      → List (JobRow D R)
      → Answer JobReceipt × List (JobRow D R)
  unfolding receipt new_row find_row
  enqueue o hash_key hash_data meanwhile s id now rows =
      let key = has_key o.name s.owner_id (hash_key s.idempotency_key) in
      let payload_hash = hash_data s.job_data in
      let row = new_row o s id (hash_key s.idempotency_key) payload_hash now in
      elim (find_row key rows) [
        | some _ ↦ (receipt payload_hash (find_row key (meanwhile rows)), meanwhile rows)
        | none ↦ elim (find_row (has_id id) rows) [
          | some _ ↦ (throws duplicate_id, rows)
          | none ↦ (receipt payload_hash (some row), row ∷ rows)
        ]
      ]

  unfoldable pub status_of : JobRow D R → JobStatus R
  status_of r = record {
    id = r.id;
    request_id = r.request_id;
    status = r.status;
    attempts_made = r.attempts_made;
    response = if is_completed r.status then r.response else none;
    error =
        if is_failed r.status
        then some (public_job_error (elim r.error_code [ none ↦ "JOB_FAILED" | some c ↦ c ]))
        else none;
  }

  -- The test of `getJob`.
  abbrev pub is_mine : JobStoreOptions → String → String → JobRow D R → Bool
  is_mine o id owner x = str_eq x.id id && str_eq x.owner_id owner && str_eq x.queue_name o.name

  unfoldable pub get_job :
      JobStoreOptions → String → String → List (JobRow D R) → Answer (JobStatus R)
  unfolding status_of find_row
  get_job o id owner rows = elim (find_row (is_mine o id owner) rows) [
    | none ↦ throws job_not_found
    | some r ↦ ok (status_of r)
  ]
