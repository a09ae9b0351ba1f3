-- ===== src/Jobs/Attempts.antt =====
-- src/queue/postgres-job-store.ts, the worker's side: `dispatchOne`, `claim`, `complete`, `fail`,
-- `maintain`, and the gauge `queueDepth`.
--
-- The table is a list of rows, and a statement is a function on it; `NOW()` is an argument. A statement
-- is atomic. Where a method awaits between two statements, an argument `meanwhile` or `during` is
-- whatever other connections do to the table in between.
use model_mux.Prelude.{
  ℕ, ◌+◌, ◌-◌, ◌*◌, ◌^◌, min, max, Bool, true, false, not, ◌&&◌, ◌||◌, String, List, [], ◌∷◌,
  Option, none, some, ltb, leb, ◌==◌, if◌then◌else◌, str_eq,
}
use model_mux.Jobs.Table.{
  is_waiting, is_active, same_status, find_row, update_where, delete_where, count_where, has_id,
  Answer, ok, throws, publish_failed,
}
use model_mux.Jobs.{
  Status, queued, active, retrying, completed, failed, code_text, JobProcessingError, JobEnvelope,
  ProcessingJob, JobStoreOptions, JobRow,
}

abbrev pub day_ms : ℕ
day_ms = 86400000

module _ {D R : Type 0} where
  -- The rows that `dispatchOne` may lock; another transaction's rows are skipped.
  abbrev pub is_due : JobStoreOptions → (String → Bool) → ℕ → JobRow D R → Bool
  is_due o locked now r =
      str_eq r.queue_name o.name
      && r.dispatch_pending
      && is_waiting r.status
      && leb r.available_at now
      && not (locked r.id)

  -- ORDER BY available_at, id LIMIT 1; `id_le` is the order of the ids in the database's collation.
  unfoldable pub earlier : (String → String → Bool) → JobRow D R → JobRow D R → JobRow D R
  earlier id_le r s =
      if ltb r.available_at s.available_at || (r.available_at == s.available_at && id_le r.id s.id)
      then r
      else s

  unfoldable pub first_due :
      (String → String → Bool) → (JobRow D R → Bool) → List (JobRow D R) → Option (JobRow D R)
  unfolding earlier
  first_due id_le p [] = none
  first_due id_le p (r ∷ rs) =
      let rest = first_due id_le p rs in
      if p r then elim rest [ none ↦ some r | some s ↦ some (earlier id_le r s) ] else rest

  unfoldable pub cleared : JobRow D R → JobRow D R
  cleared r = record r { dispatch_pending = false }

  -- One pass of `dispatchOne`: `publish` confirms the message or fails, and `during` is what others do
  -- to the unlocked rows while the confirm is awaited. A failure rolls this transaction back.
  unfoldable pub dispatch_one :
      JobStoreOptions
      → (locked : String → Bool) → (id_le : String → String → Bool) → (publish : JobEnvelope → Bool)
      → (during : List (JobRow D R) → List (JobRow D R)) → ℕ
      → List (JobRow D R)
      → Answer Bool × List (JobRow D R)
  unfolding first_due update_where cleared
  dispatch_one o locked id_le publish during now rows =
      elim (first_due id_le (is_due o locked now) rows) [
        | none ↦ (ok false, rows)
        | some r ↦
            if publish (record { id = r.id; attempt = r.attempts_made + 1 })
            then (ok true, update_where (has_id r.id) cleared (during rows))
            else (throws publish_failed, during rows)
      ]

  abbrev pub can_claim : JobStoreOptions → JobEnvelope → ℕ → JobRow D R → Bool
  can_claim o m now r =
      str_eq r.id m.id
      && str_eq r.queue_name o.name
      && is_waiting r.status
      && (r.attempts_made + 1 == m.attempt)
      && ltb r.attempts_made r.max_attempts
      && leb r.available_at now

  abbrev pub claimed : JobStoreOptions → JobEnvelope → ℕ → JobRow D R → JobRow D R
  claimed o m now r = record r {
    status = active;
    attempts_made = m.attempt;
    lease_until = some (now + o.lease_ms);
  }

  unfoldable pub processing : ℕ → JobRow D R → ProcessingJob D
  processing now r = record {
    id = r.id;
    owner_id = r.owner_id;
    request_id = r.request_id;
    job_data = r.job_data;
    attempt = r.attempts_made;
    queue_wait_time_ms = now - r.available_at;
  }

  unfoldable pub claim :
      JobStoreOptions
      → JobEnvelope
      → ℕ
      → List (JobRow D R)
      → Option (ProcessingJob D) × List (JobRow D R)
  unfolding processing find_row update_where
  claim o m now rows = (
    elim (find_row (can_claim o m now) rows) [
      | none ↦ none
      | some r ↦ some (processing now (claimed o m now r))
    ],
    update_where (can_claim o m now) (claimed o m now) rows,
  )

  -- The fence: the row is active in the attempt that the message names.
  abbrev pub is_current : JobStoreOptions → JobEnvelope → JobRow D R → Bool
  is_current o m r =
      str_eq r.id m.id
      && (r.attempts_made == m.attempt)
      && str_eq r.queue_name o.name
      && is_active r.status

  unfoldable pub completed_row : R → ℕ → JobRow D R → JobRow D R
  completed_row response now r = record r {
    status = completed;
    response = some response;
    error_code = none;
    finished_at = some now;
    lease_until = none;
    dispatch_pending = false;
  }

  unfoldable pub complete :
      JobStoreOptions → JobEnvelope → R → ℕ → List (JobRow D R) → List (JobRow D R)
  unfolding update_where completed_row
  complete o m response now rows = update_where (is_current o m) (completed_row response now) rows

  -- `GREATEST(retryAfterMs, LEAST(3600000, backoff_ms * POWER(2, LEAST(attempts_made - 1, 30))))`.
  unfoldable pub retry_delay : ℕ → JobRow D R → ℕ
  retry_delay retry_after_ms r =
      max retry_after_ms (min 3600000 (r.backoff_ms * 2 ^ min (r.attempts_made - 1) 30))

  abbrev pub may_retry : JobProcessingError → JobRow D R → Bool
  may_retry e r = e.retryable && ltb r.attempts_made r.max_attempts

  unfoldable pub failed_row : JobProcessingError → ℕ → JobRow D R → JobRow D R
  unfolding retry_delay
  failed_row e now r =
      let again = may_retry e r in
      record r {
        status = if again then retrying else failed;
        dispatch_pending = again;
        available_at = now + retry_delay e.retry_after_ms r;
        error_code = some (code_text e.code);
        lease_until = none;
        finished_at = if again then none else some now;
      }

  -- The new status of the row, if the attempt was current.
  unfoldable pub fail :
      JobStoreOptions
      → JobEnvelope
      → JobProcessingError
      → ℕ
      → List (JobRow D R)
      → Option Status × List (JobRow D R)
  unfolding failed_row find_row update_where
  fail o m e now rows = (
    elim (find_row (is_current o m) rows) [
      | none ↦ none
      | some r ↦ some (failed_row e now r).status
    ],
    update_where (is_current o m) (failed_row e now) rows,
  )

  abbrev pub is_expired : JobStoreOptions → ℕ → JobRow D R → Bool
  is_expired o now r =
      str_eq r.queue_name o.name
      && is_active r.status
      && elim r.lease_until [ none ↦ false | some t ↦ ltb t now ]

  unfoldable pub expired_row : ℕ → JobRow D R → JobRow D R
  expired_row now r =
      let again = ltb r.attempts_made r.max_attempts in
      record r {
        status = if again then queued else failed;
        dispatch_pending = again;
        available_at = now;
        error_code = some "JOB_FAILED";
        lease_until = none;
        finished_at = if again then none else some now;
      }

  abbrev pub is_old : JobStoreOptions → ℕ → JobRow D R → Bool
  is_old o now r =
      str_eq r.queue_name o.name
      && elim r.finished_at [ none ↦ false | some t ↦ ltb (t + day_ms) now ]

  -- The two statements of `maintain`, at their own times.
  unfoldable pub maintain :
      JobStoreOptions
      → (meanwhile : List (JobRow D R) → List (JobRow D R)) → ℕ
      → ℕ
      → List (JobRow D R)
      → List (JobRow D R)
  unfolding expired_row update_where delete_where
  maintain o meanwhile now later rows =
      delete_where (is_old o later)
        (meanwhile (update_where (is_expired o now) (expired_row now) rows))

  -- The counts of `queueDepth`, for 'queued', 'retrying' and 'active'.
  unfoldable pub queue_depth : JobStoreOptions → List (JobRow D R) → ℕ × ℕ × ℕ
  unfolding count_where
  queue_depth o rows =
      let depth : Status → ℕ =
        λ s. count_where (λ r. str_eq r.queue_name o.name && same_status s r.status) rows in
      (depth queued, depth retrying, depth active)
