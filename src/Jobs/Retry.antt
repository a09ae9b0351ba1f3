-- ===== src/Jobs/Retry.antt =====
-- What a recorded outcome leads to (src/queue/postgres-job-store.ts): the next attempt, or the answer
-- that the owner of the job polls for.
use model_mux.Prelude.{
  ℕ, ◌+◌, ◌≤◌, ◌<◌, max, ◌≡◌, refl, inl, inr, Bool, true, false, List, [], ◌∷◌, none, some, arith,
  Bool-cases, eq_refl, String, All,
}
use model_mux.Jobs.{
  JobErrorCode, provider_unavailable, provider_timeout, provider_circuit_open, provider_error,
  invalid_provider_response, job_failed, public_message, public_job_error, JobProcessingError,
  JobEnvelope, ProcessingJob, JobStoreOptions, JobRow, retrying, failed, completed, code_text,
}
use model_mux.Jobs.Table.{find_row, update_where, has_id, ok}
use model_mux.Jobs.Submission.{get_job, is_mine}
use model_mux.Jobs.Attempts.{
  can_claim, claimed, claim, is_current, completed_row, complete, failed_row, fail, retry_delay,
  processing, may_retry,
}
use model_mux.Jobs.Rows.{find_row_sound, find_row-All, find_row-none, update_where-none, All-split}
use model_mux.Jobs.Fence.{UniqueIds, others}

module _ {D R : Type 0} where
  -- An UPDATE of the row with one id, seen by a later SELECT of that id.
  find_updated :
      (id : String) (p q : JobRow D R → Bool) (f : JobRow D R → JobRow D R)
      (rows : List (JobRow D R)) (r : JobRow D R)
      → ((x : JobRow D R) → p x ≡ true → has_id id x ≡ true)
      → ((x : JobRow D R) → q x ≡ true → has_id id x ≡ true)
      → UniqueIds rows
      → find_row p rows ≡ some r
      → q (f r) ≡ true
      → find_row q (update_where p f rows) ≡ some (f r)
  unfolding find_row update_where
  find_updated id p q f [] r hp hq u e h = cc
  find_updated id p q f (x ∷ rows) r hp hq u e h = elim (Bool-cases (p x)) [
    | inl y ↦ ground arith
    | inr n ↦ elim (Bool-cases (q x)) [
      | inl y ↦ absurd (clash y n)
      | inr n' ↦ ground (arith, find_updated id p q f rows r hp hq u.1)
    ]
  ]
    where
      clash : q x ≡ true → p x ≡ false → ⊥
      clash y n =
          let found : find_row p rows ≡ some r = ground arith in
          let other =
            find_row-All (λ z. has_id id z ≡ false) p rows r found (others id x rows u (hq x y)) in
          ground (arith, hp r (find_row_sound p rows r found))

  -- An UPDATE of the row with one id, and a SELECT of that id that the changed row does not pass.
  none_updated :
      (id : String) (p q : JobRow D R → Bool) (f : JobRow D R → JobRow D R)
      (rows : List (JobRow D R)) (r : JobRow D R)
      → ((x : JobRow D R) → p x ≡ true → has_id id x ≡ true)
      → ((x : JobRow D R) → q x ≡ true → has_id id x ≡ true)
      → UniqueIds rows
      → find_row p rows ≡ some r
      → ((x : JobRow D R) → q (f x) ≡ false)
      → All (λ x. q x ≡ false) (update_where p f rows)
  unfolding find_row update_where
  none_updated id p q f [] r hp hq u e h = cc
  none_updated id p q f (x ∷ rows) r hp hq u e h = elim (Bool-cases (p x)) [
    | inl y ↦ rw (y) (h x, untouched y)
    | inr n ↦
        let found : find_row p rows ≡ some r = ground arith in
        rw (n) (other n found, none_updated id p q f rows r hp hq u.1 found h)
  ]
    where
      untouched : p x ≡ true → All (λ z. q z ≡ false) (update_where p f rows)
      untouched y =
          All-split (λ z. has_id id z ≡ false) (λ z. q z ≡ false) p f rows (λ z _ _. h z)
            (λ z _ k. elim (Bool-cases (q z)) [
              | inl c ↦ absurd (ground (arith, hq z c))
              | inr c ↦ c
            ])
            (others id x rows u (hp x y))

      other : p x ≡ false → find_row p rows ≡ some r → q x ≡ false
      other n found = elim (Bool-cases (q x)) [
        | inr c ↦ c
        | inl c ↦
            let away =
              find_row-All (λ z. has_id id z ≡ false) p rows r found
                (others id x rows u (hq x c)) in
            absurd (ground (arith, hp r (find_row_sound p rows r found)))
      ]

  current-has_id :
      (o : JobStoreOptions) (m : JobEnvelope) (r : JobRow D R)
      → is_current o m r ≡ true
      → has_id m.id r ≡ true
  current-has_id o m r h = ground arith

-- A failure that may pass, in an attempt that is not the last one, leads to the next attempt: no message
-- claims the job before `retry_after_ms` are over; and once they and an hour are over, the message with the
-- next attempt number claims it, with the data of the job. Ids are unique.
pub retried :
    {D R : Type 0} (o : JobStoreOptions) (m : JobEnvelope) (e : JobProcessingError) (now later : ℕ)
    (rows : List (JobRow D R)) (r : JobRow D R)
    → UniqueIds rows
    → find_row (is_current o m) rows ≡ some r
    → e.retryable ≡ true
    → m.attempt < r.max_attempts
    → now + max e.retry_after_ms 3600000 ≤ later
    → let next : JobEnvelope = record { id = m.id; attempt = m.attempt + 1 } in
      let (status, rows') = fail o m e now rows in
      (status ≡ some retrying)
      × ((job : ProcessingJob D) × ((claim o next later rows').0 ≡ some job)
          × (job.attempt ≡ m.attempt + 1)
          × (job.job_data ≡ r.job_data))
      × ((early : ℕ) (any : JobEnvelope)
          → early < now + e.retry_after_ms
          → any.id ≡ m.id
          → claim o any early rows' ≡ (none, rows'))
unfolding fail failed_row retry_delay claim processing
retried {D} {R} o m e now later rows r u f t b late =
    let current = find_row_sound (is_current o m) rows r f in
    let next : JobEnvelope = record { id = m.id; attempt = m.attempt + 1 } in
    let found =
      find_updated m.id (is_current o m) (can_claim o next later) (failed_row e now) rows r
        (current-has_id o m) (λ x h. ground arith) u f (ground arith) in
    (
      ground arith,
      (
        processing later (claimed o next later (failed_row e now r)),
        ground (arith, found),
        refl,
        refl,
      ),
      λ early any t w. unclaimed early any t w,
    )
  where
    unclaimed :
        (early : ℕ) (any : JobEnvelope)
        → early < now + e.retry_after_ms
        → any.id ≡ m.id
        → claim o any early (update_where (is_current o m) (failed_row e now) rows)
          ≡ (none, update_where (is_current o m) (failed_row e now) rows)
    unclaimed early any t w =
        let idle =
          none_updated m.id (is_current o m) (can_claim o any early) (failed_row e now) rows r
            (current-has_id o m) (λ x h. ground (arith, w)) u f (λ x. ground arith) in
        let none_found = find_row-none (can_claim o any early) _ idle in
        let same = update_where-none (can_claim o any early) (claimed o any early) _ idle in
        rw (none_found, same) refl

-- Each code of the worker is public: a poller reads the code that was recorded.
public_job_error-code_text :
    (c : JobErrorCode)
    → public_job_error (code_text c) ≡ record { code = c; message = public_message c }
unfolding public_job_error code_text
public_job_error-code_text provider_unavailable = refl
public_job_error-code_text provider_timeout = refl
public_job_error-code_text provider_circuit_open = refl
public_job_error-code_text provider_error = refl
public_job_error-code_text invalid_provider_response = refl
public_job_error-code_text job_failed = refl

-- A failure that will not pass, or that of the last attempt, ends the job: `fail` says so, and what the
-- owner reads is that the job has failed, with the code of the error and its public message.
pub failed_visible :
    {D R : Type 0} (o : JobStoreOptions) (m : JobEnvelope) (e : JobProcessingError) (now : ℕ)
    (rows : List (JobRow D R)) (r : JobRow D R)
    → UniqueIds rows
    → find_row (is_current o m) rows ≡ some r
    → may_retry e r ≡ false
    → let (status, rows') = fail o m e now rows in
      (status ≡ some failed)
      × (get_job o m.id r.owner_id rows'
          ≡ ok (record {
            id = r.id;
            request_id = r.request_id;
            status = failed;
            attempts_made = m.attempt;
            response = none;
            error = some (record { code = e.code; message = public_message e.code });
          }))
unfolding fail failed_row get_job
failed_visible {D} {R} o m e now rows r u f n =
    let current = find_row_sound (is_current o m) rows r f in
    let found =
      find_updated m.id (is_current o m) (is_mine o m.id r.owner_id) (failed_row e now) rows r
        (current-has_id o m) (λ x h. ground arith) u f (ground (arith, eq_refl r.owner_id)) in
    (ground arith, rw (found, get_job) (ground (arith, public_job_error-code_text e.code)))

-- A result that is reported for the current attempt is what the owner of the job reads.
pub completed_visible :
    {D R : Type 0} (o : JobStoreOptions) (m : JobEnvelope) (response : R) (now : ℕ)
    (rows : List (JobRow D R)) (r : JobRow D R)
    → UniqueIds rows
    → find_row (is_current o m) rows ≡ some r
    → get_job o m.id r.owner_id (complete o m response now rows)
      ≡ ok (record {
        id = r.id;
        request_id = r.request_id;
        status = completed;
        attempts_made = m.attempt;
        response = some response;
        error = none;
      })
unfolding complete completed_row get_job
completed_visible {D} {R} o m response now rows r u f =
    let current = find_row_sound (is_current o m) rows r f in
    let found =
      find_updated m.id (is_current o m) (is_mine o m.id r.owner_id) (completed_row response now)
        rows r (current-has_id o m) (λ x h. ground arith) u f
        (ground (arith, eq_refl r.owner_id)) in
    rw (found, get_job) (ground arith)
