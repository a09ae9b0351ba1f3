-- ===== src/Jobs/Methods.antt =====
-- The methods of the job store (src/queue/postgres-job-store.ts) as runs of the statements of
-- Jobs/Life.antt, so that what those keep holds of the store.
use model_mux.Prelude.{
  ℕ, ◌+◌, ◌≡◌, inl, inr, Bool, false, List, Bool-cases, Option-cases, str_eq, String,
}
use model_mux.Jobs.{JobSubmission, JobEnvelope, JobProcessingError, JobStoreOptions, JobRow}
use model_mux.Jobs.Table.{find_row, has_id}
use model_mux.Jobs.Submission.{has_key, enqueue}
use model_mux.Jobs.Attempts.{is_due, first_due, dispatch_one, claim, complete, fail, maintain}
use model_mux.Jobs.Life.{
  Reach, inserts, clears, claims, completes, fails, expires, deletes, here, next,
}

module _ {D R : Type 0} (o : JobStoreOptions) (reserved : String) where
  Reach-trans :
      {rows middle last : List (JobRow D R)}
      → Reach o reserved rows middle
      → Reach o reserved middle last
      → Reach o reserved rows last
  Reach-trans r here = r
  Reach-trans r (next s st) = next (Reach-trans r s) st

  module _ (meanwhile : List (JobRow D R) → List (JobRow D R))
      (quiet : (rows : List (JobRow D R)) → Reach o reserved rows (meanwhile rows)) where
    enqueue-Reach :
        (hash_key : String → String) (hash_data : D → String) (s : JobSubmission D) (id : String)
        (now : ℕ) (rows : List (JobRow D R))
        → str_eq id reserved ≡ false
        → Reach o reserved rows (enqueue o hash_key hash_data meanwhile s id now rows).1
    unfolding enqueue
    enqueue-Reach hash_key hash_data s id now rows f =
        elim (Option-cases
          (find_row (has_key o.name s.owner_id (hash_key s.idempotency_key)) rows)) [
            | inr (x, q) ↦ rw (q, enqueue) (quiet rows)
            | inl q ↦ elim (Option-cases (find_row (has_id id) rows)) [
              | inr (x, q') ↦ rw (q, q', enqueue) here
              | inl q' ↦
                  rw (q, q', enqueue)
                    (next here
                      (inserts s id (hash_key s.idempotency_key) (hash_data s.job_data) now f q' q))
            ]
          ]

    dispatch_one-Reach :
        (locked : String → Bool) (id_le : String → String → Bool) (publish : JobEnvelope → Bool)
        (now : ℕ) (rows : List (JobRow D R))
        → Reach o reserved rows (dispatch_one o locked id_le publish meanwhile now rows).1
    unfolding dispatch_one
    dispatch_one-Reach locked id_le publish now rows =
        elim (Option-cases (first_due id_le (is_due o locked now) rows)) [
          | inl q ↦ rw (q, dispatch_one) here
          | inr (r, q) ↦
              elim (Bool-cases (publish (record { id = r.id; attempt = r.attempts_made + 1 }))) [
                | inl c ↦ rw (q, c, dispatch_one) (next (quiet rows) (clears r.id))
                | inr c ↦ rw (q, c, dispatch_one) (quiet rows)
              ]
        ]

    maintain-Reach :
        (now later : ℕ) (rows : List (JobRow D R))
        → Reach o reserved rows (maintain o meanwhile now later rows)
    unfolding maintain
    maintain-Reach now later rows =
        next (Reach-trans (next here (expires now)) (quiet _)) (deletes later)

    -- Every method of the store does to the table what a run of statements does, if what happens
    -- between its own statements is such a run. So all that holds after every run of statements
    -- holds after any calls of the methods, by any number of gateways and workers.
    pub methods-Reach :
        (hash_key : String → String) (hash_data : D → String) (s : JobSubmission D) (id : String)
        (locked : String → Bool) (id_le : String → String → Bool) (publish : JobEnvelope → Bool)
        (m : JobEnvelope) (response : R) (e : JobProcessingError) (now later : ℕ)
        (rows : List (JobRow D R))
        → str_eq id reserved ≡ false
        → Reach o reserved rows (enqueue o hash_key hash_data meanwhile s id now rows).1
          × Reach o reserved rows (dispatch_one o locked id_le publish meanwhile now rows).1
          × Reach o reserved rows (claim o m now rows).1
          × Reach o reserved rows (complete o m response now rows)
          × Reach o reserved rows (fail o m e now rows).1
          × Reach o reserved rows (maintain o meanwhile now later rows)
    unfolding claim complete fail
    methods-Reach hash_key hash_data s id locked id_le publish m response e now later rows f = (
      enqueue-Reach hash_key hash_data s id now rows f,
      dispatch_one-Reach locked id_le publish now rows,
      next here (claims m now),
      next here (completes m response now),
      next here (fails m e now),
      maintain-Reach now later rows,
    )
