-- ===== src/Jobs/Contract.antt =====
-- What the queue promises its clients (src/queue/job-queue.ts, src/queue/postgres-job-store.ts): one job
-- for each key, jobs hidden from other owners, and publication in order and never forgotten.
use model_mux.Prelude.{
  ℕ, ◌≡◌, ◌≢◌, sym, ap, subst, ◌⊎◌, inl, inr, Bool, true, List, ◌∷◌, some, arith, All, All-map,
  Option-cases, str_eq, eq_iff, eq_refl, String,
}
use model_mux.Jobs.{JobSubmission, JobReceipt, JobStoreOptions, JobRow}
use model_mux.Jobs.Table.{find_row, has_id, ok, throws, idempotency_conflict, job_not_found}
use model_mux.Jobs.Submission.{has_key, new_row, receipt, enqueue, get_job, is_mine, status_of}
use mathlib.Core.List.{Memᴰ}
use model_mux.Jobs.Rows.{find_row_sound, find_row-Mem}
use model_mux.Jobs.Fence.{find_row-none_inv}

has_key_self :
    {D : Type 0} (R : Type 0) (o : JobStoreOptions) (s : JobSubmission D) (id key_hash ph : String)
    (now : ℕ)
    → has_key o.name s.owner_id key_hash (new_row {R = R} o s id key_hash ph now) ≡ true
unfolding new_row
has_key_self R o s id key_hash ph now =
    ground (arith, eq_refl o.name, eq_refl s.owner_id, eq_refl key_hash)

module _ {D R : Type 0} (o : JobStoreOptions) (hash_key : String → String)
    (hash_data : D → String) where
  -- The test of the unique index.
  abbrev same_key : JobSubmission D → JobRow D R → Bool
  same_key s = has_key o.name s.owner_id (hash_key s.idempotency_key)

  -- An accepted submission has its row in the table.
  Accepted : JobSubmission D → JobReceipt → List (JobRow D R) → Type 0
  Accepted s given rows =
      (r : JobRow D R) × (find_row (same_key s) rows ≡ some r)
      × (str_eq r.payload_hash (hash_data s.job_data) ≡ true)
      × (record { id = r.id; request_id = r.request_id } ≡ given)

  receipt-Accepted :
      (s : JobSubmission D) (given : JobReceipt) (rows : List (JobRow D R))
      → receipt (hash_data s.job_data) (find_row (same_key s) rows) ≡ ok given
      → Accepted s given rows
  unfolding receipt Accepted
  receipt-Accepted s given rows e = elim (Option-cases (find_row (same_key s) rows)) [
    | inl q ↦ absurd (ground (arith))
    | inr (r, q) ↦ (r, q, ground arith, ground arith)
  ]

  enqueue-Accepted :
      (meanwhile : List (JobRow D R) → List (JobRow D R)) (s : JobSubmission D) (id : String)
      (now : ℕ) (rows later : List (JobRow D R)) (given : JobReceipt)
      → enqueue o hash_key hash_data meanwhile s id now rows ≡ (ok given, later)
      → Accepted s given later
  unfolding enqueue Accepted new_row
  enqueue-Accepted meanwhile s id now rows later given e =
      elim (Option-cases (find_row (same_key s) rows)) [
        | inr (x, q) ↦
            let e' = rw (q, enqueue) at e in
            subst (Accepted s given) (ap (λ z. z.1) e')
              (receipt-Accepted s given (meanwhile rows) (ap (λ z. z.0) e'))
        | inl q ↦ elim (Option-cases (find_row (has_id id) rows)) [
          | inr (x, q') ↦ absurd (ground arith)
          | inl q' ↦
              let e' = rw (q, q', enqueue) at e in
              subst (Accepted s given) (ap (λ z. z.1) e') (inserted (ap (λ z. z.0) e'))
        ]
      ]
    where
      row : JobRow D R
      row = new_row o s id (hash_key s.idempotency_key) (hash_data s.job_data) now

      inserted :
          receipt (hash_data s.job_data) (some row) ≡ ok given → Accepted s given (row ∷ rows)
      inserted e' = (
        row,
        ground
            (arith, has_key_self R o s id (hash_key s.idempotency_key) (hash_data s.job_data) now),
        ground (arith, eq_refl (hash_data s.job_data)),
        ground arith,
      )

  -- A job that was accepted is accepted once: a later submission under the same owner and key, whatever
  -- new id it brings, leaves the table as it is, and gets the receipt of the first if the payloads
  -- have one hash, and a conflict if not.
  pub enqueue_idempotent :
      (meanwhile : List (JobRow D R) → List (JobRow D R)) (s s' : JobSubmission D) (id id' : String)
      (now now' : ℕ) (rows later : List (JobRow D R)) (given : JobReceipt)
      → enqueue o hash_key hash_data meanwhile s id now rows ≡ (ok given, later)
      → s'.owner_id ≡ s.owner_id
      → s'.idempotency_key ≡ s.idempotency_key
      → let again = enqueue o hash_key hash_data (λ x. x) s' id' now' later in
        (hash_data s'.job_data ≡ hash_data s.job_data → again ≡ (ok given, later))
        × (hash_data s'.job_data ≢ hash_data s.job_data
            → again ≡ (throws idempotency_conflict, later))
  unfolding enqueue Accepted
  enqueue_idempotent meanwhile s s' id id' now now' rows later given e w k =
      let (r, q, p, g) = enqueue-Accepted meanwhile s id now rows later given e in
      let q' : find_row (same_key s') later ≡ some r =
        subst (λ x. find_row (has_key o.name x (hash_key s'.idempotency_key)) later ≡ some r)
          (sym w)
          (subst (λ x. find_row (has_key o.name s.owner_id (hash_key x)) later ≡ some r) (sym k)
            q) in
      let same = (eq_iff r.payload_hash (hash_data s.job_data)).0 p in
      (
        λ h. rw (q', enqueue) (ground (arith, g, eq_iff r.payload_hash (hash_data s'.job_data))),
        λ h. rw (q', enqueue) (ground (arith, eq_iff r.payload_hash (hash_data s'.job_data))),
      )

-- What `getJob` shows is a row of the table with the id, the owner and the queue that are asked for. If the
-- table has no such row, the answer is that there is no such job.
pub get_job_isolated :
    {D R : Type 0} (o : JobStoreOptions) (id owner : String) (rows : List (JobRow D R))
    → ((r : JobRow D R) × Memᴰ r rows
        × (get_job o id owner rows ≡ ok (status_of r))
        × (r.id ≡ id)
        × (r.owner_id ≡ owner)
        × (r.queue_name ≡ o.name))
      ⊎ ((get_job o id owner rows ≡ throws job_not_found)
          × All (λ r. r.id ≡ id → r.owner_id ≡ owner → r.queue_name ≢ o.name) rows)
unfolding get_job
get_job_isolated o id owner rows = elim (Option-cases (find_row (is_mine o id owner) rows)) [
  | inl q ↦ inr (
    rw (q, get_job),
    All-map rows
        (λ r h i w n.
          ground (arith, eq_iff r.id id, eq_iff r.owner_id owner, eq_iff r.queue_name o.name))
        (find_row-none_inv (is_mine o id owner) rows q),
  )
  | inr (r, q) ↦
      let mine = find_row_sound (is_mine o id owner) rows r q in
      inl (
        r,
        find_row-Mem (is_mine o id owner) rows r q,
        rw (q, get_job),
        ground (arith, eq_iff r.id id),
        ground (arith, eq_iff r.owner_id owner),
        ground (arith, eq_iff r.queue_name o.name),
      )
]
