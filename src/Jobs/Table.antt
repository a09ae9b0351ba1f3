-- ===== src/Jobs/Table.antt =====
-- The statements of src/queue/postgres-job-store.ts in general: a SELECT, an UPDATE, a DELETE and a
-- COUNT over the rows that pass a test, and the tests on a row's status.
use model_mux.Prelude.{
  ℕ, suc, Bool, true, false, List, [], ◌∷◌, Option, none, some, if◌then◌else◌, String, str_eq,
}
use model_mux.Jobs.{Status, queued, active, retrying, completed, failed, JobRow}

-- `status IN ('queued', 'retrying')`.
abbrev pub is_waiting : Status → Bool
is_waiting queued = true
is_waiting retrying = true
is_waiting _ = false

abbrev pub is_active : Status → Bool
is_active active = true
is_active _ = false

abbrev pub is_completed : Status → Bool
is_completed completed = true
is_completed _ = false

abbrev pub is_failed : Status → Bool
is_failed failed = true
is_failed _ = false

abbrev pub same_status : Status → Status → Bool
same_status queued queued = true
same_status active active = true
same_status retrying retrying = true
same_status completed completed = true
same_status failed failed = true
same_status _ _ = false

pub data StoreError : Type 0 where
  idempotency_conflict job_not_found job_disappeared duplicate_id publish_failed : StoreError

pub data Answer {ℓ} (A : Type ℓ) : Type ℓ where
  ok : A → Answer A
  throws : StoreError → Answer A

module _ {D R : Type 0} where
  abbrev pub has_id : String → JobRow D R → Bool
  has_id id r = str_eq r.id id

  -- The first row that passes a test; where the test fixes a unique key, the only one.
  unfoldable pub find_row : (JobRow D R → Bool) → List (JobRow D R) → Option (JobRow D R)
  find_row p [] = none
  find_row p (r ∷ rs) = if p r then some r else find_row p rs

  -- `UPDATE … SET f WHERE p`.
  unfoldable pub update_where :
      (JobRow D R → Bool) → (JobRow D R → JobRow D R) → List (JobRow D R) → List (JobRow D R)
  update_where p f [] = []
  update_where p f (r ∷ rs) = (if p r then f r else r) ∷ update_where p f rs

  -- `DELETE … WHERE p`.
  unfoldable pub delete_where : (JobRow D R → Bool) → List (JobRow D R) → List (JobRow D R)
  delete_where p [] = []
  delete_where p (r ∷ rs) = let rest = delete_where p rs in if p r then rest else r ∷ rest

  unfoldable pub count_where : (JobRow D R → Bool) → List (JobRow D R) → ℕ
  count_where p [] = 0
  count_where p (r ∷ rs) = let rest = count_where p rs in if p r then suc rest else rest
