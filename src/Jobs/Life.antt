-- ===== src/Jobs/Life.antt =====
-- The life of a job in the table of src/queue/postgres-job-store.ts: the statements that any gateway or
-- worker may run, in any order, and what they all keep.
use model_mux.Prelude.{
  ℕ, ◌≤◌, ◌<◌, ◌≡◌, Bool, true, false, ◌||◌, String, List, ◌∷◌, Option, none, some, arith, All,
  str_eq,
}
use model_mux.Jobs.{JobProcessingError, JobSubmission, JobEnvelope, JobStoreOptions, JobRow}
use model_mux.Jobs.Table.{
  is_waiting, is_active, is_completed, is_failed, find_row, update_where, delete_where, has_id,
}
use model_mux.Jobs.Submission.{has_key, new_row}
use model_mux.Jobs.Attempts.{
  can_claim, claimed, is_current, completed_row, failed_row, is_expired, expired_row, is_old,
  cleared,
}
use model_mux.Jobs.Rows.{All-update_where, All-delete_where}

abbrev is_some {ℓ} : {A : Type ℓ} → Option A → Bool
is_some none = false
is_some (some _) = true

-- What holds of each row.
pub record IsSound {D R : Type 0} (r : JobRow D R) : Type 0 where
  pub attempts_bounded : r.attempts_made ≤ r.max_attempts
  pub may_attempt : 0 < r.max_attempts
  pub waiting_has_attempt : is_waiting r.status ≡ true → r.attempts_made < r.max_attempts
  pub active_attempted : is_active r.status ≡ true → 0 < r.attempts_made
  pub lease_iff_active : is_some r.lease_until ≡ is_active r.status
  pub finished_iff_terminal : is_some r.finished_at ≡ (is_completed r.status || is_failed r.status)
  pub terminal_not_pending : is_some r.finished_at ≡ true → r.dispatch_pending ≡ false
  pub completed_answered : is_completed r.status ≡ true → is_some r.response ≡ true
  pub failed_explained : is_failed r.status ≡ true → is_some r.error_code ≡ true

module _ {D R : Type 0} (o : JobStoreOptions) where
  -- One statement on the table. The id of an inserted row is new, and is not `reserved`.
  pub data Statement (reserved : String) (rows : List (JobRow D R))
      : List (JobRow D R) → Type 0 where
    inserts :
        (s : JobSubmission D) (id key_hash payload_hash : String) (now : ℕ)
        → str_eq id reserved ≡ false
        → find_row (has_id id) rows ≡ none
        → find_row (has_key o.name s.owner_id key_hash) rows ≡ none
        → Statement reserved rows (new_row o s id key_hash payload_hash now ∷ rows)
    clears : (id : String) → Statement reserved rows (update_where (has_id id) cleared rows)
    claims :
        (m : JobEnvelope) (now : ℕ)
        → Statement reserved rows (update_where (can_claim o m now) (claimed o m now) rows)
    completes :
        (m : JobEnvelope) (response : R) (now : ℕ)
        → Statement reserved rows (update_where (is_current o m) (completed_row response now) rows)
    fails :
        (m : JobEnvelope) (e : JobProcessingError) (now : ℕ)
        → Statement reserved rows (update_where (is_current o m) (failed_row e now) rows)
    expires :
        (now : ℕ) → Statement reserved rows (update_where (is_expired o now) (expired_row now) rows)
    deletes : (now : ℕ) → Statement reserved rows (delete_where (is_old o now) rows)

  pub data Reach (reserved : String) (rows : List (JobRow D R)) : List (JobRow D R) → Type 0 where
    here : Reach reserved rows rows
    next :
        {later last : List (JobRow D R)}
        → Reach reserved rows later
        → Statement reserved later last
        → Reach reserved rows last

  -- A property of single rows that the row of an INSERT has, and that each UPDATE keeps, holds of the
  -- whole table for ever.
  pub record IsKept (reserved : String) (P : JobRow D R → Type 0) : Type 0 where
    pub of_new :
        (s : JobSubmission D) (id key_hash payload_hash : String) (now : ℕ)
        → str_eq id reserved ≡ false
        → P (new_row o s id key_hash payload_hash now)
    pub of_cleared : (r : JobRow D R) → P r → P (cleared r)
    pub of_claimed :
        (m : JobEnvelope) (now : ℕ) (r : JobRow D R)
        → can_claim o m now r ≡ true
        → P r
        → P (claimed o m now r)
    pub of_completed :
        (m : JobEnvelope) (response : R) (now : ℕ) (r : JobRow D R)
        → is_current o m r ≡ true
        → P r
        → P (completed_row response now r)
    pub of_failed :
        (m : JobEnvelope) (e : JobProcessingError) (now : ℕ) (r : JobRow D R)
        → is_current o m r ≡ true
        → P r
        → P (failed_row e now r)
    pub of_expired :
        (now : ℕ) (r : JobRow D R) → is_expired o now r ≡ true → P r → P (expired_row now r)

  module _ {reserved : String} (P : JobRow D R → Type 0) (k : IsKept reserved P) where
    pub Statement-All :
        {rows later : List (JobRow D R)} → Statement reserved rows later → All P rows → All P later
    Statement-All (inserts s id key_hash payload_hash now f _ _) a =
        (k.of_new s id key_hash payload_hash now f, a)
    Statement-All {rows} (clears id) a = All-update_where P _ _ rows (λ r _ p. k.of_cleared r p) a
    Statement-All {rows} (claims m now) a = All-update_where P _ _ rows (k.of_claimed m now) a
    Statement-All {rows} (completes m response now) a =
        All-update_where P _ _ rows (k.of_completed m response now) a
    Statement-All {rows} (fails m e now) a = All-update_where P _ _ rows (k.of_failed m e now) a
    Statement-All {rows} (expires now) a = All-update_where P _ _ rows (k.of_expired now) a
    Statement-All {rows} (deletes now) a = All-delete_where P _ rows a

    pub Reach-All :
        {rows later : List (JobRow D R)} → Reach reserved rows later → All P rows → All P later
    Reach-All here a = a
    Reach-All (next r st) a = Statement-All st (Reach-All r a)

  IsSound-IsKept : (reserved : String) → 0 < o.max_attempts → IsKept reserved IsSound
  unfolding new_row completed_row failed_row expired_row cleared
  IsSound-IsKept reserved h = record {
    of_new = λ s id key_hash payload_hash now _. ground arith;
    of_cleared = λ r p. ground arith;
    of_claimed = λ m now r c p. ground arith;
    of_completed = λ m response now r c p. ground arith;
    of_failed = λ m e now r c p. ground arith;
    of_expired = λ now r c p. ground arith;
  }

  -- Whatever statements the gateways and the workers run, in any order: no job makes more attempts
  -- than it may; a waiting job has an attempt left; a job has a lease exactly while it is active,
  -- and an end exactly when it is completed or failed; an ended job is not published again; and
  -- it has its answer or its error code.
  pub Reach-IsSound :
      (reserved : String) {rows later : List (JobRow D R)}
      → 0 < o.max_attempts
      → Reach reserved rows later
      → All IsSound rows
      → All IsSound later
  Reach-IsSound reserved h r a = Reach-All IsSound (IsSound-IsKept reserved h) r a
