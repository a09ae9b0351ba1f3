-- ===== src/Jobs/Fence.antt =====
-- The attempt number as a fence (src/queue/postgres-job-store.ts): a delivery that was repeated, and a
-- worker that lost its lease, cannot disturb a later attempt.
use model_mux.Prelude.{
  ◌≤◌, ◌<◌, ◌≡◌, refl, ap, subst, ◌⊎◌, inl, inr, Bool, true, false, String, List, [], ◌∷◌, none,
  arith, All, Bool-cases, str_eq, eq_iff,
}
use model_mux.Jobs.{JobEnvelope, JobStoreOptions, JobRow}
use model_mux.Jobs.Table.{is_active, find_row, update_where, delete_where, has_id}
use model_mux.Jobs.Submission.{new_row}
use model_mux.Jobs.Attempts.{completed_row, failed_row, expired_row, cleared}
use model_mux.Jobs.Rows.{find_row-update_where, find_row-delete_where}
use model_mux.Jobs.Life.{
  Statement, inserts, clears, claims, completes, fails, expires, deletes, IsKept,
}

module _ {D R : Type 0} where
  -- The primary key.
  abbrev pub UniqueIds : List (JobRow D R) → Type 0
  UniqueIds [] = Unit {0}
  UniqueIds (r ∷ rs) = (find_row (has_id r.id) rs ≡ none) × UniqueIds rs

  UniqueIds-update_where :
      (p : JobRow D R → Bool) (f : JobRow D R → JobRow D R) (rows : List (JobRow D R))
      → ((r : JobRow D R) → (f r).id ≡ r.id)
      → UniqueIds rows
      → UniqueIds (update_where p f rows)
  unfolding update_where
  UniqueIds-update_where p f [] k u = tt
  UniqueIds-update_where p f (r ∷ rs) k u =
      let rest = UniqueIds-update_where p f rs k u.1 in
      let kept =
        find_row-update_where (has_id r.id) p f rs (λ x. ap (λ i. str_eq i r.id) (k x)) u.0 in
      elim (Bool-cases (p r)) [ inl h ↦ rw (h, k r) (kept, rest) | inr h ↦ rw h (kept, rest) ]

  UniqueIds-delete_where :
      (p : JobRow D R → Bool) (rows : List (JobRow D R))
      → UniqueIds rows
      → UniqueIds (delete_where p rows)
  unfolding delete_where
  UniqueIds-delete_where p [] u = tt
  UniqueIds-delete_where p (r ∷ rs) u =
      let rest = UniqueIds-delete_where p rs u.1 in
      let kept = find_row-delete_where (has_id r.id) p rs u.0 in
      elim (Bool-cases (p r)) [ inl h ↦ rw h rest | inr h ↦ rw h (kept, rest) ]

  pub find_row-none_inv :
      (p : JobRow D R → Bool) (rows : List (JobRow D R))
      → find_row p rows ≡ none
      → All (λ r. p r ≡ false) rows
  unfolding find_row
  find_row-none_inv p [] e = tt
  find_row-none_inv p (r ∷ rs) e = (ground arith, find_row-none_inv p rs (ground arith))

  -- No other row has the id of this one.
  pub others :
      (id : String) (x : JobRow D R) (rows : List (JobRow D R))
      → UniqueIds (x ∷ rows)
      → has_id id x ≡ true
      → All (λ r. has_id id r ≡ false) rows
  others id x rows u h =
      find_row-none_inv (has_id id) rows
        (subst (λ i. find_row (has_id i) rows ≡ none) ((eq_iff x.id id).0 h) u.0)

module _ {D R : Type 0} (o : JobStoreOptions) where
  pub Statement-UniqueIds :
      {reserved : String} {rows later : List (JobRow D R)}
      → Statement o reserved rows later
      → UniqueIds rows
      → UniqueIds later
  unfolding new_row cleared completed_row failed_row expired_row
  Statement-UniqueIds (inserts s id key_hash payload_hash now f e _) u = (e, u)
  Statement-UniqueIds {rows} (clears id) u = UniqueIds-update_where _ _ rows (λ r. refl) u
  Statement-UniqueIds {rows} (claims m now) u = UniqueIds-update_where _ _ rows (λ r. refl) u
  Statement-UniqueIds {rows} (completes m response now) u =
      UniqueIds-update_where _ _ rows (λ r. refl) u
  Statement-UniqueIds {rows} (fails m e now) u = UniqueIds-update_where _ _ rows (λ r. refl) u
  Statement-UniqueIds {rows} (expires now) u = UniqueIds-update_where _ _ rows (λ r. refl) u
  Statement-UniqueIds {rows} (deletes now) u = UniqueIds-delete_where _ rows u

  -- The attempt `m` was begun: its job is in this queue and counts at least that many attempts.
  abbrev pub IsBegun : JobEnvelope → JobRow D R → Type 0
  IsBegun m r =
      has_id m.id r ≡ true → (m.attempt ≤ r.attempts_made) × (str_eq r.queue_name o.name ≡ true)

  -- The attempt `m` is over: a later one was begun, or its job is no longer active.
  abbrev pub IsOver : JobEnvelope → JobRow D R → Type 0
  IsOver m r =
      has_id m.id r ≡ true
      → (m.attempt < r.attempts_made)
        ⊎ ((m.attempt ≡ r.attempts_made) × (is_active r.status ≡ false))

  pub IsBegun-IsKept : (m : JobEnvelope) → IsKept o m.id (IsBegun m)
  unfolding new_row completed_row failed_row expired_row cleared
  IsBegun-IsKept m = record {
    of_new = λ s id key_hash payload_hash now f h. cc;
    of_cleared = λ r p. p;
    of_claimed = λ n now r c p h. ground (arith, p h);
    of_completed = λ n response now r c p. p;
    of_failed = λ n e now r c p. p;
    of_expired = λ now r c p. p;
  }

  pub IsOver-IsKept : (m : JobEnvelope) → IsKept o m.id (IsOver m)
  unfolding new_row completed_row failed_row expired_row cleared
  IsOver-IsKept m = record {
    of_new = λ s id key_hash payload_hash now f h. cc;
    of_cleared = λ r p. p;
    of_claimed = λ n now r c p h. ground (arith, p h);
    of_completed = λ n response now r c p h. ground (arith, p h);
    of_failed = λ n e now r c p h. ground (arith, p h);
    of_expired = λ now r c p h. ground (arith, p h);
  }
