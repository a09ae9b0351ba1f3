-- ===== src/Jobs/Outcome.antt =====
-- One claim and one outcome for each attempt (src/queue/postgres-job-store.ts), whatever deliveries are
-- repeated and however the statements of the gateways and the workers interleave.
use model_mux.Prelude.{
  ℕ, ◌≡◌, ◌⊎◌, inl, inr, true, false, List, [], ◌∷◌, none, some, arith, All, All-map, Bool-cases,
  Option-cases,
}
use model_mux.Jobs.{JobProcessingError, JobEnvelope, ProcessingJob, JobStoreOptions, JobRow}
use model_mux.Jobs.Table.{find_row, update_where, has_id}
use model_mux.Jobs.Attempts.{
  can_claim, claimed, claim, is_current, completed_row, complete, failed_row, fail,
}
use model_mux.Jobs.Rows.{All-update_where, All-split, find_row-none, update_where-none}
use model_mux.Jobs.Life.{Reach, Reach-All}
use model_mux.Jobs.Fence.{UniqueIds, others, IsBegun, IsOver, IsBegun-IsKept, IsOver-IsKept}

module _ {D R : Type 0} (o : JobStoreOptions) (m : JobEnvelope) where
  abbrev IsOther : JobRow D R → Type 0
  IsOther r = has_id m.id r ≡ false

  others-IsBegun :
      (now : ℕ) (rows : List (JobRow D R))
      → All IsOther rows
      → All (IsBegun o m) (update_where (can_claim o m now) (claimed o m now) rows)
  others-IsBegun now rows a =
      All-map _ (λ r h k. cc) (All-update_where IsOther _ (claimed o m now) rows (λ r _ h. h) a)

  others_not_claimed :
      (now : ℕ) (rows : List (JobRow D R))
      → All IsOther rows
      → find_row (can_claim o m now) rows ≡ none
  others_not_claimed now rows a =
      find_row-none (can_claim o m now) rows (All-map rows (λ r h. ground arith) a)

  -- The row of the claim is the only one with its id.
  claim-IsBegun :
      (now : ℕ) (rows : List (JobRow D R)) (r : JobRow D R)
      → UniqueIds rows
      → find_row (can_claim o m now) rows ≡ some r
      → All (IsBegun o m) (update_where (can_claim o m now) (claimed o m now) rows)
  unfolding find_row update_where
  claim-IsBegun now [] r u e = tt
  claim-IsBegun now (x ∷ rows) r u e = elim (Bool-cases (can_claim o m now x)) [
    | inl h ↦
        rw h (λ _. ground arith, others-IsBegun now rows (others m.id x rows u (ground arith)))
    | inr h ↦ rw h (λ k. absurd (missed h k), claim-IsBegun now rows r u.1 (ground arith))
  ]
    where
      missed : can_claim o m now x ≡ false → has_id m.id x ≡ true → ⊥
      missed h k = ground (arith, others_not_claimed now rows (others m.id x rows u k))

  -- No statement changes a row for an attempt that is over.
  is_current-IsOver : (r : JobRow D R) → IsOver o m r → is_current o m r ≡ false
  is_current-IsOver r h = ground (arith, h)

  can_claim-IsOver : (now : ℕ) (r : JobRow D R) → IsOver o m r → can_claim o m now r ≡ false
  can_claim-IsOver now r h = ground (arith, h)

  can_claim-IsBegun : (now : ℕ) (r : JobRow D R) → IsBegun o m r → can_claim o m now r ≡ false
  can_claim-IsBegun now r h = ground (arith, h)

  claimed_rows-IsBegun :
      (now : ℕ) (rows : List (JobRow D R)) (job : ProcessingJob D)
      → UniqueIds rows
      → (claim o m now rows).0 ≡ some job
      → All (IsBegun o m) (claim o m now rows).1
  unfolding claim
  claimed_rows-IsBegun now rows job u e = elim (Option-cases (find_row (can_claim o m now) rows)) [
    | inl q ↦ absurd (ground arith)
    | inr (row, q) ↦ claim-IsBegun now rows row u q
  ]

  -- A message that a worker has claimed is claimed by nobody again, however often it is delivered and
  -- whatever statements change the table afterwards.
  pub claim_once :
      (now later : ℕ) (rows last : List (JobRow D R)) (job : ProcessingJob D)
      → UniqueIds rows
      → (claim o m now rows).0 ≡ some job
      → Reach o m.id (claim o m now rows).1 last
      → claim o m later last ≡ (none, last)
  unfolding claim
  claim_once now later rows last job u e r =
      let begun =
        Reach-All o (IsBegun o m) (IsBegun-IsKept o m) r (claimed_rows-IsBegun now rows job u e) in
      let never = All-map last (can_claim-IsBegun later) begun in
      ground (
        arith,
        find_row-none (can_claim o m later) last never,
        update_where-none (can_claim o m later) (claimed o m later) last never,
      )

  over_for_good :
      (rows last : List (JobRow D R))
      → All (IsOver o m) rows
      → Reach o m.id rows last
      → ((response : R) (t : ℕ) → complete o m response t last ≡ last)
        × ((e : JobProcessingError) (t : ℕ) → fail o m e t last ≡ (none, last))
        × ((t : ℕ) → claim o m t last ≡ (none, last))
  unfolding claim complete fail
  over_for_good rows last a r =
      let over = Reach-All o (IsOver o m) (IsOver-IsKept o m) r a in
      let idle = All-map last is_current-IsOver over in
      let unclaimed = λ (t : ℕ). All-map last (can_claim-IsOver t) over in
      (
        λ response t. update_where-none (is_current o m) (completed_row response t) last idle,
        λ e t. ground (
          arith,
          find_row-none (is_current o m) last idle,
          update_where-none (is_current o m) (failed_row e t) last idle,
        ),
        λ t. ground (
          arith,
          find_row-none (can_claim o m t) last (unclaimed t),
          update_where-none (can_claim o m t) (claimed o m t) last (unclaimed t),
        ),
      )

  missed-IsOver : (r : JobRow D R) → is_current o m r ≡ false → IsBegun o m r → IsOver o m r
  missed-IsOver r h b k = ground (arith, b k)

  complete-IsOver :
      (response : R) (t : ℕ) (rows : List (JobRow D R))
      → All (IsBegun o m) rows
      → All (IsOver o m) (complete o m response t rows)
  unfolding complete completed_row
  complete-IsOver response t rows a =
      All-split (IsBegun o m) (IsOver o m) (is_current o m) (completed_row response t) rows
        (λ r h b k. ground arith) missed-IsOver a

  fail-IsOver :
      (e : JobProcessingError) (t : ℕ) (rows : List (JobRow D R))
      → All (IsBegun o m) rows
      → All (IsOver o m) (fail o m e t rows).1
  unfolding fail failed_row
  fail-IsOver e t rows a =
      All-split (IsBegun o m) (IsOver o m) (is_current o m) (failed_row e t) rows
        (λ r h b k. ground arith) missed-IsOver a

  -- A worker claims the attempt `m`, and later its outcome is reported, by `complete` or by `fail`.
  -- From then on the attempt is over: whatever other statements run, no late report of a result or
  -- of an error for `m` changes the table, and `m` is never claimed again.
  pub outcome_once :
      (now : ℕ) (rows middle recorded last : List (JobRow D R)) (job : ProcessingJob D)
      → UniqueIds rows
      → (claim o m now rows).0 ≡ some job
      → Reach o m.id (claim o m now rows).1 middle
      → ((response : R) × (t : ℕ) × (recorded ≡ complete o m response t middle))
        ⊎ ((e : JobProcessingError) × (t : ℕ) × (recorded ≡ (fail o m e t middle).1))
      → Reach o m.id recorded last
      → ((response : R) (t : ℕ) → complete o m response t last ≡ last)
        × ((e : JobProcessingError) (t : ℕ) → fail o m e t last ≡ (none, last))
        × ((t : ℕ) → claim o m t last ≡ (none, last))
  outcome_once now rows middle recorded last job u c r report r' =
      over_for_good recorded last (ended report) r'
    where
      begun : All (IsBegun o m) middle
      begun =
          Reach-All o (IsBegun o m) (IsBegun-IsKept o m) r (claimed_rows-IsBegun now rows job u c)

      ended :
          ((response : R) × (t : ℕ) × (recorded ≡ complete o m response t middle))
            ⊎ ((e : JobProcessingError) × (t : ℕ) × (recorded ≡ (fail o m e t middle).1))
          → All (IsOver o m) recorded
      ended (inl (response, t, q)) = rw q (complete-IsOver response t middle begun)
      ended (inr (e, t, q)) = rw q (fail-IsOver e t middle begun)
