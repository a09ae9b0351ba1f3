-- ===== src/Worker/Execution.antt =====
-- What `RabbitMqJobWorker.execute` (src/queue/rabbitmq.ts) leaves behind when it answers the broker.
use model_mux.Prelude.{ℕ, ◌≡◌, refl, ap, subst, false, List, [], ◌∷◌, none, some, arith, All}
use model_mux.Circuit.{Completion, returned, threw}
use model_mux.Jobs.{
  JobEnvelope, JobStoreOptions, JobRow, ProcessingJob, completed, JobProcessingError,
}
use model_mux.Jobs.Table.{find_row, ok}
use model_mux.Jobs.Submission.{get_job}
use model_mux.Jobs.Attempts.{claim, complete, fail, is_current, completed_row, failed_row}
use model_mux.Jobs.Rows.{All-split}
use model_mux.Jobs.Fence.{UniqueIds}
use model_mux.Jobs.Retry.{completed_visible}
use model_mux.Worker.{
  Delivery, ack, JobOutcome, Database, WorkerState, Fault, works, refuses, loses_answer, Pool,
  ProcessorError, failure_of, query, ended, processed, claimed_by, execute,
}

module _ {D R : Type 0} (o : JobStoreOptions) (m : JobEnvelope) where
  -- No row is active in the attempt of the message.
  abbrev pub Settled : List (JobRow D R) → Type 0
  Settled rows = All (λ r. is_current o m r ≡ false) rows

  All-true : (rows : List (JobRow D R)) → All (λ _. Unit {0}) rows
  All-true [] = tt
  All-true (r ∷ rows) = (tt, All-true rows)

  complete-Settled :
      (response : R) (now : ℕ) (rows : List (JobRow D R)) → Settled (complete o m response now rows)
  unfolding complete completed_row
  complete-Settled response now rows =
      All-split (λ _. Unit {0}) (λ r. is_current o m r ≡ false) (is_current o m)
        (completed_row response now) rows (λ r h u. ground arith) (λ r h u. h) (All-true rows)

  fail-Settled :
      (e : JobProcessingError) (now : ℕ) (rows : List (JobRow D R))
      → Settled (fail o m e now rows).1
  unfolding fail failed_row
  fail-Settled e now rows =
      All-split (λ _. Unit {0}) (λ r. is_current o m r ≡ false) (is_current o m) (failed_row e now)
        rows (λ r h u. ground arith) (λ r h u. h) (All-true rows)

  ended-Settled :
      {A : Type 0} (outcome : A → JobOutcome) (delivery : A → Delivery) (f : Fault)
      (statement : ℕ → List (JobRow D R) → A × List (JobRow D R)) (w w' : WorkerState D R)
      (d : Delivery)
      → ((now : ℕ) (rows : List (JobRow D R)) → Settled (statement now rows).1)
      → ended outcome delivery (query f statement w) ≡ (returned d, w')
      → Settled w'.database.rows
  unfolding ended query
  ended-Settled outcome delivery works statement w w' d settles e =
      subst Settled (ap (λ z. z.1.database.rows) e) (settles w.database.now w.database.rows)
  ended-Settled outcome delivery (refuses x) statement w w' d settles e = cc
  ended-Settled outcome delivery (loses_answer x) statement w w' d settles e = cc

  processed-Settled :
      (pool : Pool) (c : Completion R ProcessorError) (w w' : WorkerState D R) (d : Delivery)
      → processed o pool m c w ≡ (returned d, w')
      → Settled w'.database.rows
  unfolding processed
  processed-Settled pool (returned response) w w' d e =
      ended-Settled _ _ pool.on_complete _ w w' d (complete-Settled response) e
  processed-Settled pool (threw x) w w' d e =
      ended-Settled _ _ pool.on_fail _ w w' d (fail-Settled (failure_of x)) e

  -- The worker answers the broker about an attempt that it has claimed only after the database has
  -- settled it: then no row is active in that attempt any more, whatever the processor and other
  -- connections did, and whichever statement the pool failed. So a message is never given up while
  -- the outcome of its attempt is unwritten.
  pub execute-Settled :
      (pool : Pool)
      (processor : ProcessingJob D → Database D R → Completion R ProcessorError × Database D R)
      (w w' : WorkerState D R) (job : ProcessingJob D) (d : Delivery)
      → (claim o m w.database.now w.database.rows).0 ≡ some job
      → execute o pool processor m w ≡ (returned d, w')
      → Settled w'.database.rows
  unfolding execute claimed_by query
  execute-Settled pool processor w w' job d c e = answered pool.on_claim e
    where
      answered :
          (f : Fault)
          → claimed_by o pool processor m (query f (λ now. claim o m now) w) ≡ (returned d, w')
          → Settled w'.database.rows
      answered (refuses x) e' = cc
      answered (loses_answer x) e' = cc
      answered works e' = processed-Settled pool _ _ w' d (rw (c, claimed_by) at e')

  -- A claimed attempt whose processor answers, while the attempt stays current and the pool works, is
  -- acknowledged, and from then on the owner of the job reads that answer.
  pub answer_visible :
      (pool : Pool)
      (processor : ProcessingJob D → Database D R → Completion R ProcessorError × Database D R)
      (w : WorkerState D R) (job : ProcessingJob D) (response : R) (database : Database D R)
      (r : JobRow D R)
      → pool.on_claim ≡ works
      → pool.on_complete ≡ works
      → (claim o m w.database.now w.database.rows).0 ≡ some job
      → processor job
          (record { rows = (claim o m w.database.now w.database.rows).1; now = w.database.now })
        ≡ (returned response, database)
      → UniqueIds database.rows
      → find_row (is_current o m) database.rows ≡ some r
      → let (answer, w') = execute o pool processor m w in
        (answer ≡ returned ack)
        × (get_job o m.id r.owner_id w'.database.rows
            ≡ ok (record {
              id = r.id;
              request_id = r.request_id;
              status = completed;
              attempts_made = m.attempt;
              response = some response;
              error = none;
            }))
  unfolding execute claimed_by query processed ended
  answer_visible pool processor w job response database r a b c p u f =
      rw (a, c, p, b, execute, claimed_by, query, processed, ended)
        (refl, completed_visible o m response database.now database.rows r u f)
