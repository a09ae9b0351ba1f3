-- ===== src/Worker/Failures.antt =====
-- How `RabbitMqJobWorker.execute` (src/queue/rabbitmq.ts) reports a failed attempt, and what it measures.
use model_mux.Prelude.{
  ℕ, ◌≡◌, refl, ap, ◌∙◌, ◌⊎◌, inl, inr, Bool, List, [], ◌∷◌, ◌++◌, Option, none, some, ltb,
}
use mathlib.Core.List.{append_assoc}
use model_mux.Errors.{Error}
use model_mux.Circuit.{Completion, returned, threw}
use model_mux.Jobs.{JobEnvelope, JobStoreOptions, JobRow, ProcessingJob}
use model_mux.Jobs.Attempts.{claim}
use model_mux.Worker.{
  Delivery, JobOutcome, job_start, job_end, infrastructure_error, Database, WorkerState, Fault,
  works, refuses, loses_answer, Pool, ProcessorError, query, ended, processed, claimed_by, execute,
}

module _ {D R : Type 0} (o : JobStoreOptions) (pool : Pool) (m : JobEnvelope)
    (processor : ProcessingJob D → Database D R → Completion R ProcessorError × Database D R) where
  ended-metrics :
      {A : Type 0} (outcome : A → JobOutcome) (delivery : A → Delivery) (f : Fault)
      (statement : ℕ → List (JobRow D R) → A × List (JobRow D R)) (w : WorkerState D R)
      → (x : JobOutcome) × ((ended outcome delivery (query f statement w)).1.metrics
          ≡ w.metrics ++ job_end x ∷ [])
  unfolding ended query
  ended-metrics outcome delivery works statement w =
      (outcome (statement w.database.now w.database.rows).0, refl)
  ended-metrics outcome delivery (refuses e) statement w = (infrastructure_error, refl)
  ended-metrics outcome delivery (loses_answer e) statement w = (infrastructure_error, refl)

  processed-metrics :
      (c : Completion R ProcessorError) (w : WorkerState D R)
      → (x : JobOutcome) × ((processed o pool m c w).1.metrics ≡ w.metrics ++ job_end x ∷ [])
  unfolding processed
  processed-metrics (returned response) w = ended-metrics _ _ pool.on_complete _ w
  processed-metrics (threw e) w = ended-metrics _ _ pool.on_fail _ w

  -- Each claimed job is measured to its end, once: a delivery adds nothing to the metrics, or one start
  -- and then one end, on every path, errors of the database included.
  pub measured_once :
      (w : WorkerState D R)
      → let after = (execute o pool processor m w).1.metrics in
        (after ≡ w.metrics)
        ⊎ ((retry : Bool) × (wait : ℕ) × (x : JobOutcome) × (after
              ≡ w.metrics ++ job_start retry wait ∷ job_end x ∷ []))
  unfolding execute claimed_by query
  measured_once w =
      claimed_by-metrics (query pool.on_claim (λ now. claim o m now) w) (same pool.on_claim)
    where
      same : (f : Fault) → (query f (λ now. claim o m now) w).1.metrics ≡ w.metrics
      same works = refl
      same (refuses e) = refl
      same (loses_answer e) = refl

      claimed_by-metrics :
          (a : Completion (Option (ProcessingJob D)) Error × WorkerState D R)
          → a.1.metrics ≡ w.metrics
          → let after = (claimed_by o pool processor m a).1.metrics in
            (after ≡ w.metrics)
            ⊎ ((retry : Bool) × (wait : ℕ) × (x : JobOutcome) × (after
                  ≡ w.metrics ++ job_start retry wait ∷ job_end x ∷ []))
      claimed_by-metrics (threw e, w') h = inl h
      claimed_by-metrics (returned none, w') h = inl h
      claimed_by-metrics (returned (some job), w') h =
          let start = job_start (ltb 1 job.attempt) job.queue_wait_time_ms in
          let (c, database) = processor job w'.database in
          let (x, e) =
            processed-metrics c
              (record w' { database = database; metrics = w'.metrics ++ start ∷ [] }) in
          inr (
            ltb 1 job.attempt,
            job.queue_wait_time_ms,
            x,
            e
                ∙ (append_assoc w'.metrics (start ∷ []) (job_end x ∷ [])
                    ∙ ap (λ ms. ms ++ start ∷ job_end x ∷ []) h),
          )
