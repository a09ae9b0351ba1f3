-- ===== src/Jobs/Examples.antt =====
-- A small table of jobs (src/queue/postgres-job-store.ts), run by hand.
use model_mux.Prelude.{
  ℕ, ◌<◌, ◌≡◌, ◌≢◌, refl, ◌⊎◌, inl, String, none, some, [], ◌∷◌, true, false, arith, All,
}
use mathlib.Core.List.{Memᴰ}
use model_mux.Jobs.{
  queued, active, retrying, provider_timeout, job_failed, JobProcessingError, JobSubmission,
  JobEnvelope, JobStoreOptions, JobRow, ProcessingJob,
}
use model_mux.Jobs.Table.{find_row, ok, throws, job_not_found, idempotency_conflict}
use model_mux.Jobs.Submission.{enqueue, get_job, status_of}
use model_mux.Jobs.Attempts.{claim, complete, fail}
use model_mux.Jobs.Life.{IsSound, here, next, claims, Reach-IsSound}
use model_mux.Jobs.Outcome.{claim_once, outcome_once}
use model_mux.Jobs.Retry.{retried}
use model_mux.Jobs.Contract.{enqueue_idempotent, get_job_isolated}

abbrev options : JobStoreOptions
options = record { name = "q"; max_attempts = 2; backoff_ms = 1000; lease_ms = 600000 }

abbrev submission : JobSubmission ℕ
submission = record { owner_id = "ann"; request_id = "r1"; idempotency_key = "k"; job_data = 5 }

abbrev waiting : JobRow ℕ ℕ
waiting = record {
  id = "j1";
  queue_name = "q";
  owner_id = "ann";
  idempotency_hash = "k";
  payload_hash = "five";
  request_id = "r1";
  job_data = 5;
  status = queued;
  attempts_made = 0;
  max_attempts = 2;
  backoff_ms = 1000;
  response = none;
  error_code = none;
  dispatch_pending = true;
  available_at = 10;
  lease_until = none;
  finished_at = none;
}

abbrev running : JobRow ℕ ℕ
running = record waiting { status = active; attempts_made = 1; lease_until = some 600020 }

abbrev envelope : JobEnvelope
envelope = record { id = "j1"; attempt = 1 }

abbrev job : ProcessingJob ℕ
job = record {
  id = "j1";
  owner_id = "ann";
  request_id = "r1";
  job_data = 5;
  attempt = 1;
  queue_wait_time_ms = 10;
}

abbrev timed_out : JobProcessingError
timed_out = record { code = provider_timeout; retryable = true; retry_after_ms = 0 }

abbrev rejected : JobProcessingError
rejected = record { code = job_failed; retryable = false; retry_after_ms = 0 }

claimed_job : (claim options envelope 20 (waiting ∷ [])).0 ≡ some job
unfolding claim
claimed_job = refl

waiting-IsSound : IsSound waiting
waiting-IsSound = record {
  attempts_bounded = omega arith;
  may_attempt = omega arith;
  waiting_has_attempt = λ _. omega arith;
  active_attempted = λ e. cc;
  lease_iff_active = refl;
  finished_iff_terminal = refl;
  terminal_not_pending = λ e. cc;
  completed_answered = λ e. cc;
  failed_explained = λ e. cc;
}

Reach-IsSound_example : All IsSound (claim options envelope 20 (waiting ∷ [])).1
unfolding claim
Reach-IsSound_example =
    Reach-IsSound {D = ℕ} {R = ℕ} options "" {rows = waiting ∷ []} (omega arith)
      (next here (claims envelope 20)) (waiting-IsSound, tt)

claim_once_example :
    claim options envelope 30 (claim options envelope 20 (waiting ∷ [])).1
    ≡ (none, (claim options envelope 20 (waiting ∷ [])).1)
unfolding find_row
claim_once_example =
    claim_once options envelope 20 30 (waiting ∷ []) _ job (refl, tt) claimed_job here

outcome_once_example :
    let last = complete options envelope 7 40 (running ∷ []) in
    ((response t : ℕ) → complete options envelope response t last ≡ last)
    × ((e : JobProcessingError) (t : ℕ) → fail options envelope e t last ≡ (none, last))
    × ((t : ℕ) → claim options envelope t last ≡ (none, last))
unfolding find_row claim
outcome_once_example =
    outcome_once options envelope 20 (waiting ∷ []) (running ∷ []) _ _ job (refl, tt) claimed_job
      here (inl (7, 40, refl)) here

retried_example :
    let next : JobEnvelope = record { id = "j1"; attempt = 2 } in
    let (status, rows') = fail options envelope timed_out 50 (running ∷ []) in
    (status ≡ some retrying)
    × ((again : ProcessingJob ℕ) × ((claim options next 3600050 rows').0 ≡ some again)
        × (again.attempt ≡ 2)
        × (again.job_data ≡ 5))
    × ((early : ℕ) (any : JobEnvelope)
        → early < 50
        → any.id ≡ "j1"
        → claim options any early rows' ≡ (none, rows'))
unfolding find_row
retried_example =
    retried options envelope timed_out 50 3600050 (running ∷ []) running (refl, tt) refl refl
      (omega arith) (omega arith)

enqueue_idempotent_example :
    let again =
      enqueue {R = ℕ} options (λ k. k) (λ _. "five") (λ x. x) submission "j2" 60 (waiting ∷ []) in
    (◌≡◌ {A = String} "five" "five"
      → again ≡ (ok (record { id = "j1"; request_id = "r1" }), waiting ∷ []))
    × (◌≢◌ {A = String} "five" "five" → again ≡ (throws idempotency_conflict, waiting ∷ []))
unfolding enqueue
enqueue_idempotent_example =
    enqueue_idempotent {R = ℕ} options (λ k. k) (λ _. "five") (λ x. x) submission submission "j1"
      "j2" 10 60 [] (waiting ∷ []) (record { id = "j1"; request_id = "r1" }) refl refl refl

get_job_isolated_example :
    ((r : JobRow ℕ ℕ) × Memᴰ r (running ∷ [])
      × (get_job options "j1" "bob" (running ∷ []) ≡ ok (status_of r))
      × (r.id ≡ "j1")
      × (r.owner_id ≡ "bob")
      × (r.queue_name ≡ "q"))
    ⊎ ((get_job options "j1" "bob" (running ∷ []) ≡ throws job_not_found)
        × All (λ r. r.id ≡ "j1" → r.owner_id ≡ "bob" → r.queue_name ≢ "q") (running ∷ []))
get_job_isolated_example = get_job_isolated options "j1" "bob" (running ∷ [])
