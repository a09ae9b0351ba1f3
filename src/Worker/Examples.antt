-- ===== src/Worker/Examples.antt =====
-- One delivered message (src/queue/rabbitmq.ts), run by hand.
use model_mux.Prelude.{ℕ, ◌≡◌, refl, none, some, [], ◌∷◌, true}
use model_mux.Circuit.{Completion, returned, threw}
use model_mux.Errors.{unexpected}
use model_mux.Jobs.{queued, active, completed, JobEnvelope, JobStoreOptions, JobRow, ProcessingJob}
use model_mux.Jobs.Table.{find_row, ok}
use model_mux.Jobs.Submission.{get_job}
use model_mux.Jobs.Attempts.{claim}
use model_mux.Worker.{
  ack, Database, WorkerState, works, Pool, ProcessorError, other_error, execute, claimed_by, query,
  processed, ended,
}
use model_mux.Worker.Execution.{Settled, execute-Settled, answer_visible}

abbrev options : JobStoreOptions
options = record { name = "q"; max_attempts = 2; backoff_ms = 1000; lease_ms = 600000 }

abbrev waiting : JobRow ℕ ℕ
waiting = record {
  id = "j1";
  queue_name = "q";
  owner_id = "ann";
  idempotency_hash = "k";
  payload_hash = "five";
  request_id = "r1";
  job_data = 5;
  status = queued;
  attempts_made = 0;
  max_attempts = 2;
  backoff_ms = 1000;
  response = none;
  error_code = none;
  dispatch_pending = true;
  available_at = 10;
  lease_until = none;
  finished_at = none;
}

abbrev running : JobRow ℕ ℕ
running = record waiting { status = active; attempts_made = 1; lease_until = some 600020 }

abbrev envelope : JobEnvelope
envelope = record { id = "j1"; attempt = 1 }

abbrev job : ProcessingJob ℕ
job = record {
  id = "j1";
  owner_id = "ann";
  request_id = "r1";
  job_data = 5;
  attempt = 1;
  queue_wait_time_ms = 10;
}

abbrev pool : Pool
pool = record { on_claim = works; on_complete = works; on_fail = works }

abbrev state : WorkerState ℕ ℕ
state = record { database = record { rows = waiting ∷ []; now = 20 }; metrics = [] }

abbrev answering : ProcessingJob ℕ → Database ℕ ℕ → Completion ℕ ProcessorError × Database ℕ ℕ
answering j d = (returned 7, d)

abbrev crashing : ProcessingJob ℕ → Database ℕ ℕ → Completion ℕ ProcessorError × Database ℕ ℕ
crashing j d = (threw (other_error (unexpected "bug")), d)

abbrev later : Database ℕ ℕ
later = record { rows = running ∷ []; now = 20 }

execute-Settled_example :
    Settled {D = ℕ} {R = ℕ} options envelope
      (execute options pool answering envelope state).1.database.rows
unfolding claim execute claimed_by query processed ended
execute-Settled_example =
    execute-Settled options envelope pool answering state
      (execute options pool answering envelope state).1 job ack refl refl

answer_visible_example :
    let (answer, w') = execute options pool answering envelope state in
    (answer ≡ returned ack)
    × (get_job options "j1" "ann" w'.database.rows
        ≡ ok (record {
          id = "j1";
          request_id = "r1";
          status = completed;
          attempts_made = 1;
          response = some 7;
          error = none;
        }))
unfolding claim find_row
answer_visible_example =
    answer_visible options envelope pool answering state job 7 later running refl refl refl refl
      (refl, tt) refl
