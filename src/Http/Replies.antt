-- ===== src/Http/Replies.antt =====
-- What the error replies of src/app.ts give away, and their statuses.
use model_mux.Prelude.{
  ℕ, Option, ◌≤◌, ◌<◌, ◌≡◌, ◌≢◌, refl, ap, ◌⊎◌, inl, inr, Bool, true, false, String, List, [], ◌∷◌,
  none, some, arith, Bool-cases, All,
}
use mathlib.Core.List.{Memᴰ}
use model_mux.Errors.{
  AppError, retry_after, headers, status_code, code, message, job_not_found_error,
  job_queue_unavailable_error, provider_http_error,
}
use model_mux.Circuit.{returned, threw}
use model_mux.Jobs.{JobStoreOptions, JobRow}
use model_mux.Jobs.Submission.{status_of}
use model_mux.Jobs.Contract.{get_job_isolated}
use model_mux.Http.{
  RequestError, ValidationIssue, validation, app_error, other, is_client_status, internal_error,
  handle_error, wrapped, poll,
}

status_code_bounds : (e : AppError) → (401 ≤ status_code e) × (status_code e ≤ 504)
unfolding status_code
status_code_bounds (provider_http_error _ _ _) = (omega arith, omega arith)
status_code_bounds _ = (omega arith, omega arith)

-- A failed request is answered in one of four ways. A validation error: with status 400. An AppError: with
-- its own status, from 401 to 504, its own code and message. An error with a status from 400 to 499: with
-- that status and its message. Any other error: with the internal error, status 500, so nothing of it reaches the client.
pub errors_contained :
    (request_id : String) (e : RequestError)
    → let reply = handle_error request_id e in
      ((context : Option String) × (issues : List ValidationIssue) × (e ≡ validation context issues)
        × (reply.status ≡ 400))
      ⊎ ((a : AppError) × (e ≡ app_error a)
          × (401 ≤ reply.status)
          × (reply.status ≤ 504)
          × (reply.status ≡ status_code a)
          × (reply.code ≡ code a)
          × (reply.message ≡ message a))
      ⊎ ((c : Option String) × (m : String) × (e ≡ other (some reply.status) c m)
          × (400 ≤ reply.status)
          × (reply.status < 500)
          × (reply.message ≡ m))
      ⊎ ((status : Option ℕ) × (c : Option String) × (m : String) × (e ≡ other status c m)
          × ((s : ℕ) → status ≡ some s → (s < 400) ⊎ (500 ≤ s))
          × (reply ≡ internal_error request_id))
unfolding handle_error
errors_contained request_id (validation context issues) = inl (context, issues, refl, refl)
errors_contained request_id (app_error e) =
    let b = status_code_bounds e in inr (inl (e, refl, b.0, b.1, refl, refl, refl))
errors_contained request_id (other none c m) =
    inr (inr (inr (none, c, m, refl, (λ s h. ground arith), refl)))
errors_contained request_id (other (some s) c m) = elim (Bool-cases (is_client_status (some s))) [
  | inl h ↦ inr (inr (inl (rw (h, handle_error) (c, m, refl, ground arith, ground arith, refl))))
  | inr h ↦
      inr (inr (inr (some s, c, m, refl, (λ t k. ground (arith, h)), rw (h, handle_error) refl)))
]

-- What a client that polls for a job is told: the state of a row of the table with the id, the owner and the
-- queue that it asks for; or, if there is no such row, with status 404, that there is none; or, while the database does not answer, with status
-- 503, to try again after a second.
pub poll_replies :
    {D R : Type 0} (o : JobStoreOptions) (is_down : Bool) (id owner request_id : String)
    (rows : List (JobRow D R))
    → ((r : JobRow D R) × Memᴰ r rows
        × (poll o is_down id owner rows ≡ returned (status_of r))
        × (r.id ≡ id)
        × (r.owner_id ≡ owner)
        × (r.queue_name ≡ o.name))
      ⊎ ((e : AppError) × (poll o is_down id owner rows ≡ threw e)
          × ((((handle_error request_id (app_error e)).status ≡ 404)
                × All (λ r. r.id ≡ id → r.owner_id ≡ owner → r.queue_name ≢ o.name) rows)
              ⊎ (((handle_error request_id (app_error e)).status ≡ 503)
                  × ((handle_error request_id (app_error e)).headers ≡ retry_after 1 ∷ [])
                  × (is_down ≡ true))))
unfolding poll handle_error status_code headers
poll_replies o true id owner request_id rows =
    inr (job_queue_unavailable_error, refl, inr (refl, refl, refl))
poll_replies o false id owner request_id rows = elim (get_job_isolated o id owner rows) [
  | inl (r, there, e, i, w, n) ↦ inl (r, there, ap wrapped e, i, w, n)
  | inr (e, a) ↦ inr (job_not_found_error, ap wrapped e, inl (refl, a))
]
