-- ===== src/Http/Examples.antt =====
-- Failed requests (src/app.ts), run by hand.
use model_mux.Prelude.{
  ℕ, ◌≡◌, ◌≢◌, ◌≤◌, ◌<◌, ◌⊎◌, String, Option, some, List, [], ◌∷◌, none, Bool, true, false, All,
}
use mathlib.Core.List.{Memᴰ}
use model_mux.Errors.{AppError, retry_after, status_code, code, message}
use model_mux.Circuit.{returned, threw}
use model_mux.Jobs.{JobStoreOptions, JobRow}
use model_mux.Jobs.Submission.{status_of}
use model_mux.Http.{
  ValidationIssue, validation, app_error, other, internal_error, handle_error, poll,
}
use model_mux.Http.Replies.{errors_contained, poll_replies}

abbrev options : JobStoreOptions
options = record { name = "q"; max_attempts = 2; backoff_ms = 1000; lease_ms = 600000 }

errors_contained_example :
    let e = other none none "password=1" in
    let reply = handle_error "r1" e in
    ((context : Option String) × (issues : List ValidationIssue) × (e ≡ validation context issues)
      × (reply.status ≡ 400))
    ⊎ ((a : AppError) × (e ≡ app_error a)
        × (401 ≤ reply.status)
        × (reply.status ≤ 504)
        × (reply.status ≡ status_code a)
        × (reply.code ≡ code a)
        × (reply.message ≡ message a))
    ⊎ ((c : Option String) × (m : String) × (e ≡ other (some reply.status) c m)
        × (400 ≤ reply.status)
        × (reply.status < 500)
        × (reply.message ≡ m))
    ⊎ ((status : Option ℕ) × (c : Option String) × (m : String) × (e ≡ other status c m)
        × ((s : ℕ) → status ≡ some s → (s < 400) ⊎ (500 ≤ s))
        × (reply ≡ internal_error "r1"))
errors_contained_example = errors_contained "r1" (other none none "password=1")

poll_replies_example :
    let rows : List (JobRow ℕ ℕ) = [] in
    ((r : JobRow ℕ ℕ) × Memᴰ r rows
      × (poll options false "j1" "bob" rows ≡ returned (status_of r))
      × (r.id ≡ "j1")
      × (r.owner_id ≡ "bob")
      × (r.queue_name ≡ "q"))
    ⊎ ((e : AppError) × (poll options false "j1" "bob" rows ≡ threw e)
        × ((((handle_error "r1" (app_error e)).status ≡ 404)
              × All (λ r. r.id ≡ "j1" → r.owner_id ≡ "bob" → r.queue_name ≢ "q") rows)
            ⊎ (((handle_error "r1" (app_error e)).status ≡ 503)
                × ((handle_error "r1" (app_error e)).headers ≡ retry_after 1 ∷ [])
                × (◌≡◌ {A = Bool} false true))))
poll_replies_example = poll_replies options false "j1" "bob" "r1" []
