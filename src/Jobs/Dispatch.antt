-- ===== src/Jobs/Dispatch.antt =====
-- The outbox of src/queue/postgres-job-store.ts: what `dispatchOne` publishes, and when it forgets a row.
use model_mux.Prelude.{List}
use mathlib.Core.List.{Memᴰ}
