-- ===== src/Journey/Waited.antt =====
-- What `wait_for` gives after the middleware has run.
use apalis_surrealdb.Prelude.{ℕ, ◌^◌, ◌<◌, ◌≡◌, true, if◌then◌else◌}
use apalis_surrealdb.Prelude.Int.{pos, as_i64}
use apalis_surrealdb.Database.{text, same_id, Json, JobRow}
use apalis_surrealdb.Session.{Session}
use apalis_surrealdb.Tasks.{Task}
use apalis_surrealdb.Jobs.Work.{lock_row, ack_row}
use apalis_surrealdb.Ack.{TaskResult, calculate_status}

-- The jobs of that id allow so many attempts.
abbrev pub Allows : ℕ → ℕ → JobRow → Type 0
Allows id m r = same_id r.id (text id) ≡ true → r.max_attempts ≡ pos m

-- A job locked and then acknowledged.
abbrev pub outcome : Task → TaskResult → (instance locked acked : ℕ) → Json → JobRow → JobRow
outcome req res instance locked acked v r =
    ack_row (calculate_status req res) (as_i64 req.attempt) v acked (lock_row instance locked r)

module _ (req : Task) (res : TaskResult) (id instance m locked acked : ℕ) (v : Json)
    (attempts : req.max_attempts ≡ pos m) (within : req.attempt < 2 ^ 63) where
  settled_row : JobRow → JobRow
  settled_row r = if same_id r.id (text id) then outcome req res instance locked acked v r else r
