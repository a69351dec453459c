-- ===== src/Ack/Settled.antt =====
-- `calculate_status` of ack_task.rs against the queries that read the status.
use apalis_surrealdb.Prelude.{ℕ, ◌^◌, ◌≤◌, ◌<◌, ◌≡◌, not, arith}
use apalis_surrealdb.Prelude.Int.{pos, as_i64}
use apalis_surrealdb.Database.{Json, JobRow}
use apalis_surrealdb.Tasks.{Task}
use apalis_surrealdb.Jobs.{is_claimable, is_failed}
use apalis_surrealdb.Jobs.Work.{ack_row}
use apalis_surrealdb.Jobs.Finished.{is_completed, is_purged}
use apalis_surrealdb.Ack.{TaskResult, success, failure, calculate_status}

-- Let a job with a non-negative `max_attempts`, and an attempt count in the range of an i64, be
-- acknowledged with the status calculated from its result. Once its run time has come, exactly one
-- holds: its status is `Failed`, it is claimed again, and neither is it reported as completed nor
-- vacuumed; or it is never claimed again, is reported as completed, and is vacuumed.
pub ack_row_settles :
    (parts : Task) (res : TaskResult) (result : Json) (now later : ℕ) (r : JobRow) (m : ℕ)
    → parts.max_attempts ≡ pos m
    → r.max_attempts ≡ pos m
    → parts.attempt < 2 ^ 63
    → r.run_at ≤ later
    → let s = calculate_status parts res in
      let r' = ack_row s (as_i64 parts.attempt) result now r in
      (is_claimable later r' ≡ is_failed s)
      × (is_completed r' ≡ not (is_failed s))
      × (is_purged r' ≡ not (is_failed s))
unfolding calculate_status ack_row is_claimable is_completed is_purged
ack_row_settles parts (success v) result now later r m a b c d = ground arith
ack_row_settles parts (failure abort v) result now later r m a b c d = ground arith
