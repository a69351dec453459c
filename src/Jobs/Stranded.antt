-- ===== src/Jobs/Stranded.antt =====
-- fetch_next_shared.surql on a failed job, and the statements that meet the job next.
use apalis_surrealdb.Prelude.{ℕ, ◌≡◌, ◌≢◌, true, false, some, List, any, arith, ◌==◌}
use apalis_surrealdb.Database.{failed, JobRow}
use apalis_surrealdb.Jobs.Claim.{is_due, is_due_shared, claim_row_shared}
use apalis_surrealdb.Jobs.Work.{can_lock}
use apalis_surrealdb.Jobs.Orphans.{is_orphan}

-- A failed job still carries the worker that acknowledged it. When the shared driver claims it for
-- a retry, no other worker can lock it, no claim takes it, and no sweep for orphans of any queue
-- that finds the former worker alive frees it, at any later time and for any liveness window.
pub claim_row_shared_strands :
    (r : JobRow) (former other now later dur queue : ℕ) (queues live : List ℕ)
    → r.status ≡ failed
    → r.lock_by ≡ some former
    → other ≢ former
    → any (λ v. v == former) live ≡ true
    → let r' = claim_row_shared now r in
      (can_lock other r' ≡ false)
      × (is_due queue later r' ≡ false)
      × (is_due_shared queues later r' ≡ false)
      × (is_orphan queue dur later live r' ≡ false)
unfolding claim_row_shared can_lock is_due is_due_shared is_orphan
claim_row_shared_strands r former other now later dur queue queues live s h n l =
    (ground arith, ground arith, ground arith, ground arith)
