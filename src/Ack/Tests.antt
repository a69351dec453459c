-- ===== src/Ack/Tests.antt =====
-- Runs of locking and acknowledging, and the theorems at them.
use apalis_surrealdb.Prelude.{ℕ, some, ◌≡◌, refl, true, false, not, [], ◌∷◌, arith}
use apalis_surrealdb.Prelude.Int.{pos, as_i64}
use apalis_surrealdb.Database.{running, done, failed, killed, object, JobRow, Db, task_not_found}
use apalis_surrealdb.Session.{err, pure, transact}
use apalis_surrealdb.Tasks.{Task}
use apalis_surrealdb.Jobs.{is_claimable, is_failed}
use apalis_surrealdb.Jobs.Work.{ack_row, ack_task_query}
use apalis_surrealdb.Jobs.Finished.{is_completed, is_purged}
use apalis_surrealdb.Samples.{waiting, working, table, obliging, start, task}
use apalis_surrealdb.Ack.{success, failure, calculate_status, lock_task, ack_task, call}
use apalis_surrealdb.Ack.Guards.{Guards, Free, Held}
use apalis_surrealdb.Ack.Guarded.{guarded_updates, call-held}
use apalis_surrealdb.Ack.Settled.{ack_row_settles}

abbrev row : JobRow
row = working 1 (pos 0) 7 50

ack_row_settles_example :
    let s = calculate_status (task 1) (failure false 4) in
    let r' = ack_row s (as_i64 1) (object 0) 100 row in
    (is_claimable 200 r' ≡ is_failed s)
    × (is_completed r' ≡ not (is_failed s))
    × (is_purged r' ≡ not (is_failed s))
ack_row_settles_example =
    ack_row_settles (task 1) (failure false 4) (object 0) 100 200 row 3 refl refl (omega arith)
      (omega arith)

-- With an attempt left the job is retried; the third failure kills it, and an abort at once.
statuses :
    (calculate_status (task 1) (failure false 4) ≡ failed)
    × (calculate_status (record (task 1) { attempt = 3 }) (failure false 4) ≡ killed)
    × (calculate_status (task 1) (failure true 4) ≡ killed)
    × (calculate_status (task 1) (success 4) ≡ done)
unfolding calculate_status
statuses = (refl, refl, refl, refl)

guarded_updates_example :
    Guards 2
      (Free 2 7)
      (λ r. record r { status = running; lock_at = some 100; lock_by = some 7 })
      table
      (lock_task obliging 2 7 (start table))
    × Guards 2
        (Held 2 7)
        (λ r. record r {
          status = done;
          attempts = pos 1;
          last_result = some (object 0);
          done_at = some 100;
        })
        table
        (ack_task obliging 2 7 (object 0) done (pos 1) (start table))
guarded_updates_example = guarded_updates obliging (start table) refl 2 7 (object 0) done (pos 1)

-- Only the holder acknowledges.
ack_by_stranger :
    (ack_task obliging 2 8 (object 0) done (pos 1) (start table)).0 ≡ err (task_not_found 2)
unfolding ack_task transact ack_task_query
ack_by_stranger = refl

abbrev busy : Db
busy = record { jobs = row ∷ waiting 3 (pos 2) ∷ []; workers = [] }

call-held_example :
    call obliging {R = ℕ} 9 (λ t. pure 0) (task 1) (start busy)
    ≡ (err (task_not_found 1), record { db = busy; queries = 1 })
call-held_example =
    call-held obliging (start busy) refl 1 5 7 9 (λ t. pure 0) (task 1) refl (ground arith)

abbrev held_task : Task
held_task = record (task 1) { lock_by = some 9 }
