-- ===== src/Jobs/Commands.antt =====
-- Every transaction or statement of queries/ that changes the table `job`, as one atomic command,
-- whoever sends it. A history is an interleaving of the commands of all the clients.
use apalis_surrealdb.Prelude.{ℕ, Bool, true, List, [], ◌∷◌, ◌≡◌, ◌||◌}
use apalis_surrealdb.Prelude.Int.{ℤ}
use apalis_surrealdb.Database.{Status, RecordIdKey, Json, Db, DbError}
use apalis_surrealdb.Session.{Outcome, commit, abort}
use apalis_surrealdb.Jobs.{is_done, is_failed, is_killed}
use apalis_surrealdb.Jobs.Claim.{is_due, is_due_shared, claim_row, claim_row_shared, claim_rows}
use apalis_surrealdb.Jobs.Work.{lock_task_query, ack_task_query, kill_task_query}
use apalis_surrealdb.Jobs.Orphans.{reenqueue_update}
use apalis_surrealdb.Jobs.Finished.{vacuum_query}
use apalis_surrealdb.Jobs.Push.{PushRow, push_rows}

pub data Command : Type 0 where
  fetch_next : (queue worker limit now : ℕ) → Command
  fetch_next_shared : (queues : List ℕ) (limit now : ℕ) → Command
  lock_task : (id : RecordIdKey) (worker now : ℕ) → Command
  ack_task :
      (id : RecordIdKey) (worker : ℕ) (status : Status) (attempts : ℤ) (result : Json) (now : ℕ)
      → Command
  kill_task : (id : RecordIdKey) (reason now : ℕ) → Command
  reenqueue : (queue dur now : ℕ) (live : List ℕ) → Command
  push_tasks : (exists : DbError) (rows : List PushRow) → Command
  vacuum : Command

-- A transaction that aborts leaves the database as it was.
abbrev pub after : {A : Type 0} → Db → Outcome A → Db
after db (commit db' rows) = db'
after db (abort slot e) = db

unfoldable pub apply : Command → Db → Db
unfolding claim_rows lock_task_query ack_task_query kill_task_query reenqueue_update push_rows
    vacuum_query
apply (fetch_next queue worker limit now) db =
    after db (claim_rows (is_due queue now) (claim_row worker now) limit db)
apply (fetch_next_shared queues limit now) db =
    after db (claim_rows (is_due_shared queues now) (claim_row_shared now) limit db)
apply (lock_task id worker now) db = after db (lock_task_query id worker now db)
apply (ack_task id worker status attempts result now) db =
    after db (ack_task_query id worker status attempts result now db)
apply (kill_task id reason now) db = after db (kill_task_query id reason now db)
apply (reenqueue queue dur now live) db = reenqueue_update queue dur now live db
apply (push_tasks exists rows) db = after db (push_rows exists rows db)
apply vacuum db = after db (vacuum_query 0 db)

unfoldable pub run : List Command → Db → Db
unfolding apply
run [] db = db
run (c ∷ cs) db = run cs (apply c db)

-- The statuses that `calculate_status` acknowledges with.
abbrev pub is_outcome : Status → Bool
is_outcome s = is_done s || is_failed s || is_killed s

abbrev pub Allowed : Command → Type 0
Allowed (ack_task id worker status attempts result now) = is_outcome status ≡ true
Allowed _ = Unit
