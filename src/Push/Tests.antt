-- ===== src/Push/Tests.antt =====
-- Pushing two tasks of which one is a duplicate, after two conflicts, and the theorem at it.
use apalis_surrealdb.Prelude.{
  ℕ, ◌*◌, Option, true, ◌<◌, ◌≡◌, refl, arith, ap, none, some, if◌then◌else◌, ltb, List, [], ◌∷◌,
  ◌++◌, All,
}
use apalis_surrealdb.Prelude.Int.{pos_part, negsuc}
use apalis_surrealdb.Database.{pending, Json, object, JobRow}
use apalis_surrealdb.Session.{ok, answered, Server, commit, transact, attempts, with_retries}
use apalis_surrealdb.Session.Retry.{seen_at}
use apalis_surrealdb.Tasks.{Task, Apalis}
use apalis_surrealdb.Storage.{decoded}
use apalis_surrealdb.Listing.{fetch_by_id}
use apalis_surrealdb.Fetch.{Config}
use apalis_surrealdb.Jobs.Push.{push_rows, is_new, created_row, push_tasks_query}
use apalis_surrealdb.Tx.{
  classify_tx_errors, insert, collect, note, scan, is_conflict, is_not_executed,
}
use apalis_surrealdb.Samples.{table, start, quiet, obliging, conflict, task}
use apalis_surrealdb.Push.{Clock, push_row, rows_from, push_tasks}
use apalis_surrealdb.Push.Fetched.{read_row, push_tasks-fetch_by_id}
use apalis_surrealdb.Push.Complete.{Stored, push_tasks_complete}

abbrev clock : Clock
clock = record { new_ulid = λ n. 50; from_timestamp = λ s. some 7; now = 9 }

abbrev config : Config
config = record { queue = 5; buffer_size = 10; keep_alive = 1; reenqueue_orphaned_after = 1 }

-- The first two attempts run into another transaction.
abbrev busy : Server
busy = quiet (λ n. if ltb n 2 then answered ((0, conflict) ∷ []) else answered [])

-- The key 3 is taken by job 3 of `table`.
abbrev batch : List Task
batch = record (task 9) { task_id = none } ∷ record (task 8) { idempotency_key = some 3 } ∷ []

pushed : push_tasks busy clock config batch (start table) ≡ (
  ok tt,
  record {
    db = record table {
      jobs =
          table.jobs ++ created_row (push_row clock 5 0 (record (task 9) { task_id = none })) ∷ [];
    };
    queries = 3;
  },
)
unfolding push_tasks with_retries attempts transact push_tasks_query push_rows is_new rows_from
    classify_tx_errors insert collect note scan is_conflict is_not_executed created_row push_row
pushed = refl

succeeds : (push_tasks busy clock config batch (start table)).0 ≡ ok tt
succeeds = ap (λ o. o.0) pushed

push_tasks_complete_example :
    let after = (push_tasks busy clock config batch (start table)).1.db in
    (attempt : ℕ) × (out : List JobRow) × (attempt < 5)
    × (push_rows busy.record_exists (rows_from clock 5 0 batch) (seen_at busy 0 attempt table)
        ≡ commit after out)
    × All (Stored after) (rows_from clock 5 0 batch)
push_tasks_complete_example = push_tasks_complete busy clock config batch (start table) succeeds

abbrev meta_of : Option Json → ℕ
meta_of (some (object m)) = m
meta_of _ = 0

abbrev apalis : Apalis
apalis = record {
  try_into_task_compact = λ r. ok (read_row r (meta_of r.metadata));
  to_string = λ e. 0;
}

abbrev exact_clock : Clock
exact_clock = record clock { from_timestamp = λ s. some (pos_part s * 1000) }

abbrev negative : Task
negative = record (task 9) { priority = negsuc 4; run_at = 7; idempotency_key = some 8 }

is_free : is_new (push_row exact_clock 5 0 negative) table.jobs ≡ true
unfolding is_new push_row
is_free = refl

push_tasks-fetch_by_id_example :
    (fetch_by_id obliging apalis
      (λ bytes. decoded 6)
      9
      (push_tasks obliging exact_clock config (negative ∷ []) (start table)).1).0
    ≡ ok (
        some (6, record negative { queue = some 5; lock_by = none; attempt = 0; status = pending }))
push_tasks-fetch_by_id_example =
    push_tasks-fetch_by_id obliging exact_clock config negative 9 (start table) refl refl is_free
      refl apalis (λ bytes. decoded 6) 6 refl (λ db. refl) (λ r meta i m. rw m refl) refl
      (ground arith) (ground arith) refl
