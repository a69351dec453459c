-- ===== src/Tasks.antt =====
-- src/from_row.rs, `decode_row` of src/queries/fetch_next.rs, and the types of apalis that the
-- program reads and builds.
use apalis_surrealdb.Prelude.{ℕ, Option, some, List}
use apalis_surrealdb.Prelude.Int.{ℤ, as_usize}
use apalis_surrealdb.Database.{
  Status, RecordIdKey, text, number, Json, JobRow, SurrealError, missing_task_id,
}
use apalis_surrealdb.Session.{Result, ok, err}

-- `apalis_sql::TaskRow`
pub record TaskRow : Type 0 where
  pub job : List ℕ
  pub id : ℕ
  pub job_type : ℕ
  pub status : Status
  pub attempts : ℕ
  pub max_attempts : Option ℕ
  pub run_at : Option ℕ
  pub last_result : Option Json
  pub lock_at : Option ℕ
  pub lock_by : Option ℕ
  pub done_at : Option ℕ
  pub priority : Option ℕ
  pub metadata : Option Json
  pub idempotency_key : Option ℕ

-- The parts of `apalis_core::task::Task` that the program uses: `attempt` is a usize, `run_at` the
-- seconds of a u64, `max_attempts` and `priority` are i32.
pub record Task : Type 0 where
  pub args : List ℕ
  pub task_id : Option ℕ
  pub queue : Option ℕ
  pub lock_by : Option ℕ
  pub max_attempts : ℤ
  pub priority : ℤ
  pub meta : ℕ
  pub run_at : ℕ
  pub attempt : ℕ
  pub status : Status
  pub idempotency_key : Option ℕ

-- What apalis and the error types' `Display` do: parameters.
pub record Apalis : Type 0 where
  pub try_into_task_compact : TaskRow → Result Task
  pub to_string : SurrealError → ℕ

unfoldable pub task_row : ℕ → JobRow → TaskRow
task_row id row = record {
  job = row.args;
  id = id;
  job_type = row.queue;
  status = row.status;
  attempts = as_usize row.attempts;
  max_attempts = some (as_usize row.max_attempts);
  run_at = some row.run_at;
  last_result = row.last_result;
  lock_at = row.lock_at;
  lock_by = row.lock_by;
  done_at = row.done_at;
  priority = some (as_usize row.priority);
  metadata = row.metadata;
  idempotency_key = row.idempotency_key;
}

-- `TryFrom<SurrealTaskRow> for TaskRow`. The schema gives every row its `max_attempts`.
abbrev pub with_key : RecordIdKey → JobRow → Result TaskRow
unfolding task_row
with_key (text id) row = ok (task_row id row)
with_key (number n) row = err missing_task_id

unfoldable pub try_from : JobRow → Result TaskRow
unfolding task_row
try_from row = with_key row.id row

abbrev pub and_then : {A B : Type 0} → Result A → (A → Result B) → Result B
and_then (ok a) f = f a
and_then (err e) f = err e

unfoldable pub decode_row : Apalis → JobRow → Result Task
unfolding try_from
decode_row apalis row = and_then (try_from row) apalis.try_into_task_compact
