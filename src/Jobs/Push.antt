-- ===== src/Jobs/Push.antt =====
-- queries/task/push_tasks.surql, and the row type that push_tasks.rs binds to it.
pub mod Rule
use apalis_surrealdb.Prelude.{
  ℕ, Bool, true, false, ◌&&◌, ◌||◌, not, Option, none, some, List, [], ◌∷◌, ◌++◌, any, holds, ◌==◌,
  if◌then◌else◌,
}
use apalis_surrealdb.Prelude.Int.{ℤ, pos}
use apalis_surrealdb.Database.{pending, RecordIdKey, same_id, Json, JobRow, Db, DbError}
use apalis_surrealdb.Session.{Outcome, commit, abort}

pub record PushRow : Type 0 where
  pub id : RecordIdKey
  pub args : List ℕ
  pub queue : ℕ
  pub max_attempts : ℤ
  pub run_at : ℕ
  pub priority : ℤ
  pub metadata : Json
  pub idempotency_key : Option ℕ

-- `SELECT id FROM job WHERE queue = … AND idempotency_key = …` finds a row.
abbrev pub has_key : ℕ → ℕ → JobRow → Bool
has_key queue key r = r.queue == queue && holds r.idempotency_key key

-- The IF condition of the loop body: no key, or no job of the queue with it.
unfoldable pub is_new : PushRow → List JobRow → Bool
is_new p jobs = elim p.idempotency_key [
  | none ↦ true
  | some key ↦ not (any (has_key p.queue key) jobs)
]

-- `CREATE $task.id CONTENT …`, with the schema's value for the fields that are not given.
unfoldable pub created_row : PushRow → JobRow
created_row p = record {
  id = p.id;
  args = p.args;
  queue = p.queue;
  status = pending;
  attempts = pos 0;
  max_attempts = p.max_attempts;
  run_at = p.run_at;
  last_result = none;
  lock_at = none;
  lock_by = none;
  done_at = none;
  priority = p.priority;
  metadata = some p.metadata;
  idempotency_key = p.idempotency_key;
}

abbrev pub id_taken : RecordIdKey → List JobRow → Bool
id_taken id jobs = any (λ r. same_id r.id id) jobs

-- The FOR loop, statement 1 of the transaction. A CREATE whose record exists fails and takes the
-- transaction down, with the server's error `exists`.
unfoldable pub push_rows : DbError → List PushRow → Db → Outcome JobRow
push_rows exists [] db = commit db []
push_rows exists (p ∷ ps) db =
    let skipped = push_rows exists ps db in
    let created = push_rows exists ps (record db { jobs = db.jobs ++ created_row p ∷ [] }) in
    if is_new p db.jobs then if id_taken p.id db.jobs then abort 1 exists else created else skipped

unfoldable pub push_tasks_query : DbError → List PushRow → ℕ → Db → Outcome JobRow
unfolding push_rows is_new created_row
push_tasks_query exists rows now db = push_rows exists rows db
