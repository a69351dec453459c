-- ===== src/Samples.antt =====
-- Small tables, servers and tasks for the tests.
use apalis_surrealdb.Prelude.{ℕ, Option, none, some, [], ◌∷◌}
use apalis_surrealdb.Prelude.Int.{ℤ, pos}
use apalis_surrealdb.Database.{
  pending, running, failed, text, object, JobRow, WorkerRow, Db, DbError, transaction_conflict,
  not_executed,
}
use apalis_surrealdb.Session.{Server, World, Reply, answered}
use apalis_surrealdb.Tasks.{Task}
use apalis_surrealdb.Jobs.Push.{PushRow}

-- A pending job of queue 5.
abbrev pub waiting : ℕ → ℤ → JobRow
waiting id priority = record {
  id = text id;
  args = [];
  queue = 5;
  status = pending;
  attempts = pos 0;
  max_attempts = pos 3;
  run_at = 10;
  last_result = none;
  lock_at = none;
  lock_by = none;
  done_at = none;
  priority = priority;
  metadata = some (object 0);
  idempotency_key = some id;
}

-- A job that worker 7 has acknowledged as failed once.
abbrev pub failed_once : ℕ → ℤ → JobRow
failed_once id priority = record (waiting id priority) {
  status = failed;
  attempts = pos 1;
  lock_at = some 20;
  lock_by = some 7;
  done_at = some 30;
}

-- The job of `waiting`, locked by a worker.
abbrev pub working : ℕ → ℤ → ℕ → ℕ → JobRow
working id priority worker now = record (waiting id priority) {
  status = running;
  lock_at = some now;
  lock_by = some worker;
}

abbrev pub worker : ℕ → ℕ → WorkerRow
worker instance last_seen = record {
  id = instance;
  name = 1;
  queue = 5;
  storage_name = 2;
  layers = none;
  instance = instance;
  started_at = 0;
  last_seen = last_seen;
}

abbrev pub table : Db
table = record {
  jobs = waiting 1 (pos 0) ∷ failed_once 2 (pos 5) ∷ waiting 3 (pos 2) ∷ [];
  workers = worker 7 90 ∷ [];
}

abbrev pub conflict : DbError
conflict = record { query_details = some transaction_conflict; message = "conflict" }

abbrev pub noise : DbError
noise = record { query_details = some not_executed; message = "not executed" }

abbrev pub refusal : DbError
refusal = record { query_details = none; message = "refused" }

-- Nobody else writes, it is always 100, and each reply is the one given.
abbrev pub quiet : (ℕ → Reply) → Server
quiet reply = record {
  reply = reply;
  elsewhere = λ n db. db;
  clock = λ n. 100;
  record_exists = refusal;
  negative_limit = refusal;
}

abbrev pub obliging : Server
obliging = quiet (λ n. answered [])

abbrev pub start : Db → World
start db = record { db = db; queries = 0 }

abbrev pub push_row : ℕ → Option ℕ → PushRow
push_row id key = record {
  id = text id;
  args = [];
  queue = 5;
  max_attempts = pos 3;
  run_at = 10;
  priority = pos 0;
  metadata = object 0;
  idempotency_key = key;
}

abbrev pub task : ℕ → Task
task id = record {
  args = [];
  task_id = some id;
  queue = some 5;
  lock_by = none;
  max_attempts = pos 3;
  priority = pos 0;
  meta = 0;
  run_at = 0;
  attempt = 1;
  status = running;
  idempotency_key = none;
}
