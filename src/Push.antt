-- ===== src/Push.antt =====
-- src/queries/push_tasks.rs: a batch of tasks as rows, inserted in one transaction with retries.
pub mod Complete
pub mod Fetched
mod Tests
use apalis_surrealdb.Prelude.{ℕ, zero, suc, Option, none, some, List, [], ◌∷◌}
use apalis_surrealdb.Prelude.Int.{ℤ, as_i64}
use apalis_surrealdb.Database.{text, object}
use apalis_surrealdb.Session.{Server, World, Session, ◌>>=◌, ◌>>◌, pure, with_retries}
use apalis_surrealdb.Tasks.{Task}
use apalis_surrealdb.Fetch.{Config}
use apalis_surrealdb.Jobs.Push.{PushRow, push_tasks_query}

-- What the libraries give: the n-th fresh Ulid, the datetime of so many seconds if there is one, and
-- the client's clock.
pub record Clock : Type 0 where
  pub new_ulid : ℕ → ℕ
  pub from_timestamp : ℤ → Option ℕ
  pub now : ℕ

abbrev pub unwrap_or : Option ℕ → ℕ → ℕ
unwrap_or none d = d
unwrap_or (some a) d = a

-- The n-th task of the batch as a row of the queue.
unfoldable pub push_row : Clock → ℕ → ℕ → Task → PushRow
push_row clock queue n task = record {
  id = text (unwrap_or task.task_id (clock.new_ulid n));
  args = task.args;
  queue = queue;
  max_attempts = task.max_attempts;
  run_at = unwrap_or (clock.from_timestamp (as_i64 task.run_at)) clock.now;
  priority = task.priority;
  metadata = object task.meta;
  idempotency_key = task.idempotency_key;
}

unfoldable pub rows_from : Clock → ℕ → ℕ → List Task → List PushRow
unfolding push_row
rows_from clock queue n [] = []
rows_from clock queue n (t ∷ ts) = push_row clock queue n t ∷ rows_from clock queue (suc n) ts

unfoldable pub push_tasks : Server → Clock → Config → List Task → Session (Unit {0})
push_tasks server clock config tasks =
    with_retries server
      (push_tasks_query server.record_exists (rows_from clock config.queue 0 tasks))
    >> pure tt
