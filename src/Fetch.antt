-- ===== src/Fetch.antt =====
-- src/queries/fetch_next.rs, fetch_next_shared.rs and kill_task.rs.
use apalis_surrealdb.Prelude.{ℕ, List, [], ◌∷◌}
use apalis_surrealdb.Prelude.Int.{as_i64, ℤ}
use apalis_surrealdb.Database.{RecordIdKey, JobRow}
use apalis_surrealdb.Session.{
  Result, ok, err, Server, World, Session, ◌>>=◌, ◌>>◌, pure, with_retries, take_rows,
}
use apalis_surrealdb.Tasks.{Task, Apalis, decode_row}
use apalis_surrealdb.Jobs.Claim.{fetch_next_query, fetch_next_shared_query}
use apalis_surrealdb.Jobs.Work.{kill_task_query}

-- `apalis_sql::config::Config`: the queue, the batch size (a usize), and two intervals in
-- nanoseconds.
pub record Config : Type 0 where
  pub queue : ℕ
  pub buffer_size : ℕ
  pub keep_alive : ℕ
  pub reenqueue_orphaned_after : ℕ

module _ (server : Server) where
  unfoldable pub kill_task : RecordIdKey → ℕ → Session (Unit {0})
  unfolding with_retries kill_task_query
  kill_task id reason = with_retries server (kill_task_query id reason) >> pure tt

module _ (server : Server) (apalis : Apalis) where
  -- The `for` loop over the claimed rows: a row that does not decode is killed, and an error of
  -- that is only logged.
  unfoldable pub decode_rows : List JobRow → World → List Task × World
  decode_rows [] w = ([], w)
  decode_rows (row ∷ rows) w = elim (decode_row apalis row) [
    | ok task ↦ let (tasks, w') = decode_rows rows w in (task ∷ tasks, w')
    | err e ↦ decode_rows rows (kill_task server row.id (apalis.to_string e) w).1
  ]

  abbrev decoded : Result (List JobRow) → Session (List Task)
  decoded (err e) w = (err e, w)
  decoded (ok rows) w = let (tasks, w') = decode_rows rows w in (ok tasks, w')

  unfoldable pub fetch_next : Config → ℕ → Session (List Task)
  fetch_next config instance = do
    response ←
        with_retries server
          (fetch_next_query server.negative_limit config.queue instance (as_i64 config.buffer_size))
    decoded (take_rows 2 response)

  unfoldable pub fetch_next_shared : List ℕ → ℤ → Session (List Task)
  fetch_next_shared queues limit = do
    response ← with_retries server (fetch_next_shared_query server.negative_limit queues limit)
    decoded (take_rows 2 response)
