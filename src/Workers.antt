-- ===== src/Workers.antt =====
-- src/queries/list_workers.rs: the listings of the running workers, with their queries.
pub mod Freshest
mod Tests
use apalis_surrealdb.Prelude.{
  ℕ, ◌/◌, Bool, true, Option, none, some, List, [], ◌∷◌, map, filter, take, drop, if◌then◌else◌,
  leb, ◌==◌,
}
use apalis_surrealdb.Database.{WorkerRow, Db}
use apalis_surrealdb.Session.{
  Result, Server, World, Outcome, commit, Response, Session, ◌>>=◌, lift, pure, transact, take_rows,
}

-- `apalis_core::backend::RunningWorker`
pub record RunningWorker : Type 0 where
  pub id : ℕ
  pub queue : ℕ
  pub backend : ℕ
  pub started_at : ℕ
  pub last_heartbeat : ℕ
  pub layers : ℕ

abbrev pub unwrap_or : Option ℕ → ℕ → ℕ
unwrap_or none d = d
unwrap_or (some a) d = a

-- `From<WorkerRow> for RunningWorker`; `empty` is the empty text, and the times are in seconds.
unfoldable pub from : ℕ → WorkerRow → RunningWorker
from empty row = record {
  id = row.name;
  queue = row.queue;
  backend = row.storage_name;
  started_at = row.started_at / 1000;
  last_heartbeat = row.last_seen / 1000;
  layers = unwrap_or row.layers empty;
}

-- `ORDER BY last_seen DESC`; workers seen at the same time stand as in the table.
unfoldable pub insert_fresher : WorkerRow → List WorkerRow → List WorkerRow
insert_fresher a [] = a ∷ []
insert_fresher a (b ∷ bs) =
    let rest = insert_fresher a bs in if leb b.last_seen a.last_seen then a ∷ b ∷ bs else b ∷ rest

unfoldable pub freshest_first : List WorkerRow → List WorkerRow
unfolding insert_fresher
freshest_first [] = []
freshest_first (w ∷ ws) = insert_fresher w (freshest_first ws)

-- `WHERE queue = $queue`, which list_all_workers.surql does not have.
abbrev pub of_queue : Option ℕ → WorkerRow → Bool
of_queue none w = true
of_queue (some queue) w = w.queue == queue

unfoldable pub list_workers_query : Option ℕ → (limit offset : ℕ) → ℕ → Db → Outcome WorkerRow
unfolding freshest_first
list_workers_query queue limit offset now db =
    commit db (take limit (drop offset (freshest_first (filter (of_queue queue) db.workers))))

-- The body that both listings write out, behind their query.
abbrev pub listed : Server → ℕ → Option ℕ → Session (List RunningWorker)
unfolding list_workers_query from
listed server empty queue = transact server (list_workers_query queue 100 0) >>= λ response.
    lift (take_rows 0 response) >>= λ rows. pure (map (from empty) rows)

unfoldable pub list_workers : Server → ℕ → ℕ → Session (List RunningWorker)
unfolding listed
list_workers server empty queue = listed server empty (some queue)

unfoldable pub list_all_workers : Server → ℕ → Session (List RunningWorker)
unfolding listed
list_all_workers server empty = listed server empty none
