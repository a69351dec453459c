-- ===== src/Ack/Handled.antt =====
-- A task on its way through the layers: locked, handled and acknowledged.
use apalis_surrealdb.Prelude.{ℕ, suc, ◌≡◌, true, Option, List, [], map, any, All, if◌then◌else◌}
use apalis_surrealdb.Prelude.Int.{as_i64}
use apalis_surrealdb.Database.{text, same_id, Json, JobRow, Db}
use apalis_surrealdb.Session.{answered, Server, World, Session}
use apalis_surrealdb.Tasks.{Task}
use apalis_surrealdb.Jobs.{update_where, at_id}
use apalis_surrealdb.Jobs.Work.{can_lock, lock_row, ack_row}
use apalis_surrealdb.Ack.{TaskResult, calculate_status}
use apalis_surrealdb.Ack.Middleware.{Service, Layer, Tower}

abbrev pub Lockable : ℕ → ℕ → JobRow → Type 0
Lockable id instance r = same_id r.id (text id) ≡ true → can_lock instance r ≡ true

module _ (id instance now : ℕ) (f : JobRow → JobRow) where
  abbrev once_locked : JobRow → JobRow
  once_locked r = if at_id (text id) (can_lock instance) r then lock_row instance now r else r

module _ (server : Server) (tower : Tower) (to_value : ℕ → Option Json) (id instance : ℕ)
    (work : Task → TaskResult) (w : World) (v : Json)
    (stacked : (inner outer : Layer) (s : Service) → tower.stack inner outer s ≡ outer (inner s))
    (acknowledges : (a : TaskResult → Task → Task × Session (Unit {0})) (inner : Service)
        (req : Task) (w : World)
      → (tower.acknowledge_layer a inner req w).1
        ≡ (let (res, w') = inner req w in ((a res req).1 w').1))
    (answers : server.reply w.queries ≡ answered [])
    (answers_next : server.reply (suc w.queries) ≡ answered [])
    (alone : (db : Db) → server.elsewhere (suc w.queries) db ≡ db)
    (there : any (λ r. same_id r.id (text id)) (server.elsewhere w.queries w.db).jobs ≡ true)
    (free : All (Lockable id instance) (server.elsewhere w.queries w.db).jobs) where
  abbrev before : Db
  before = server.elsewhere w.queries w.db

  abbrev handler : Service
  handler req w = (work req, w)

  abbrev locked : World
  locked = record {
    db = record before {
      jobs =
          update_where (at_id (text id) (can_lock instance))
            (lock_row instance (server.clock w.queries)) before.jobs;
    };
    queries = suc w.queries;
  }

  -- Acknowledging once the lock is there.
  abbrev outcome : Task → TaskResult → JobRow → JobRow
  outcome req res r =
      ack_row (calculate_status req res) (as_i64 req.attempt) v (server.clock (suc w.queries))
        (lock_row instance (server.clock w.queries) r)

  abbrev handled : Task → TaskResult → List JobRow
  handled req res = map (λ r. if same_id r.id (text id) then outcome req res r else r) before.jobs
