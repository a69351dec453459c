-- ===== src/Heartbeat.antt =====
-- src/queries/register_worker.rs, keep_alive.rs and reenqueue_orphaned.rs, with their queries.
pub mod Window
pub mod Alive
mod Tests
use apalis_surrealdb.Prelude.{
  ℕ, zero, suc, ◌+◌, ◌-◌, ◌*◌, ◌/◌, ◌%◌, ◌^◌, min, Bool, true, false, Option, none, some, List, [],
  ◌∷◌, ◌++◌, map, filter, any, length, is_empty, if◌then◌else◌, ltb, ◌==◌,
}
use apalis_surrealdb.Prelude.Int.{ℤ, as_i64}
use apalis_surrealdb.Database.{
  WorkerRow, JobRow, Db, DbError, SurrealError, database, worker_not_found,
}
use apalis_surrealdb.Session.{
  Result, ok, err, Reply, lost, answered, Server, World, Outcome, commit, Response, Session, ◌>>=◌,
  ◌>>◌, pure, lift, transact, take_rows, error_at,
}
use apalis_surrealdb.Fetch.{Config}
use apalis_surrealdb.Jobs.Orphans.{live_instances, reenqueue_update, reenqueued_rows, delete_stale}

-- `UPSERT $worker CONTENT {…}`: the row of that id is replaced, or added.
unfoldable pub upsert : WorkerRow → List WorkerRow → List WorkerRow
upsert new workers =
    if any (λ w. w.id == new.id) workers
    then map (λ w. if w.id == new.id then new else w) workers
    else workers ++ new ∷ []

unfoldable pub register_worker_query :
    (queue name storage layers instance : ℕ) → ℕ → Db → Outcome WorkerRow
unfolding upsert
register_worker_query queue name storage layers instance now db =
    let row : WorkerRow = record {
      id = instance;
      name = name;
      queue = queue;
      storage_name = storage;
      layers = some layers;
      instance = instance;
      started_at = now;
      last_seen = now;
    } in
    commit (record db { workers = upsert row db.workers }) (row ∷ [])

-- `UPDATE $worker SET last_seen = time::now() RETURN AFTER`
abbrev pub seen : ℕ → WorkerRow → WorkerRow
seen now w = record w { last_seen = now }

unfoldable pub keep_alive_query : ℕ → ℕ → Db → Outcome WorkerRow
keep_alive_query instance now db =
    commit
      (record db { workers = map (λ w. if w.id == instance then seen now w else w) db.workers })
      (map (seen now) (filter (λ w. w.id == instance) db.workers))

module _ (server : Server) where
  abbrev pub no_errors : Response WorkerRow → Result (Unit {0})
  no_errors response = elim response.errors [ [] ↦ ok tt | (slot, e) ∷ es ↦ err (database e) ]

  unfoldable pub register_worker :
      (config : Config) (name storage layers instance : ℕ) → Session (Unit {0})
  register_worker config name storage layers instance =
      transact server (register_worker_query config.queue name storage layers instance)
      >>= λ response. lift (no_errors response)

  abbrev pub refreshed : ℕ → List WorkerRow → Session (Unit {0})
  refreshed instance rows = lift (if is_empty rows then err (worker_not_found instance) else ok tt)

  abbrev pub seen_rows : ℕ → Response WorkerRow → Session (Unit {0})
  seen_rows instance response = lift (take_rows 0 response) >>= refreshed instance

  unfoldable pub keep_alive : ℕ → Session (Unit {0})
  keep_alive instance = transact server (keep_alive_query instance) >>= seen_rows instance

-- The largest `std::time::Duration`, in nanoseconds.
abbrev pub max_duration : ℕ
max_duration = 2 ^ 64 * 1000000000 - 1

-- `d.as_millis() as i64`: the u128 is cut to its low 64 bits.
abbrev pub millis : ℕ → ℤ
millis d = as_i64 (d / 1000000 % 2 ^ 64)

unfoldable pub effective_reenqueue_millis : Config → ℤ
effective_reenqueue_millis config =
    let floor = min (config.keep_alive * 2) max_duration in
    if ltb config.reenqueue_orphaned_after floor
    then millis floor
    else millis config.reenqueue_orphaned_after

-- How the server runs the three statements of `reenqueue_orphaned.surql`, which are no transaction:
-- what others commit before the second and the third, the times in these, the durations
-- `from_millis($dur)` and `from_millis($dur * 4)` if they are any, and, when statements fail or the
-- connection breaks, the rows of the second statement and the database that the others left.
pub record Sweep : Type 0 where
  pub before_update : Db → Db
  pub before_delete : Db → Db
  pub update_clock : ℕ
  pub delete_clock : ℕ
  pub from_millis : ℤ → Option ℕ
  pub quadruple : ℤ → Option ℕ
  pub bad_duration : DbError
  pub partly : Db → List JobRow × Db

-- The second statement, on the `$live` of the first.
abbrev pub update_statement : Sweep → ℕ → ℕ → ℕ → Db → List JobRow × Db
update_statement sweep queue dur now db =
    let live = live_instances queue dur now db in
    let db' = sweep.before_update db in
    (
      reenqueued_rows queue dur sweep.update_clock live db',
      reenqueue_update queue dur sweep.update_clock live db',
    )

abbrev pub delete_statement : Sweep → ℕ → Option ℕ → Db → Db
delete_statement sweep queue none db = sweep.before_delete db
delete_statement sweep queue (some d) db =
    delete_stale queue d sweep.delete_clock (sweep.before_delete db)

-- Without a duration the first two statements fail, and nothing is changed.
abbrev pub statements : Sweep → ℕ → ℤ → Option ℕ → ℕ → Db → Result (List JobRow) × Db
statements sweep queue ms none now db =
    (err (database sweep.bad_duration), sweep.before_delete (sweep.before_update db))
statements sweep queue ms (some dur) now db =
    let (rows, db') = update_statement sweep queue dur now db in
    (ok rows, delete_statement sweep queue (sweep.quadruple ms) db')

abbrev pub count : Result (List JobRow) → Result ℕ
count (ok rows) = ok (length rows)
count (err e) = err e

abbrev pub partial : ℕ → List (ℕ × DbError) → List JobRow → Result ℕ
partial slot es rows = elim (error_at slot es) [
  | some e ↦ err (database e)
  | none ↦ ok (length rows)
]

-- The reply's `take(1)?`, and the number of rows.
abbrev pub swept : Sweep → Reply → Result (List JobRow) × Db → Db → Result ℕ × Db
swept sweep (lost applied e) all before = (err (database e), (sweep.partly before).1)
swept sweep (answered []) all before = (count all.0, all.1)
swept sweep (answered (x ∷ xs)) all before =
    let (rows, db) = sweep.partly before in (partial 1 (x ∷ xs) rows, db)

unfoldable pub reenqueue_orphaned : Server → Sweep → Config → Session ℕ
unfolding effective_reenqueue_millis
reenqueue_orphaned server sweep config w =
    let ms = effective_reenqueue_millis config in
    let before = server.elsewhere w.queries w.db in
    let all =
      statements sweep config.queue ms (sweep.from_millis ms) (server.clock w.queries) before in
    let (r, db) = swept sweep (server.reply w.queries) all before in
    (r, record { db = db; queries = suc w.queries })

unfoldable pub initial_heartbeat :
    Server → Sweep → (config : Config) (name storage layers instance : ℕ) → Session (Unit {0})
initial_heartbeat server sweep config name storage layers instance =
    reenqueue_orphaned server sweep config >>= λ _.
    register_worker server config name storage layers instance

-- The first `n` items of `keep_alive_stream`; the delay before each is left to the server's clock.
unfoldable pub keep_alive_stream : Server → ℕ → ℕ → World → List (Result (Unit {0})) × World
keep_alive_stream server instance zero w = ([], w)
keep_alive_stream server instance (suc n) w =
    let (r, w') = keep_alive server instance w in
    let (rs, last) = keep_alive_stream server instance n w' in (r ∷ rs, last)

-- The same of `reenqueue_orphaned_stream`.
unfoldable pub reenqueue_orphaned_stream :
    Server → Sweep → Config → ℕ → World → List (Result ℕ) × World
reenqueue_orphaned_stream server sweep config zero w = ([], w)
reenqueue_orphaned_stream server sweep config (suc n) w =
    let (r, w') = reenqueue_orphaned server sweep config w in
    let (rs, last) = reenqueue_orphaned_stream server sweep config n w' in (r ∷ rs, last)
