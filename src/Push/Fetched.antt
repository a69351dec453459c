-- ===== src/Push/Fetched.antt =====
-- A task from `push_tasks` of push_tasks.rs to `fetch_by_id` of fetch_by_id.rs.
use apalis_surrealdb.Prelude.{
  ℕ, suc, ◌-◌, ◌*◌, ◌/◌, ◌%◌, ◌^◌, ◌≡◌, refl, sym, ap, ◌∙◌, true, false, none, some, List, [], ◌∷◌,
  ◌++◌, filter, Bool-cases, inl, inr, arith, ltb, if◌then◌else◌,
}
use apalis_surrealdb.Prelude.Int.{ℤ, pos, negsuc, as_i64, as_usize, ◌≤ℤ◌, ◌<ℤ◌}
use apalis_surrealdb.Database.{pending, text, object, same_id, JobRow, Db}
use apalis_surrealdb.Session.{
  ok, answered, Server, World, commit, pure, with_retries, transact, lift, take_rows,
}
use apalis_surrealdb.Session.Bind.{>>=-ok}
use apalis_surrealdb.Session.Retry.{with_retries-answered, transact-answered}
use apalis_surrealdb.Tasks.{TaskRow, task_row, Task, Apalis, and_then, decode_row, try_from}
use apalis_surrealdb.Fetch.{Config}
use apalis_surrealdb.Jobs.Push.{push_rows, push_tasks_query, is_new, created_row, id_taken}
use apalis_surrealdb.Push.{Clock, push_row, rows_from, push_tasks, unwrap_or}
use apalis_surrealdb.Storage.{Decoded, decoded}
use apalis_surrealdb.Listing.{fetch_by_id, first_task, decode_task, decoded_task}

-- `x as i32` of a 64-bit word.
abbrev pub as_i32 : ℕ → ℤ
as_i32 n = let low = n % 2 ^ 32 in if ltb low (2 ^ 31) then pos low else negsuc (2 ^ 32 - 1 - low)

abbrev pub FitsI32 : ℤ → Type 0
FitsI32 z = (negsuc 2147483647 ≤ℤ z) × (z <ℤ pos 2147483648)

as_i32-as_usize : (z : ℤ) → FitsI32 z → as_i32 (as_usize z) ≡ z
as_i32-as_usize (pos n) h = ground arith
as_i32-as_usize (negsuc n) h = ground arith

-- The task that a row of a JSON object stands for.
abbrev pub read_row : TaskRow → ℕ → Task
read_row row meta = record {
  args = row.job;
  task_id = some row.id;
  queue = some row.job_type;
  lock_by = row.lock_by;
  max_attempts = as_i32 (unwrap_or row.max_attempts 25);
  priority = as_i32 (unwrap_or row.priority 0);
  meta = meta;
  run_at = unwrap_or row.run_at 0 / 1000;
  attempt = row.attempts;
  status = row.status;
  idempotency_key = row.idempotency_key;
}

others :
    (id : ℕ) (jobs : List JobRow) (r : JobRow)
    → id_taken (text id) jobs ≡ false
    → same_id r.id (text id) ≡ true
    → filter (λ x. same_id x.id (text id)) (jobs ++ r ∷ []) ≡ r ∷ []
others id [] r h s = rw s refl
others id (j ∷ jobs) r h s =
    let rest : id_taken (text id) jobs ≡ false
        → filter (λ x. same_id x.id (text id)) (jobs ++ r ∷ []) ≡ r ∷ [] =
      λ g. others id jobs r g s in
    elim (Bool-cases (same_id j.id (text id))) [
      | inl e ↦ let g = rw e at h in absurd (cc)
      | inr e ↦ rw e (rest (rw e at h))
    ]

module _ (server : Server) (clock : Clock) (config : Config) (task : Task) (id : ℕ) (w : World)
    (named : task.task_id ≡ some id) (answers : server.reply w.queries ≡ answered [])
    (new : is_new (push_row clock config.queue 0 task) (server.elsewhere w.queries w.db).jobs
      ≡ true)
    (free : id_taken (text id) (server.elsewhere w.queries w.db).jobs ≡ false) where
  abbrev before : Db
  before = server.elsewhere w.queries w.db

  abbrev row : JobRow
  row = created_row (push_row clock config.queue 0 task)

  abbrev after : World
  after = record { db = record before { jobs = before.jobs ++ row ∷ [] }; queries = suc w.queries }

  row-id : row.id ≡ text id
  unfolding created_row push_row
  row-id = rw named refl

  inserted :
      (now : ℕ)
      → push_tasks_query server.record_exists
          (rows_from clock config.queue 0 (task ∷ []))
          now
          before
        ≡ commit after.db []
  unfolding push_tasks_query rows_from push_rows created_row
  inserted now = rw (new, named, free) refl

  push_tasks-after : push_tasks server clock config (task ∷ []) w ≡ (ok tt, after)
  unfolding push_tasks
  push_tasks-after =
      >>=-ok
        (with_retries server
          (push_tasks_query server.record_exists (rows_from clock config.queue 0 (task ∷ []))))
        (λ _. pure tt) w
        (with_retries-answered server _ w after.db [] answers (inserted (server.clock w.queries)))

  -- The task as the table has it.
  abbrev kept_task : ℕ → Task
  kept_task meta = read_row (task_row id row) meta

  module _ (apalis : Apalis) (codec : List ℕ → Decoded) (args : ℕ)
      (again : server.reply (suc w.queries) ≡ answered [])
      (alone : (db : Db) → server.elsewhere (suc w.queries) db ≡ db)
      (reads : (r : TaskRow) (meta : ℕ)
        → r.id ≡ id
        → r.metadata ≡ some (object meta)
        → apalis.try_into_task_compact r ≡ ok (read_row r meta))
      (decodes : codec task.args ≡ decoded args) where
    decode_row-row : decode_row apalis row ≡ ok (kept_task task.meta)
    unfolding decode_row try_from task_row created_row push_row
    decode_row-row = rw named (reads (task_row id row) task.meta refl refl)

    decode_task-row : decode_task apalis codec row ≡ ok (args, kept_task task.meta)
    unfolding decode_task task_row created_row push_row
    decode_task-row =
        ap (λ d. and_then d (λ t. decoded_task t (codec t.args))) decode_row-row ∙ rw decodes refl

    found : filter (λ r. same_id r.id (text id)) after.db.jobs ≡ row ∷ []
    found = others id before.jobs row free (rw row-id (ground arith))

    fetch_by_id-row :
        (fetch_by_id server apalis codec id after).0 ≡ ok (some (args, kept_task task.meta))
    unfolding fetch_by_id
    fetch_by_id-row =
        ap (λ o. o.0)
          (>>=-ok
            (transact server (λ now db. commit db (filter (λ r. same_id r.id (text id)) db.jobs)))
            (λ response. lift (and_then (take_rows 0 response) (first_task apalis codec))) after
            (transact-answered server _ after after.db (row ∷ []) again
              (rw (alone after.db, found) refl)))
        ∙ rw (and_then, first_task, decode_task-row) refl

    same :
        FitsI32 task.max_attempts
        → FitsI32 task.priority
        → clock.from_timestamp (as_i64 task.run_at) ≡ some (task.run_at * 1000)
        → kept_task task.meta
          ≡ record task { queue = some config.queue; lock_by = none; attempt = 0; status = pending }
    unfolding task_row created_row push_row
    same m p t =
        let seconds : unwrap_or (clock.from_timestamp (as_i64 task.run_at)) clock.now / 1000
            ≡ task.run_at =
          rw t (omega arith) in
        λ i. record task {
          task_id = sym named i;
          queue = some config.queue;
          lock_by = none;
          max_attempts = as_i32-as_usize task.max_attempts m i;
          priority = as_i32-as_usize task.priority p i;
          run_at = seconds i;
          attempt = 0;
          status = pending;
        }

    -- A task with an id of its own that nobody has used, whose idempotency key is new, is pushed with an
    -- error-free reply and then asked for by its id, with an error-free reply and no write between the two.
    -- If apalis reads a row's fields with the casts from usize to i32, if the codec decodes the arguments,
    -- if `max_attempts` and `priority` are i32 and the server's datetime of `run_at` is that of so many
    -- seconds, then the task that comes back is the one that was pushed: its arguments, id, attempts
    -- allowed, priority, metadata, time and key, as pending in the queue of the configuration.
    pub push_tasks-fetch_by_id :
        FitsI32 task.max_attempts
        → FitsI32 task.priority
        → clock.from_timestamp (as_i64 task.run_at) ≡ some (task.run_at * 1000)
        → (fetch_by_id server apalis codec id (push_tasks server clock config (task ∷ []) w).1).0
          ≡ ok (
              some (
                args,
                record task {
                  queue = some config.queue;
                  lock_by = none;
                  attempt = 0;
                  status = pending;
                },
              ))
    unfolding task_row created_row push_row
    push_tasks-fetch_by_id m p t =
        rw push_tasks-after (fetch_by_id-row ∙ ap (λ x. ok (some (args, x))) (same m p t))
