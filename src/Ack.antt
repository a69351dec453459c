-- ===== src/Ack.antt =====
-- src/queries/ack_task.rs, src/queries/lock_task.rs and src/ack.rs.
pub mod Guarded
pub mod Guards
pub mod Settled
pub mod Middleware
pub mod Handled
pub mod Samples
mod Tests
use apalis_surrealdb.Prelude.{
  ℕ, Bool, Option, none, some, List, [], ◌∷◌, if◌then◌else◌, leb, is_empty,
}
use apalis_surrealdb.Prelude.Int.{ℤ, as_i64, as_usize}
use apalis_surrealdb.Database.{
  Status, done, failed, killed, RecordIdKey, text, Json, JobRow, Db, SurrealError, task_not_found,
  decode, missing_task_id, missing_worker_context,
}
use apalis_surrealdb.Database.{err as err_value}
use apalis_surrealdb.Session.{
  Result, ok, err, Server, World, Outcome, Response, Session, ◌>>=◌, ◌>>◌, pure, lift, transact,
  take_rows,
}
use apalis_surrealdb.Tasks.{Task}
use apalis_surrealdb.Jobs.Work.{lock_task_query, ack_task_query}

-- What a handler returned: a value, or an error with its text, which may be an `AbortError`.
pub data TaskResult : Type 0 where
  success : ℕ → TaskResult
  failure : (is_abort : Bool) → ℕ → TaskResult

unfoldable pub calculate_status : Task → TaskResult → Status
calculate_status parts (success value) = done
calculate_status parts (failure is_abort message) =
    if leb (as_usize parts.max_attempts) parts.attempt
    then killed
    else if is_abort
    then killed
    else failed

-- `serde_json::to_value` of the result: the parameter `to_value` says what becomes of a success, and
-- whether it serializes; an error becomes `{ Err: text }`.
unfoldable pub result_value : (ℕ → Option Json) → TaskResult → Option Json
result_value to_value (success value) = to_value value
result_value to_value (failure is_abort message) = some (err_value message)

-- A guarded UPDATE that must find its row.
abbrev pub found : ℕ → Response JobRow → Session (Unit {0})
found id response = do
  updated ← lift (take_rows 0 response)
  lift (if is_empty updated then err (task_not_found id) else ok tt)

module _ (server : Server) where
  unfoldable pub lock_task : ℕ → ℕ → Session (Unit {0})
  lock_task id worker = do
    response ← transact server (lock_task_query (text id) worker)
    found id response

  unfoldable pub ack_task : ℕ → ℕ → Json → Status → ℤ → Session (Unit {0})
  ack_task id worker result status attempt = do
    response ← transact server (ack_task_query (text id) worker status attempt result)
    found id response

  -- `LockTaskService::call`, from the task's id on. The inner future is built before the lock and
  -- runs behind it.
  abbrev pub call_with : {R : Type 0} → ℕ → (Task → Session R) → Task → Option ℕ → Session R
  call_with instance inner req none = lift (err missing_task_id)
  call_with instance inner req (some id) =
      lock_task id instance >> inner (record req { lock_by = some instance })

  unfoldable pub call : {R : Type 0} → ℕ → (Task → Session R) → Task → Session R
  call instance inner req = call_with instance inner req req.task_id

  -- The future of `SurrealAck::ack`: its three checks, then the update.
  abbrev ack_with : Option ℕ → Option ℕ → Option Json → Status → ℕ → Session (Unit {0})
  ack_with none _ _ status attempt = lift (err missing_task_id)
  ack_with (some id) none _ status attempt = lift (err missing_worker_context)
  ack_with (some id) (some worker) none status attempt = lift (err (decode 0))
  ack_with (some id) (some worker) (some result) status attempt =
      ack_task id worker result status (as_i64 attempt)

  -- `SurrealAck::ack`: the task with its stored status, and the future.
  unfoldable pub ack : (ℕ → Option Json) → TaskResult → Task → Task × Session (Unit {0})
  unfolding calculate_status result_value
  ack to_value res parts =
      let status = calculate_status parts res in
      (
        record parts { status = status },
        ack_with parts.task_id parts.lock_by (result_value to_value res) status parts.attempt,
      )
