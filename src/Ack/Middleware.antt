-- ===== src/Ack/Middleware.antt =====
-- The layers around a handler: `LockTaskLayer` of src/ack.rs, and the `middleware` of src/lib.rs and
-- of src/shared.rs.
--
-- What apalis and tower give is a parameter: `AcknowledgeLayer` and `Stack`.
use apalis_surrealdb.Prelude.{ℕ, false, Option}
use apalis_surrealdb.Database.{Json, SurrealError}
use apalis_surrealdb.Session.{Result, ok, err, Server, World, Session}
use apalis_surrealdb.Tasks.{Task}
use apalis_surrealdb.Ack.{TaskResult, failure, call, ack}

-- A service takes a task and answers what became of it.
abbrev pub Service : Type 0
Service = Task → World → TaskResult × World

abbrev pub Layer : Type 0
Layer = Service → Service

-- `AcknowledgeLayer::new`, of what `Acknowledge::ack` does, and `Stack::new`.
pub record Tower : Type 0 where
  pub acknowledge_layer : (TaskResult → Task → Task × Session (Unit {0})) → Layer
  pub stack : Layer → Layer → Layer
  pub to_string : SurrealError → ℕ

abbrev pub into_session : Service → Task → Session TaskResult
into_session inner task w = let (res, w') = inner task w in (ok res, w')

-- `map_err(Into::into)`: an error of the lock is the error of the service.
abbrev pub into_result : (SurrealError → ℕ) → Result TaskResult → TaskResult
into_result to_string (ok res) = res
into_result to_string (err e) = failure false (to_string e)

module _ (server : Server) (tower : Tower) (to_value : ℕ → Option Json) (instance : ℕ) where
  -- `LockTaskLayer::layer`, and the service that it makes.
  unfoldable pub lock_layer : Layer
  lock_layer inner req w =
      let (r, w') = call server instance (into_session inner) req w in
      (into_result tower.to_string r, w')

  abbrev pub ack_layer : Layer
  ack_layer = tower.acknowledge_layer (ack server to_value)

  -- `SurrealStorage::middleware_stack`, of the polling and the listening storage.
  unfoldable pub middleware_stack : Layer
  unfolding lock_layer
  middleware_stack = tower.stack lock_layer ack_layer

  -- `middleware` of the shared storage.
  unfoldable pub shared_middleware : Layer
  unfolding lock_layer
  shared_middleware = tower.stack ack_layer lock_layer
