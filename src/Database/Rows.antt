-- ===== src/Database/Rows.antt =====
-- The two tables of src/schema.surql, the row type of src/from_row.rs and src/errors.rs.
use apalis_surrealdb.Prelude.{ℕ, ◌≡◌, ◌↔◌, Bool, true, false, Option, List, arith, leb, ◌==◌}
use apalis_surrealdb.Prelude.Int.{ℤ}
use Prim.Native.String.{String}

-- The values that the ASSERT of `job.status` lets through.
pub data Status : Type 0 where
  pending queued running done failed killed : Status

pub Status-discrete : Discrete Status
Status-discrete = hlevel

-- A job's record key. The program writes text keys; a key of another kind is read back as an error.
pub data RecordIdKey : Type 0 where
  text : ℕ → RecordIdKey
  number : ℕ → RecordIdKey

-- Contents of JSON values are numbers. The program builds `{ Ok: … }` and `{ Err: … }` itself.
pub data Json : Type 0 where
  null : Json
  ok : ℕ → Json
  err : ℕ → Json
  object : ℕ → Json

-- A row of the table `job`.
pub record JobRow : Type 0 where
  pub id : RecordIdKey
  pub args : List ℕ
  pub queue : ℕ
  pub status : Status
  pub attempts : ℤ
  pub max_attempts : ℤ
  pub run_at : ℕ
  pub last_result : Option Json
  pub lock_at : Option ℕ
  pub lock_by : Option ℕ
  pub done_at : Option ℕ
  pub priority : ℤ
  pub metadata : Option Json
  pub idempotency_key : Option ℕ

-- A row of the table `worker`. Its record key is its instance.
pub record WorkerRow : Type 0 where
  pub id : ℕ
  pub name : ℕ
  pub queue : ℕ
  pub storage_name : ℕ
  pub layers : Option ℕ
  pub instance : ℕ
  pub started_at : ℕ
  pub last_seen : ℕ

pub record Db : Type 0 where
  pub jobs : List JobRow
  pub workers : List WorkerRow

-- An error of the database client: its query details, if it has any, and its message.
pub data QueryError : Type 0 where
  transaction_conflict not_executed other_details : QueryError

pub record DbError : Type 0 where
  pub query_details : Option QueryError
  pub message : String

pub data SurrealError : Type 0 where
  database : DbError → SurrealError
  decode : ℕ → SurrealError
  row : ℕ → SurrealError
  task_not_found : ℕ → SurrealError
  worker_not_found : ℕ → SurrealError
  missing_task_id missing_worker_context : SurrealError

-- Equality and order of record keys: numbers stand before texts.
abbrev pub same_id : RecordIdKey → RecordIdKey → Bool
same_id (text a) (text b) = a == b
same_id (number a) (number b) = a == b
same_id _ _ = false

abbrev pub id_leb : RecordIdKey → RecordIdKey → Bool
id_leb (text a) (text b) = leb a b
id_leb (text a) (number b) = false
id_leb (number a) (text b) = true
id_leb (number a) (number b) = leb a b

pub same_id_iff : (a b : RecordIdKey) → (same_id a b ≡ true) ↔ (a ≡ b)
same_id_iff (text a) (text b) = ground arith
same_id_iff (text a) (number b) = ground arith
same_id_iff (number a) (text b) = ground arith
same_id_iff (number a) (number b) = ground arith
