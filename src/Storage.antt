-- ===== src/Storage.antt =====
-- `decode_or_kill` of src/lib.rs, src/queries/vacuum.rs and wait_for.rs.
--
-- The codec is a parameter: what it decodes the arguments of a task to, or the text of its error.
pub mod Waiting
pub mod Ending
pub mod Given
pub mod Results
mod Tests
use apalis_surrealdb.Prelude.{
  ℕ, zero, suc, Bool, Option, none, some, List, [], ◌∷◌, ◌++◌, map, filter, length, not, any,
  is_empty, if◌then◌else◌, ◌==◌,
}
use apalis_surrealdb.Database.{
  Status, RecordIdKey, text, number, same_id, Json, null, JobRow, Db, SurrealError, decode,
}
use apalis_surrealdb.Session.{
  Result, ok, err, Server, World, Outcome, commit, Response, Session, ◌>>=◌, ◌>>◌, pure, lift,
  transact, take_rows,
}
use apalis_surrealdb.Tasks.{Task, Apalis, decode_row, and_then}
use apalis_surrealdb.Fetch.{kill_task}
use apalis_surrealdb.Jobs.Finished.{vacuum_query, completed_query}

-- `Decode::decode`: the value, or the error's text.
pub data Decoded : Type 0 where
  decoded : ℕ → Decoded
  undecodable : ℕ → Decoded

-- `if let Some(id) = task_id`, where an error of the killing is only logged.
abbrev pub kill_if_named : Server → Option ℕ → ℕ → World → World
kill_if_named server none reason w = w
kill_if_named server (some id) reason w = (kill_task server (text id) reason w).1

abbrev pub decoded_or_killed : Server → Task → Decoded → Session (Option (ℕ × Task))
decoded_or_killed server task (decoded args) w = (ok (some (args, task)), w)
decoded_or_killed server task (undecodable reason) w =
    (ok none, kill_if_named server task.task_id reason w)

unfoldable pub decode_or_kill :
    Server → (List ℕ → Decoded) → Result (Option Task) → Session (Option (ℕ × Task))
decode_or_kill server codec (err e) w = (err e, w)
decode_or_kill server codec (ok none) w = (ok none, w)
decode_or_kill server codec (ok (some task)) w = decoded_or_killed server task (codec task.args) w

unfoldable pub vacuum : Server → Session ℕ
vacuum server = transact server vacuum_query >>= λ response.
    lift (take_rows 0 response) >>= λ deleted. pure (length deleted)

-- `SELECT … FROM $ids WHERE …` with the ids that `wait_for` or `check_status` asks for.
unfoldable pub fetch_completed : Server → List ℕ → Session (List JobRow)
fetch_completed server ids =
    transact server (completed_query (map text ids)) >>= λ response. lift (take_rows 0 response)

-- `remaining.remove(&row.id)`; `record::id` gives the text of a row's key.
abbrev pub remove : RecordIdKey → List ℕ → List ℕ
remove (number n) ids = ids
remove (text i) ids = filter (λ j. not (i == j)) ids

abbrev pub remove_rows : List JobRow → List ℕ → List ℕ
remove_rows [] ids = ids
remove_rows (r ∷ rs) ids = remove_rows rs (remove r.id ids)

-- `TaskId::from_str`, `Status::from_str` and `serde_json::from_value`: the value, or the error's text.
pub record Parsers : Type 0 where
  pub task_id : ℕ → Decoded
  pub status_error : Status → Option ℕ
  pub from_value : Json → Decoded

pub record TaskResult : Type 0 where
  pub task_id : ℕ
  pub status : Status
  pub result : ℕ

abbrev pub parsed : Decoded → Result ℕ
parsed (decoded value) = ok value
parsed (undecodable e) = err (decode e)

abbrev pub known : Status → Option ℕ → Result Status
known status none = ok status
known status (some e) = err (decode e)

abbrev pub unwrap_or_null : Option Json → Json
unwrap_or_null none = null
unwrap_or_null (some j) = j

-- `record::id(id)`; every row that is asked for has a text.
abbrev pub id_text : RecordIdKey → ℕ
id_text (text i) = i
id_text (number n) = n

unfoldable pub into_task_result : Parsers → JobRow → Result TaskResult
into_task_result p row = and_then (parsed (p.task_id (id_text row.id))) (λ task_id.
    and_then (known row.status (p.status_error row.status)) (λ status.
      and_then (parsed (p.from_value (unwrap_or_null row.last_result)))
        (λ result. ok (record { task_id = task_id; status = status; result = result }))))

abbrev pub items : Parsers → List JobRow → List (Result TaskResult)
unfolding into_task_result
items p rows = map (into_task_result p) rows

-- What a round of the `unfold` in `wait_for` gives, and the ids that remain; an error leaves none.
abbrev pub waited : Parsers → List ℕ → Result (List JobRow) → List (Result TaskResult) × List ℕ
waited p remaining (err e) = (err e ∷ [], [])
waited p remaining (ok rows) = (items p rows, remove_rows rows remaining)

-- The first rounds of the stream, at most so many; it ends when no id remains.
unfoldable pub wait_for :
    Server → Parsers → ℕ → List ℕ → World → List (Result TaskResult) × List ℕ × World
wait_for server p zero remaining w = ([], remaining, w)
wait_for server p (suc n) remaining w =
    let (r, w') = fetch_completed server remaining w in
    let (out, left) = waited p remaining r in
    let (more, last, w'') = wait_for server p n left w' in
    if is_empty remaining then ([], [], w) else (out ++ more, last, w'')
