-- ===== src/Storage/Tests.antt =====
-- Decoding, vacuuming and waiting at a small table, and the theorems at them.
use apalis_surrealdb.Prelude.{ℕ, none, ◌≡◌, refl, true, some, [], ◌∷◌, if◌then◌else◌, ◌==◌}
use apalis_surrealdb.Prelude.Int.{pos}
use apalis_surrealdb.Database.{done, text, Json, null, object, JobRow, Db}
use apalis_surrealdb.Session.{Server}
use apalis_surrealdb.Samples.{waiting, table, obliging, start}
use apalis_surrealdb.Storage.{decoded, Parsers, wait_for}
use apalis_surrealdb.Storage.Waiting.{accounted, wait_for_accounts}

abbrev finished : JobRow
finished = record (waiting 4 (pos 0)) { status = done; done_at = some 40 }

abbrev mixed : Db
mixed = record table { jobs = finished ∷ table.jobs }

-- Some number for each JSON value.
abbrev value_of : Json → ℕ
value_of null = 0
value_of (object n) = n
value_of _ = 1

-- Every text is an id, and every value is a result.
abbrev parsers : Parsers
parsers = record {
  task_id = decoded;
  status_error = λ s. none;
  from_value = λ j. decoded (value_of j);
}

-- Task 4 is done, task 1 is not.
wait_for_accounts_example :
    let (out, left, _) = wait_for obliging parsers 2 (4 ∷ 1 ∷ []) (start mixed) in
    accounted parsers 4 out left ≡ true
wait_for_accounts_example = wait_for_accounts obliging parsers 2 4 (4 ∷ 1 ∷ []) (start mixed) refl

-- Before the third query, another client has brought task 1 to its end.
abbrev slow : Server
slow = record obliging {
  elsewhere = λ n db.
      if n == 2 then record db { jobs = finished ∷ record finished { id = text 1 } ∷ [] } else db;
}
