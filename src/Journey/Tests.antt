-- ===== src/Journey/Tests.antt =====
-- A failed task of a small table, and the theorem at it.
use apalis_surrealdb.Prelude.{some, none}
use apalis_surrealdb.Tasks.{Task}
use apalis_surrealdb.Samples.{task}
use apalis_surrealdb.Storage.{decoded, Parsers}

abbrev held_task : Task
held_task = record (task 1) { lock_by = some 9 }

-- Every text is an id, and every value is a result.
abbrev parsers : Parsers
parsers = record { task_id = decoded; status_error = λ s. none; from_value = λ j. decoded 0 }
