-- ===== src/Tx/Tests.antt =====
-- Runs of the classification, and the theorems at them.
use apalis_surrealdb.Prelude.{ℕ, ◌≡◌, refl, none, some, List, [], ◌∷◌, arith}
use apalis_surrealdb.Database.{DbError, not_executed, other_details}
use apalis_surrealdb.Tx.{
  retry, fail, classify_tx_errors, is_conflict, is_not_executed, insert, collect, note, scan,
}
use apalis_surrealdb.Tx.Slots.{Distinct}
use apalis_surrealdb.Tx.Verdict.{verdict, classify_tx_errors-eq-verdict}

abbrev conflict : DbError
conflict = record { query_details = none; message = "Transaction conflict: resource busy" }

abbrev noise : DbError
noise = record { query_details = some not_executed; message = "not executed" }

abbrev refusal : DbError
refusal = record { query_details = some other_details; message = "the record exists" }

-- One order of an error set in which statement 1 failed and the others were not executed.
abbrev errors : List (ℕ × DbError)
errors = (3, noise) ∷ (1, refusal) ∷ (2, conflict) ∷ []

runs : Unit {0}
unfolding classify_tx_errors insert collect note scan is_conflict is_not_executed
runs = tt

classify_errors : classify_tx_errors errors ≡ some (fail refusal)
unfolding runs
classify_errors = refl

classify_conflict : classify_tx_errors ((2, conflict) ∷ (0, noise) ∷ []) ≡ some (retry conflict)
unfolding runs
classify_conflict = refl

errors-Distinct : Distinct errors
errors-Distinct = ground arith

classify_tx_errors-eq-verdict_example : classify_tx_errors errors ≡ verdict errors
classify_tx_errors-eq-verdict_example = classify_tx_errors-eq-verdict errors errors-Distinct
