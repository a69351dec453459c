-- ===== src/Database.antt =====
-- The two tables of src/schema.surql, the rows of from_row.rs and the errors of errors.rs.
--
-- Texts that the program only compares are numbers: queue names, worker instances, idempotency
-- keys, and record keys, where the number of a ULID orders as its fixed-width text does. Datetimes
-- and durations of the queries are milliseconds.
mod Rows
pub use Rows.*
