-- ===== src/Setup.antt =====
-- src/lib.rs: `setup`, which sends src/schema.surql and then writes the version of the schema.
pub mod Defined
mod Tests
use apalis_surrealdb.Prelude.{
  ℕ, zero, suc, Bool, true, false, Option, none, some, List, [], ◌∷◌, ◌++◌, any, take, is_empty,
  if◌then◌else◌, ◌==◌,
}
use apalis_surrealdb.Database.{DbError, database}
use apalis_surrealdb.Session.{Result, ok, err, Reply, lost, answered}

-- What is defined, each definition being its position among those of src/schema.surql, and the field
-- `version` of the record `apalis_meta:schema`.
pub record Catalog : Type 0 where
  pub definitions : List ℕ
  pub version : Option ℕ

-- The definitions of `job` (the table, 13 fields and 4 indexes), of `worker` (the table, 7 fields and an
-- index) and of `apalis_meta` (the table and a field), in the file's order.
abbrev pub schema : List ℕ
schema =
    0 ∷ 1 ∷ 2 ∷ 3 ∷ 4 ∷ 5 ∷ 6 ∷ 7 ∷ 8 ∷ 9 ∷ 10 ∷ 11 ∷ 12 ∷ 13 ∷ 14 ∷ 15 ∷ 16 ∷ 17 ∷ 18 ∷ 19 ∷ 20
    ∷ 21 ∷ 22 ∷ 23 ∷ 24 ∷ 25 ∷ 26 ∷ 27 ∷ 28 ∷ []

abbrev pub schema_version : ℕ
schema_version = 1

-- How the server answers the script, which is no transaction: each statement has an error or
-- none, and the connection may break after some of them.
pub data ScriptReply : Type 0 where
  broken : ℕ → (ℕ → Option DbError) → DbError → ScriptReply
  each : (ℕ → Option DbError) → ScriptReply

-- `DEFINE … IF NOT EXISTS`
abbrev pub define : ℕ → List ℕ → List ℕ
define d ds = if any (λ x. x == d) ds then ds else ds ++ d ∷ []

abbrev pub define_unless : Option DbError → ℕ → List ℕ → List ℕ
define_unless none d ds = define d ds
define_unless (some e) d ds = ds

abbrev pub define_all : (ℕ → Option DbError) → List ℕ → List ℕ → List ℕ
define_all errors [] ds = ds
define_all errors (s ∷ ss) ds = define_all errors ss (define_unless (errors s) s ds)

-- `check`: the first error.
abbrev pub check_each : (ℕ → Option DbError) → List ℕ → Result (Unit {0})
check_each errors [] = ok tt
check_each errors (s ∷ ss) =
    let rest = check_each errors ss in elim (errors s) [ none ↦ rest | some e ↦ err (database e) ]

-- `conn.query(SCHEMA).await?.check()?`
abbrev pub send_schema : ScriptReply → Catalog → Result (Unit {0}) × Catalog
send_schema (broken n errors e) c =
    (err (database e), record c { definitions = define_all errors (take n schema) c.definitions })
send_schema (each errors) c =
    (check_each errors schema, record c { definitions = define_all errors schema c.definitions })

-- The UPSERT of the version, and its check.
abbrev pub send_version : Reply → Catalog → Result (Unit {0}) × Catalog
send_version (lost applied e) c =
    (err (database e), if applied then record c { version = some schema_version } else c)
send_version (answered []) c = (ok tt, record c { version = some schema_version })
send_version (answered ((slot, e) ∷ es)) c = (err (database e), c)

abbrev pub then_version : Reply → Result (Unit {0}) × Catalog → Result (Unit {0}) × Catalog
then_version reply (ok u, c) = send_version reply c
then_version reply (err e, c) = (err e, c)

unfoldable pub setup : ScriptReply → Reply → Catalog → Result (Unit {0}) × Catalog
setup script reply c = then_version reply (send_schema script c)
