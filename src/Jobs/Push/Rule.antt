-- ===== src/Jobs/Push/Rule.antt =====
-- A proof rule for the FOR loop of push_tasks.surql.
use apalis_surrealdb.Prelude.{
  ◌≡◌, refl, true, false, any, arith, List, [], ◌∷◌, ◌++◌, Bool-cases, inl, inr, All,
}
use apalis_surrealdb.Database.{Db, DbError, same_id, same_id_iff}
use apalis_surrealdb.Jobs.Push.{PushRow, push_rows, created_row, is_new, id_taken}
use apalis_surrealdb.Jobs.Commands.{after}

-- What holds before the transaction, and is kept by each CREATE that passes both tests, holds after
-- it: `base` is the database that an aborted transaction falls back to, and `Q` holds of the rows.
pub push_rows_rule :
    (P : Db → Type 0) (Q : PushRow → Type 0) (exists : DbError) (base : Db)
    → P base
    → ((p : PushRow) (db : Db)
        → Q p
        → P db
        → is_new p db.jobs ≡ true
        → id_taken p.id db.jobs ≡ false
        → P (record db { jobs = db.jobs ++ created_row p ∷ [] }))
    → (rows : List PushRow) (db : Db) → All Q rows
    → P db
    → P (after base (push_rows exists rows db))
unfolding push_rows
push_rows_rule P Q exists base pb create [] db q h = h
push_rows_rule P Q exists base pb create (p ∷ ps) db q h = elim (Bool-cases (is_new p db.jobs)) [
  | inr e ↦ rw e (push_rows_rule P Q exists base pb create ps db q.1 h)
  | inl e ↦ elim (Bool-cases (id_taken p.id db.jobs)) [
    | inl t ↦ rw (e, t) pb
    | inr t ↦ rw (e, t) (push_rows_rule P Q exists base pb create ps _ q.1 (create p db q.0 h e t))
  ]
]

All-unit : (rows : List PushRow) → All (λ _. Unit {0}) rows
All-unit [] = tt
All-unit (p ∷ ps) = (tt, All-unit ps)

-- The rule without a condition on the rows.
pub push_rows_ind :
    (P : Db → Type 0) (exists : DbError) (base : Db)
    → P base
    → ((p : PushRow) (db : Db)
        → P db
        → is_new p db.jobs ≡ true
        → id_taken p.id db.jobs ≡ false
        → P (record db { jobs = db.jobs ++ created_row p ∷ [] }))
    → (rows : List PushRow) (db : Db) → P db
    → P (after base (push_rows exists rows db))
push_rows_ind P exists base pb create rows db h =
    push_rows_rule P (λ _. Unit {0}) exists base pb (λ p before _. create p before) rows db
      (All-unit rows) h

-- Each row of a push is among them.
asked_within :
    (rows part : List PushRow)
    → ((p : PushRow)
        → any (λ (x : PushRow). same_id x.id p.id) part ≡ true
        → any (λ (x : PushRow). same_id x.id p.id) rows ≡ true)
    → All (λ p. any (λ (x : PushRow). same_id x.id p.id) rows ≡ true) part
asked_within rows [] h = tt
asked_within rows (p ∷ ps) h = (
  h p (rw ((same_id_iff p.id p.id).1 refl) refl),
  asked_within rows ps (λ q e. h q (ground (arith, e))),
)

pub asked_all :
    (rows : List PushRow) → All (λ p. any (λ (x : PushRow). same_id x.id p.id) rows ≡ true) rows
asked_all rows = asked_within rows rows (λ p e. e)
