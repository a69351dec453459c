-- ===== src/Storage/Ending.antt =====
-- How `wait_for` of wait_for.rs comes to its end.
use apalis_surrealdb.Prelude.{
  ℕ, suc, ◌≡◌, refl, Bool, true, false, List, [], ◌∷◌, map, filter, any, arith, Bool-cases,
  any-append, ◌&&◌, ◌==◌, inl, inr,
}
use apalis_surrealdb.Database.{JobRow, Db, RecordIdKey, text, number, same_id}
use apalis_surrealdb.Session.{Result, ok, answered, Server, World, lift, take_rows, transact}
use apalis_surrealdb.Session.Bind.{>>=-ok}
use apalis_surrealdb.Session.Retry.{transact-answered}
use apalis_surrealdb.Jobs.Finished.{is_completed, completed_rows, completed_query}
use apalis_surrealdb.Storage.{Parsers, TaskResult, into_task_result, fetch_completed}
use apalis_surrealdb.Storage.Given.{Given}

-- The task has ended in that database.
abbrev pub has_ended : Db → ℕ → Bool
has_ended db i = any (λ r. same_id r.id (text i) && is_completed r) db.jobs

-- The item is what `into_task_result` reads of a row of one of the ids, of a task that has ended.
abbrev pub Read : Parsers → List ℕ → Result TaskResult → Type 0
Read p ids x = (r : JobRow) × Given ids r × (x ≡ into_task_result p r)

same_text : (i j : ℕ) (k : RecordIdKey) → same_id k (text j) ≡ true → same_id k (text i) ≡ (j == i)
same_text i j (text k) h = let e : k ≡ j = ground arith in rw e refl
same_text i j (number n) h = absurd (cc)

other_text :
    (i j : ℕ) (k : RecordIdKey)
    → same_id k (text j) ≡ false
    → (j == i && same_id k (text i)) ≡ false
other_text i j (text k) h = ground arith
other_text i j (number n) h = ground arith

found :
    (i j : ℕ) (jobs : List JobRow)
    → any (λ r. same_id r.id (text i)) (filter (λ r. same_id r.id (text j) && is_completed r) jobs)
      ≡ (j == i && any (λ r. same_id r.id (text i) && is_completed r) jobs)
found i j [] = ground arith
found i j (r ∷ rs) =
    let rest = found i j rs in
    elim (Bool-cases (same_id r.id (text j))) [
      | inl e ↦ let s = same_text i j r.id e in rw (e, s) (ground (arith, rest))
      | inr e ↦ let o = other_text i j r.id e in rw e (ground (arith, o, rest))
    ]

-- The query finds a task exactly if it is asked for and has ended.
pub completed_rows-any :
    (i : ℕ) (ids : List ℕ) (db : Db)
    → any (λ (r : JobRow). same_id r.id (text i)) (completed_rows (map text ids) db.jobs)
      ≡ (any (λ j. j == i) ids && has_ended db i)
unfolding completed_rows
completed_rows-any i [] db = refl
completed_rows-any i (j ∷ ids) db =
    rw
      (
        any-append (λ (r : JobRow). same_id r.id (text i)),
        found i j db.jobs,
        completed_rows-any i ids db,
      )
      (ground arith)

pub fetch_completed-reply :
    (server : Server) (ids : List ℕ) (w : World)
    → server.reply w.queries ≡ answered []
    → fetch_completed server ids w ≡ (
      ok (completed_rows (map text ids) (server.elsewhere w.queries w.db).jobs),
      record { db = server.elsewhere w.queries w.db; queries = suc w.queries },
    )
unfolding fetch_completed
fetch_completed-reply server ids w reply =
    >>=-ok (transact server (completed_query (map text ids)))
      (λ response. lift (take_rows 0 response)) w
      (transact-answered server (completed_query (map text ids)) w (server.elsewhere w.queries w.db)
        (completed_rows (map text ids) (server.elsewhere w.queries w.db).jobs) reply
        (unfold completed_query in refl))

module _ (server : Server) (p : Parsers) (answers : (n : ℕ) → server.reply n ≡ answered []) where
  abbrev found_by : List ℕ → World → List JobRow
  found_by ids w = completed_rows (map text ids) (server.elsewhere w.queries w.db).jobs

  abbrev next : World → World
  next w = record { db = server.elsewhere w.queries w.db; queries = suc w.queries }
