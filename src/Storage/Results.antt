-- ===== src/Storage/Results.antt =====
-- `check_status` of src/queries/wait_for.rs.
use apalis_surrealdb.Prelude.{
  ℕ, ◌≡◌, refl, ap, ◌∙◌, true, none, List, [], ◌∷◌, map, any, All, ◌&&◌, ◌==◌,
}
use apalis_surrealdb.Database.{Status, JobRow, text, same_id}
use apalis_surrealdb.Session.{ok, answered, ◌>>=◌, Server, World, Session, lift}
use apalis_surrealdb.Session.Bind.{>>=-ok}
use apalis_surrealdb.Jobs.Finished.{is_completed, completed_rows}
use apalis_surrealdb.Storage.{
  decoded, Parsers, TaskResult, unwrap_or_null, into_task_result, fetch_completed,
}
use apalis_surrealdb.Storage.Given.{Given, completed_rows-Given}
use apalis_surrealdb.Storage.Ending.{has_ended, completed_rows-any, fetch_completed-reply}
use apalis_surrealdb.Listing.{collect_ok}

unfoldable pub check_status : Server → Parsers → List ℕ → Session (List TaskResult)
unfolding into_task_result
check_status server p ids =
    fetch_completed server ids >>= λ rows. lift (collect_ok (into_task_result p) rows)

module _ (p : Parsers) (ids_parse : (i : ℕ) → p.task_id i ≡ decoded i)
    (statuses_parse : (s : Status) → p.status_error s ≡ none) where
  abbrev Readable : JobRow → Type 0
  Readable r = (v : ℕ) × (p.from_value (unwrap_or_null r.last_result) ≡ decoded v)

  -- The results of some rows, which are those of the same tasks.
  abbrev Collected : List JobRow → Type 0
  Collected rows =
      (results : List TaskResult) × (collect_ok (into_task_result p) rows ≡ ok results)
      × ((i : ℕ)
          → any (λ (t : TaskResult). t.task_id == i) results
            ≡ any (λ (r : JobRow). same_id r.id (text i)) rows)

  collected :
      (asked : List ℕ) (rows : List JobRow)
      → All (Given asked) rows
      → ((r : JobRow) → is_completed r ≡ true → Readable r)
      → Collected rows
  unfolding collect_ok into_task_result
  collected asked [] g v = ([], refl, λ i. refl)
  collected asked (r ∷ rows) g v =
      let rest = collected asked rows g.1 v in
      let value = v r g.0.completed in
      let one : TaskResult = record { task_id = g.0.key; status = r.status; result = value.0 } in
      (
        one ∷ rest.0,
        rw (g.0.keyed, ids_parse g.0.key, statuses_parse r.status, value.1, rest.1) refl,
        λ i. rw (g.0.keyed, rest.2 i) refl,
      )

  -- If the reply has no error, the texts of ids and statuses are read back, and the results of the tasks
  -- that have ended are of the type asked for, then `check_status` succeeds and answers those of the tasks
  -- asked for that have ended, and no other.
  check_status_lem :
      (server : Server) (ids : List ℕ) (w : World)
      → server.reply w.queries ≡ answered []
      → ((r : JobRow) → is_completed r ≡ true → Readable r)
      → (results : List TaskResult) × ((check_status server p ids w).0 ≡ ok results)
        × ((i : ℕ)
            → any (λ (t : TaskResult). t.task_id == i) results
              ≡ (any (λ j. j == i) ids && has_ended (server.elsewhere w.queries w.db) i))
  unfolding check_status
  check_status_lem server ids w reply v =
      let db = server.elsewhere w.queries w.db in
      let rows = completed_rows (map text ids) db.jobs in
      let c = collected ids rows (completed_rows-Given ids db.jobs) v in
      (
        c.0,
        ap (λ o. o.0)
              (>>=-ok (fetch_completed server ids)
                (λ found. lift (collect_ok (into_task_result p) found)) w
                (fetch_completed-reply server ids w reply))
            ∙ c.1,
        λ i. c.2 i ∙ completed_rows-any i ids db,
      )
