-- ===== src/Jobs/Claim.antt =====
-- queries/backend/fetch_next.surql and fetch_next_shared.surql.
pub mod Due
pub mod Order
pub mod Best
pub mod Reordered
use apalis_surrealdb.Prelude.{
  ℕ, Bool, true, false, ◌&&◌, ◌||◌, Option, none, some, List, [], ◌∷◌, map, filter, any, take,
  if◌then◌else◌, ltb, leb, ◌==◌,
}
use apalis_surrealdb.Prelude.Int.{ltb_ℤ, ℤ, pos, negsuc}
use apalis_surrealdb.Database.{
  pending, queued, failed, RecordIdKey, same_id, id_leb, JobRow, Db, DbError,
}
use apalis_surrealdb.Session.{Outcome, commit, abort}
use apalis_surrealdb.Jobs.{is_claimable, update_where}

-- `ORDER BY priority DESC, run_at ASC, id ASC`: whether the first row stands before the second.
unfoldable pub ahead : JobRow → JobRow → Bool
ahead a b =
    if ltb_ℤ b.priority a.priority
    then true
    else if ltb_ℤ a.priority b.priority
    then false
    else if ltb a.run_at b.run_at
    then true
    else if ltb b.run_at a.run_at
    then false
    else id_leb a.id b.id

unfoldable pub insert_row : JobRow → List JobRow → List JobRow
insert_row a [] = a ∷ []
insert_row a (b ∷ bs) = let rest = insert_row a bs in if ahead a b then a ∷ b ∷ bs else b ∷ rest

unfoldable pub order_rows : List JobRow → List JobRow
unfolding insert_row
order_rows [] = []
order_rows (r ∷ rs) = insert_row r (order_rows rs)

-- `LET $due = SELECT VALUE id …`: the rows behind the ids.
unfoldable pub due_rows : (JobRow → Bool) → ℕ → List JobRow → List JobRow
unfolding order_rows
due_rows p limit jobs = take limit (order_rows (filter p jobs))

-- `WHERE id IN $due`, the target of `UPDATE $due`.
abbrev pub among : List JobRow → JobRow → Bool
among rows r = any (λ s. same_id s.id r.id) rows

unfoldable pub is_due : ℕ → ℕ → JobRow → Bool
unfolding is_claimable
is_due queue now r = r.queue == queue && is_claimable now r

unfoldable pub is_due_shared : List ℕ → ℕ → JobRow → Bool
unfolding is_claimable
is_due_shared queues now r = any (λ q. r.queue == q) queues && is_claimable now r

-- The SET clauses. The shared claim leaves `lock_by` as it is.
unfoldable pub claim_row : ℕ → ℕ → JobRow → JobRow
claim_row worker now r = record r { status = queued; lock_by = some worker; lock_at = some now }

unfoldable pub claim_row_shared : ℕ → JobRow → JobRow
claim_row_shared now r = record r { status = queued; lock_at = some now }

-- The two statements behind BEGIN: choose the rows, update each of them, and return them AFTER.
unfoldable pub claim_rows : (JobRow → Bool) → (JobRow → JobRow) → ℕ → Db → Outcome JobRow
unfolding due_rows
claim_rows p f limit db =
    let due = due_rows p limit db.jobs in
    commit (record db { jobs = update_where (among due) f db.jobs }) (map f due)

-- `LIMIT $limit`, bound to an i64: the server rejects a negative one at slot 1.
abbrev pub with_limit : DbError → (ℕ → Db → Outcome JobRow) → ℤ → Db → Outcome JobRow
with_limit bad_limit run (pos n) db = run n db
with_limit bad_limit run (negsuc n) db = abort 1 bad_limit

unfoldable pub fetch_next_query : DbError → ℕ → ℕ → ℤ → ℕ → Db → Outcome JobRow
unfolding claim_rows is_due claim_row
fetch_next_query bad_limit queue worker limit now db =
    with_limit bad_limit (claim_rows (is_due queue now) (claim_row worker now)) limit db

unfoldable pub fetch_next_shared_query : DbError → List ℕ → ℤ → ℕ → Db → Outcome JobRow
unfolding claim_rows is_due_shared claim_row_shared
fetch_next_shared_query bad_limit queues limit now db =
    with_limit bad_limit (claim_rows (is_due_shared queues now) (claim_row_shared now)) limit db
