-- ===== src/Jobs/Tests.antt =====
-- Runs of the statements on small tables, and the theorems at them.
use mathlib.Core.List.{Memᴰ, Permᴰ}
use apalis_surrealdb.Prelude.{ℕ, ◌≡◌, refl, false, none, some, List, [], ◌∷◌, All, arith, length}
use apalis_surrealdb.Prelude.Int.{pos}
use apalis_surrealdb.Database.{queued, failed, done, text, object, JobRow, Db, same_id}
use apalis_surrealdb.Session.{Outcome, commit, abort}
use apalis_surrealdb.Jobs.Lifecycle.{Evolves}
use apalis_surrealdb.Jobs.Lifecycle.Histories.{run-Evolves}
use apalis_surrealdb.Samples.{waiting, failed_once, working, table, refusal, push_row}
use apalis_surrealdb.Jobs.Reordered.{Reordered, run-Reordered}
use apalis_surrealdb.Jobs.Claim.{
  ahead, due_rows, fetch_next_query, is_due, is_due_shared, claim_row_shared,
  fetch_next_shared_query,
}
use apalis_surrealdb.Jobs.Claim.Best.{
  Claims, Ready, OneOf, fetch_next_query-Claims, fetch_next_shared_query-Claims,
}
use apalis_surrealdb.Jobs.Push.{is_new, created_row}
use apalis_surrealdb.Jobs.Work.{lock_task_query, can_lock}
use apalis_surrealdb.Jobs.Orphans.{is_orphan}
use apalis_surrealdb.Jobs.Stranded.{claim_row_shared_strands}
use apalis_surrealdb.Jobs.Sound.{AllSound, run-AllSound}
use apalis_surrealdb.Jobs.Unique.{IsUnique, run-IsUnique}
use apalis_surrealdb.Jobs.Exclusive.{lock_task_exclusive}
use apalis_surrealdb.Jobs.Once.{own, shared, claim_query, claimed_once}
use apalis_surrealdb.Jobs.Commands.{
  Command, fetch_next, lock_task, ack_task, kill_task, reenqueue, push_tasks, vacuum, run, after,
}

table-IsUnique : IsUnique table
table-IsUnique = ((refl, (refl, tt)), ((refl, tt), (tt, tt)))

-- The failed job has the highest priority, then the third.
abbrev claimed : JobRow → ℕ → JobRow
claimed r now = record r { status = queued; lock_by = some 8; lock_at = some now }

abbrev claimed_table : Db
claimed_table = record table {
  jobs =
      waiting 1 (pos 0) ∷ claimed (failed_once 2 (pos 5)) 40 ∷ claimed (waiting 3 (pos 2)) 40 ∷ [];
}

abbrev claimed_rows : List JobRow
claimed_rows = claimed (failed_once 2 (pos 5)) 40 ∷ claimed (waiting 3 (pos 2)) 40 ∷ []

claim_two : fetch_next_query refusal 5 8 (pos 2) 40 table ≡ commit claimed_table claimed_rows
unfolding fetch_next_query ahead
claim_two = refl

fetch_next_query-Claims_example :
    Claims
      (λ r. (r.queue ≡ 5) × Ready 40 r)
      (λ r. record r { status = queued; lock_by = some 8; lock_at = some 40 })
      2
      table
      claimed_table
      claimed_rows
fetch_next_query-Claims_example =
    fetch_next_query-Claims refusal 5 8 2 40 table claimed_table claimed_rows claim_two

-- Commands of other clients, none of which hands job 2 back.
abbrev others : List Command
others =
    lock_task (text 2) 8 41
    ∷ ack_task (text 3) 8 done (pos 1) (object 1) 42
    ∷ push_tasks refusal (push_row 4 none ∷ [])
    ∷ vacuum
    ∷ kill_task (text 4) 0 43
    ∷ []

abbrev rows_of : {A : Type 0} → Outcome A → List A
rows_of (commit db rows) = rows
rows_of (abort slot e) = []

abbrev second_claim : Outcome JobRow
second_claim = claim_query refusal (shared (5 ∷ [])) (pos 10) 50 (run others claimed_table)

claimed_once_example : All (λ s. same_id s.id (text 2) ≡ false) (rows_of second_claim)
unfolding fetch_next_query fetch_next_shared_query ahead run
claimed_once_example =
    claimed_once refusal (own 5 8) (shared (5 ∷ [])) 2 10 40 50 table claimed_table
      (after claimed_table second_claim) claimed_rows (rows_of second_claim)
      (claimed (failed_once 2 (pos 5)) 40) others table-IsUnique refl (Memᴰ.head refl)
      (refl, (refl, (refl, (refl, (refl, tt))))) refl

-- The second claim does hand out a job, the first one.
second_claim_takes : length (rows_of second_claim) ≡ 1
unfolding fetch_next_shared_query ahead run is_new created_row
second_claim_takes = refl

fetch_next_shared_query-Claims_example :
    Claims
      (λ r. OneOf (5 ∷ []) r.queue × Ready 50 r)
      (λ r. record r { status = queued; lock_at = some 50 })
      10
      (run others claimed_table)
      (after claimed_table second_claim)
      (rows_of second_claim)
unfolding fetch_next_shared_query ahead run
fetch_next_shared_query-Claims_example =
    fetch_next_shared_query-Claims refusal (5 ∷ []) 10 50 (run others claimed_table)
      (after claimed_table second_claim) (rows_of second_claim) refl

abbrev locked_table : Db
locked_table = record table {
  jobs = working 1 (pos 0) 7 100 ∷ failed_once 2 (pos 5) ∷ waiting 3 (pos 2) ∷ [];
}

-- While worker 7 runs job 1, others claim, sweep for orphans with worker 7 alive, push and purge.
abbrev meanwhile : List Command
meanwhile =
    fetch_next 5 9 10 110
    ∷ reenqueue 5 10 200 (7 ∷ [])
    ∷ lock_task (text 1) 9 120
    ∷ ack_task (text 1) 9 failed (pos 1) (object 1) 130
    ∷ push_tasks refusal (push_row 4 none ∷ [])
    ∷ vacuum
    ∷ []

lock_task_exclusive_example :
    lock_task_query (text 1) 9 150 (run meanwhile locked_table)
    ≡ commit (run meanwhile locked_table) []
unfolding lock_task_query
lock_task_exclusive_example =
    lock_task_exclusive (text 1) 7 100 table locked_table (working 1 (pos 0) 7 100) [] meanwhile 9
      150 table-IsUnique refl (refl, (refl, (refl, (refl, (refl, (refl, tt))))))

run-IsUnique_example : IsUnique (run meanwhile locked_table)
run-IsUnique_example =
    run-IsUnique meanwhile locked_table ((refl, (refl, tt)), ((refl, tt), (tt, tt)))

table-AllSound : AllSound table
table-AllSound = ground arith

run-AllSound_example : AllSound (run meanwhile table)
run-AllSound_example =
    run-AllSound meanwhile table (tt, (tt, (tt, (refl, (tt, (tt, tt)))))) table-AllSound

claim_row_shared_strands_example :
    let r' = claim_row_shared 40 (failed_once 2 (pos 5)) in
    (can_lock 9 r' ≡ false)
    × (is_due 5 100 r' ≡ false)
    × (is_due_shared (5 ∷ []) 100 r' ≡ false)
    × (is_orphan 5 10 100 (7 ∷ []) r' ≡ false)
claim_row_shared_strands_example =
    claim_row_shared_strands (failed_once 2 (pos 5)) 7 9 40 100 10 5 (5 ∷ []) (7 ∷ []) refl refl
      (λ e. absurd (omega arith)) refl

run-Evolves_example : Evolves meanwhile table.jobs (run meanwhile table).jobs
run-Evolves_example =
    run-Evolves meanwhile table (tt, (tt, (tt, (refl, (tt, (tt, tt)))))) table-AllSound
      table-IsUnique

-- The jobs of the table, the last one first.
abbrev turned : Db
turned = record table { jobs = waiting 3 (pos 2) ∷ failed_once 2 (pos 5) ∷ waiting 1 (pos 0) ∷ [] }

table-Reordered : Reordered table turned
table-Reordered =
    Permᴰ.trans (Permᴰ.cons refl (Permᴰ.swap refl refl))
      (Permᴰ.trans (Permᴰ.swap refl refl) (Permᴰ.cons refl (Permᴰ.swap refl refl)))

run-Reordered_example :
    Reordered (run others table) (run others turned)
    × (due_rows (is_due 5 40) 2 (run others table).jobs
        ≡ due_rows (is_due 5 40) 2 (run others turned).jobs)
    × (due_rows (is_due_shared (5 ∷ []) 40) 2 (run others table).jobs
        ≡ due_rows (is_due_shared (5 ∷ []) 40) 2 (run others turned).jobs)
run-Reordered_example =
    run-Reordered others table turned 5 2 40 (5 ∷ []) table-IsUnique table-Reordered
