-- ===== src/Jobs/Sound.antt =====
-- The fields of a job and its status, through the statements on `job`.
use apalis_surrealdb.Prelude.{
  ℕ, ◌≡◌, true, none, List, [], ◌∷◌, All, All-append, All-filter, arith, is_some,
}
use apalis_surrealdb.Database.{
  Status, pending, queued, running, done, failed, killed, Json, JobRow, Db,
}
use apalis_surrealdb.Prelude.Int.{ℤ}
use apalis_surrealdb.Jobs.Update.{All-update_where}
use apalis_surrealdb.Jobs.Claim.{claim_row, claim_row_shared}
use apalis_surrealdb.Jobs.Work.{lock_row, can_ack, ack_row, kill_row}
use apalis_surrealdb.Jobs.Orphans.{reenqueue_row}
use apalis_surrealdb.Jobs.Push.{PushRow, created_row}
use apalis_surrealdb.Jobs.Push.Rule.{push_rows_ind}
use apalis_surrealdb.Jobs.Commands.{
  Command, fetch_next, fetch_next_shared, lock_task, ack_task, kill_task, reenqueue, push_tasks,
  vacuum, apply, run, is_outcome, Allowed,
}

-- A waiting job has no holder; a claimed one has its claim time; a running one its holder too; an
-- acknowledged one is stamped; and a holder never stands without the time of its claim.
pub record IsSound (r : JobRow) : Type 0 where
  pub pending_free :
      r.status ≡ pending → (r.lock_by ≡ none) × (r.lock_at ≡ none) × (r.done_at ≡ none)
  pub queued_timed : r.status ≡ queued → is_some r.lock_at ≡ true
  pub running_held : r.status ≡ running → is_some r.lock_by ≡ true
  pub held_timed : is_some r.lock_by ≡ true → is_some r.lock_at ≡ true
  pub done_stamped : r.status ≡ done → is_some r.done_at ≡ true
  pub failed_stamped : r.status ≡ failed → (is_some r.done_at ≡ true) × (is_some r.lock_by ≡ true)
  pub killed_stamped : r.status ≡ killed → is_some r.done_at ≡ true

claim_row-IsSound : (worker now : ℕ) (r : JobRow) → IsSound r → IsSound (claim_row worker now r)
unfolding claim_row
claim_row-IsSound worker now r s = ground arith

claim_row_shared-IsSound : (now : ℕ) (r : JobRow) → IsSound r → IsSound (claim_row_shared now r)
unfolding claim_row_shared
claim_row_shared-IsSound now r s = ground arith

lock_row-IsSound : (worker now : ℕ) (r : JobRow) → IsSound r → IsSound (lock_row worker now r)
unfolding lock_row
lock_row-IsSound worker now r s = ground arith

reenqueue_row-IsSound : (r : JobRow) → IsSound r → IsSound (reenqueue_row r)
unfolding reenqueue_row
reenqueue_row-IsSound r s = ground arith

kill_row-IsSound : (reason now : ℕ) (r : JobRow) → IsSound r → IsSound (kill_row reason now r)
unfolding kill_row
kill_row-IsSound reason now r s = ground arith

created_row-IsSound : (p : PushRow) → IsSound (created_row p)
unfolding created_row
created_row-IsSound p = ground arith

ack_row-IsSound :
    (worker : ℕ) (status : Status) (attempts : ℤ) (result : Json) (now : ℕ) (r : JobRow)
    → is_outcome status ≡ true
    → can_ack worker r ≡ true
    → IsSound r
    → IsSound (ack_row status attempts result now r)
unfolding ack_row can_ack
ack_row-IsSound worker status attempts result now r o h s = ground arith

abbrev pub AllSound : Db → Type 0
AllSound db = All IsSound db.jobs

-- Every history of allowed commands keeps every job sound.
pub apply-AllSound : (c : Command) (db : Db) → Allowed c → AllSound db → AllSound (apply c db)
unfolding apply
apply-AllSound (fetch_next queue worker limit now) db a h =
    All-update_where IsSound _ _ db.jobs (λ r e s. claim_row-IsSound worker now r s) h
apply-AllSound (fetch_next_shared queues limit now) db a h =
    All-update_where IsSound _ _ db.jobs (λ r e s. claim_row_shared-IsSound now r s) h
apply-AllSound (lock_task id worker now) db a h =
    All-update_where IsSound _ _ db.jobs (λ r e s. lock_row-IsSound worker now r s) h
apply-AllSound (ack_task id worker status attempts result now) db a h =
    All-update_where IsSound _ _ db.jobs
      (λ r e s. ack_row-IsSound worker status attempts result now r a (ground arith) s) h
apply-AllSound (kill_task id reason now) db a h =
    All-update_where IsSound _ _ db.jobs (λ r e s. kill_row-IsSound reason now r s) h
apply-AllSound (reenqueue queue dur now live) db a h =
    All-update_where IsSound _ _ db.jobs (λ r e s. reenqueue_row-IsSound r s) h
apply-AllSound (push_tasks exists rows) db a h =
    push_rows_ind AllSound exists db h
      (λ p before s n t. All-append IsSound before.jobs _ s (created_row-IsSound p, tt)) rows db h
apply-AllSound vacuum db a h = All-filter IsSound _ db.jobs h

-- After any interleaving of the commands, with outcomes as `calculate_status` gives them, the fields
-- of every job agree with its status: waiting jobs are free, running ones have a holder, and so on.
pub run-AllSound :
    (cs : List Command) (db : Db) → All Allowed cs → AllSound db → AllSound (run cs db)
unfolding run
run-AllSound [] db a h = h
run-AllSound (c ∷ cs) db a h = run-AllSound cs (apply c db) a.1 (apply-AllSound c db a.0 h)
