-- ===== src/Jobs/Lifecycle.antt =====
-- What a job goes through, whatever its fields: the machine that the statements on `job` implement.
pub mod Statements
pub mod Composed
pub mod Histories
use apalis_surrealdb.Prelude.{
  ℕ, ◌≡◌, refl, sym, subst, ◌∙◌, Bool, true, false, ◌||◌, any, Option, none, some, List, [], ◌∷◌,
  ◌++◌,
}
use apalis_surrealdb.Prelude.Int.{ℤ}
use apalis_surrealdb.Database.{
  Status, pending, queued, running, done, failed, killed, RecordIdKey, same_id, Json, DbError,
  JobRow,
}
use apalis_surrealdb.Jobs.{is_done, is_killed}
use apalis_surrealdb.Jobs.Orphans.{inside}
use apalis_surrealdb.Jobs.Push.{PushRow}
use apalis_surrealdb.Jobs.Commands.{
  Command, fetch_next, fetch_next_shared, lock_task, ack_task, kill_task, reenqueue, push_tasks,
  vacuum,
}

-- A job waits, has been claimed, is run, has failed, or is over; the last four with its holder, if
-- there is one.
pub data Phase : Type 0 where
  waiting : Phase
  claimed : Option ℕ → Phase
  in_work : Option ℕ → Phase
  to_retry : Option ℕ → Phase
  over : Option ℕ → Phase

abbrev pub holder : Phase → Option ℕ
holder waiting = none
holder (claimed h) = h
holder (in_work h) = h
holder (to_retry h) = h
holder (over h) = h

-- A step that a command makes with the job of that id. A claim takes what waits or has failed; a worker
-- locks only what is free or its own, and acknowledges only what it holds; a kill is of that job; a sweep
-- takes back only what was claimed or is in work, and from no live holder.
pub data Move (id : RecordIdKey) : Command → Phase → Phase → Type 0 where
  claim : (q w k now : ℕ) → Move id (fetch_next q w k now) waiting (claimed (some w))
  claim_again :
      (q w k now : ℕ) (h : Option ℕ)
      → Move id (fetch_next q w k now) (to_retry h) (claimed (some w))
  share : (qs : List ℕ) (k now : ℕ) → Move id (fetch_next_shared qs k now) waiting (claimed none)
  share_again :
      (qs : List ℕ) (k now : ℕ) (h : Option ℕ)
      → Move id (fetch_next_shared qs k now) (to_retry h) (claimed h)
  lock_waiting :
      (j : RecordIdKey) (w now : ℕ)
      → same_id id j ≡ true
      → Move id (lock_task j w now) waiting (in_work (some w))
  lock_free :
      (j : RecordIdKey) (w now : ℕ)
      → same_id id j ≡ true
      → Move id (lock_task j w now) (claimed none) (in_work (some w))
  lock_own :
      (j : RecordIdKey) (w now : ℕ)
      → same_id id j ≡ true
      → Move id (lock_task j w now) (claimed (some w)) (in_work (some w))
  lock_again :
      (j : RecordIdKey) (w now : ℕ)
      → same_id id j ≡ true
      → Move id (lock_task j w now) (to_retry (some w)) (in_work (some w))
  acknowledge :
      {p : Phase} (j : RecordIdKey) (w : ℕ) (a : ℤ) (v : Json) (now : ℕ) (o : Status)
      → same_id id j ≡ true
      → holder p ≡ some w
      → (is_done o || is_killed o) ≡ true
      → Move id (ack_task j w o a v now) p (over (some w))
  give_back :
      {p : Phase} (j : RecordIdKey) (w : ℕ) (a : ℤ) (v : Json) (now : ℕ)
      → same_id id j ≡ true
      → holder p ≡ some w
      → Move id (ack_task j w failed a v now) p (to_retry (some w))
  kill :
      {p : Phase} (j : RecordIdKey) (reason now : ℕ)
      → same_id id j ≡ true
      → Move id (kill_task j reason now) p (over none)
  lose_claim :
      (q dur now : ℕ) (live : List ℕ) (h : Option ℕ)
      → inside h live ≡ false
      → Move id (reenqueue q dur now live) (claimed h) waiting
  lose_work :
      (q dur now : ℕ) (live : List ℕ) (w : ℕ)
      → inside (some w) live ≡ false
      → Move id (reenqueue q dur now live) (in_work (some w)) waiting

-- What commands do with the job of that id, each at most one step.
pub data Trace (id : RecordIdKey) : List Command → Phase → Phase → Type 0 where
  stay : {p : Phase} → Trace id [] p p
  idle : {c : Command} {cs : List Command} {p q : Phase} → Trace id cs p q → Trace id (c ∷ cs) p q
  move :
      {c : Command} {cs : List Command} {p q r : Phase}
      → Move id c p q
      → Trace id cs q r
      → Trace id (c ∷ cs) p r

-- A job leaves the table only after it failed or is over.
abbrev pub may_leave : Phase → Bool
may_leave waiting = false
may_leave (claimed h) = false
may_leave (in_work h) = false
may_leave (to_retry h) = true
may_leave (over h) = true

-- The phase that a row stands for.
abbrev pub phase_of : Status → Option ℕ → Phase
phase_of pending h = waiting
phase_of queued h = claimed h
phase_of running h = in_work h
phase_of failed h = to_retry h
phase_of done h = over h
phase_of killed h = over h

abbrev pub phase : JobRow → Phase
phase r = phase_of r.status r.lock_by

-- Commands that end a job's stay in the table: one of them is a vacuum, which finds it at such a phase.
pub data Leaves (id : RecordIdKey) : List Command → Phase → Type 0 where
  vacuumed : {cs : List Command} {p : Phase} → may_leave p ≡ true → Leaves id (vacuum ∷ cs) p
  rests : {c : Command} {cs : List Command} {p : Phase} → Leaves id cs p → Leaves id (c ∷ cs) p
  moves :
      {c : Command} {cs : List Command} {p q : Phase}
      → Move id c p q
      → Leaves id cs q
      → Leaves id (c ∷ cs) p

-- Commands that bring a job to a phase: one of them pushes its id, and it begins by waiting.
pub data Comes (id : RecordIdKey) : List Command → Phase → Type 0 where
  pushed :
      {cs : List Command} {q : Phase} (exists : DbError) (rows : List PushRow)
      → any (λ (p : PushRow). same_id p.id id) rows ≡ true
      → Trace id cs waiting q
      → Comes id (push_tasks exists rows ∷ cs) q
  later : {c : Command} {cs : List Command} {q : Phase} → Comes id cs q → Comes id (c ∷ cs) q

-- The tables before and after commands: each job that stays, that left or that came did so by them.
-- Ids are kept, and so is the order.
pub data Evolves (cs : List Command) : List JobRow → List JobRow → Type 0 where
  empty : Evolves cs [] []
  keeps :
      {r r' : JobRow} {rs rs' : List JobRow}
      → r'.id ≡ r.id
      → Trace r.id cs (phase r) (phase r')
      → Evolves cs rs rs'
      → Evolves cs (r ∷ rs) (r' ∷ rs')
  leaves :
      {r : JobRow} {rs rs' : List JobRow}
      → Leaves r.id cs (phase r)
      → Evolves cs rs rs'
      → Evolves cs (r ∷ rs) rs'
  comes :
      {r' : JobRow} {rs' : List JobRow}
      → Comes r'.id cs (phase r')
      → Evolves cs [] rs'
      → Evolves cs [] (r' ∷ rs')
