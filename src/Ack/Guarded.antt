-- ===== src/Ack/Guarded.antt =====
-- The guards of locking and acknowledging, as the callers see them.
use apalis_surrealdb.Prelude.{
  ℕ, suc, ◌≡◌, refl, ap, sym, subst, ◌∙◌, Bool, true, false, not, some, List, [], ◌∷◌, All, All-imp,
  arith, Bool-cases, inl, inr, any, any-false, filter, map, is_empty, if◌then◌else◌, map-if_false,
}
use apalis_surrealdb.Prelude.Int.{ℤ}
use apalis_surrealdb.Database.{Status, running, text, same_id, Json, JobRow, Db, task_not_found}
use apalis_surrealdb.Session.{ok, err, answered, Server, World, Session, transact}
use apalis_surrealdb.Tasks.{Task}
use apalis_surrealdb.Jobs.{update_where, updated, at_id}
use apalis_surrealdb.Jobs.Work.{
  lock_task_query, ack_task_query, can_lock, lock_row, can_ack, ack_row,
}
use apalis_surrealdb.Jobs.Held.{Holds, IsHeld}
use apalis_surrealdb.Ack.{found, lock_task, ack_task, call, call_with}
use apalis_surrealdb.Ack.Guards.{
  guarded, Free, Held, Guards, can_lock-Free, Free-can_lock, can_ack-Held, Held-can_ack,
  guarded-Guards,
}
use apalis_surrealdb.Session.Bind.{>>=-ok, >>=-err}
use apalis_surrealdb.Session.Retry.{transact-answered}

is_empty-updated :
    (p : JobRow → Bool) (f : JobRow → JobRow) (rows : List JobRow)
    → is_empty (map f (filter p rows)) ≡ not (any p rows)
is_empty-updated p f [] = refl
is_empty-updated p f (r ∷ rows) = ground (arith, is_empty-updated p f rows)

-- What the rows that came back are taken for.
tail_found :
    (id : ℕ) (p : JobRow → Bool) (f : JobRow → JobRow) (rows : List JobRow) (w : World)
    → found id (record { errors = []; rows = updated p f rows }) w
      ≡ (if any p rows then ok tt else err (task_not_found id), w)
tail_found id p f rows w =
    rw (is_empty-updated p f rows) (elim (Bool-cases (any p rows)) [ inl e ↦ rw e | inr e ↦ rw e ])

module _ (server : Server) (w : World) (answers : server.reply w.queries ≡ answered []) where
  abbrev before : Db
  before = server.elsewhere w.queries w.db

  abbrev now : ℕ
  now = server.clock w.queries

  pub lock_task-guarded :
      (id worker : ℕ)
      → lock_task server id worker w
        ≡ guarded id (can_lock worker) (lock_row worker now) before w.queries
  unfolding lock_task
  lock_task-guarded id worker =
      >>=-ok (transact server (lock_task_query (text id) worker)) (found id) w (
        transact-answered server (lock_task_query (text id) worker) w
          (record before {
            jobs =
                update_where (at_id (text id) (can_lock worker)) (lock_row worker now) before.jobs;
          })
          (updated (at_id (text id) (can_lock worker)) (lock_row worker now) before.jobs) answers
          (unfold lock_task_query in refl))
      ∙ tail_found id (at_id (text id) (can_lock worker)) (lock_row worker now) before.jobs _

  pub ack_task-guarded :
      (id worker : ℕ) (result : Json) (status : Status) (attempt : ℤ)
      → ack_task server id worker result status attempt w
        ≡ guarded id (can_ack worker) (ack_row status attempt result now) before w.queries
  unfolding ack_task
  ack_task-guarded id worker result status attempt =
      >>=-ok (transact server (ack_task_query (text id) worker status attempt result)) (found id) w
        (transact-answered server (ack_task_query (text id) worker status attempt result) w
          (record before {
            jobs =
                update_where (at_id (text id) (can_ack worker)) (ack_row status attempt result now)
                  before.jobs;
          })
          (updated (at_id (text id) (can_ack worker)) (ack_row status attempt result now)
            before.jobs)
          answers (unfold ack_task_query in refl))
      ∙ tail_found id (at_id (text id) (can_ack worker)) (ack_row status attempt result now)
          before.jobs _

  -- With an error-free reply, locking succeeds exactly if a job has the id, is free or already the worker's,
  -- and is queued, pending or failed; that job is then running, locked by the worker now. Acknowledging
  -- succeeds exactly if a job has the id and is held by the worker, whatever its status; that job then has the
  -- status, the attempts and the result given, and is done now. No other field or row changes, and where no
  -- such job is found, the error is `TaskNotFound`.
  pub guarded_updates :
      (id worker : ℕ) (result : Json) (status : Status) (attempt : ℤ)
      → Guards id
          (Free id worker)
          (λ r. record r { status = running; lock_at = some now; lock_by = some worker })
          before
          (lock_task server id worker w)
        × Guards id
            (Held id worker)
            (λ r. record r {
              status = status;
              attempts = attempt;
              last_result = some result;
              done_at = some now;
            })
            before
            (ack_task server id worker result status attempt w)
  guarded_updates id worker result status attempt = (
    subst
        (Guards id (Free id worker)
          (λ r. record r { status = running; lock_at = some now; lock_by = some worker }) before)
        (sym (lock_task-guarded id worker))
        (guarded-Guards id (can_lock worker) (lock_row worker now) (Free id worker)
          (λ r. record r { status = running; lock_at = some now; lock_by = some worker })
          (can_lock-Free id worker) (Free-can_lock id worker) (unfold lock_row in λ r. refl) before
          w.queries),
    subst
        (Guards id (Held id worker)
          (λ r. record r {
            status = status;
            attempts = attempt;
            last_result = some result;
            done_at = some now;
          })
          before)
        (sym (ack_task-guarded id worker result status attempt))
        (guarded-Guards id (can_ack worker) (ack_row status attempt result now) (Held id worker)
          (λ r. record r {
            status = status;
            attempts = attempt;
            last_result = some result;
            done_at = some now;
          })
          (can_ack-Held id worker) (Held-can_ack id worker) (unfold ack_row in λ r. refl) before
          w.queries),
  )

  -- A held job: locking it fails with `TaskNotFound` for every worker, the handler behind the lock
  -- does not run, and the database stays as it was.
  pub call-held :
      {R : Type 0} (id queue worker instance : ℕ) (inner : Task → Session R) (req : Task)
      → req.task_id ≡ some id
      → IsHeld (text id) queue worker before
      → call server instance inner req w
        ≡ (err (task_not_found id), record { db = before; queries = suc w.queries })
  unfolding call
  call-held id queue worker instance inner req e h =
      ap (λ t. call_with server instance inner req t w) e
      ∙ >>=-err (lock_task server id instance) (λ _. inner (record req { lock_by = some instance }))
          w
          (lock_task-guarded id instance
            ∙ rw (
              any-false _ before.jobs shut,
              map-if_false _ (lock_row instance now) before.jobs shut,
            ))
    where
      closed :
          (r : JobRow)
          → (same_id r.id (text id) ≡ true → Holds (text id) queue worker r)
          → at_id (text id) (can_lock instance) r ≡ false
      closed r held = elim (Bool-cases (same_id r.id (text id))) [
        | inl y ↦ let k = held y in unfold can_lock in ground arith
        | inr n ↦ rw n
      ]

      shut : All (λ r. at_id (text id) (can_lock instance) r ≡ false) before.jobs
      shut = All-imp _ _ before.jobs closed h.each
