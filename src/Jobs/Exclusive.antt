-- ===== src/Jobs/Exclusive.antt =====
-- lock_task.surql on a job that is locked, with a history in between.
use apalis_surrealdb.Prelude.{
  ℕ, ◌≡◌, refl, sym, ap, subst, Bool, true, false, List, [], ◌∷◌, All, All-imp, arith, Bool-cases,
  inl, inr, filter-nil, map-if_false, Apart,
}
use apalis_surrealdb.Database.{RecordIdKey, same_id, same_id_iff, JobRow, Db}
use apalis_surrealdb.Session.{commit}
use apalis_surrealdb.Jobs.{update_where, updated, at_id}
use apalis_surrealdb.Jobs.Work.{can_lock, lock_row, lock_task_query}
use apalis_surrealdb.Jobs.Push.{id_taken}
use apalis_surrealdb.Jobs.Unique.{clash, IsUnique}
use apalis_surrealdb.Jobs.Held.{keeps, Holds, IsHeld, run-IsHeld}
use apalis_surrealdb.Jobs.Commands.{Command, run}

module _ (id : RecordIdKey) where
  -- With distinct ids, the rows behind one with this id have other ids.
  others :
      (x : JobRow) (xs : List JobRow)
      → same_id x.id id ≡ true
      → All (λ s. clash x s ≡ false) xs
      → All (λ s. same_id s.id id ≡ false) xs
  others x xs e =
      All-imp _ _ xs
        (λ s c. ground (arith, same_id_iff x.id id, same_id_iff s.id id, same_id_iff x.id s.id))

  untouched :
      (queue worker : ℕ) (p : JobRow → Bool) (f : JobRow → JobRow) (rows : List JobRow)
      → All (λ s. same_id s.id id ≡ false) rows
      → All
          (λ s. same_id s.id id ≡ true → Holds id queue worker s)
          (update_where (at_id id p) f rows)
  untouched queue worker p f [] h = tt
  untouched queue worker p f (r ∷ rows) h =
      (rw h.0 (λ e. absurd (cc (h.0))), untouched queue worker p f rows h.1)

  record Locked (queue worker : ℕ) (rows : List JobRow) : Type 0 where
    present : id_taken id rows ≡ true
    each : All (λ s. same_id s.id id ≡ true → Holds id queue worker s) rows

  none_left :
      (p : JobRow → Bool) (xs : List JobRow)
      → All (λ s. same_id s.id id ≡ false) xs
      → All (λ s. at_id id p s ≡ false) xs
  none_left p xs = All-imp _ _ xs (λ s e. rw e)

  Locked-here :
      (worker now : ℕ) (x : JobRow) (xs : List JobRow) (r : JobRow)
      → r ≡ lock_row worker now x
      → same_id x.id id ≡ true
      → All (λ s. same_id s.id id ≡ false) xs
      → Locked r.queue worker (
          lock_row worker now x
          ∷ update_where (at_id id (can_lock worker)) (lock_row worker now) xs)
  unfolding lock_row
  Locked-here worker now x xs r e same h = record {
    present = rw same;
    each = (
      λ _. record { is_running = refl; by_worker = refl; in_queue = sym (ap (λ s. s.queue) e) },
      untouched r.queue worker (can_lock worker) (lock_row worker now) xs h,
    );
  }

  locked :
      (worker now : ℕ) (rows : List JobRow) (r : JobRow) (rs : List JobRow)
      → Apart clash rows
      → updated (at_id id (can_lock worker)) (lock_row worker now) rows ≡ r ∷ rs
      → Locked r.queue worker (update_where (at_id id (can_lock worker)) (lock_row worker now) rows)
  locked worker now [] r rs u h = absurd (cc)
  locked worker now (x ∷ xs) r rs u h = elim (Bool-cases (same_id x.id id)) [
    | inr ne ↦
        let rest = locked worker now xs r rs u.1 (rw ne at h) in
        rw ne (record { present = rw ne rest.present; each = (λ e. absurd (cc ne), rest.each) })
    | inl eq ↦ elim (Bool-cases (can_lock worker x)) [
      | inr shut ↦ absurd (
          cc (
            rw (eq, shut, filter-nil _ xs (none_left (can_lock worker) xs (others x xs eq u.0))) at
              h))
      | inl free ↦
          let head : r ≡ lock_row worker now x = sym (cc (rw (eq, free) at h)) in
          rw (eq, free) (Locked-here worker now x xs r head eq (others x xs eq u.0))
    ]
  ]

  -- A lock on a held job selects nothing and leaves the database as it is.
  held-lock_task :
      (queue worker other now : ℕ) (db : Db)
      → IsHeld id queue worker db
      → lock_task_query id other now db ≡ commit db []
  unfolding lock_task_query
  held-lock_task queue worker other now db h =
      rw (map-if_false _ (lock_row other now) db.jobs shut, filter-nil _ db.jobs shut)
    where
      closed :
          (r : JobRow)
          → (same_id r.id id ≡ true → Holds id queue worker r)
          → at_id id (can_lock other) r ≡ false
      closed r held = elim (Bool-cases (same_id r.id id)) [
        | inl e ↦ let k = held e in ground arith
        | inr e ↦ rw e
      ]

      shut : All (λ r. at_id id (can_lock other) r ≡ false) db.jobs
      shut = All-imp _ _ db.jobs closed h.each

locked-IsHeld :
    (id : RecordIdKey) (worker now : ℕ) (db after : Db) (r : JobRow) (rs : List JobRow)
    → IsUnique db
    → lock_task_query id worker now db ≡ commit after (r ∷ rs)
    → IsHeld id r.queue worker after
unfolding lock_task_query
locked-IsHeld id worker now db after r rs u h =
    let rows : updated (at_id id (can_lock worker)) (lock_row worker now) db.jobs ≡ r ∷ rs = cc in
    let state : record db {
      jobs = update_where (at_id id (can_lock worker)) (lock_row worker now) db.jobs;
    }
        ≡ after =
      cc in
    let l = locked id worker now db.jobs r rs u rows in
    subst (IsHeld id r.queue worker) state (record { present = l.present; each = l.each })

-- Once a worker has locked a job, every lock of it by any worker finds nothing and changes nothing,
-- through any interleaving of commands by any clients in which that worker does not acknowledge the
-- job, nobody kills it, and no re-enqueueing of its queue finds the worker dead.
pub lock_task_exclusive :
    (id : RecordIdKey) (worker now : ℕ) (db after : Db) (r : JobRow) (rs : List JobRow)
    (cs : List Command) (other later : ℕ)
    → IsUnique db
    → lock_task_query id worker now db ≡ commit after (r ∷ rs)
    → All (λ c. keeps id r.queue worker c ≡ true) cs
    → lock_task_query id other later (run cs after) ≡ commit (run cs after) []
lock_task_exclusive id worker now db after r rs cs other later u h k =
    held-lock_task id r.queue worker other later (run cs after)
      (run-IsHeld id r.queue worker cs after k (locked-IsHeld id worker now db after r rs u h))
