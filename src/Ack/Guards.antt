-- ===== src/Ack/Guards.antt =====
-- What the guards of lock_task.surql and ack_task.surql ask of a job, and how a guarded update answers.
use mathlib.Core.List.{Memᴰ}
use apalis_surrealdb.Prelude.{
  ℕ, suc, ◌≡◌, refl, ◌⊎◌, Bool, true, false, ◌||◌, none, some, List, [], ◌∷◌, All, All-imp,
  All_of_any-false, arith, holds, Bool-cases, inl, inr, any, if◌then◌else◌,
}
use apalis_surrealdb.Jobs.{is_queued, is_pending, is_failed}
use apalis_surrealdb.Jobs.Rewrites.{
  Rewrites, update_where-Rewrites, free_or_own, free_or_own_back, held_by, pending-eq, failed-eq,
  queued-eq, either,
}
use apalis_surrealdb.Database.{
  Status, pending, queued, failed, text, same_id, same_id_iff, JobRow, Db, task_not_found,
}
use apalis_surrealdb.Session.{Result, ok, err, World}
use apalis_surrealdb.Jobs.{update_where, at_id}
use apalis_surrealdb.Jobs.Work.{can_lock, can_ack}

-- How a guarded update answers: found or not, and the rows that it leaves.
abbrev pub guarded : ℕ → (JobRow → Bool) → (JobRow → JobRow) → Db → ℕ → Result (Unit {0}) × World
guarded id p f db n = (
  if any (at_id (text id) p) db.jobs then ok tt else err (task_not_found id),
  record { db = record db { jobs = update_where (at_id (text id) p) f db.jobs }; queries = suc n },
)

-- The job `id`, which `worker` may lock.
abbrev pub Free : ℕ → ℕ → JobRow → Type 0
Free id worker r =
    (r.id ≡ text id)
    × ((r.lock_by ≡ none) ⊎ (r.lock_by ≡ some worker))
    × ((r.status ≡ queued) ⊎ ((r.status ≡ pending) ⊎ (r.status ≡ failed)))

-- The job `id`, which `worker` holds.
abbrev pub Held : ℕ → ℕ → JobRow → Type 0
Held id worker r = (r.id ≡ text id) × (r.lock_by ≡ some worker)

pub can_lock-Free :
    (id worker : ℕ) (r : JobRow) → at_id (text id) (can_lock worker) r ≡ true → Free id worker r
unfolding can_lock
can_lock-Free id worker r h =
    let same : same_id r.id (text id) ≡ true = ground arith in
    (
      (same_id_iff r.id (text id)).0 same,
      free_or_own r.lock_by worker (ground arith),
      elim (either (is_queued r.status) (is_pending r.status || is_failed r.status)
          (ground arith)) [
            | inl e ↦ inl (queued-eq r.status e)
            | inr e ↦ elim (either (is_pending r.status) (is_failed r.status) e) [
              | inl f ↦ inr (inl (pending-eq r.status f))
              | inr f ↦ inr (inr (failed-eq r.status f))
            ]
          ],
    )

lockable :
    (st : Status)
    → ((st ≡ queued) ⊎ ((st ≡ pending) ⊎ (st ≡ failed)))
    → (is_queued st || is_pending st || is_failed st) ≡ true
lockable st (inl e) = rw e refl
lockable st (inr (inl e)) = rw e refl
lockable st (inr (inr e)) = rw e refl

pub Free-can_lock :
    (id worker : ℕ) (r : JobRow) → Free id worker r → at_id (text id) (can_lock worker) r ≡ true
unfolding can_lock
Free-can_lock id worker r (e, h, s) =
    let same = (same_id_iff r.id (text id)).1 e in
    let own = free_or_own_back r.lock_by worker h in
    let st = lockable r.status s in rw (same, own, st) refl

pub can_ack-Held :
    (id worker : ℕ) (r : JobRow) → at_id (text id) (can_ack worker) r ≡ true → Held id worker r
unfolding can_ack
can_ack-Held id worker r h =
    let same : same_id r.id (text id) ≡ true = ground arith in
    ((same_id_iff r.id (text id)).0 same, held_by r.lock_by worker (ground arith))

pub Held-can_ack :
    (id worker : ℕ) (r : JobRow) → Held id worker r → at_id (text id) (can_ack worker) r ≡ true
unfolding can_ack
Held-can_ack id worker r (e, h) =
    let same = (same_id_iff r.id (text id)).1 e in
    let own : holds r.lock_by worker ≡ true = rw h (ground arith) in rw (same, own) refl

-- How an update of the jobs that meet `Cond` answers, and the table that it leaves: it succeeds with one of
-- them in the table, or fails with none.
pub record Guards (id : ℕ) (Cond : JobRow → Type 0) (new : JobRow → JobRow) (before : Db)
    (o : Result (Unit {0}) × World) : Type 0 where
  pub answer :
      ((o.0 ≡ ok tt) × ((r : JobRow) × Memᴰ r before.jobs × Cond r))
      ⊎ ((o.0 ≡ err (task_not_found id)) × All (λ r. ¬ Cond r) before.jobs)
  pub jobs : Rewrites Cond new before.jobs o.1.db.jobs
  pub workers : o.1.db.workers ≡ before.workers

found_one :
    (p : JobRow → Bool) (rows : List JobRow)
    → any p rows ≡ true
    → (r : JobRow) × Memᴰ r rows × (p r ≡ true)
found_one p [] h = absurd (cc)
found_one p (r ∷ rows) h = elim (Bool-cases (p r)) [
  | inl e ↦ (r, Memᴰ.head refl, e)
  | inr e ↦ let h' = rw e at h in let (s, m, k) = found_one p rows h' in (s, Memᴰ.tail m, k)
]

pub guarded-Guards :
    (id : ℕ) (p : JobRow → Bool) (f : JobRow → JobRow)
    → (Cond : JobRow → Type 0) (new : JobRow → JobRow)
    → ((r : JobRow) → at_id (text id) p r ≡ true → Cond r)
    → ((r : JobRow) → Cond r → at_id (text id) p r ≡ true)
    → ((r : JobRow) → f r ≡ new r)
    → (before : Db) (n : ℕ) → Guards id Cond new before (guarded id p f before n)
guarded-Guards id p f Cond new to from same before n = record {
  answer = elim (Bool-cases (any (at_id (text id) p) before.jobs)) [
    | inl e ↦
        let (r, m, k) = found_one (at_id (text id) p) before.jobs e in
        rw e (inl (refl, (r, m, to r k)))
    | inr e ↦ rw e (
        inr (
          refl,
          All-imp (λ r. at_id (text id) p r ≡ false) (λ r. ¬ Cond r) before.jobs
              (λ r k c. let t = from r c in absurd (cc))
              (All_of_any-false (at_id (text id) p) before.jobs e),
        ))
  ];
  jobs = update_where-Rewrites Cond new (at_id (text id) p) f to from same before.jobs;
  workers = refl;
}
