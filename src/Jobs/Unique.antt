-- ===== src/Jobs/Unique.antt =====
-- Record ids and idempotency keys, through the statements on `job`.
use apalis_surrealdb.Prelude.{
  ℕ, ◌≡◌, refl, Bool, true, false, ◌&&◌, ◌||◌, Option, none, some, List, [], ◌∷◌, All, arith, ◌==◌,
  Bool-cases, inl, inr, Apart, Apart-map, Apart-filter, Apart-snoc, if◌then◌else◌,
}
use apalis_surrealdb.Database.{Status, Json, JobRow, Db, same_id}
use apalis_surrealdb.Prelude.Int.{ℤ}
use apalis_surrealdb.Jobs.{update_where}
use apalis_surrealdb.Jobs.Push.{PushRow, created_row, is_new, id_taken}
use apalis_surrealdb.Jobs.Push.Rule.{push_rows_ind}
use apalis_surrealdb.Jobs.Claim.{claim_row, claim_row_shared}
use apalis_surrealdb.Jobs.Work.{lock_row, ack_row, kill_row}
use apalis_surrealdb.Jobs.Orphans.{reenqueue_row}
use apalis_surrealdb.Jobs.Commands.{
  Command, fetch_next, fetch_next_shared, lock_task, ack_task, kill_task, reenqueue, push_tasks,
  vacuum, apply, run,
}

abbrev pub same_key : Option ℕ → Option ℕ → Bool
same_key none _ = false
same_key (some a) none = false
same_key (some a) (some b) = a == b

-- The same record, or the same idempotency key in the same queue.
abbrev pub clash : JobRow → JobRow → Bool
clash r s = same_id r.id s.id || r.queue == s.queue && same_key r.idempotency_key s.idempotency_key

abbrev pub IsUnique : Db → Type 0
IsUnique db = Apart clash db.jobs

-- The SET clauses write none of the three fields.
pub record Names (f : JobRow → JobRow) : Type 0 where
  pub id : (r : JobRow) → (f r).id ≡ r.id
  pub queue : (r : JobRow) → (f r).queue ≡ r.queue
  pub idempotency_key : (r : JobRow) → (f r).idempotency_key ≡ r.idempotency_key

pub Names-if :
    (p : JobRow → Bool) (f : JobRow → JobRow) → Names f → Names (λ r. if p r then f r else r)
Names-if p f k = record {
  id = λ r. elim (Bool-cases (p r)) [ inl e ↦ rw e (k.id r) | inr e ↦ rw e refl ];
  queue = λ r. elim (Bool-cases (p r)) [ inl e ↦ rw e (k.queue r) | inr e ↦ rw e refl ];
  idempotency_key =
      λ r. elim (Bool-cases (p r)) [ inl e ↦ rw e (k.idempotency_key r) | inr e ↦ rw e refl ];
}

pub clash-Names : (g : JobRow → JobRow) → Names g → (r s : JobRow) → clash (g r) (g s) ≡ clash r s
clash-Names g k r s =
    cc (k.id r, k.id s, k.queue r, k.queue s, k.idempotency_key r, k.idempotency_key s)

update_where-IsUnique :
    (p : JobRow → Bool) (f : JobRow → JobRow) (rows : List JobRow)
    → Names f
    → Apart clash rows
    → Apart clash (update_where p f rows)
update_where-IsUnique p f rows k h = Apart-map clash _ rows (clash-Names _ (Names-if p f k)) h

pub claim_row-Names : (worker now : ℕ) → Names (claim_row worker now)
unfolding claim_row
claim_row-Names worker now = record {
  id = λ r. refl;
  queue = λ r. refl;
  idempotency_key = λ r. refl;
}

pub claim_row_shared-Names : (now : ℕ) → Names (claim_row_shared now)
unfolding claim_row_shared
claim_row_shared-Names now = record {
  id = λ r. refl;
  queue = λ r. refl;
  idempotency_key = λ r. refl;
}

pub lock_row-Names : (worker now : ℕ) → Names (lock_row worker now)
unfolding lock_row
lock_row-Names worker now = record {
  id = λ r. refl;
  queue = λ r. refl;
  idempotency_key = λ r. refl;
}

pub ack_row-Names :
    (status : Status) (attempts : ℤ) (result : Json) (now : ℕ)
    → Names (ack_row status attempts result now)
unfolding ack_row
ack_row-Names status attempts result now = record {
  id = λ r. refl;
  queue = λ r. refl;
  idempotency_key = λ r. refl;
}

pub kill_row-Names : (reason now : ℕ) → Names (kill_row reason now)
unfolding kill_row
kill_row-Names reason now = record {
  id = λ r. refl;
  queue = λ r. refl;
  idempotency_key = λ r. refl;
}

pub reenqueue_row-Names : Names reenqueue_row
unfolding reenqueue_row
reenqueue_row-Names = record { id = λ r. refl; queue = λ r. refl; idempotency_key = λ r. refl }

created_row-clash :
    (p : PushRow) (rows : List JobRow)
    → is_new p rows ≡ true
    → id_taken p.id rows ≡ false
    → All (λ r. clash r (created_row p) ≡ false) rows
unfolding is_new created_row
created_row-clash p [] n t = tt
created_row-clash p (r ∷ rows) n t =
    (ground arith, created_row-clash p rows (ground arith) (ground arith))

pub apply-IsUnique : (c : Command) (db : Db) → IsUnique db → IsUnique (apply c db)
unfolding apply
apply-IsUnique (fetch_next queue worker limit now) db h =
    update_where-IsUnique _ _ db.jobs (claim_row-Names worker now) h
apply-IsUnique (fetch_next_shared queues limit now) db h =
    update_where-IsUnique _ _ db.jobs (claim_row_shared-Names now) h
apply-IsUnique (lock_task id worker now) db h =
    update_where-IsUnique _ _ db.jobs (lock_row-Names worker now) h
apply-IsUnique (ack_task id worker status attempts result now) db h =
    update_where-IsUnique _ _ db.jobs (ack_row-Names status attempts result now) h
apply-IsUnique (kill_task id reason now) db h =
    update_where-IsUnique _ _ db.jobs (kill_row-Names reason now) h
apply-IsUnique (reenqueue queue dur now live) db h =
    update_where-IsUnique _ _ db.jobs reenqueue_row-Names h
apply-IsUnique (push_tasks exists rows) db h =
    push_rows_ind IsUnique exists db h
      (λ p before a n t. Apart-snoc clash before.jobs _ a (created_row-clash p before.jobs n t))
      rows db h
apply-IsUnique vacuum db h = Apart-filter clash _ db.jobs h

-- Whatever the clients interleave, the jobs keep distinct ids and, in each queue, distinct
-- idempotency keys: a duplicate is never inserted.
pub run-IsUnique : (cs : List Command) (db : Db) → IsUnique db → IsUnique (run cs db)
unfolding run
run-IsUnique [] db h = h
run-IsUnique (c ∷ cs) db h = run-IsUnique cs (apply c db) (apply-IsUnique c db h)
