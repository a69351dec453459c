-- ===== src/Jobs/Claim/Best.antt =====
-- The claims of fetch_next.surql and fetch_next_shared.surql as a whole.
use mathlib.Core.List.{Memᴰ}
use apalis_surrealdb.Prelude.{
  ℕ, ◌≤◌, ◌<◌, ◌≡◌, refl, sym, ap, ◌∙◌, subst, ◌⊎◌, Bool, true, false, ◌&&◌, none, some, List, [],
  ◌∷◌, All, All-self, All-imp₂, any, map, length, is_none, ltb, ◌==◌, arith, Bool-cases, inl, inr,
}
use apalis_surrealdb.Prelude.Int.{pos, ltb_ℤ, ◌<ℤ◌, ◌≤ℤ◌}
use apalis_surrealdb.Database.{pending, queued, failed, JobRow, Db, DbError, id_leb}
use apalis_surrealdb.Session.{commit}
use apalis_surrealdb.Jobs.{update_where, is_claimable, is_pending, is_failed, has_attempts}
use apalis_surrealdb.Jobs.Rewrites.{
  Rewrites, update_where-Rewrites, pending-eq, failed-eq, is_none-eq, either,
}
use apalis_surrealdb.Jobs.Claim.{
  ahead, among, due_rows, claim_rows, is_due, is_due_shared, claim_row, claim_row_shared,
  fetch_next_query, fetch_next_shared_query,
}
use apalis_surrealdb.Jobs.Claim.Due.{All-due_rows, due_rows-pass}
use apalis_surrealdb.Jobs.Claim.Order.{due_rows-ahead, due_rows-full, length-due_rows}

-- A job that may be claimed, but for its queue: it waits and nobody holds it, or it failed and has attempts
-- left, and its time has come.
abbrev pub Ready : ℕ → JobRow → Type 0
Ready now r =
    (((r.status ≡ pending) × (r.lock_by ≡ none))
      ⊎ ((r.status ≡ failed) × (r.attempts <ℤ r.max_attempts)))
    × (r.run_at ≤ now)

-- The queue is one of these.
abbrev pub OneOf : List ℕ → ℕ → Type 0
OneOf queues q = Memᴰ q queues

-- `a` goes before `b`: by a higher priority, then by an earlier time, then by its id.
abbrev pub Before : JobRow → JobRow → Type 0
Before a b =
    (b.priority <ℤ a.priority)
    ⊎ ((a.priority ≤ℤ b.priority)
        × ((a.run_at < b.run_at) ⊎ ((a.run_at ≡ b.run_at) × (id_leb a.id b.id ≡ true))))

-- A claim of at most `limit` of the jobs that are `Due`, each of which becomes `new` of it.
pub record Claims (Due : JobRow → Type 0) (new : JobRow → JobRow) (limit : ℕ) (db after : Db)
    (rows : List JobRow) : Type 0 where
  pub chosen : List JobRow
  pub returned : rows ≡ map new chosen
  pub due : All (λ r. Memᴰ r db.jobs × Due r) chosen
  pub within : length chosen ≤ limit
  pub full : (b : JobRow) → Memᴰ b db.jobs → Due b → among chosen b ≡ false → length chosen ≡ limit
  pub urgent :
      (a b : JobRow) → Memᴰ a chosen → Memᴰ b db.jobs → Due b → among chosen b ≡ false → Before a b
  pub written : Rewrites (λ r. among chosen r ≡ true) new db.jobs after.jobs
  pub workers_kept : after.workers ≡ db.workers

ahead-Before : (a b : JobRow) → ahead a b ≡ true → Before a b
unfolding ahead
ahead-Before a b h = elim (Bool-cases (ltb_ℤ b.priority a.priority)) [
  | inl e ↦ inl (ground arith)
  | inr e ↦ inr (
    ground arith,
    elim (Bool-cases (ltb a.run_at b.run_at)) [
      | inl f ↦ inl (ground arith)
      | inr f ↦ inr (ground arith, ground arith)
    ],
  )
]

is_claimable-Ready : (now : ℕ) (r : JobRow) → is_claimable now r ≡ true → Ready now r
unfolding is_claimable
is_claimable-Ready now r h = (
  elim (either (is_pending r.status && is_none r.lock_by) (is_failed r.status && has_attempts r)
      (ground arith)) [
        | inl e ↦ inl (pending-eq r.status (ground arith), is_none-eq r.lock_by (ground arith))
        | inr e ↦ inr (failed-eq r.status (ground arith), ground arith)
      ],
  ground arith,
)

Ready-is_claimable : (now : ℕ) (r : JobRow) → Ready now r → is_claimable now r ≡ true
unfolding is_claimable
Ready-is_claimable now r (inl (e, f), t) =
    let p : is_pending r.status ≡ true = ap is_pending e in
    let n : is_none r.lock_by ≡ true = ap is_none f in ground arith
Ready-is_claimable now r (inr (e, f), t) =
    let p : is_failed r.status ≡ true = ap is_failed e in
    let n : has_attempts r ≡ true = ground arith in ground arith

any-OneOf : (q : ℕ) (queues : List ℕ) → any (λ x. q == x) queues ≡ true → OneOf queues q
any-OneOf q [] h = absurd (cc)
any-OneOf q (x ∷ xs) h = elim (Bool-cases (q == x)) [
  | inl e ↦ Memᴰ.head (ground arith)
  | inr e ↦ let h' = rw e at h in Memᴰ.tail (any-OneOf q xs h')
]

OneOf-any : (q : ℕ) (queues : List ℕ) → OneOf queues q → any (λ x. q == x) queues ≡ true
OneOf-any q [] m = elim m [ ]
OneOf-any q (x ∷ xs) (Memᴰ.head e) = let k : (q == x) ≡ true = ground arith in rw k refl
OneOf-any q (x ∷ xs) (Memᴰ.tail m) = let k = OneOf-any q xs m in ground arith

map_same :
    (f g : JobRow → JobRow) → ((r : JobRow) → f r ≡ g r) → (rs : List JobRow) → map f rs ≡ map g rs
map_same f g h [] = refl
map_same f g h (r ∷ rs) = rw (h r, map_same f g h rs) refl

claim_rows-Claims :
    (p : JobRow → Bool) (f : JobRow → JobRow) (Due : JobRow → Type 0) (new : JobRow → JobRow)
    → ((r : JobRow) → p r ≡ true → Due r)
    → ((r : JobRow) → Due r → p r ≡ true)
    → ((r : JobRow) → f r ≡ new r)
    → (limit : ℕ) (db after : Db) (rows : List JobRow) → claim_rows p f limit db ≡ commit after rows
    → Claims Due new limit db after rows
unfolding claim_rows
claim_rows-Claims p f Due new to from same limit db after rows h =
    let chosen = due_rows p limit db.jobs in
    let jobs : update_where (among chosen) f db.jobs ≡ after.jobs = cc in
    let out : map f chosen ≡ rows = cc in
    record {
      chosen = chosen;
      returned = sym out ∙ map_same f new same chosen;
      due =
          All-imp₂ _ _ _ _ (λ r m e. (m, to r e))
            (All-due_rows (λ r. Memᴰ r db.jobs) p limit db.jobs (All-self db.jobs))
            (due_rows-pass p limit db.jobs);
      within = let k = length-due_rows p limit db.jobs in omega arith;
      full = λ b m d o. due_rows-full p limit db.jobs b m (from b d) o;
      urgent =
          λ a b m k d o. ahead-Before a b (due_rows-ahead p limit db.jobs a b m k (from b d) o);
      written = subst (Rewrites (λ r. among chosen r ≡ true) new db.jobs) jobs (
          update_where-Rewrites (λ r. among chosen r ≡ true) new (among chosen) f (λ r e. e)
            (λ r e. e) same db.jobs);
      workers_kept = cc;
    }

-- `fetch_next.surql` that commits takes only jobs of its queue that wait with no holder, or that failed and
-- have attempts left, and whose time has come; at most as many as the limit. If such a job is left out, then
-- it takes as many as the limit, and each of them goes before that job by a higher priority, then an earlier
-- time, then its id. It hands the jobs out, and leaves them in the table, as queued, locked by the worker
-- and stamped with the time; no other field or row changes.
pub fetch_next_query-Claims :
    (bad : DbError) (queue worker limit now : ℕ) (db after : Db) (rows : List JobRow)
    → fetch_next_query bad queue worker (pos limit) now db ≡ commit after rows
    → Claims
        (λ r. (r.queue ≡ queue) × Ready now r)
        (λ r. record r { status = queued; lock_by = some worker; lock_at = some now })
        limit
        db
        after
        rows
unfolding fetch_next_query is_due claim_row
fetch_next_query-Claims bad queue worker limit now db after rows h =
    claim_rows-Claims (is_due queue now) (claim_row worker now)
      (λ r. (r.queue ≡ queue) × Ready now r)
      (λ r. record r { status = queued; lock_by = some worker; lock_at = some now })
      (λ r e. (ground arith, is_claimable-Ready now r (ground arith)))
      (λ r (q, d). let k = Ready-is_claimable now r d in ground arith) (λ r. refl) limit db after
      rows h

-- The shared claim that commits does the same for a list of queues, but that it leaves the holder of each
-- job as it is: it takes only jobs of these queues that wait with no holder, or that failed and have attempts
-- left, and whose time has come, at most as many as the limit; if such a job is left out, it takes as many as
-- the limit, and each goes before that job by a higher priority, then an earlier time, then its id. It hands
-- the jobs out, and leaves them in the table, as queued and stamped with the time; no other field or row
-- changes.
pub fetch_next_shared_query-Claims :
    (bad : DbError) (queues : List ℕ) (limit now : ℕ) (db after : Db) (rows : List JobRow)
    → fetch_next_shared_query bad queues (pos limit) now db ≡ commit after rows
    → Claims
        (λ r. OneOf queues r.queue × Ready now r)
        (λ r. record r { status = queued; lock_at = some now })
        limit
        db
        after
        rows
unfolding fetch_next_shared_query is_due_shared claim_row_shared
fetch_next_shared_query-Claims bad queues limit now db after rows h =
    claim_rows-Claims (is_due_shared queues now) (claim_row_shared now)
      (λ r. OneOf queues r.queue × Ready now r)
      (λ r. record r { status = queued; lock_at = some now })
      (λ r e. (any-OneOf r.queue queues (ground arith), is_claimable-Ready now r (ground arith)))
      (λ r (q, d).
        let k = Ready-is_claimable now r d in let m = OneOf-any r.queue queues q in ground arith)
      (λ r. refl) limit db after rows h
