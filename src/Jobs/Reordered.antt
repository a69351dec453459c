-- ===== src/Jobs/Reordered.antt =====
-- The statements on `job` do not depend on the order of the table, which the database does not promise.
use mathlib.Core.List.{Permᴰ}
use apalis_surrealdb.Prelude.{
  ℕ, ◌≡◌, refl, sym, ap, ◌∙◌, subst, Bool, true, false, not, Option, none, some, List, [], ◌∷◌,
  ◌++◌, any, All-imp, Apart, Bool-cases, inl, inr, arith, any-perm, snoc-perm, map-perm,
  filter-perm, if◌then◌else◌,
}
use apalis_surrealdb.Database.{JobRow, Db, DbError, same_id}
use apalis_surrealdb.Jobs.{update_where}
use apalis_surrealdb.Jobs.Claim.{
  among, due_rows, is_due, claim_row, is_due_shared, claim_row_shared,
}
use apalis_surrealdb.Jobs.Claim.Reordered.{same_row, due_rows-perm}
use apalis_surrealdb.Jobs.Push.{PushRow, created_row, is_new, id_taken, has_key, push_rows}
use apalis_surrealdb.Jobs.Unique.{clash, IsUnique, apply-IsUnique}
use apalis_surrealdb.Jobs.Commands.{
  Command, fetch_next, fetch_next_shared, lock_task, ack_task, kill_task, reenqueue, push_tasks,
  vacuum, after, apply, run,
}

-- The tables differ in the order of the jobs, at most.
abbrev pub Reordered : Db → Db → Type 0
Reordered db db' = Permᴰ db.jobs db'.jobs

clash_ids : (rows : List JobRow) → Apart clash rows → Apart same_row rows
clash_ids [] h = tt
clash_ids (r ∷ rows) h = (
  All-imp (λ s. clash r s ≡ false) (λ s. same_row r s ≡ false) rows (λ s k. ground arith) h.0,
  clash_ids rows h.1,
)

is_new-perm : (p : PushRow) {xs ys : List JobRow} → Permᴰ xs ys → is_new p xs ≡ is_new p ys
unfolding is_new
is_new-perm p {xs = xs} {ys = ys} q = keyed p.idempotency_key
  where
    keyed :
        (o : Option ℕ)
        → (elim o [ none ↦ true | some key ↦ not (any (has_key p.queue key) xs) ])
          ≡ (elim o [ none ↦ true | some key ↦ not (any (has_key p.queue key) ys) ])
    keyed none = refl
    keyed (some key) = ap not (any-perm (has_key p.queue key) q)

push_rows-Reordered :
    (exists : DbError) (rows : List PushRow) (before before' db db' : Db)
    → Reordered before before'
    → Reordered db db'
    → Reordered
        (after before (push_rows exists rows db))
        (after before' (push_rows exists rows db'))
unfolding push_rows
push_rows-Reordered exists [] before before' db db' q p = p
push_rows-Reordered exists (x ∷ xs) before before' db db' q p =
    let skipped = push_rows-Reordered exists xs before before' db db' q p in
    let created =
      push_rows-Reordered exists xs before before'
        (record db { jobs = db.jobs ++ created_row x ∷ [] })
        (record db' { jobs = db'.jobs ++ created_row x ∷ [] }) q (snoc-perm (created_row x) p) in
    let n = is_new-perm x p in
    let t = any-perm (λ r. same_id r.id x.id) p in
    elim (Bool-cases (is_new x db.jobs)) [
      | inr k ↦ let k' = sym n ∙ k in rw (k, k') skipped
      | inl k ↦ elim (Bool-cases (id_taken x.id db.jobs)) [
        | inl u ↦ let k' = sym n ∙ k in let u' = sym t ∙ u in rw (k, k', u, u') q
        | inr u ↦ let k' = sym n ∙ k in let u' = sym t ∙ u in rw (k, k', u, u') created
      ]
    ]

claim-Reordered :
    (p : JobRow → Bool) (f : JobRow → JobRow) (limit : ℕ) (db db' : Db)
    → IsUnique db
    → Reordered db db'
    → Permᴰ
        (update_where (among (due_rows p limit db.jobs)) f db.jobs)
        (update_where (among (due_rows p limit db'.jobs)) f db'.jobs)
claim-Reordered p f limit db db' u q =
    let e = due_rows-perm p limit q (clash_ids db.jobs u) in
    subst
      (λ rows.
        Permᴰ (update_where (among (due_rows p limit db.jobs)) f db.jobs)
          (update_where (among rows) f db'.jobs))
      e (map-perm (λ r. if among (due_rows p limit db.jobs) r then f r else r) q)

apply-Reordered :
    (c : Command) (db db' : Db)
    → IsUnique db
    → Reordered db db'
    → Reordered (apply c db) (apply c db')
unfolding apply
apply-Reordered (fetch_next queue worker limit now) db db' u q =
    claim-Reordered (is_due queue now) (claim_row worker now) limit db db' u q
apply-Reordered (fetch_next_shared queues limit now) db db' u q =
    claim-Reordered (is_due_shared queues now) (claim_row_shared now) limit db db' u q
apply-Reordered (lock_task id worker now) db db' u q = map-perm _ q
apply-Reordered (ack_task id worker status attempts result now) db db' u q = map-perm _ q
apply-Reordered (kill_task id reason now) db db' u q = map-perm _ q
apply-Reordered (reenqueue queue dur now live) db db' u q = map-perm _ q
apply-Reordered (push_tasks exists rows) db db' u q =
    push_rows-Reordered exists rows db db' db db' q q
apply-Reordered vacuum db db' u q = filter-perm _ q

-- Whatever the clients interleave, from two tables that have the same jobs, with distinct ids and keys, in
-- another order: the tables have the same jobs at the end, and a claim for a queue, or for several, then
-- chooses the same jobs, in the same order.
pub run-Reordered :
    (cs : List Command) (db db' : Db) (queue limit now : ℕ) (queues : List ℕ)
    → IsUnique db
    → Reordered db db'
    → Reordered (run cs db) (run cs db')
      × (due_rows (is_due queue now) limit (run cs db).jobs
          ≡ due_rows (is_due queue now) limit (run cs db').jobs)
      × (due_rows (is_due_shared queues now) limit (run cs db).jobs
          ≡ due_rows (is_due_shared queues now) limit (run cs db').jobs)
unfolding run
run-Reordered [] db db' queue limit now queues u q =
    let d = clash_ids db.jobs u in
    (
      q,
      due_rows-perm (is_due queue now) limit q d,
      due_rows-perm (is_due_shared queues now) limit q d,
    )
run-Reordered (c ∷ cs) db db' queue limit now queues u q =
    run-Reordered cs (apply c db) (apply c db') queue limit now queues (apply-IsUnique c db u)
      (apply-Reordered c db db' u q)
