-- ===== src/Jobs/Lifecycle/Histories.antt =====
-- The histories of Jobs/Commands against the machine of Jobs/Lifecycle.
use apalis_surrealdb.Prelude.{
  ℕ, ◌≡◌, refl, sym, ap, Bool, true, false, ◌||◌, List, [], ◌∷◌, All, All-imp, All-imp₂, arith,
  Bool-cases, inl, inr, Apart, any, any-false, Option, none, some, is_some, is_none, not, ◌&&◌,
}
use apalis_surrealdb.Database.{JobRow, Db, same_id, same_id_iff}
use apalis_surrealdb.Jobs.{is_pending, is_queued, is_running, is_failed, is_claimable}
use apalis_surrealdb.Jobs.Unique.{
  clash, IsUnique, apply-IsUnique, claim_row-Names, claim_row_shared-Names, lock_row-Names,
  ack_row-Names, kill_row-Names, reenqueue_row-Names,
}
use apalis_surrealdb.Jobs.Sound.{IsSound, AllSound, apply-AllSound}
use apalis_surrealdb.Jobs.Claim.{
  among, due_rows, is_due, is_due_shared, claim_row, claim_row_shared,
}
use apalis_surrealdb.Jobs.Claim.Due.{All-due_rows, due_rows-pass}
use apalis_surrealdb.Jobs.Work.{can_lock, lock_row, can_ack, ack_row, kill_row}
use apalis_surrealdb.Jobs.Orphans.{inside, is_orphan, reenqueue_row}
use apalis_surrealdb.Jobs.Finished.{is_purged}
use apalis_surrealdb.Jobs.Push.{PushRow, created_row}
use apalis_surrealdb.Jobs.Push.Rule.{push_rows_rule, asked_all}
use apalis_surrealdb.Jobs.Commands.{
  Command, fetch_next, fetch_next_shared, lock_task, ack_task, kill_task, reenqueue, push_tasks,
  vacuum, apply, run, Allowed,
}
use apalis_surrealdb.Jobs.Lifecycle.{Move, kill, stay, pushed, Evolves, phase}
use apalis_surrealdb.Jobs.Lifecycle.Composed.{Evolves-idle, Evolves-trans}
use apalis_surrealdb.Jobs.Lifecycle.Statements.{
  claim_step, share_step, lock_step, ack_step, sweep_step, leave_step, update_where-Evolves,
  filter-Evolves, snoc-Evolves,
}

-- Rows with the id of `r` are `r`.
abbrev Only : List JobRow → JobRow → Type 0
Only rows r = All (λ s. same_id s.id r.id ≡ true → s ≡ r) rows

unique-Only : (rows : List JobRow) → Apart clash rows → All (Only rows) rows
unique-Only [] a = tt
unique-Only (r ∷ rows) a = (
  (
    λ e. refl,
    All-imp _ _ rows
        (λ s c e.
          absurd (cc (apart s c, (same_id_iff r.id s.id).1 (sym ((same_id_iff s.id r.id).0 e)))))
        a.0,
  ),
  All-imp₂ _ _ _ rows (λ s c o. (λ e. absurd (cc (apart s c, e)), o)) a.0 (unique-Only rows a.1),
)
  where
    apart : (s : JobRow) → clash r s ≡ false → same_id r.id s.id ≡ false
    apart s c = ground arith

-- In such a table a row that a claim's UPDATE selects is one of the due rows.
among-due :
    (p : JobRow → Bool) (limit : ℕ) (rows : List JobRow) (r : JobRow)
    → Only rows r
    → among (due_rows p limit rows) r ≡ true
    → p r ≡ true
among-due p limit rows r o h = elim (Bool-cases (p r)) [
  | inl e ↦ e
  | inr e ↦ absurd (
      cc (
        h,
        any-false (λ s. same_id s.id r.id) (due_rows p limit rows)
            (All-imp₂ _ _ _ _ (other e)
              (All-due_rows (λ s. same_id s.id r.id ≡ true → s ≡ r) p limit rows o)
              (due_rows-pass p limit rows)),
      ))
]
  where
    other :
        p r ≡ false
        → (s : JobRow) → (same_id s.id r.id ≡ true → s ≡ r)
        → p s ≡ true
        → same_id s.id r.id ≡ false
    other e s same ps = elim (Bool-cases (same_id s.id r.id)) [
      | inr ne ↦ ne
      | inl eq ↦ absurd (cc (ap p (same eq)))
    ]

claimable :
    (now : ℕ) (r : JobRow)
    → is_claimable now r ≡ true
    → (is_pending r.status || is_failed r.status) ≡ true
unfolding is_claimable
claimable now r h = ground arith

due :
    (queue now : ℕ) (r : JobRow)
    → is_due queue now r ≡ true
    → (is_pending r.status || is_failed r.status) ≡ true
unfolding is_due
due queue now r h = claimable now r (ground arith)

due_shared :
    (queues : List ℕ) (now : ℕ) (r : JobRow)
    → is_due_shared queues now r ≡ true
    → (is_pending r.status || is_failed r.status) ≡ true
unfolding is_due_shared
due_shared queues now r h = claimable now r (ground arith)

-- The holder of an orphan is not live.
gone :
    (h : Option ℕ) (live : List ℕ) (x y : Bool)
    → (x && is_some h && not (inside h live) || y && is_none h) ≡ true
    → inside h live ≡ false
gone none live x y e = refl
gone (some w) live x y e = ground arith

module _ (db : Db) (sound : AllSound db) (unique : IsUnique db) where
  -- The rows that a claim selects, which were waiting or had failed.
  claimed_rows :
      (c : Command) (p : JobRow → Bool) (f : JobRow → JobRow) (limit : ℕ)
      → ((r : JobRow) → p r ≡ true → (is_pending r.status || is_failed r.status) ≡ true)
      → ((r : JobRow)
          → IsSound r
          → (is_pending r.status || is_failed r.status) ≡ true
          → Move r.id c (phase r) (phase (f r)))
      → All
          (λ r. among (due_rows p limit db.jobs) r ≡ true → Move r.id c (phase r) (phase (f r)))
          db.jobs
  claimed_rows c p f limit pick step =
      All-imp₂ _ _ _ db.jobs (λ r s o e. step r s (pick r (among-due p limit db.jobs r o e))) sound
        (unique-Only db.jobs unique)

  -- The rows that another statement selects.
  selected_rows :
      (c : Command) (p : JobRow → Bool) (f : JobRow → JobRow)
      → ((r : JobRow) → IsSound r → p r ≡ true → Move r.id c (phase r) (phase (f r)))
      → All (λ r. p r ≡ true → Move r.id c (phase r) (phase (f r))) db.jobs
  selected_rows c p f step = All-imp _ _ db.jobs step sound

  apply-Evolves : (c : Command) → Allowed c → Evolves (c ∷ []) db.jobs (apply c db).jobs
  unfolding apply
  apply-Evolves (fetch_next queue worker limit now) a =
      let c = fetch_next queue worker limit now in
      update_where-Evolves c _ (claim_row worker now) db.jobs (claim_row-Names worker now).id (
        claimed_rows c (is_due queue now) (claim_row worker now) limit (due queue now) (λ r s e.
          unfold claim_row in claim_step r.id queue worker limit now r.status r.lock_by e))
  apply-Evolves (fetch_next_shared queues limit now) a =
      let c = fetch_next_shared queues limit now in
      update_where-Evolves c _ (claim_row_shared now) db.jobs (claim_row_shared-Names now).id (
        claimed_rows c (is_due_shared queues now) (claim_row_shared now) limit
          (due_shared queues now)
          (λ r s e.
            unfold claim_row_shared in
            share_step r.id queues limit now r.status r.lock_by e (λ k. (s.pending_free k).0)))
  apply-Evolves (lock_task id worker now) a =
      let c = lock_task id worker now in
      update_where-Evolves c _ (lock_row worker now) db.jobs (lock_row-Names worker now).id (
        selected_rows c _ (lock_row worker now) (λ r s e.
          unfold lock_row can_lock in
          lock_step r.id id worker now r.status r.lock_by (ground arith) (ground arith)
            (λ k. (s.failed_stamped k).1)))
  apply-Evolves (ack_task id worker status attempts result now) a =
      let c = ack_task id worker status attempts result now in
      update_where-Evolves c _ (ack_row status attempts result now) db.jobs
        (ack_row-Names status attempts result now).id
        (selected_rows c _ (ack_row status attempts result now) (λ r s e.
          unfold ack_row can_ack in
          ack_step r.id id worker attempts result now (ground arith) r.status status r.lock_by a
            (ground arith) (λ k. (s.pending_free k).0)))
  apply-Evolves (kill_task id reason now) a =
      let c = kill_task id reason now in
      update_where-Evolves c _ (kill_row reason now) db.jobs (kill_row-Names reason now).id (
        selected_rows c (λ r. same_id r.id id && true) (kill_row reason now)
          (λ r s e. unfold kill_row in kill id reason now (ground arith)))
  apply-Evolves (reenqueue queue dur now live) a =
      let c = reenqueue queue dur now live in
      update_where-Evolves c _ reenqueue_row db.jobs reenqueue_row-Names.id (
        selected_rows c _ reenqueue_row (λ r s e.
          unfold reenqueue_row is_orphan in
          sweep_step r.id queue dur now live r.status r.lock_by (ground arith)
            (gone r.lock_by live (is_queued r.status || is_running r.status) (is_queued r.status)
              (ground arith))
            s.running_held))
  apply-Evolves (push_tasks exists rows) a =
      let c = push_tasks exists rows in
      push_rows_rule (λ after. Evolves (c ∷ []) db.jobs after.jobs)
        (λ p. any (λ (x : PushRow). same_id x.id p.id) rows ≡ true) exists db
        (Evolves-idle (c ∷ []) db.jobs)
        (λ p before asked g n t.
          snoc-Evolves (c ∷ []) db.jobs before.jobs (created_row p)
            (unfold created_row in pushed exists rows asked stay) g)
        rows db (asked_all rows) (Evolves-idle (c ∷ []) db.jobs)
  apply-Evolves vacuum a =
      filter-Evolves _ db.jobs
        (λ r e. unfold is_purged in leave_step r.status r.lock_by (ground arith))

-- The statements implement the machine: after any interleaving of the commands, with outcomes as
-- `calculate_status` gives them, from a table of sound jobs with distinct ids and keys, each job
-- that is still there has come from its phase to its new one by steps that the commands of the
-- history make with it, in their order, at most one each: a claim by a worker, a lock by the worker
-- that holds it or by any if it is free, an acknowledgement by its holder, a kill of its id, or a
-- sweep whose live workers do not include its holder. Each that is gone was deleted by a vacuum of
-- the history, which found it failed or over after such steps, and each new one was pushed under its
-- id by a push of the history, and went through such steps from waiting. Ids are kept, and so is the
-- order.
pub run-Evolves :
    (cs : List Command) (db : Db)
    → All Allowed cs
    → AllSound db
    → IsUnique db
    → Evolves cs db.jobs (run cs db).jobs
unfolding run
run-Evolves [] db a s u = Evolves-idle [] db.jobs
run-Evolves (c ∷ cs) db a s u =
    Evolves-trans cs (apply-Evolves db s u c a.0)
      (run-Evolves cs (apply c db) a.1 (apply-AllSound c db a.0 s) (apply-IsUnique c db u))
