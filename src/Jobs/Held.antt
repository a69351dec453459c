-- ===== src/Jobs/Held.antt =====
-- A job that a worker has locked, through the statements on `job`.
use apalis_surrealdb.Prelude.{
  ℕ, ◌≡◌, sym, ap, ◌∙◌, Bool, true, false, ◌&&◌, ◌||◌, not, some, List, [], ◌∷◌, ◌++◌, All,
  All-append, All-filter, All-imp, All-imp₂, arith, ◌==◌, Bool-cases, inl, inr, any, any-map,
  any-filter, any-append, any-false, if◌then◌else◌,
}
use apalis_surrealdb.Database.{running, RecordIdKey, same_id, same_id_iff, JobRow, Db}
use apalis_surrealdb.Jobs.{update_where}
use apalis_surrealdb.Jobs.Claim.{
  among, due_rows, is_due, is_due_shared, claim_row, claim_row_shared,
}
use apalis_surrealdb.Jobs.Claim.Due.{All-due_rows, due_rows-pass}
use apalis_surrealdb.Jobs.Work.{lock_row, ack_row, kill_row}
use apalis_surrealdb.Jobs.Orphans.{reenqueue_row}
use apalis_surrealdb.Jobs.Finished.{is_purged}
use apalis_surrealdb.Jobs.Push.{PushRow, created_row, id_taken}
use apalis_surrealdb.Jobs.Push.Rule.{push_rows_ind}
use apalis_surrealdb.Jobs.Unique.{
  Names, claim_row-Names, claim_row_shared-Names, lock_row-Names, ack_row-Names, kill_row-Names,
  reenqueue_row-Names, Names-if,
}
use apalis_surrealdb.Jobs.Commands.{
  Command, fetch_next, fetch_next_shared, lock_task, ack_task, kill_task, reenqueue, push_tasks,
  vacuum, apply, run,
}

-- The commands that may not take the job from its worker: no acknowledgement by that worker, no
-- kill, and no re-enqueueing of its queue that did not see the worker among the live ones.
abbrev pub keeps : RecordIdKey → ℕ → ℕ → Command → Bool
keeps id queue worker (ack_task i w status attempts result now) = not (same_id i id && w == worker)
keeps id queue worker (kill_task i reason now) = not (same_id i id)
keeps id queue worker (reenqueue q dur now live) = not (q == queue) || any (λ v. v == worker) live
keeps id queue worker _ = true

module _ (id : RecordIdKey) (queue worker : ℕ) where
  pub record Holds (r : JobRow) : Type 0 where
    pub is_running : r.status ≡ running
    pub by_worker : r.lock_by ≡ some worker
    pub in_queue : r.queue ≡ queue

  pub record IsHeld (db : Db) : Type 0 where
    pub present : id_taken id db.jobs ≡ true
    pub each : All (λ r. same_id r.id id ≡ true → Holds r) db.jobs

  -- An UPDATE that selects no held row of that id.
  update_where-IsHeld :
      (p : JobRow → Bool) (f : JobRow → JobRow) (rows : List JobRow)
      → Names f
      → ((r : JobRow) → same_id r.id id ≡ true → Holds r → p r ≡ false)
      → All (λ r. same_id r.id id ≡ true → Holds r) rows
      → All (λ r. same_id r.id id ≡ true → Holds r) (update_where p f rows)
  update_where-IsHeld p f [] k out h = tt
  update_where-IsHeld p f (r ∷ rows) k out h = (kept, update_where-IsHeld p f rows k out h.1)
    where
      kept : same_id (if p r then f r else r).id id ≡ true → Holds (if p r then f r else r)
      kept e =
          let old : same_id r.id id ≡ true =
            ap (λ i. same_id i id) (sym ((Names-if p f k).id r)) ∙ e in
          rw (out r old (h.0 old)) (h.0 old)

  IsHeld-update :
      (p : JobRow → Bool) (f : JobRow → JobRow) (db : Db)
      → Names f
      → ((r : JobRow) → same_id r.id id ≡ true → Holds r → p r ≡ false)
      → IsHeld db
      → IsHeld (record db { jobs = update_where p f db.jobs })
  IsHeld-update p f db k out h = record {
    present =
        any-map (λ r. same_id r.id id) _ db.jobs
          (λ r. ap (λ i. same_id i id) ((Names-if p f k).id r))
        ∙ h.present;
    each = update_where-IsHeld p f db.jobs k out h.each;
  }

  -- A claim does not choose a held row, since the rows that it chooses are waiting or failed.
  among-held :
      (p : JobRow → Bool) (limit : ℕ) (db : Db)
      → ((r : JobRow) → Holds r → p r ≡ false)
      → IsHeld db
      → (r : JobRow) → same_id r.id id ≡ true
      → Holds r
      → among (due_rows p limit db.jobs) r ≡ false
  among-held p limit db out h r e k = any-false _ due (All-imp₂ _ _ _ due other held pass)
    where
      due : List JobRow
      due = due_rows p limit db.jobs

      held : All (λ s. same_id s.id id ≡ true → Holds s) due
      held = All-due_rows (λ s. same_id s.id id ≡ true → Holds s) p limit db.jobs h.each

      pass : All (λ s. p s ≡ true) due
      pass = due_rows-pass p limit db.jobs

      other :
          (s : JobRow) → (same_id s.id id ≡ true → Holds s) → p s ≡ true → same_id s.id r.id ≡ false
      other s hs ps = elim (Bool-cases (same_id s.id r.id)) [
        | inr ne ↦ ne
        | inl eq ↦
            let same : same_id s.id id ≡ true =
              (same_id_iff s.id id).1 ((same_id_iff s.id r.id).0 eq ∙ (same_id_iff r.id id).0 e) in
            absurd (cc (out s (hs same)))
      ]

  created_row-Holds :
      (p : PushRow) (rows : List JobRow)
      → id_taken id rows ≡ true
      → id_taken p.id rows ≡ false
      → same_id p.id id ≡ true
      → Holds (created_row p)
  created_row-Holds p rows taken free e =
      absurd (cc (ap (λ i. id_taken i rows) ((same_id_iff p.id id).0 e)))

  IsHeld-push :
      (p : PushRow) (db : Db)
      → IsHeld db
      → id_taken p.id db.jobs ≡ false
      → IsHeld (record db { jobs = db.jobs ++ created_row p ∷ [] })
  IsHeld-push p db h free = record {
    present = rw (any-append, h.present);
    each =
        All-append (λ r. same_id r.id id ≡ true → Holds r) db.jobs (created_row p ∷ []) h.each
          (unfold created_row in created_row-Holds p db.jobs h.present free, tt);
  }

  IsHeld-vacuum : (db : Db) → IsHeld db → IsHeld (apply vacuum db)
  unfolding apply
  IsHeld-vacuum db h = record {
    present =
        any-filter (λ r. same_id r.id id) (λ r. not (is_purged r)) db.jobs h.present
          (All-imp _ _ db.jobs (λ r held e. unpurged r (held e)) h.each);
    each = All-filter (λ r. same_id r.id id ≡ true → Holds r) _ db.jobs h.each;
  }
    where
      unpurged : (r : JobRow) → Holds r → not (is_purged r) ≡ true
      unpurged r k = ground arith

  Holds-is_due : (q now : ℕ) (r : JobRow) → Holds r → is_due q now r ≡ false
  unfolding is_due
  Holds-is_due q now r k = ground arith

  Holds-is_due_shared :
      (qs : List ℕ) (now : ℕ) (r : JobRow) → Holds r → is_due_shared qs now r ≡ false
  unfolding is_due_shared
  Holds-is_due_shared qs now r k = ground arith

  apply-IsHeld :
      (c : Command) (db : Db) → keeps id queue worker c ≡ true → IsHeld db → IsHeld (apply c db)
  unfolding apply
  apply-IsHeld (fetch_next q w limit now) db ok h =
      IsHeld-update _ (claim_row w now) db (claim_row-Names w now)
        (among-held (is_due q now) limit db (Holds-is_due q now) h) h
  apply-IsHeld (fetch_next_shared qs limit now) db ok h =
      IsHeld-update _ (claim_row_shared now) db (claim_row_shared-Names now)
        (among-held (is_due_shared qs now) limit db (Holds-is_due_shared qs now) h) h
  apply-IsHeld (lock_task i w now) db ok h =
      IsHeld-update _ (lock_row w now) db (lock_row-Names w now) (λ r e k. ground arith) h
  apply-IsHeld (ack_task i w status attempts result now) db ok h =
      IsHeld-update _ (ack_row status attempts result now) db
        (ack_row-Names status attempts result now)
        (λ r e k. ground (arith, same_id_iff r.id id, same_id_iff r.id i, same_id_iff i id)) h
  apply-IsHeld (kill_task i reason now) db ok h =
      IsHeld-update _ (kill_row reason now) db (kill_row-Names reason now)
        (λ r e k. ground (arith, same_id_iff r.id id, same_id_iff r.id i, same_id_iff i id)) h
  apply-IsHeld (reenqueue q dur now live) db ok h =
      IsHeld-update _ reenqueue_row db reenqueue_row-Names (λ r e k. ground arith) h
  apply-IsHeld (push_tasks exists rows) db ok h =
      push_rows_ind IsHeld exists db h (λ p before k n t. IsHeld-push p before k t) rows db h
  apply-IsHeld vacuum db ok h = IsHeld-vacuum db h

  pub run-IsHeld :
      (cs : List Command) (db : Db)
      → All (λ c. keeps id queue worker c ≡ true) cs
      → IsHeld db
      → IsHeld (run cs db)
  unfolding run
  run-IsHeld [] db ok h = h
  run-IsHeld (c ∷ cs) db ok h = run-IsHeld cs (apply c db) ok.1 (apply-IsHeld c db ok.0 h)
