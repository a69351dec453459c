-- ===== src/Jobs/Taken.antt =====
-- A job that a claim has taken, through the statements on `job`.
use apalis_surrealdb.Prelude.{
  ℕ, ◌≡◌, refl, sym, ap, ◌∙◌, Bool, true, false, ◌&&◌, ◌||◌, not, List, [], ◌∷◌, ◌++◌, All,
  All-append, All-filter, arith, ◌==◌, any, All_of_any-false,
}
use apalis_surrealdb.Database.{Status, RecordIdKey, same_id, same_id_iff, JobRow, Db}
use apalis_surrealdb.Jobs.Push.Rule.{push_rows_rule}
use apalis_surrealdb.Jobs.{update_where, is_pending, is_failed}
use apalis_surrealdb.Jobs.Update.{All-update_where}
use apalis_surrealdb.Jobs.Claim.{claim_row, claim_row_shared}
use apalis_surrealdb.Jobs.Work.{lock_row, ack_row, kill_row}
use apalis_surrealdb.Jobs.Orphans.{reenqueue_row}
use apalis_surrealdb.Jobs.Push.{PushRow, created_row}
use apalis_surrealdb.Jobs.Unique.{
  Names, claim_row-Names, claim_row_shared-Names, lock_row-Names, ack_row-Names, kill_row-Names,
  reenqueue_row-Names,
}
use apalis_surrealdb.Jobs.Commands.{
  Command, fetch_next, fetch_next_shared, lock_task, ack_task, kill_task, reenqueue, push_tasks,
  vacuum, apply, run,
}

abbrev pub is_retry : Status → Bool
is_retry s = is_pending s || is_failed s

-- The commands that do not hand the job back: no acknowledgement of it as failed, no re-enqueueing
-- of its queue, and no push of a new job under its id.
abbrev pub retains : RecordIdKey → ℕ → Command → Bool
retains id queue (ack_task i w status attempts result now) = not (same_id i id && is_retry status)
retains id queue (reenqueue q dur now live) = not (q == queue)
retains id queue (push_tasks exists rows) = not (any (λ (p : PushRow). same_id p.id id) rows)
retains id queue _ = true

module _ (id : RecordIdKey) (queue : ℕ) where
  -- Neither waiting nor failed.
  pub record Taken (r : JobRow) : Type 0 where
    pub no_retry : is_retry r.status ≡ false
    pub in_queue : r.queue ≡ queue

  abbrev pub AllTaken : Db → Type 0
  AllTaken db = All (λ r. same_id r.id id ≡ true → Taken r) db.jobs

  -- An UPDATE that leaves the status of the selected rows with this id away from the two.
  AllTaken-update :
      (p : JobRow → Bool) (f : JobRow → JobRow) (db : Db)
      → Names f
      → ((r : JobRow)
          → same_id r.id id ≡ true
          → Taken r
          → p r ≡ true
          → is_retry (f r).status ≡ false)
      → AllTaken db
      → AllTaken (record db { jobs = update_where p f db.jobs })
  AllTaken-update p f db k out h =
      All-update_where (λ r. same_id r.id id ≡ true → Taken r) p f db.jobs kept h
    where
      kept :
          (r : JobRow)
          → p r ≡ true
          → (same_id r.id id ≡ true → Taken r)
          → same_id (f r).id id ≡ true
          → Taken (f r)
      kept r pr t e =
          let old : same_id r.id id ≡ true = ap (λ i. same_id i id) (sym (k.id r)) ∙ e in
          record { no_retry = out r old (t old) pr; in_queue = k.queue r ∙ (t old).in_queue }

  AllTaken-push :
      (p : PushRow) (db : Db)
      → same_id p.id id ≡ false
      → AllTaken db
      → AllTaken (record db { jobs = db.jobs ++ created_row p ∷ [] })
  unfolding created_row
  AllTaken-push p db n h =
      All-append (λ r. same_id r.id id ≡ true → Taken r) db.jobs _ h ((λ e. absurd (cc)), tt)

  apply-AllTaken :
      (c : Command) (db : Db) → retains id queue c ≡ true → AllTaken db → AllTaken (apply c db)
  unfolding apply
  apply-AllTaken (fetch_next q w limit now) db ok h =
      AllTaken-update _ (claim_row w now) db (claim_row-Names w now)
        (λ r e t s. unfold claim_row in refl) h
  apply-AllTaken (fetch_next_shared qs limit now) db ok h =
      AllTaken-update _ (claim_row_shared now) db (claim_row_shared-Names now)
        (λ r e t s. unfold claim_row_shared in refl) h
  apply-AllTaken (lock_task i w now) db ok h =
      AllTaken-update _ (lock_row w now) db (lock_row-Names w now) (λ r e t s. refl) h
  apply-AllTaken (ack_task i w status attempts result now) db ok h =
      AllTaken-update _ (ack_row status attempts result now) db
        (ack_row-Names status attempts result now)
        (λ r e t s. ground (arith, same_id_iff r.id id, same_id_iff r.id i, same_id_iff i id)) h
  apply-AllTaken (kill_task i reason now) db ok h =
      AllTaken-update _ (kill_row reason now) db (kill_row-Names reason now) (λ r e t s. refl) h
  apply-AllTaken (reenqueue q dur now live) db ok h =
      AllTaken-update _ reenqueue_row db reenqueue_row-Names
        (λ r e t s. let other = t.in_queue in absurd (ground arith)) h
  apply-AllTaken (push_tasks exists rows) db ok h =
      push_rows_rule AllTaken (λ p. same_id p.id id ≡ false) exists db h
        (λ p before n k _ _. AllTaken-push p before n k) rows db
        (All_of_any-false _ rows (ground arith)) h
  apply-AllTaken vacuum db ok h = All-filter (λ r. same_id r.id id ≡ true → Taken r) _ db.jobs h

  pub run-AllTaken :
      (cs : List Command) (db : Db)
      → All (λ c. retains id queue c ≡ true) cs
      → AllTaken db
      → AllTaken (run cs db)
  unfolding run
  run-AllTaken [] db ok h = h
  run-AllTaken (c ∷ cs) db ok h = run-AllTaken cs (apply c db) ok.1 (apply-AllTaken c db ok.0 h)
