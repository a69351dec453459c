-- ===== src/Jobs/Once.antt =====
-- Two claims by fetch_next.surql or fetch_next_shared.surql, with a history between them.
use mathlib.Core.List.{Memᴰ}
use apalis_surrealdb.Prelude.{
  ℕ, ◌≡◌, refl, sym, ap, ◌∙◌, Bool, true, false, List, [], ◌∷◌, All, All-imp₂, All-map, All-mem,
  All-self, any_of_mem, mem_of_map, subst, arith, Bool-cases, inl, inr, map, if◌then◌else◌, Apart,
}
use apalis_surrealdb.Prelude.Int.{ℤ, pos}
use apalis_surrealdb.Database.{RecordIdKey, same_id, same_id_iff, JobRow, Db, DbError}
use apalis_surrealdb.Session.{Outcome, commit}
use apalis_surrealdb.Jobs.{update_where}
use apalis_surrealdb.Jobs.Claim.{
  among, due_rows, claim_rows, is_due, is_due_shared, claim_row, claim_row_shared, fetch_next_query,
  fetch_next_shared_query,
}
use apalis_surrealdb.Jobs.Claim.Due.{All-due_rows, due_rows-pass}
use apalis_surrealdb.Jobs.Unique.{clash, IsUnique, Names, claim_row-Names, claim_row_shared-Names}
use apalis_surrealdb.Jobs.Taken.{is_retry, retains, Taken, AllTaken, run-AllTaken}
use apalis_surrealdb.Jobs.Commands.{Command, run}

-- The two claims: by the worker of one queue, and by the shared driver.
pub data Claim : Type 0 where
  own : (queue worker : ℕ) → Claim
  shared : (queues : List ℕ) → Claim

abbrev pub claim_query : DbError → Claim → ℤ → ℕ → Db → Outcome JobRow
claim_query bad (own queue worker) limit now = fetch_next_query bad queue worker limit now
claim_query bad (shared queues) limit now = fetch_next_shared_query bad queues limit now

abbrev test : Claim → ℕ → JobRow → Bool
test (own queue worker) now = is_due queue now
test (shared queues) now = is_due_shared queues now

abbrev change : Claim → ℕ → JobRow → JobRow
change (own queue worker) now = claim_row worker now
change (shared queues) now = claim_row_shared now

claim_query-eq :
    (bad : DbError) (c : Claim) (limit now : ℕ) (db : Db)
    → claim_query bad c (pos limit) now db ≡ claim_rows (test c now) (change c now) limit db
unfolding fetch_next_query fetch_next_shared_query
claim_query-eq bad (own queue worker) limit now db = refl
claim_query-eq bad (shared queues) limit now db = refl

change-Names : (c : Claim) (now : ℕ) → Names (change c now)
change-Names (own queue worker) now = claim_row-Names worker now
change-Names (shared queues) now = claim_row_shared-Names now

change-retry : (c : Claim) (now : ℕ) (r : JobRow) → is_retry (change c now r).status ≡ false
unfolding claim_row claim_row_shared
change-retry (own queue worker) now r = refl
change-retry (shared queues) now r = refl

test-retry : (c : Claim) (now : ℕ) (r : JobRow) → test c now r ≡ true → is_retry r.status ≡ true
unfolding is_due is_due_shared
test-retry (own queue worker) now r h = ground arith
test-retry (shared queues) now r h = ground arith

-- With distinct ids, the id determines the row.
unique_row :
    (rows : List JobRow) {a b : JobRow}
    → Apart clash rows
    → Memᴰ a rows
    → Memᴰ b rows
    → same_id a.id b.id ≡ true
    → a ≡ b
unique_row [] u m n e = elim m [ ]
unique_row (x ∷ xs) u (Memᴰ.head p) (Memᴰ.head q) e = p ∙ sym q
unique_row (x ∷ xs) u (Memᴰ.head p) (Memᴰ.tail n) e =
    absurd (ground (arith, All-mem _ xs u.0 n, ap (λ (z : JobRow). z.id) p))
unique_row (x ∷ xs) {a} {b} u (Memᴰ.tail m) (Memᴰ.head q) e = absurd (
    ground (
      arith,
      All-mem _ xs u.0 m,
      ap (λ (z : JobRow). z.id) q,
      same_id_iff a.id b.id,
      same_id_iff x.id a.id,
    ))
unique_row (x ∷ xs) u (Memᴰ.tail m) (Memᴰ.tail n) e = unique_row xs u.1 m n e

module _ (c : Claim) (limit now : ℕ) (db : Db) (u : IsUnique db) where
  due : List JobRow
  due = due_rows (test c now) limit db.jobs

  -- A row with the id of a chosen row is that row, and is updated.
  claimed-Taken :
      (s x : JobRow)
      → Memᴰ s due
      → Memᴰ x db.jobs
      → same_id (if among due x then change c now x else x).id (change c now s).id ≡ true
      → Taken (change c now s).id (change c now s).queue (if among due x then change c now x else x)
  unfolding due
  claimed-Taken s x m n e =
      rw chosen (record {
        no_retry = change-retry c now x;
        in_queue = ap (λ z. (change c now z).queue) same;
      })
    where
      names : Names (change c now)
      names = change-Names c now

      listed : Memᴰ s db.jobs
      listed =
          All-mem _ due
            (All-due_rows (λ z. Memᴰ z db.jobs) (test c now) limit db.jobs (All-self db.jobs)) m

      ids : same_id x.id s.id ≡ true
      ids = elim (Bool-cases (among due x)) [
        | inl y ↦ rw (y, names.id x, names.id s) at e
        | inr y ↦ rw (y, names.id s) at e
      ]

      same : x ≡ s
      same = unique_row db.jobs u n listed ids

      chosen : among due x ≡ true
      chosen = any_of_mem _ due m ((same_id_iff s.id x.id).1 (sym ((same_id_iff x.id s.id).0 ids)))

  claim-AllTaken :
      (after : Db) (rows : List JobRow) (r : JobRow)
      → claim_rows (test c now) (change c now) limit db ≡ commit after rows
      → Memᴰ r rows
      → AllTaken r.id r.queue after
  unfolding claim_rows due
  claim-AllTaken after rows r h m =
      let chosen : map (change c now) due ≡ rows = cc in
      let state : record db { jobs = update_where (among due) (change c now) db.jobs } ≡ after =
        cc in
      let (s, sm, e) = mem_of_map (change c now) due (subst (Memᴰ r) (sym chosen) m) in
      subst (AllTaken r.id r.queue) state (
        subst
          (λ z.
            AllTaken z.id z.queue
              (record db { jobs = update_where (among due) (change c now) db.jobs }))
          (sym e)
          (All-map (λ x. Memᴰ x db.jobs) _ _ db.jobs (λ x n. claimed-Taken s x sm n)
            (All-self db.jobs)))

-- The rows of a later claim, if no row of that id is waiting or failed.
later-rows :
    (id : RecordIdKey) (queue : ℕ) (c : Claim) (limit now : ℕ) (db after : Db) (rows : List JobRow)
    → AllTaken id queue db
    → claim_rows (test c now) (change c now) limit db ≡ commit after rows
    → All (λ s. same_id s.id id ≡ false) rows
unfolding claim_rows
later-rows id queue c limit now db after rows t h =
    let chosen : map (change c now) due ≡ rows = cc in
    subst (All (λ s. same_id s.id id ≡ false)) chosen (
      All-map (λ s. same_id s.id id ≡ false) _ (change c now) due
        (λ s e. ap (λ i. same_id i id) ((change-Names c now).id s) ∙ e)
        (All-imp₂ _ _ _ due other (All-due_rows _ (test c now) limit db.jobs t)
          (due_rows-pass (test c now) limit db.jobs)))
  where
    due : List JobRow
    due = due_rows (test c now) limit db.jobs

    other :
        (s : JobRow)
        → (same_id s.id id ≡ true → Taken id queue s)
        → test c now s ≡ true
        → same_id s.id id ≡ false
    other s k p = elim (Bool-cases (same_id s.id id)) [
      | inr e ↦ e
      | inl e ↦ let free = (k e).no_retry in let waits = test-retry c now s p in absurd (cc)
    ]

-- A job returned by one claim is not among the rows of any later claim, by whichever worker or
-- shared driver, through any interleaving of commands in which the job is not acknowledged with a
-- status that asks for a retry, its queue is not swept for orphans, and its id is not pushed anew.
pub claimed_once :
    (bad : DbError) (first second : Claim) (limit more now later : ℕ) (db after last : Db)
    (rows again : List JobRow) (r : JobRow) (cs : List Command)
    → IsUnique db
    → claim_query bad first (pos limit) now db ≡ commit after rows
    → Memᴰ r rows
    → All (λ c. retains r.id r.queue c ≡ true) cs
    → claim_query bad second (pos more) later (run cs after) ≡ commit last again
    → All (λ s. same_id s.id r.id ≡ false) again
claimed_once bad first second limit more now later db after last rows again r cs u h m k g =
    later-rows r.id r.queue second more later (run cs after) last again
      (run-AllTaken r.id r.queue cs after k (
        claim-AllTaken first limit now db u after rows r
          (sym (claim_query-eq bad first limit now db) ∙ h) m))
      (sym (claim_query-eq bad second more later (run cs after)) ∙ g)
