-- ===== src/Push/Complete.antt =====
-- `push_tasks` of push_tasks.rs from the call to the table.
use apalis_surrealdb.Prelude.{
  ℕ, ◌<◌, ◌≡◌, refl, sym, subst, ap, Bool, true, false, ◌&&◌, ◌||◌, Option, none, some, List, [],
  ◌∷◌, ◌++◌, any, All, Bool-cases, inl, inr, arith, ◌==◌, any-append,
}
use apalis_surrealdb.Database.{same_id, same_id_iff, JobRow, Db, DbError}
use apalis_surrealdb.Session.{
  Result, ok, err, Server, World, commit, Response, Session, pure, with_retries,
}
use apalis_surrealdb.Session.Bind.{>>=-ok, >>=-err}
use apalis_surrealdb.Session.Retry.{with_retries-Committed, seen_at}
use apalis_surrealdb.Tasks.{Task}
use apalis_surrealdb.Fetch.{Config}
use apalis_surrealdb.Jobs.Push.{
  PushRow, push_rows, push_tasks_query, is_new, created_row, id_taken, has_key,
}
use apalis_surrealdb.Push.{Clock, rows_from, push_tasks}

abbrev pub key_clash : ℕ → Option ℕ → JobRow → Bool
key_clash queue none r = false
key_clash queue (some key) r = has_key queue key r

-- The job that the row was made into, or one of its queue with its idempotency key.
abbrev pub stands_for : PushRow → JobRow → Bool
stands_for p r = same_id r.id p.id && r.queue == p.queue || key_clash p.queue p.idempotency_key r

abbrev pub Stored : Db → PushRow → Type 0
Stored db p = any (stands_for p) db.jobs ≡ true

any_weaken :
    {A : Type 0} (p q : A → Bool) (xs : List A)
    → ((a : A) → p a ≡ true → q a ≡ true)
    → any p xs ≡ true
    → any q xs ≡ true
any_weaken p q [] f h = h
any_weaken p q (x ∷ xs) f h = elim (Bool-cases (p x)) [
  | inl e ↦ rw (f x e) refl
  | inr e ↦ let rest = any_weaken p q xs f (rw e at h) in ground arith
]

created_stands : (p : PushRow) → stands_for p (created_row p) ≡ true
unfolding created_row
created_stands p =
    let i : same_id p.id p.id ≡ true = (same_id_iff p.id p.id).1 refl in
    let q : (p.queue == p.queue) ≡ true = ground arith in rw (i, q) refl

skipped_stands : (p : PushRow) (db : Db) → is_new p db.jobs ≡ false → Stored db p
unfolding is_new
skipped_stands p db h = by_key p.idempotency_key refl
  where
    by_key : (k : Option ℕ) → p.idempotency_key ≡ k → Stored db p
    by_key none e = let g : true ≡ false = rw e at h in absurd (cc)
    by_key (some key) e =
        any_weaken (has_key p.queue key) (stands_for p) db.jobs (λ r g. rw e (ground (arith, g)))
          (let g = rw e at h in ground (arith, g))

Stored-later :
    (p : PushRow) (db : Db) (r : JobRow)
    → Stored db p
    → Stored (record db { jobs = db.jobs ++ r ∷ [] }) p
Stored-later p db r h = rw (any-append (stands_for p) db.jobs (r ∷ []), h) refl

-- Jobs are only added.
push_rows-keeps :
    (exists : DbError) (rows : List PushRow) (db db' : Db) (out : List JobRow) (p : PushRow)
    → push_rows exists rows db ≡ commit db' out
    → Stored db p
    → Stored db' p
unfolding push_rows
push_rows-keeps exists [] db db' out p h s = let e : db ≡ db' = cc in rw (← e) s
push_rows-keeps exists (q ∷ qs) db db' out p h s = elim (Bool-cases (is_new q db.jobs)) [
  | inr e ↦ push_rows-keeps exists qs db db' out p (rw e at h) s
  | inl e ↦ elim (Bool-cases (id_taken q.id db.jobs)) [
    | inl t ↦ let c = rw (e, t) at h in absurd (cc)
    | inr t ↦
        push_rows-keeps exists qs _ db' out p (rw (e, t) at h) (Stored-later p db (created_row q) s)
  ]
]

push_rows-Stored :
    (exists : DbError) (rows : List PushRow) (db db' : Db) (out : List JobRow)
    → push_rows exists rows db ≡ commit db' out
    → All (Stored db') rows
unfolding push_rows
push_rows-Stored exists [] db db' out h = tt
push_rows-Stored exists (q ∷ qs) db db' out h = elim (Bool-cases (is_new q db.jobs)) [
  | inr e ↦
      let h' = rw e at h in
      (
        push_rows-keeps exists qs db db' out q h' (skipped_stands q db e),
        push_rows-Stored exists qs db db' out h',
      )
  | inl e ↦ elim (Bool-cases (id_taken q.id db.jobs)) [
    | inl t ↦ let c = rw (e, t) at h in absurd (cc)
    | inr t ↦
        let h' = rw (e, t) at h in
        (
          push_rows-keeps exists qs _ db' out q h' (
              rw (any-append (stands_for q) db.jobs (created_row q ∷ []), created_stands q)
                (ground arith)),
          push_rows-Stored exists qs _ db' out h',
        )
  ]
]

module _ (server : Server) (clock : Clock) (config : Config) (tasks : List Task) (w : World) where
  -- A `push_tasks` that reports success has inserted the batch in one transaction, by one of at most
  -- five attempts, none before it having changed anything; after it each task of the batch stands
  -- in the table as its row, or as a job of its queue with its idempotency key.
  pub push_tasks_complete :
      (push_tasks server clock config tasks w).0 ≡ ok tt
      → let after = (push_tasks server clock config tasks w).1.db in
        (attempt : ℕ) × (out : List JobRow) × (attempt < 5)
        × (push_rows server.record_exists
              (rows_from clock config.queue 0 tasks)
              (seen_at server w.queries attempt w.db)
            ≡ commit after out)
        × All (Stored after) (rows_from clock config.queue 0 tasks)
  unfolding push_tasks
  push_tasks_complete h = settled (tries w) refl
    where
      rows : List PushRow
      rows = rows_from clock config.queue 0 tasks

      tries : Session (Response JobRow)
      tries = with_retries server (push_tasks_query server.record_exists rows)

      Goal : World → Type 0
      Goal w' =
          (attempt : ℕ) × (out : List JobRow) × (attempt < 5)
          × (push_rows server.record_exists rows (seen_at server w.queries attempt w.db)
              ≡ commit w'.db out)
          × All (Stored w'.db) rows

      settled :
          (r : Result (Response JobRow) × World)
          → tries w ≡ r
          → Goal (push_tasks server clock config tasks w).1
      settled (ok response, w') e =
          let done = >>=-ok tries (λ _. pure tt) w e in
          let c =
            with_retries-Committed server (push_tasks_query server.record_exists rows) w w' response
              e in
          let inserted : push_rows server.record_exists rows
                (seen_at server w.queries c.attempt w.db)
              ≡ commit w'.db response.rows =
            unfold push_tasks_query in c.applied in
          subst (λ o. Goal o.1) (sym done)
            (
              c.attempt,
              response.rows,
              c.within,
              inserted,
              push_rows-Stored server.record_exists rows _ w'.db response.rows inserted,
            )
      settled (err x, w') e =
          let failed = >>=-err tries (λ _. pure tt) w e in
          let same = ap (λ o. o.0) failed in absurd (cc)
