-- ===== src/Session/Retry.antt =====
-- The retry loop of push_tasks.rs, fetch_next.rs, fetch_next_shared.rs and kill_task.rs.
use native.Mathlib.Nat.{add-zero, add-suc, suc-add}
use apalis_surrealdb.Prelude.{
  ℕ, zero, suc, ◌+◌, ◌<◌, ◌≡◌, refl, ◌≢◌, Bool, Option, none, some, List, [], ◌∷◌, arith, ap, ◌∙◌,
  subst,
}
use apalis_surrealdb.Database.{Db, DbError, SurrealError, database}
use apalis_surrealdb.Tx.{max_tx_retries, TxOutcome, retry, fail, classify_tx_errors}
use apalis_surrealdb.Tx.Verdict.{classify_tx_errors-nil, classify_tx_errors-none}
use apalis_surrealdb.Session.{
  Result, ok, err, Reply, lost, answered, Server, World, Outcome, commit, abort, Response, Session,
  answer, transact, attempts, settle, with_retries,
}

-- The database that attempt `n + j` finds, where the attempts before it changed nothing.
unfoldable pub seen_at : Server → ℕ → ℕ → Db → Db
seen_at server n zero db = server.elsewhere n db
seen_at server n (suc j) db = seen_at server (suc n) j (server.elsewhere n db)

module _ {A : Type 0} where
  -- One query, split by what came back.
  pub data Answered (server : Server) (tx : ℕ → Db → Outcome A) (w : World)
      (r : Result (Response A)) (w' : World) : Type 0 where
    unreachable :
        (e : DbError)
        → (b : Bool) → server.reply w.queries ≡ lost b e
        → r ≡ err (database e)
        → Answered server tx w r w'
    committed :
        (rows : List A)
        → r ≡ ok (record { errors = []; rows = rows })
        → tx (server.clock w.queries) (server.elsewhere w.queries w.db) ≡ commit w'.db rows
        → Answered server tx w r w'
    refused :
        (x : ℕ × DbError) (xs : List (ℕ × DbError))
        → r ≡ ok (record { errors = x ∷ xs; rows = [] })
        → w'.db ≡ server.elsewhere w.queries w.db
        → Answered server tx w r w'

  pub transact-queries :
      (server : Server) (tx : ℕ → Db → Outcome A) (w : World)
      → (transact server tx w).1.queries ≡ suc w.queries
  unfolding transact
  transact-queries server tx w = refl

  -- An error-free reply applies the transaction that commits.
  pub transact-answered :
      (server : Server) (tx : ℕ → Db → Outcome A) (w : World) (after : Db) (rows : List A)
      → server.reply w.queries ≡ answered []
      → tx (server.clock w.queries) (server.elsewhere w.queries w.db) ≡ commit after rows
      → transact server tx w
        ≡ (ok (record { errors = []; rows = rows }), record { db = after; queries = suc w.queries })
  unfolding transact
  transact-answered server tx w after rows a c = rw (a, c, answer)

  pub transact-Answered :
      (server : Server) (tx : ℕ → Db → Outcome A) (w : World)
      → Answered server tx w (transact server tx w).0 (transact server tx w).1
  unfolding transact
  transact-Answered server tx w =
      go (server.reply w.queries) (tx (server.clock w.queries) before) refl refl
    where
      before : Db
      before = server.elsewhere w.queries w.db

      Goal : Reply → Outcome A → Type 0
      Goal p o =
          Answered server tx w (answer p o before).0
            (record { db = (answer p o before).1; queries = suc w.queries })

      go :
          (p : Reply) (o : Outcome A)
          → server.reply w.queries ≡ p
          → tx (server.clock w.queries) before ≡ o
          → Goal p o
      go (lost b e) (commit after rows) hp ho = unreachable e b hp refl
      go (lost b e) (abort slot d) hp ho = unreachable e b hp refl
      go (answered []) (commit after rows) hp ho = committed rows refl ho
      go (answered []) (abort slot d) hp ho = refused (slot, d) [] refl refl
      go (answered (x ∷ xs)) o hp ho = refused x xs refl refl

-- What became of one attempt: the loop ends without a result, ends with it, or goes on.
data Settled {A : Type 0} (r : Result (Response A)) (again : DbError → Session (Response A))
    (w : World) (out : Result (Response A) × World) : Type 0 where
  stopped : (e : SurrealError) → out ≡ (err e, w) → Settled r again w out
  finished :
      (response : Response A)
      → r ≡ ok response
      → response.errors ≡ []
      → out ≡ (ok response, w)
      → Settled r again w out
  retried :
      (response : Response A) (e : DbError)
      → r ≡ ok response
      → response.errors ≢ []
      → out ≡ again e w
      → Settled r again w out

settle-Settled :
    {A : Type 0} (r : Result (Response A)) (again : DbError → Session (Response A)) (w : World)
    → Settled r again w (settle r again w)
settle-Settled (err e) again w = stopped e refl
settle-Settled {A} (ok response) again w = go (classify_tx_errors response.errors) refl
  where
    next : Option TxOutcome → Result (Response A) × World
    next o = elim o [
      | some (retry e) ↦ again e w
      | some (fail e) ↦ (err (database e), w)
      | none ↦ (ok response, w)
    ]

    go :
        (o : Option TxOutcome)
        → classify_tx_errors response.errors ≡ o
        → Settled (ok response) again w (next o)
    go none h = finished response refl (classify_tx_errors-none response.errors h) refl
    go (some (retry e)) h =
        retried response e refl
          (λ nil. absurd (cc (classify_tx_errors-nil, ap classify_tx_errors nil))) refl
    go (some (fail e)) h = stopped (database e) refl

module _ {A : Type 0} (server : Server) (tx : ℕ → Db → Outcome A) where
  -- One attempt, the `attempt`-th from `w` on, was applied, and the ones before it were not.
  pub record Committed (left : ℕ) (w : World) (response : Response A) (w' : World) : Type 0 where
    pub attempt : ℕ
    pub within : attempt < left
    pub no_errors : response.errors ≡ []
    pub applied :
        tx (server.clock (w.queries + attempt)) (seen_at server w.queries attempt w.db)
        ≡ commit w'.db response.rows
    pub counted : w'.queries ≡ w.queries + attempt + 1

  Committed-later :
      (left : ℕ) (w w' : World) {response : Response A} {last : World}
      → w'.queries ≡ suc w.queries
      → w'.db ≡ server.elsewhere w.queries w.db
      → Committed left w' response last
      → Committed (suc left) w response last
  unfolding seen_at
  Committed-later left w w' q d c = record {
    attempt = suc c.attempt;
    within = omega arith;
    no_errors = c.no_errors;
    applied = rw (add-suc, ← suc-add, ← q, ← d) c.applied;
    counted = omega (arith, c.counted);
  }

  settle-Committed :
      (left : ℕ) (w w' : World) (r : Result (Response A)) (again : DbError → Session (Response A))
      (response : Response A) (out : Result (Response A) × World)
      → Answered server tx w r w'
      → w'.queries ≡ suc w.queries
      → ((e : DbError) → (again e w').0 ≡ ok response → Committed left w' response (again e w').1)
      → Settled r again w' out
      → out.0 ≡ ok response
      → Committed (suc left) w response out.1
  unfolding seen_at
  settle-Committed left w w' r again response out a q ih (stopped e o) h = absurd (cc)
  settle-Committed left w w' r again response out (committed rows rr t) q ih (finished p e n o) h =
      record {
        attempt = 0;
        within = omega arith;
        no_errors = ground arith;
        applied = rw add-zero (ground arith);
        counted = ground arith;
      }
  settle-Committed left w w' r again response out (unreachable d b x f) q ih (finished p e n o) h =
      absurd (cc)
  settle-Committed left w w' r again response out (refused x xs f d) q ih (finished p e n o) h =
      absurd (ground arith)
  settle-Committed left w w' r again response out (refused x xs rr d) q ih (retried p e _ n o) h =
      let later : (again e w').0 ≡ ok response = cc in
      rw o (Committed-later left w w' q d (ih e later))
  settle-Committed left w w' r again response out (unreachable d b x f) q ih (retried p e g n o) h =
      absurd (cc)
  settle-Committed left w w' r again response out (committed rows f t) q ih (retried p e g n o) h =
      absurd (ground arith)

  attempts-Committed :
      (left : ℕ) (conflict : Option DbError) (w : World) (response : Response A)
      → (attempts server tx left conflict w).0 ≡ ok response
      → Committed left w response (attempts server tx left conflict w).1
  unfolding attempts
  attempts-Committed zero conflict w response h = absurd (cc)
  attempts-Committed (suc left) conflict w response h =
      let (r, w') = transact server tx w in
      settle-Committed left w w' r (λ e. attempts server tx left (some e)) response _
        (transact-Answered server tx w) (transact-queries server tx w)
        (λ e. attempts-Committed left (some e) w' response) (settle-Settled r _ w') h

  pub with_retries-Committed :
      (w w' : World) (response : Response A)
      → with_retries server tx w ≡ (ok response, w')
      → Committed max_tx_retries w response w'
  unfolding with_retries
  with_retries-Committed w w' response e =
      subst (Committed max_tx_retries w response) (ap (λ o. o.1) e)
        (attempts-Committed max_tx_retries none w response (ap (λ o. o.0) e))

-- An error-free reply to the first attempt ends the loop.
pub with_retries-answered :
    {A : Type 0} (server : Server) (tx : ℕ → Db → Outcome A) (w : World) (after : Db)
    (rows : List A)
    → server.reply w.queries ≡ answered []
    → tx (server.clock w.queries) (server.elsewhere w.queries w.db) ≡ commit after rows
    → with_retries server tx w
      ≡ (ok (record { errors = []; rows = rows }), record { db = after; queries = suc w.queries })
unfolding with_retries attempts
with_retries-answered server tx w after rows a c =
    ap (λ o. settle o.0 (λ e. attempts server tx 4 (some e)) o.1)
      (transact-answered server tx w after rows a c)
    ∙ rw (settle, classify_tx_errors-nil) refl
