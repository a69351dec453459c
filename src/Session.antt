-- ===== src/Session.antt =====
-- A client's view of the database: queries are numbered, each is answered by the server, which is
-- a parameter, and other clients commit their own transactions between two of them.
--
-- A transaction, or a single statement, is a function of `time::now()` and the database that
-- commits a new database and a list of rows, or aborts with an error at one statement.
pub mod Bind
pub mod Retry
use apalis_surrealdb.Prelude.{
  ℕ, zero, suc, ◌+◌, ◌≡◌, Bool, true, false, Option, none, some, List, [], ◌∷◌, if◌then◌else◌, ◌==◌,
}
use apalis_surrealdb.Database.{
  Db, DbError, QueryError, transaction_conflict, SurrealError, database,
}
use apalis_surrealdb.Tx.{TxOutcome, retry, fail, classify_tx_errors, max_tx_retries}

pub data Result (A : Type 0) : Type 0 where
  ok : A → Result A
  err : SurrealError → Result A

-- How the server answers a query. `lost`: `query(…).await` fails, and the flag says whether the
-- statements were applied before the connection broke. `answered`: the error of each failed
-- statement, by its slot; a transaction is applied exactly if there is none.
pub data Reply : Type 0 where
  lost : Bool → DbError → Reply
  answered : List (ℕ × DbError) → Reply

-- The server and the other clients: the reply to the n-th query, what others commit just before
-- it, and the time in it; and the errors of a CREATE over an existing record and of a negative LIMIT.
pub record Server : Type 0 where
  pub reply : ℕ → Reply
  pub elsewhere : ℕ → Db → Db
  pub clock : ℕ → ℕ
  pub record_exists : DbError
  pub negative_limit : DbError

pub record World : Type 0 where
  pub db : Db
  pub queries : ℕ

pub data Outcome (A : Type 0) : Type 0 where
  commit : Db → List A → Outcome A
  abort : ℕ → DbError → Outcome A

pub record Response (A : Type 0) : Type 0 where
  pub errors : List (ℕ × DbError)
  pub rows : List A

abbrev pub Session : Type 0 → Type 0
Session A = World → Result A × World

infixl 5 ◌>>=◌ ◌>>◌
abbrev pub ◌>>=◌ : {A B : Type 0} → Session A → (A → Session B) → Session B
◌>>=◌ m f w = let (r, w') = m w in elim r [ ok a ↦ f a w' | err e ↦ (err e, w') ]

abbrev pub ◌>>◌ : {A B : Type 0} → Session A → Session B → Session B
m >> k = m >>= λ _. k

abbrev pub pure : {A : Type 0} → A → Session A
pure a w = (ok a, w)

-- `?` on a value that is no query.
abbrev pub lift : {A : Type 0} → Result A → Session A
lift r w = (r, w)

abbrev pub error_at : ℕ → List (ℕ × DbError) → Option DbError
error_at i [] = none
error_at i ((j, e) ∷ es) = let rest = error_at i es in if i == j then some e else rest

module _ {A : Type 0} where
  unfoldable pub answer : Reply → Outcome A → Db → Result (Response A) × Db
  answer (lost applied e) (commit after rows) before =
      (err (database e), if applied then after else before)
  answer (lost applied e) (abort slot d) before = (err (database e), before)
  answer (answered []) (commit after rows) before =
      (ok (record { errors = []; rows = rows }), after)
  answer (answered []) (abort slot d) before =
      (ok (record { errors = (slot, d) ∷ []; rows = [] }), before)
  answer (answered (x ∷ xs)) outcome before = (ok (record { errors = x ∷ xs; rows = [] }), before)

  -- `conn.query(…).bind(…).await`
  unfoldable pub transact : Server → (ℕ → Db → Outcome A) → Session (Response A)
  unfolding answer
  transact server tx w =
      let before = server.elsewhere w.queries w.db in
      let (r, after) =
        answer (server.reply w.queries) (tx (server.clock w.queries) before) before in
      (r, record { db = after; queries = suc w.queries })

  -- `response.take(slot)?`: the slot's error, or its rows. The tables are SCHEMAFULL, so the rows
  -- always have the fields that the program reads.
  abbrev pub take_rows : ℕ → Response A → Result (List A)
  take_rows slot r = elim (error_at slot r.errors) [ some e ↦ err (database e) | none ↦ ok r.rows ]

-- The error built when every attempt ended in a conflict that was not kept.
abbrev pub exhausted : DbError
exhausted = record {
  query_details = some transaction_conflict;
  message = "Transaction conflict retries exhausted";
}

abbrev pub unwrap_or_exhausted : Option DbError → DbError
unwrap_or_exhausted none = exhausted
unwrap_or_exhausted (some e) = e

-- The body of the loop `for _ in 0..MAX_TX_RETRIES` that push, claim and kill write out, behind its
-- query: what an attempt's answer leads to, with the rest of the loop for a conflict.
abbrev pub settle :
    {A : Type 0} → Result (Response A) → (DbError → Session (Response A)) → Session (Response A)
settle (err e) again w = (err e, w)
settle (ok response) again w = elim (classify_tx_errors response.errors) [
  | some (retry e) ↦ again e w
  | some (fail e) ↦ (err (database e), w)
  | none ↦ (ok response, w)
]

-- The loop: the attempts left and the last conflict.
unfoldable pub attempts :
    {A : Type 0} → Server → (ℕ → Db → Outcome A) → ℕ → Option DbError → Session (Response A)
unfolding transact
attempts server tx zero conflict w = (err (database (unwrap_or_exhausted conflict)), w)
attempts server tx (suc left) conflict w =
    let (r, w') = transact server tx w in settle r (λ e. attempts server tx left (some e)) w'

unfoldable pub with_retries : {A : Type 0} → Server → (ℕ → Db → Outcome A) → Session (Response A)
unfolding attempts
with_retries server tx = attempts server tx max_tx_retries none
