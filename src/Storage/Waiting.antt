-- ===== src/Storage/Waiting.antt =====
-- The rounds of `wait_for` in wait_for.rs, and `vacuum` of vacuum.rs.
use apalis_surrealdb.Prelude.{
  ℕ, zero, suc, ◌≡◌, refl, ap, Option, none, some, Bool, true, false, List, [], ◌∷◌, filter, length,
  any, not, arith, Bool-cases, any-append, ◌||◌, ◌==◌, inl, inr,
}
use apalis_surrealdb.Database.{Status, JobRow, Db, RecordIdKey, text, number, same_id, same_id_iff}
use apalis_surrealdb.Session.{
  Result, ok, err, answered, ◌>>=◌, Server, World, lift, take_rows, pure, transact,
}
use apalis_surrealdb.Session.Bind.{>>=-ok}
use apalis_surrealdb.Session.Retry.{transact-answered}
use apalis_surrealdb.Tasks.{and_then}
use apalis_surrealdb.Jobs.Finished.{is_purged, vacuum_query}
use apalis_surrealdb.Storage.{
  Decoded, decoded, undecodable, vacuum, wait_for, waited, Parsers, TaskResult, parsed, known,
  unwrap_or_null, into_task_result, items, remove, remove_rows, fetch_completed,
}

none_purged : (jobs : List JobRow) → any is_purged (filter (λ r. not (is_purged r)) jobs) ≡ false
none_purged [] = refl
none_purged (r ∷ rs) = elim (Bool-cases (is_purged r)) [
  | inl e ↦ rw e (none_purged rs)
  | inr e ↦ rw (e, e) (none_purged rs)
]

module _ (server : Server) (w : World) (answers : server.reply w.queries ≡ answered []) where
  abbrev before : Db
  before = server.elsewhere w.queries w.db

  abbrev kept : Db
  kept = record before { jobs = filter (λ r. not (is_purged r)) before.jobs }

  vacuum-eq :
      vacuum server w
      ≡ (ok (length (filter is_purged before.jobs)), record { db = kept; queries = suc w.queries })
  unfolding vacuum
  vacuum-eq =
      >>=-ok (transact server vacuum_query)
        (λ response. lift (take_rows 0 response) >>= λ deleted. pure (length deleted)) w
        (transact-answered server vacuum_query w kept (filter is_purged before.jobs) answers
          (unfold vacuum_query in refl))

  -- With an error-free reply, `vacuum` deletes exactly the finished jobs, those done, killed or
  -- failed for the last time, and counts them; a second one at once finds none.
  vacuum_lem :
      ((vacuum server w).0 ≡ ok (length (filter is_purged before.jobs)))
      × ((vacuum server w).1.db.jobs ≡ filter (λ r. not (is_purged r)) before.jobs)
      × (any is_purged (vacuum server w).1.db.jobs ≡ false)
  vacuum_lem = (
    ap (λ o. o.0) vacuum-eq,
    ap (λ o. o.1.db.jobs) vacuum-eq,
    rw vacuum-eq (none_purged before.jobs),
  )

-- The id is what `TaskId::from_str` reads of the text.
abbrev pub is_read : ℕ → Decoded → Bool
is_read id (decoded j) = id == j
is_read id (undecodable e) = false

abbrev pub reads : Decoded → Result TaskResult → Bool
reads id (ok t) = is_read t.task_id id
reads id (err e) = true

-- The item is a result under the id that the text `i` is read as, or an error.
abbrev pub answers_for : Parsers → ℕ → Result TaskResult → Bool
answers_for p i x = reads (p.task_id i) x

-- The id remains, or there is an answer.
abbrev pub accounted : Parsers → ℕ → List (Result TaskResult) → List ℕ → Bool
accounted p i out left = any (λ j. j == i) left || any (answers_for p i) out

removed :
    (i : ℕ) (id : RecordIdKey) (ids : List ℕ)
    → any (λ j. j == i) ids ≡ true
    → (any (λ j. j == i) (remove id ids) || same_id id (text i)) ≡ true
removed i (number n) ids h = rw h refl
removed i (text k) [] h = absurd (cc)
removed i (text k) (j ∷ ids) h =
    let rest : any (λ x. x == i) ids ≡ true
        → (any (λ x. x == i) (remove (text k) ids) || same_id (text k) (text i)) ≡ true =
      removed i (text k) ids in
    elim (Bool-cases (any (λ x. x == i) ids)) [
      | inl e ↦ let r = rest e in ground (arith, r)
      | inr e ↦ ground (arith, e, h)
    ]

into_task_result-answers :
    (p : Parsers) (i : ℕ) (r : JobRow)
    → same_id r.id (text i) ≡ true
    → answers_for p i (into_task_result p r) ≡ true
unfolding into_task_result
into_task_result-answers p i r h = rw ((same_id_iff r.id (text i)).0 h) (
    by_parts (p.task_id i) r.status (p.status_error r.status)
      (p.from_value (unwrap_or_null r.last_result)))
  where
    by_parts :
        (id : Decoded) (s : Status) (known_status : Option ℕ) (v : Decoded)
        → reads id (
            and_then (parsed id) (λ task_id. and_then (known s known_status) (λ status.
              and_then
                (parsed v)
                (λ result. ok (record { task_id = task_id; status = status; result = result })))))
          ≡ true
    by_parts (undecodable e) s k v = refl
    by_parts (decoded j) s (some e) v = refl
    by_parts (decoded j) s none (undecodable e) = refl
    by_parts (decoded j) s none (decoded v) = ground arith

removed_rows :
    (p : Parsers) (i : ℕ) (rows : List JobRow) (ids : List ℕ)
    → any (λ j. j == i) ids ≡ true
    → accounted p i (items p rows) (remove_rows rows ids) ≡ true
unfolding into_task_result
removed_rows p i [] ids h = rw h refl
removed_rows p i (r ∷ rows) ids h = elim (Bool-cases (any (λ j. j == i) (remove r.id ids))) [
  | inl e ↦ let rest = removed_rows p i rows (remove r.id ids) e in ground (arith, rest)
  | inr e ↦
      let one = removed i r.id ids h in
      let two = rw e at one in
      let three = into_task_result-answers p i r two in ground (arith, three)
]

waited_accounts :
    (p : Parsers) (i : ℕ) (r : Result (List JobRow)) (ids : List ℕ)
    → any (λ j. j == i) ids ≡ true
    → accounted p i (waited p ids r).0 (waited p ids r).1 ≡ true
waited_accounts p i (err e) ids h = refl
waited_accounts p i (ok rows) ids h = removed_rows p i rows ids h

-- After any number of rounds of `wait_for`, whatever the server answers and the parsers give, each task
-- that was asked for is still waited for, or the stream has given a result under the id that the text of
-- the task's id is read as, or it has given an error.
pub wait_for_accounts :
    (server : Server) (p : Parsers) (n i : ℕ) (ids : List ℕ) (w : World)
    → any (λ j. j == i) ids ≡ true
    → let (out, left, _) = wait_for server p n ids w in accounted p i out left ≡ true
unfolding wait_for into_task_result
wait_for_accounts server p zero i ids w h = rw h refl
wait_for_accounts server p (suc n) i [] w h = absurd (cc)
wait_for_accounts server p (suc n) i (j ∷ ids) w h =
    elim (Bool-cases
      (any (λ x. x == i) (waited p (j ∷ ids) (fetch_completed server (j ∷ ids) w).0).1)) [
        | inl e ↦
            let rest =
              wait_for_accounts server p n i
                (waited p (j ∷ ids) (fetch_completed server (j ∷ ids) w).0).1
                (fetch_completed server (j ∷ ids) w).1 e in
            rw (any-append (answers_for p i)) (ground (arith, rest))
        | inr e ↦
            let now = waited_accounts p i (fetch_completed server (j ∷ ids) w).0 (j ∷ ids) h in
            let answered = rw e at now in rw (any-append (answers_for p i), answered) (ground arith)
      ]
