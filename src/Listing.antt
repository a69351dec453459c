-- ===== src/Listing.antt =====
-- src/queries/list_tasks.rs, fetch_by_id.rs and the activity table of list_queues.rs.
pub mod Newest
pub mod Pages
pub mod Activity
mod Tests
use apalis_surrealdb.Prelude.{
  ℕ, zero, suc, ◌-◌, ◌/◌, Bool, true, false, ◌&&◌, Option, none, some, List, [], ◌∷◌, map, filter,
  take, drop, if◌then◌else◌, ltb, leb, ◌==◌,
}
use apalis_surrealdb.Prelude.Int.{ℤ, as_usize}
use apalis_surrealdb.Database.{
  Status, pending, queued, running, done, failed, killed, text, same_id, id_leb, JobRow, Db,
  SurrealError, decode,
}
use apalis_surrealdb.Session.{
  Result, ok, err, Server, World, Outcome, commit, Session, ◌>>=◌, lift, transact, take_rows,
}
use apalis_surrealdb.Tasks.{Task, Apalis, decode_row, and_then}
use apalis_surrealdb.Storage.{Decoded, decoded, undecodable}

abbrev pub same_status : Status → Status → Bool
same_status pending pending = true
same_status queued queued = true
same_status running running = true
same_status done done = true
same_status failed failed = true
same_status killed killed = true
same_status _ _ = false

-- `ORDER BY run_at DESC, id DESC`
unfoldable pub newer : JobRow → JobRow → Bool
newer a b =
    if ltb b.run_at a.run_at
    then true
    else if ltb a.run_at b.run_at
    then false
    else id_leb b.id a.id

unfoldable pub insert_newer : JobRow → List JobRow → List JobRow
insert_newer a [] = a ∷ []
insert_newer a (b ∷ bs) = let rest = insert_newer a bs in if newer a b then a ∷ b ∷ bs else b ∷ rest

unfoldable pub newest_first : List JobRow → List JobRow
unfolding insert_newer
newest_first [] = []
newest_first (r ∷ rs) = insert_newer r (newest_first rs)

-- `list_jobs.surql`, and `list_all_jobs.surql` without a queue.
abbrev pub matches : Option ℕ → Status → JobRow → Bool
matches none status r = same_status r.status status
matches (some queue) status r = r.queue == queue && same_status r.status status

unfoldable pub list_jobs : Option ℕ → Status → ℕ → ℕ → List JobRow → List JobRow
unfolding newest_first
list_jobs queue status limit offset jobs =
    take limit (drop offset (newest_first (filter (matches queue status) jobs)))

-- `try_map(|a| D::decode(&a))` behind the conversion of the row.
abbrev pub decoded_task : Task → Decoded → Result (ℕ × Task)
decoded_task task (decoded args) = ok (args, task)
decoded_task task (undecodable reason) = err (decode reason)

unfoldable pub decode_task : Apalis → (List ℕ → Decoded) → JobRow → Result (ℕ × Task)
decode_task apalis codec row =
    and_then (decode_row apalis row) (λ task. decoded_task task (codec task.args))

-- `collect` into a `Result`: the first error, if any.
unfoldable pub collect_ok : {A : Type 0} → (JobRow → Result A) → List JobRow → Result (List A)
collect_ok f [] = ok []
collect_ok f (r ∷ rs) =
    let rest = collect_ok f rs in and_then (f r) (λ a. and_then rest (λ rest_ok. ok (a ∷ rest_ok)))

abbrev pub unwrap_or_pending : Option Status → Status
unwrap_or_pending none = pending
unwrap_or_pending (some s) = s

-- `limit` and `offset` are the u32 values of the filter.
unfoldable pub list_tasks :
    Server
    → Apalis
    → (List ℕ → Decoded)
    → (queue : ℕ) → Option Status
    → (limit offset : ℕ) → Session (List (ℕ × Task))
list_tasks server apalis codec queue status limit offset =
    transact server
      (λ now db. commit db (list_jobs (some queue) (unwrap_or_pending status) limit offset db.jobs))
    >>= λ response. lift (and_then (take_rows 0 response) (collect_ok (decode_task apalis codec)))

unfoldable pub list_all_tasks :
    Server → Apalis → Option Status → (limit offset : ℕ) → Session (List Task)
list_all_tasks server apalis status limit offset =
    transact server
      (λ now db. commit db (list_jobs none (unwrap_or_pending status) limit offset db.jobs))
    >>= λ response. lift (and_then (take_rows 0 response) (collect_ok (decode_row apalis)))

abbrev pub first_task : Apalis → (List ℕ → Decoded) → List JobRow → Result (Option (ℕ × Task))
first_task apalis codec [] = ok none
first_task apalis codec (row ∷ rows) = and_then (decode_task apalis codec row) (λ t. ok (some t))

unfoldable pub fetch_by_id : Server → Apalis → (List ℕ → Decoded) → ℕ → Session (Option (ℕ × Task))
fetch_by_id server apalis codec id =
    transact server (λ now db. commit db (filter (λ r. same_id r.id (text id)) db.jobs))
    >>= λ response. lift (and_then (take_rows 0 response) (first_task apalis codec))

-- One row of the third statement of `list_queues.surql`: `day` in seconds since the epoch.
pub record ActivityRow : Type 0 where
  pub queue : ℕ
  pub day : ℕ
  pub done_count : ℤ

-- The index of a day in the array, for the offsets `0..ACTIVITY_DAYS`.
unfoldable pub activity_slot : ℕ → ℕ → Option ℕ
activity_slot today day =
    let d = day / 86400 in
    if leb d today && ltb (today - d) 7 then some (7 - 1 - (today - d)) else none

-- `days[i] = v`
abbrev pub set : ℕ → ℕ → List ℕ → List ℕ
set i v [] = []
set zero v (x ∷ xs) = v ∷ xs
set (suc i) v (x ∷ xs) = x ∷ set i v xs

abbrev pub zeros : List ℕ
zeros = 0 ∷ 0 ∷ 0 ∷ 0 ∷ 0 ∷ 0 ∷ 0 ∷ []

-- `daily.entry(queue).or_insert_with(…)`, and the assignment to the slot.
unfoldable pub record_day : ℕ → ℕ → ℕ → List (ℕ × List ℕ) → List (ℕ × List ℕ)
record_day queue i v [] = (queue, set i v zeros) ∷ []
record_day queue i v ((q, days) ∷ daily) =
    let rest = record_day queue i v daily in
    if q == queue then (q, set i v days) ∷ daily else (q, days) ∷ rest

-- The body of the loop over the activity rows, by the slot.
abbrev pub counted : ActivityRow → Option ℕ → List (ℕ × List ℕ) → List (ℕ × List ℕ)
counted r none daily = daily
counted r (some i) daily = record_day r.queue i (as_usize r.done_count) daily

-- The loop; the map is kept by first insertion, not by name.
unfoldable pub daily_activity : ℕ → List ActivityRow → List (ℕ × List ℕ) → List (ℕ × List ℕ)
unfolding activity_slot record_day
daily_activity today [] daily = daily
daily_activity today (r ∷ rs) daily =
    daily_activity today rs (counted r (activity_slot today r.day) daily)
