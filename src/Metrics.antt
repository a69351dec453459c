-- ===== src/Metrics.antt =====
-- src/queries/metrics.rs: the statistics of a queue or of all, and their queries.
--
-- Floating-point numbers and their operations are a parameter. So is what the server leaves open: the
-- seconds between two datetimes, and whether GROUP ALL gives a row when nothing is selected.
pub mod Counts
pub mod Division
pub mod Samples
mod Tests
use Prim.Native.String.{String}
use apalis_surrealdb.Prelude.{
  ℕ, ◌+◌, ◌/◌, Bool, true, false, ◌&&◌, ◌||◌, Option, none, some, List, [], ◌∷◌, map, filter,
  length, min, if◌then◌else◌, ltb, leb, ◌==◌, is_empty, is_some,
}
use apalis_surrealdb.Prelude.Int.{ℤ, pos}
use apalis_surrealdb.Database.{Status, JobRow, Db, DbError, SurrealError, database}
use apalis_surrealdb.Session.{
  Result, ok, err, Server, World, commit, Response, Session, ◌>>=◌, lift, transact, error_at,
}
use apalis_surrealdb.Jobs.{is_pending, is_running, is_failed, is_done, is_killed}

-- An i64 that counts rows, or that adds their seconds up, is a natural number.
pub record OverviewRow : Type 0 where
  pub total : ℕ
  pub pending : ℕ
  pub running : ℕ
  pub failed : ℕ
  pub done : ℕ
  pub killed : ℕ
  pub backlog : ℕ
  pub past_hour : ℕ
  pub finished : ℕ
  pub dur_secs : ℕ

-- `OverviewRow::default()`
abbrev pub default_row : OverviewRow
default_row = record {
  total = 0;
  pending = 0;
  running = 0;
  failed = 0;
  done = 0;
  killed = 0;
  backlog = 0;
  past_hour = 0;
  finished = 0;
  dur_secs = 0;
}

-- `secs_between t u` is `duration::secs(t - u)`. `min_to_int` is what `Number::to_int` makes of the
-- smallest of the times in seconds, as `math::min` returns it; `nothing_to_int` is what is left of a
-- row for which no time was selected.
pub record Grouping : Type 0 where
  pub secs_between : ℕ → ℕ → ℕ
  pub row_for_none : Bool
  pub min_to_int : ℕ → Option ℤ
  pub nothing_to_int : Option ℤ

abbrev pub count : (JobRow → Bool) → List JobRow → ℕ
count p jobs = length (filter p jobs)

-- `status = 'Pending' AND run_at <= time::now()`
abbrev pub in_backlog : ℕ → JobRow → Bool
in_backlog now r = is_pending r.status && leb r.run_at now

-- `status IN ['Done', 'Failed', 'Killed'] AND done_at != NONE AND lock_at != NONE`
abbrev pub is_finished : JobRow → Bool
is_finished r =
    (is_done r.status || is_failed r.status || is_killed r.status)
    && is_some r.done_at
    && is_some r.lock_at

abbrev pub between : (ℕ → ℕ → ℕ) → Option ℕ → Option ℕ → ℕ
between secs (some t) (some u) = secs t u
between secs none _ = 0
between secs (some t) none = 0

-- `math::sum(IF … THEN duration::secs(done_at - lock_at) ELSE 0 END)`
unfoldable pub sum_durations : (ℕ → ℕ → ℕ) → List JobRow → ℕ
sum_durations secs [] = 0
sum_durations secs (r ∷ rs) =
    let rest = sum_durations secs rs in
    if is_finished r then between secs r.done_at r.lock_at + rest else rest

-- The SELECT list of `overview.surql`, over the rows that its FROM clause gives.
unfoldable pub overview : Grouping → ℕ → List JobRow → OverviewRow
overview g now jobs = record {
  total = length jobs;
  pending = count (λ r. is_pending r.status) jobs;
  running = count (λ r. is_running r.status) jobs;
  failed = count (λ r. is_failed r.status) jobs;
  done = count (λ r. is_done r.status) jobs;
  killed = count (λ r. is_killed r.status) jobs;
  backlog = count (in_backlog now) jobs;
  past_hour = count (λ r. leb now (r.run_at + 3600000)) jobs;
  finished = count is_finished jobs;
  dur_secs = sum_durations g.secs_between jobs;
}

abbrev pub least : List ℕ → Option ℕ
least [] = none
least (n ∷ ns) = let rest = least ns in elim rest [ none ↦ some n | some m ↦ some (min n m) ]

-- `SELECT math::min(time::unix(run_at)) … WHERE status = 'Pending' AND run_at <= time::now()`
unfoldable pub oldest_unix : ℕ → List JobRow → Option ℕ
oldest_unix now jobs = least (map (λ r. r.run_at / 1000) (filter (in_backlog now) jobs))

-- The rows of both statements.
pub record Reply : Type 0 where
  pub counts : List OverviewRow
  pub oldest : List (Option ℕ)

unfoldable pub overview_query : Grouping → ℕ → List JobRow → Reply
unfolding overview oldest_unix
overview_query g now jobs = record {
  counts =
      if is_empty jobs
      then if g.row_for_none then default_row ∷ [] else []
      else overview g now jobs ∷ [];
  oldest =
      if is_empty (filter (in_backlog now) jobs)
      then if g.row_for_none then none ∷ [] else []
      else oldest_unix now jobs ∷ [];
}

-- The operations on `f64` that the program uses; `lit` is a literal, `of_i64` the cast.
pub record Floats : Type 1 where
  pub F : Type 0
  pub lit : ℕ → F
  pub of_i64 : ℕ → F
  pub mul : F → F → F
  pub div : F → F → F
  pub round : F → F

-- A value before `to_string`.
pub data Value (F : Type 0) : Type 0 where
  number : ℤ → Value F
  float : F → Value F

pub record Statistic (F : Type 0) : Type 0 where
  pub title : String
  pub stat_type : String
  pub value : Value F
  pub priority : ℕ

abbrev pub stat : {F : Type 0} → String → String → Value F → ℕ → Statistic F
stat title stat_type value priority = record {
  title = title;
  stat_type = stat_type;
  value = value;
  priority = priority;
}

-- `Option<i64>::unwrap_or_default`
abbrev pub unwrap_or_zero : Option ℤ → ℤ
unwrap_or_zero none = pos 0
unwrap_or_zero (some n) = n

module _ (f : Floats) where
  abbrev pub round2 : f.F → f.F
  round2 value = f.div (f.round (f.mul value (f.lit 100))) (f.lit 100)

  abbrev pub success_rate : OverviewRow → f.F
  success_rate counts =
      if ltb 0 counts.total
      then round2 (f.div (f.mul (f.lit 100) (f.of_i64 counts.done)) (f.of_i64 counts.total))
      else f.lit 0

  abbrev pub avg_duration : OverviewRow → f.F
  avg_duration counts =
      if ltb 0 counts.finished
      then round2 (f.div (f.div (f.of_i64 counts.dur_secs) (f.of_i64 counts.finished)) (f.lit 60))
      else f.lit 0

  unfoldable pub build_statistics : OverviewRow → Option ℤ → List (Statistic f.F)
  build_statistics counts oldest =
      stat "PENDING_JOBS" "Number" (number (pos counts.pending)) 1
      ∷ stat "RUNNING_JOBS" "Number" (number (pos counts.running)) 1
      ∷ stat "FAILED_JOBS" "Number" (number (pos counts.failed)) 2
      ∷ stat "JOBS_PAST_HOUR" "Number" (number (pos counts.past_hour)) 3
      ∷ stat "TOTAL_JOBS" "Number" (number (pos counts.total)) 4
      ∷ stat "DONE_JOBS" "Number" (number (pos counts.done)) 4
      ∷ stat "KILLED_JOBS" "Number" (number (pos counts.killed)) 4
      ∷ stat "SUCCESS_RATE" "Percentage" (float (success_rate counts)) 4
      ∷ stat "AVG_JOB_DURATION_MINS" "Decimal" (float (avg_duration counts)) 5
      ∷ stat "QUEUE_BACKLOG" "Number" (number (pos counts.backlog)) 5
      ∷ stat "OLDEST_PENDING_JOB" "Timestamp" (number (unwrap_or_zero oldest)) 8
      ∷ []

  abbrev pub first_counts : List OverviewRow → OverviewRow
  first_counts [] = default_row
  first_counts (row ∷ rows) = row

  abbrev pub first_oldest : Grouping → List (Option ℕ) → Option ℤ
  first_oldest g [] = none
  first_oldest g (none ∷ rows) = g.nothing_to_int
  first_oldest g (some n ∷ rows) = g.min_to_int n

  abbrev pub statistics : Grouping → List Reply → List (Statistic f.F)
  statistics g [] = build_statistics default_row none
  statistics g (r ∷ rs) = build_statistics (first_counts r.counts) (first_oldest g r.oldest)

  -- `take(0)?`, then `take(1)?`.
  abbrev pub taken : Grouping → Response Reply → Result (List (Statistic f.F))
  taken g response = elim (error_at 0 response.errors) [
    | some e ↦ err (database e)
    | none ↦ elim (error_at 1 response.errors) [
      | some e ↦ err (database e)
      | none ↦ ok (statistics g response.rows)
    ]
  ]

  unfoldable pub global : Server → Grouping → Session (List (Statistic f.F))
  unfolding overview_query build_statistics
  global server g =
      transact server (λ now db. commit db (overview_query g now db.jobs ∷ [])) >>= λ response.
      lift (taken g response)

  unfoldable pub fetch_by_queue : Server → Grouping → ℕ → Session (List (Statistic f.F))
  unfolding overview_query build_statistics
  fetch_by_queue server g queue =
      transact server
        (λ now db. commit db (overview_query g now (filter (λ r. r.queue == queue) db.jobs) ∷ []))
      >>= λ response. lift (taken g response)
