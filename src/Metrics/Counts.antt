-- ===== src/Metrics/Counts.antt =====
-- The aggregates of overview.surql among each other.
use apalis_surrealdb.Prelude.{
  ℕ, ◌+◌, ◌≤◌, ◌≡◌, refl, Bool, true, false, ◌&&◌, ◌||◌, List, [], ◌∷◌, length, arith, Bool-cases,
  inl, inr, is_some,
}
use apalis_surrealdb.Database.{Status, pending, queued, running, done, failed, killed, JobRow}
use apalis_surrealdb.Jobs.{is_pending, is_queued, is_running, is_failed, is_done, is_killed}
use apalis_surrealdb.Metrics.{Grouping, count, in_backlog, is_finished, overview}

abbrev flag : Bool → ℕ
flag true = 1
flag false = 0

count-cons :
    (p : JobRow → Bool) (r : JobRow) (rs : List JobRow) → count p (r ∷ rs) ≡ flag (p r) + count p rs
count-cons p r rs = ground arith

one_status :
    (s : Status)
    → flag (is_pending s)
        + flag (is_queued s)
        + flag (is_running s)
        + flag (is_failed s)
        + flag (is_done s)
        + flag (is_killed s)
      ≡ 1
one_status pending = refl
one_status queued = refl
one_status running = refl
one_status failed = refl
one_status done = refl
one_status killed = refl

abbrev by_status : List JobRow → ℕ
by_status jobs =
    count (λ r. is_pending r.status) jobs
    + count (λ r. is_queued r.status) jobs
    + count (λ r. is_running r.status) jobs
    + count (λ r. is_failed r.status) jobs
    + count (λ r. is_done r.status) jobs
    + count (λ r. is_killed r.status) jobs

length-by_status : (jobs : List JobRow) → length jobs ≡ by_status jobs
length-by_status [] = refl
length-by_status (r ∷ rs) = omega (
  arith,
  length-by_status rs,
  one_status r.status,
  count-cons (λ x. is_pending x.status) r rs,
  count-cons (λ x. is_queued x.status) r rs,
  count-cons (λ x. is_running x.status) r rs,
  count-cons (λ x. is_failed x.status) r rs,
  count-cons (λ x. is_done x.status) r rs,
  count-cons (λ x. is_killed x.status) r rs,
)

-- A narrower test counts no more.
count-le :
    (p q : JobRow → Bool) (jobs : List JobRow)
    → ((r : JobRow) → p r ≡ true → q r ≡ true)
    → count p jobs ≤ count q jobs
count-le p q [] h = omega arith
count-le p q (r ∷ rs) h = elim (Bool-cases (p r)) [
  | inl e ↦ let s = h r e in let rest = count-le p q rs h in rw (e, s) (omega (arith, rest))
  | inr e ↦ let rest = count-le p q rs h in rw e (ground (arith, rest))
]

finished_ended :
    (s : Status) (a b : Bool)
    → ((is_done s || is_failed s || is_killed s) && a && b) ≡ true
    → flag (is_failed s) + flag (is_done s) + flag (is_killed s) ≡ 1
finished_ended done a b h = refl
finished_ended failed a b h = refl
finished_ended killed a b h = refl
finished_ended pending a b h = absurd (cc)
finished_ended queued a b h = absurd (cc)
finished_ended running a b h = absurd (cc)

finished-le :
    (jobs : List JobRow)
    → count is_finished jobs
      ≤ count (λ r. is_failed r.status) jobs
        + count (λ r. is_done r.status) jobs
        + count (λ r. is_killed r.status) jobs
finished-le [] = omega arith
finished-le (r ∷ rs) = elim (Bool-cases (is_finished r)) [
  | inl e ↦
      let one = finished_ended r.status (is_some r.done_at) (is_some r.lock_at) e in
      rw e (
        omega (
          arith,
          one,
          finished-le rs,
          count-cons (λ x. is_failed x.status) r rs,
          count-cons (λ x. is_done x.status) r rs,
          count-cons (λ x. is_killed x.status) r rs,
        ))
  | inr e ↦ rw e (
      omega (
        arith,
        finished-le rs,
        count-cons (λ x. is_failed x.status) r rs,
        count-cons (λ x. is_done x.status) r rs,
        count-cons (λ x. is_killed x.status) r rs,
      ))
]

-- The numbers of jobs by status add up to the total but for the queued ones, which have no number of
-- their own; the backlog is a part of the pending jobs, and those whose time to finish is measured are
-- among the failed, done and killed ones.
overview_adds_up :
    (g : Grouping) (now : ℕ) (jobs : List JobRow)
    → let o = overview g now jobs in
      (o.total
        ≡ o.pending
          + count (λ r. is_queued r.status) jobs
          + o.running
          + o.failed
          + o.done
          + o.killed)
      × (o.backlog ≤ o.pending)
      × (o.finished ≤ o.failed + o.done + o.killed)
unfolding overview
overview_adds_up g now jobs = (
  length-by_status jobs,
  count-le (in_backlog now) (λ r. is_pending r.status) jobs (λ r h. ground arith),
  finished-le jobs,
)
