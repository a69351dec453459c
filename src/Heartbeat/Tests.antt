-- ===== src/Heartbeat/Tests.antt =====
-- Heartbeats and sweeps of a small table, and the theorems at them.
use apalis_surrealdb.Prelude.{ℕ, ◌≡◌, refl, false, some, [], ◌∷◌, any, max, arith}
use apalis_surrealdb.Prelude.Int.{pos}
use apalis_surrealdb.Database.{Db}
use apalis_surrealdb.Session.{ok, transact}
use apalis_surrealdb.Fetch.{Config}
use apalis_surrealdb.Jobs.Orphans.{
  live_instances, is_orphan, reenqueue_row, reenqueue_update, reenqueued_rows, delete_stale,
}
use apalis_surrealdb.Samples.{refusal, waiting, working, table, obliging, start}
use apalis_surrealdb.Heartbeat.{
  Sweep, effective_reenqueue_millis, keep_alive, keep_alive_query, reenqueue_orphaned,
}
use apalis_surrealdb.Heartbeat.Window.{effective_reenqueue_millis_lem}
use apalis_surrealdb.Jobs.Rewrites.{Rewrites}
use apalis_surrealdb.Jobs.Abandoned.{Abandoned}
use apalis_surrealdb.Database.{pending, err as err_value}
use apalis_surrealdb.Prelude.Int.{add_one}
use apalis_surrealdb.Prelude.{none}
use apalis_surrealdb.Heartbeat.Alive.{keep_alive_spares, reenqueue_update_complete}

-- A keep-alive of 30 ms, and a window of 20 ms that is too short.
abbrev config : Config
config = record {
  queue = 5;
  buffer_size = 10;
  keep_alive = 30000000;
  reenqueue_orphaned_after = 20000000;
}

effective_reenqueue_millis_lem_example : effective_reenqueue_millis config ≡ pos (max 20 60)
effective_reenqueue_millis_lem_example =
    effective_reenqueue_millis_lem config (omega arith) (omega arith)

beats : (keep_alive obliging 7 (start table)).0 ≡ ok tt
unfolding keep_alive transact keep_alive_query
beats = refl

keep_alive_spares_example :
    (dur : ℕ) × (effective_reenqueue_millis config ≡ pos dur)
    × (is_orphan 5 dur 900
          (live_instances 5 dur 160 (keep_alive obliging 7 (start table)).1.db)
          (working 1 (pos 0) 7 50)
        ≡ false)
keep_alive_spares_example =
    keep_alive_spares obliging (start table) refl config 7 160 900 (working 1 (pos 0) 7 50)
      (omega arith) (omega arith) (λ e. (refl, refl), tt) beats (omega arith) refl

abbrev abandoned : Db
abandoned = record { jobs = working 1 (pos 0) 6 10 ∷ waiting 3 (pos 2) ∷ []; workers = [] }

-- Every statement runs, and nobody writes in between.
abbrev calm : Sweep
calm = record {
  before_update = λ db. db;
  before_delete = λ db. db;
  update_clock = 100;
  delete_clock = 100;
  from_millis = λ d. some 60;
  quadruple = λ d. some 240;
  bad_duration = refusal;
  partly = λ db. ([], db);
}

one_swept : reenqueue_orphaned obliging calm config (start abandoned) ≡ (
  ok 1,
  record {
    db = record abandoned {
      jobs = reenqueue_row (working 1 (pos 0) 6 10) ∷ waiting 3 (pos 2) ∷ [];
    };
    queries = 1;
  },
)
unfolding reenqueue_orphaned live_instances reenqueue_update reenqueued_rows is_orphan delete_stale
    effective_reenqueue_millis
one_swept = refl

reenqueue_update_complete_example :
    Rewrites
      (Abandoned 5 60 100 [])
      (λ r. record r {
        status = pending;
        attempts = add_one r.attempts;
        last_result = some (err_value 0);
        lock_at = none;
        lock_by = none;
        done_at = none;
      })
      abandoned.jobs
      (reenqueue_update 5 60 100 [] abandoned).jobs
    × (any (is_orphan 5 60 100 []) (reenqueue_update 5 60 100 [] abandoned).jobs ≡ false)
reenqueue_update_complete_example = reenqueue_update_complete 5 60 100 [] abandoned
