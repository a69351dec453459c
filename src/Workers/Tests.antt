-- ===== src/Workers/Tests.antt =====
-- The listings of three workers, and the theorem at them.
use apalis_surrealdb.Prelude.{◌≡◌, refl, some, none, List, [], ◌∷◌, map}
use apalis_surrealdb.Database.{Db}
use apalis_surrealdb.Session.{ok}
use apalis_surrealdb.Samples.{table, worker, obliging, start}
use apalis_surrealdb.Workers.{
  RunningWorker, from, freshest_first, insert_fresher, list_workers, list_all_workers,
}
use apalis_surrealdb.Workers.Freshest.{Shows, list_workers-Shows}

abbrev three : Db
three = record table {
  workers =
      worker 7 4000 ∷ record (worker 8 9000) { queue = 3; layers = some 2 } ∷ worker 9 5000 ∷ [];
}

beats : map (λ w. w.last_heartbeat) (map (from 0) (freshest_first three.workers)) ≡ 9 ∷ 5 ∷ 4 ∷ []
unfolding from freshest_first insert_fresher
beats = refl

list_workers-Shows_example :
    ((out : List RunningWorker) × (list_workers obliging 0 5 (start three)
        ≡ (ok out, record { db = three; queries = 1 }))
      × Shows (some 5) 0 three out)
    × ((out : List RunningWorker) × (list_all_workers obliging 0 (start three)
          ≡ (ok out, record { db = three; queries = 1 }))
        × Shows none 0 three out)
list_workers-Shows_example = list_workers-Shows obliging 0 (start three) refl 5
