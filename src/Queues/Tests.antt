-- ===== src/Queues/Tests.antt =====
-- The listing of the queues of a small table, and the theorems at it.
use apalis_surrealdb.Prelude.{ℕ, ◌≡◌, refl, ◌||◌, any, List, [], ◌∷◌, map, All, ◌==◌}
use apalis_surrealdb.Prelude.Int.{pos}
use apalis_surrealdb.Database.{JobRow, Db}
use apalis_surrealdb.Samples.{table, worker, obliging, start}
use apalis_surrealdb.Tx.{insert}
use apalis_surrealdb.Listing.{ActivityRow}
use apalis_surrealdb.Metrics.Samples.{grouping, hundredths}
use apalis_surrealdb.Queues.{QueueInfo, merge_queues, queues_reply, list_queues}
use apalis_surrealdb.Queues.Names.{Increasing, list_queues_names}
use apalis_surrealdb.Session.{ok}
use apalis_surrealdb.Queues.Replies.{Agrees, list_queues-Agrees}

-- A worker of a queue that has no job.
abbrev two_queues : Db
two_queues = record table { workers = record (worker 8 90) { queue = 3 } ∷ table.workers }

abbrev activity : ℕ → List JobRow → List ActivityRow
activity now jobs = record { queue = 5; day = 1727913600; done_count = pos 4 } ∷ []

abbrev listed : List (QueueInfo ℕ)
listed = merge_queues hundredths grouping 20000 (queues_reply grouping activity 100 two_queues)

summaries :
    map {B = ℕ × List ℕ × List ℕ} (λ (i : QueueInfo ℕ). (i.name, i.workers, i.activity)) listed
    ≡ (3, 8 ∷ [], 0 ∷ 0 ∷ 0 ∷ 0 ∷ 0 ∷ 0 ∷ 0 ∷ []) ∷ (5, 7 ∷ [], 0 ∷ 0 ∷ 0 ∷ 0 ∷ 0 ∷ 4 ∷ 0 ∷ []) ∷ []
unfolding merge_queues queues_reply insert
summaries = refl

list_queues_names_example :
    Increasing 0 (map (λ i. i.name) listed)
    × (any (λ i. i.name == 3) listed
        ≡ (any (λ r. r.queue == 3) two_queues.jobs || any (λ w. w.queue == 3) two_queues.workers))
list_queues_names_example = list_queues_names hundredths grouping activity 20000 100 3 two_queues

list_queues-Agrees_example :
    (infos : List (QueueInfo ℕ)) × ((list_queues hundredths grouping obliging activity 20000
        (start two_queues)).0
      ≡ ok infos)
    × All (Agrees hundredths grouping obliging (start two_queues) refl) infos
list_queues-Agrees_example =
    list_queues-Agrees hundredths grouping obliging (start two_queues) refl activity 20000 refl
