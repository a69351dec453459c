-- ===== src/Listing/Tests.antt =====
-- Listings of a small table, and the theorems at them.
use apalis_surrealdb.Prelude.{
  ◌≡◌, refl, none, some, List, [], ◌∷◌, ◌++◌, length, min, ◌-◌, take, drop,
}
use apalis_surrealdb.Prelude.Int.{pos}
use apalis_surrealdb.Database.{pending, JobRow}
use apalis_surrealdb.Samples.{waiting, table}
use apalis_surrealdb.Listing.{
  ActivityRow, list_jobs, newest_first, insert_newer, newer, activity_slot, daily_activity,
  record_day,
}
use apalis_surrealdb.Listing.Newest.{Listed}
use apalis_surrealdb.Listing.Pages.{list_jobs_pages}

list_jobs_pages_example :
    (all : List JobRow) × Listed (some 5) pending table.jobs all
    × (list_jobs (some 5) pending 1 0 table.jobs ≡ take 1 (drop 0 all))
    × (list_jobs (some 5) pending 1 0 table.jobs ++ list_jobs (some 5) pending 4 1 table.jobs
        ≡ list_jobs (some 5) pending 5 0 table.jobs)
    × (length (list_jobs (some 5) pending 1 0 table.jobs) ≡ min 1 (length all - 0))
list_jobs_pages_example = list_jobs_pages (some 5) pending 1 4 0 table.jobs

-- The later id stands first.
both : list_jobs none pending 5 0 table.jobs ≡ waiting 3 (pos 2) ∷ waiting 1 (pos 0) ∷ []
unfolding list_jobs newest_first insert_newer newer
both = refl

slot : activity_slot 20000 1727913600 ≡ some 5
unfolding activity_slot
slot = refl

abbrev rows : List ActivityRow
rows =
    record { queue = 5; day = 1727913600; done_count = pos 4 }
    ∷ record { queue = 6; day = 0; done_count = pos 9 }
    ∷ []

daily : daily_activity 20000 rows [] ≡ (5, 0 ∷ 0 ∷ 0 ∷ 0 ∷ 0 ∷ 4 ∷ 0 ∷ []) ∷ []
unfolding daily_activity activity_slot record_day
daily = refl
