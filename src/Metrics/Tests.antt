-- ===== src/Metrics/Tests.antt =====
-- The statistics of a small table, and the theorems at them.
use apalis_surrealdb.Prelude.{ℕ, ◌≡◌, refl, some, [], ◌∷◌, map}
use apalis_surrealdb.Prelude.Int.{pos}
use apalis_surrealdb.Database.{done, JobRow}
use apalis_surrealdb.Samples.{waiting, table}
use apalis_surrealdb.Metrics.{
  OverviewRow, overview, sum_durations, Statistic, number, float, build_statistics,
}
use apalis_surrealdb.Metrics.Samples.{grouping, hundredths}

abbrev finished : JobRow
finished = record (waiting 4 (pos 0)) { status = done; lock_at = some 40; done_at = some 180040 }

abbrev counts : OverviewRow
counts = overview grouping 100 (finished ∷ table.jobs)

numbers :
    map (λ (s : Statistic ℕ). s.value) (build_statistics hundredths counts (some (pos 0)))
    ≡ number (pos 2)
      ∷ number (pos 0)
      ∷ number (pos 1)
      ∷ number (pos 4)
      ∷ number (pos 4)
      ∷ number (pos 1)
      ∷ number (pos 0)
      ∷ float 2500
      ∷ float 150
      ∷ number (pos 2)
      ∷ number (pos 0)
      ∷ []
unfolding build_statistics overview sum_durations
numbers = refl
