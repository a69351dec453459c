-- ===== src/Metrics/Samples.antt =====
-- Instances of the parameters of the statistics, for the tests.
use apalis_surrealdb.Prelude.{ℕ, ◌+◌, ◌-◌, ◌*◌, ◌/◌, true, some, none}
use apalis_surrealdb.Prelude.Int.{pos}
use apalis_surrealdb.Metrics.{Grouping, Floats}

abbrev pub grouping : Grouping
grouping = record {
  secs_between = λ t u. (t - u) / 1000;
  row_for_none = true;
  min_to_int = λ n. some (pos n);
  nothing_to_int = none;
}

-- Hundredths stand for floating-point numbers.
abbrev pub hundredths : Floats
hundredths = record {
  F = ℕ;
  lit = λ n. n * 100;
  of_i64 = λ n. n * 100;
  mul = λ a b. a * b / 100;
  div = λ a b. a * 100 / b;
  round = λ a. (a + 50) / 100 * 100;
}
