-- ===== src/Ack/Samples.antt =====
-- Instances of the parameters of the layers, for the tests.
use apalis_surrealdb.Prelude.{ℕ, Option, some}
use apalis_surrealdb.Database.{Json, object}
use apalis_surrealdb.Ack.Middleware.{Tower}

abbrev pub tower : Tower
tower = record {
  acknowledge_layer = λ a inner req w. let (res, w') = inner req w in (res, ((a res req).1 w').1);
  stack = λ inner outer s. outer (inner s);
  to_string = λ e. 0;
}

abbrev pub to_value : ℕ → Option Json
to_value n = some (object n)
