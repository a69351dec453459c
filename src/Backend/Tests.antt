-- ===== src/Backend/Tests.antt =====
-- Streams as lists of items, and the theorem at them.
use apalis_surrealdb.Prelude.{
  ℕ, zero, suc, ◌-◌, ◌≡◌, refl, some, none, List, [], ◌∷◌, ◌++◌, map, length, arith,
}
use apalis_surrealdb.Database.{missing_task_id}
use apalis_surrealdb.Session.{Result, ok, err, World, Session}
use apalis_surrealdb.Tasks.{Apalis}
use apalis_surrealdb.Fetch.{Config}
use apalis_surrealdb.Heartbeat.{Sweep}
use apalis_surrealdb.Samples.{table, obliging, start, refusal}
use apalis_surrealdb.Storage.{Decoded, undecodable}
use apalis_surrealdb.Ack.Middleware.{Tower}
use apalis_surrealdb.Backend.Implementations.{polling, listening, shared}
use apalis_surrealdb.Backend.Futures.{Streams}
use apalis_surrealdb.Backend.{
  WorkerContext, new_with_config, new_with_events, shared_storage, eager_fetcher, lazy_fetcher,
}
use apalis_surrealdb.Backend.Registered.{Starts, storages_register}

-- What the first items are.
abbrev Run : Type 0 → Type 0
Run A = ℕ → World → List (Result A) × World

abbrev once_only : {A : Type 0} → Session A → Run A
once_only f zero w = ([], w)
once_only f (suc n) w = ((f w).0 ∷ [], (f w).1)

abbrev chained : {A : Type 0} → Run A → Run A → Run A
chained s rest n w =
    let (rs, w') = s n w in let (more, last) = rest (n - length rs) w' in (rs ++ more, last)

abbrev each :
    {A B : Type 0} → (Result A → Session B) → List (Result A) → World → List (Result B) × World
each g [] w = ([], w)
each g (r ∷ rs) w = let (b, w') = g r w in let (bs, last) = each g rs w' in (b ∷ bs, last)

abbrev with_ok : {A B : Type 0} → (A → B) → Result A → Result B
with_ok f (ok a) = ok (f a)
with_ok f (err e) = err e

abbrev flat : {A B : Type 0} → (Result A → List (Result B)) → List (Result A) → List (Result B)
flat g [] = []
flat g (r ∷ rs) = g r ++ flat g rs

abbrev again : {A : Type 0} → Session A → Run A
again f zero w = ([], w)
again f (suc n) w = let (r, w') = f w in let (rs, last) = again f n w' in (r ∷ rs, last)

abbrev lists : Streams
lists = record {
  Stream = Run;
  items = λ n s w. s n w;
  once = once_only;
  chain = chained;
  select = λ a b. a;
  then = λ g s n w. let (rs, w') = s n w in each g rs w';
  map_ok = λ f s n w. let (rs, w') = s n w in (map (with_ok f) rs, w');
  ready_chunks = λ k s. s;
  flat_map = λ g s n w. let (rs, w') = s n w in (flat g rs, w');
  poll_fetcher = λ config instance fetcher n w. ([], w);
  live_fetcher = λ fetcher n w. ([], w);
  receiver = λ queue n w. ([], w);
  every = λ interval f. again f;
}

abbrev apalis : Apalis
apalis = record { try_into_task_compact = λ r. err missing_task_id; to_string = λ e. 0 }

abbrev sweep : Sweep
sweep = record {
  before_update = λ db. db;
  before_delete = λ db. db;
  update_clock = 100;
  delete_clock = 100;
  from_millis = λ ms. some 60;
  quadruple = λ ms. some 240;
  bad_duration = refusal;
  partly = λ db. ([], db);
}

abbrev config : Config
config = record { queue = 5; buffer_size = 10; keep_alive = 1; reenqueue_orphaned_after = 1 }

abbrev worker : WorkerContext
worker = record { name = 1; layers = 2 }

abbrev tower : Tower
tower = record {
  acknowledge_layer = λ ack inner. inner;
  stack = λ a b inner. a (b inner);
  to_string = λ e. 0;
}

abbrev no_codec : List ℕ → Decoded
no_codec args = undecodable 0

storages_register_example :
    Starts lists 11
      ((polling obliging sweep apalis lists tower (λ n. none) no_codec).poll_compact
        (new_with_config 11 config)
        worker)
      (eager_fetcher obliging sweep apalis lists (new_with_config 11 config))
      (start table)
    × Starts lists 12
        ((listening obliging sweep apalis lists tower (λ n. none) no_codec).poll_compact
          (new_with_events 12 config)
          worker)
        (lazy_fetcher obliging sweep apalis lists (new_with_events 12 config))
        (start table)
    × Starts lists 13
        ((shared obliging sweep apalis lists tower (λ n. none) no_codec).poll_compact
          (shared_storage 13 config 5)
          worker)
        (λ n w. ([], w))
        (start table)
unfolding new_with_config new_with_events shared_storage
storages_register_example =
    storages_register obliging sweep apalis lists
      (λ f rest n w. let e : suc n - 1 ≡ n = omega arith in rw e refl) tower (λ n. none) no_codec
      (new_with_config 11 config) (new_with_events 12 config) (shared_storage 13 config 5) worker
      (start table)
