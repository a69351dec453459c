-- ===== src/Backend/Registered.antt =====
-- What the streams of src/lib.rs and src/shared.rs begin with.
use apalis_surrealdb.Prelude.{
  ℕ, suc, ◌≡◌, refl, sym, subst, ap, ◌∙◌, Bool, true, false, not, ◌||◌, Option, none, some, List,
  [], ◌∷◌, map, any, arith, if◌then◌else◌, ◌==◌, Bool-cases, inl, inr, any-append,
}
use apalis_surrealdb.Database.{WorkerRow, Json, database}
use apalis_surrealdb.Storage.{Decoded}
use apalis_surrealdb.Ack.Middleware.{Tower}
use apalis_surrealdb.Backend.Implementations.{polling, listening, shared}
use apalis_surrealdb.Session.{
  Result, ok, err, Server, World, Response, Session, transact, lift, pure, ◌>>=◌,
}
use apalis_surrealdb.Session.Bind.{>>=-ok, >>=-err}
use apalis_surrealdb.Session.Retry.{Answered, unreachable, committed, refused, transact-Answered}
use apalis_surrealdb.Tasks.{Task, Apalis}
use apalis_surrealdb.Fetch.{Config}
use apalis_surrealdb.Heartbeat.{
  Sweep, no_errors, register_worker, register_worker_query, reenqueue_orphaned, initial_heartbeat,
  upsert,
}
use apalis_surrealdb.Heartbeat.Alive.{registered}
use apalis_surrealdb.Fetcher.Live.{LiveFetcher}
use apalis_surrealdb.Backend.Futures.{Streams}
use apalis_surrealdb.Backend.{
  SurrealStorage, WorkerContext, registering, eager_fetcher, lazy_fetcher, poll_default,
  poll_with_listener, poll_shared, polling_name, events_name, shared_name,
}

abbrev pub is_ok : {A : Type 0} → Result A → Bool
is_ok (ok a) = true
is_ok (err e) = false

replaced :
    (new : WorkerRow) (ws : List WorkerRow)
    → any (λ w. w.id == new.id) ws ≡ true
    → any (λ w. w.id == new.id) (map (λ w. if w.id == new.id then new else w) ws) ≡ true
replaced new [] h = h
replaced new (w ∷ ws) h = elim (Bool-cases (w.id == new.id)) [
  | inl e ↦ let own : (new.id == new.id) ≡ true = ground arith in rw (e, own) refl
  | inr e ↦ let rest = replaced new ws (rw e at h) in rw (e, e, rest) refl
]

upsert-registered :
    (new : WorkerRow) (ws : List WorkerRow) → any (λ w. w.id == new.id) (upsert new ws) ≡ true
unfolding upsert
upsert-registered new ws = elim (Bool-cases (any (λ w. w.id == new.id) ws)) [
  | inl e ↦ rw e (replaced new ws e)
  | inr e ↦
      let own : (new.id == new.id) ≡ true = ground arith in
      rw (e, any-append (λ (w : WorkerRow). w.id == new.id), own) (ground arith)
]

module _ (server : Server) (config : Config) (name storage layers instance : ℕ) where
  register_worker-registered :
      (w : World)
      → (register_worker server config name storage layers instance w).0 ≡ ok tt
      → registered instance (register_worker server config name storage layers instance w).1.db
        ≡ true
  unfolding register_worker
  register_worker-registered w h =
      settled (tx w) refl (
        transact-Answered server (register_worker_query config.queue name storage layers instance)
          w)
    where
      tx : Session (Response WorkerRow)
      tx = transact server (register_worker_query config.queue name storage layers instance)

      after_tx : Response WorkerRow → Session (Unit {0})
      after_tx response = lift (no_errors server response)

      settled :
          (o : Result (Response WorkerRow) × World)
          → tx w ≡ o
          → Answered server
              (register_worker_query config.queue name storage layers instance)
              w
              o.0
              o.1
          → registered instance ((tx >>= after_tx) w).1.db ≡ true
      settled (r, w') e (unreachable d b x f) =
          let out = >>=-err tx after_tx w (e ∙ ap (λ x. (x, w')) f) in
          let same : err (database d) ≡ ok tt = ap (λ o. o.0) (sym out) ∙ h in absurd (cc)
      settled (r, w') e (committed rows f t) =
          let out = >>=-ok tx after_tx w (e ∙ ap (λ x. (x, w')) f) in
          let row : WorkerRow = record {
            id = instance;
            name = name;
            queue = config.queue;
            storage_name = storage;
            layers = some layers;
            instance = instance;
            started_at = server.clock w.queries;
            last_seen = server.clock w.queries;
          } in
          let before = server.elsewhere w.queries w.db in
          let after : record before { workers = upsert row before.workers } ≡ w'.db =
            unfold register_worker_query in cc (t) in
          rw (out, ← after) (upsert-registered row before.workers)
      settled (r, w') e (refused x xs f d) =
          let out = >>=-ok tx after_tx w (e ∙ ap (λ y. (y, w')) f) in
          let same : err (database x.1) ≡ ok tt = ap (λ o. o.0) (sym out) ∙ h in absurd (cc)

  initial_heartbeat-registered :
      (sweep : Sweep) (w : World)
      → (initial_heartbeat server sweep config name storage layers instance w).0 ≡ ok tt
      → registered instance
          (initial_heartbeat server sweep config name storage layers instance w).1.db
        ≡ true
  unfolding initial_heartbeat
  initial_heartbeat-registered sweep w h = swept (reenqueue_orphaned server sweep config w) refl
    where
      register : ℕ → Session (Unit {0})
      register _ = register_worker server config name storage layers instance

      swept :
          (o : Result ℕ × World)
          → reenqueue_orphaned server sweep config w ≡ o
          → registered instance ((reenqueue_orphaned server sweep config >>= register) w).1.db
            ≡ true
      swept (ok n, w') e =
          let out = >>=-ok (reenqueue_orphaned server sweep config) register w e in
          rw out (register_worker-registered w' (ap (λ o. o.0) (sym out) ∙ h))
      swept (err x, w') e =
          let out = >>=-err (reenqueue_orphaned server sweep config) register w e in
          let same : err x ≡ ok tt = ap (λ o. o.0) (sym out) ∙ h in absurd (cc)

abbrev pub gives_no_task : Result (Option Task) → Bool
gives_no_task (ok (some task)) = false
gives_no_task (ok none) = true
gives_no_task (err e) = true

-- The first item of a stream tells how the registration went, and the others are those of `rest`, from
-- the world that the registration left; if it went well, the worker is in the table there.
pub record Starts (streams : Streams) (instance : ℕ) (stream rest : streams.Stream (Option Task))
    (w : World) : Type 0 where
  pub first : Result (Option Task)
  pub next : World
  pub no_task : gives_no_task first ≡ true
  pub present : (not (is_ok first) || registered instance next.db) ≡ true
  pub ordered :
      (n : ℕ)
      → streams.items (suc n) stream w
        ≡ (first ∷ (streams.items n rest next).0, (streams.items n rest next).1)

module _ (server : Server) (sweep : Sweep) (apalis : Apalis) (streams : Streams)
    (chained : (f : Session (Option Task)) (rest : streams.Stream (Option Task)) (n : ℕ) (w : World)
      → streams.items (suc n) (streams.chain (streams.once f) rest) w
        ≡ ((f w).0 ∷ (streams.items n rest (f w).1).0, (streams.items n rest (f w).1).1)) where
  module _ {F : Type 0} (s : SurrealStorage F) (worker : WorkerContext) (storage : ℕ)
      (w : World) where
    abbrev heartbeat : Session (Unit {0})
    heartbeat = initial_heartbeat server sweep s.config worker.name storage worker.layers s.instance

    abbrev register : Session (Option Task)
    register = registering server sweep apalis streams s worker storage

    registering-gives :
        (gives_no_task (register w).0 ≡ true)
        × ((not (is_ok (register w).0) || registered s.instance (register w).1.db) ≡ true)
    registering-gives = beaten (heartbeat w) refl
      where
        Goal : Result (Option Task) × World → Type 0
        Goal o =
            (gives_no_task o.0 ≡ true) × ((not (is_ok o.0) || registered s.instance o.1.db) ≡ true)

        beaten : (o : Result (Unit {0}) × World) → heartbeat w ≡ o → Goal (register w)
        beaten (ok u, w') e =
            let out = >>=-ok heartbeat (λ _. pure none) w e in
            let there =
              initial_heartbeat-registered server s.config worker.name storage worker.layers
                s.instance sweep w (ap (λ o. o.0) e) in
            subst Goal (sym out) (refl, rw e at there)
        beaten (err x, w') e =
            subst Goal (sym (>>=-err heartbeat (λ _. pure none) w e)) (refl, refl)

    starts :
        (rest : streams.Stream (Option Task))
        → Starts streams s.instance (streams.chain (streams.once register) rest) rest w
    starts rest = record {
      first = (register w).0;
      next = (register w).1;
      no_task = registering-gives.0;
      present = registering-gives.1;
      ordered = λ n. chained register rest n w;
    }

  -- If `chain` gives the item of a stream of one future and then those of the other stream, what each
  -- storage's `poll_compact`, the polling one's, the listening one's and the shared one's, gives begins with
  -- the registration of the worker, which gives no task; only then, and also if it failed, come the items of
  -- the fetchers. If it went well, the worker's row stands in the table before they start.
  pub storages_register :
      (tower : Tower) (to_value : ℕ → Option Json) (codec : List ℕ → Decoded)
      → (p : SurrealStorage (Unit {0})) (l : SurrealStorage LiveFetcher) (s : SurrealStorage ℕ)
      → (worker : WorkerContext) (w : World)
      → Starts streams p.instance
          ((polling server sweep apalis streams tower to_value codec).poll_compact p worker)
          (eager_fetcher server sweep apalis streams p)
          w
        × Starts streams l.instance
            ((listening server sweep apalis streams tower to_value codec).poll_compact l worker)
            (streams.select
              (lazy_fetcher server sweep apalis streams l)
              (eager_fetcher server sweep apalis streams l))
            w
        × Starts streams s.instance
            ((shared server sweep apalis streams tower to_value codec).poll_compact s worker)
            (streams.select
              (streams.map_ok (λ t. some t) (streams.receiver s.fetcher))
              (eager_fetcher server sweep apalis streams s))
            w
  unfolding poll_default poll_with_listener poll_shared polling listening shared
  storages_register tower to_value codec p l s worker w = (
    starts p worker polling_name w _,
    starts l worker events_name w _,
    starts s worker shared_name w _,
  )
