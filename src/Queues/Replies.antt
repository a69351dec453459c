-- ===== src/Queues/Replies.antt =====
-- `list_queues` of src/queries/list_queues.rs against `fetch_by_queue` of src/queries/metrics.rs.
use apalis_surrealdb.Prelude.{
  ℕ, ◌≡◌, refl, sym, ap, ◌∙◌, none, List, [], ◌∷◌, map, filter, All, All-imp, ◌==◌,
}
use apalis_surrealdb.Database.{JobRow, Db}
use apalis_surrealdb.Session.{ok, answered, commit, Server, World, transact, lift}
use apalis_surrealdb.Session.Bind.{>>=-ok}
use apalis_surrealdb.Session.Retry.{transact-answered}
use apalis_surrealdb.Listing.{ActivityRow}
use apalis_surrealdb.Metrics.{Grouping, Floats, fetch_by_queue, overview_query, statistics, taken}
use apalis_surrealdb.Queues.{QueueInfo, queues_reply, merge_queues, take_all, list_queues}
use apalis_surrealdb.Queues.Entries.{Shown, list_queues_entries}

module _ (f : Floats) (g : Grouping) (server : Server) (w : World)
    (reply : server.reply w.queries ≡ answered []) where
  abbrev before : Db
  before = server.elsewhere w.queries w.db

  abbrev now : ℕ
  now = server.clock w.queries

  fetch_by_queue-reply :
      (queue : ℕ)
      → (fetch_by_queue f server g queue w).0
        ≡ ok (
            statistics f g (overview_query g now (filter (λ r. r.queue == queue) before.jobs) ∷ []))
  unfolding fetch_by_queue
  fetch_by_queue-reply queue =
      ap (λ o. o.0)
        (>>=-ok
          (transact server (λ now db.
            commit db (overview_query g now (filter (λ r. r.queue == queue) db.jobs) ∷ [])))
          (λ response. lift (taken f g response)) w
          (transact-answered server _ w before _ reply refl))

  list_queues-reply :
      (days : ℕ → List JobRow → List ActivityRow) (today : ℕ)
      → (list_queues f g server days today w).0
        ≡ ok (merge_queues f g today (queues_reply g days now before))
  unfolding list_queues
  list_queues-reply days today =
      ap (λ o. o.0)
        (>>=-ok (transact server (λ now db. commit db (queues_reply g days now db ∷ [])))
          (λ response. lift (take_all f g today response)) w
          (transact-answered server _ w before _ reply refl))

  -- What the listing says of a queue: what `fetch_by_queue` answers at the same moment, and its workers.
  abbrev pub Agrees : QueueInfo f.F → Type 0
  Agrees i =
      ((fetch_by_queue f server g i.name w).0 ≡ ok i.stats)
      × (i.workers ≡ map (λ v. v.id) (filter (λ v. v.queue == i.name) before.workers))

  -- With an error-free reply, and if the minimum of no times is no integer, `list_queues` succeeds. Each
  -- queue that it lists has the statistics that `fetch_by_queue` would have answered for it at the same
  -- moment, and the workers of that queue in the order of the table.
  pub list_queues-Agrees :
      (days : ℕ → List JobRow → List ActivityRow) (today : ℕ)
      → g.nothing_to_int ≡ none
      → (infos : List (QueueInfo f.F)) × ((list_queues f g server days today w).0 ≡ ok infos)
        × All Agrees infos
  list_queues-Agrees days today nothing = (
    merge_queues f g today (queues_reply g days now before),
    list_queues-reply days today,
    All-imp (Shown f g now before) Agrees _
        (λ i h. (fetch_by_queue-reply i.name ∙ ap ok (sym h.0), h.1))
        (list_queues_entries f g days today now before nothing),
  )
