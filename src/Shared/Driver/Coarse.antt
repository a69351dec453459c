-- ===== src/Shared/Driver/Coarse.antt =====
-- The loop of the driver of src/shared.rs over bounded channels, against the one over channels that keep
-- all that they are sent.
use apalis_surrealdb.Prelude.{
  ℕ, suc, max, length, length-map, ◌≡◌, refl, sym, ap, ◌∙◌, subst, true, false, Option, none, some,
  List, [], ◌∷◌, append-nil, map, if◌then◌else◌, ◌==◌, Bool-cases, inl, inr, arith, All, All-imp,
  Apart, Apart-map,
}
use apalis_surrealdb.Session.{Result, ok, err, Server, World}
use apalis_surrealdb.Tasks.{Task, Apalis}
use apalis_surrealdb.Shared.{
  Channel, send, send_to, route, route_all, queues_of, delivered, drive_registry,
}
use apalis_surrealdb.Fetch.{fetch_next_shared}
use apalis_surrealdb.Prelude.Int.{as_i64}
use apalis_surrealdb.Shared.Mpsc.{Mpsc, MpscLaws}
use apalis_surrealdb.Shared.Routes.{same_queue}
use apalis_surrealdb.Shared.Driver.{
  Entry, Drive, idle, woken, answered, lookup, put, claim, send_on, send_task, deliver, poll_driver,
}

-- A task sent to `q` leaves the names alone.
queue_after :
    (q : ℕ) (t : Task) (c : Channel) → (if c.queue == q then send t c else c).queue ≡ c.queue
queue_after q t c = elim (Bool-cases (c.queue == q)) [
  | inr f ↦ rw f refl
  | inl h ↦ elim (Bool-cases c.connected) [ inl o ↦ rw (h, o) refl | inr o ↦ rw (h, o) refl ]
]

same_after :
    (q : ℕ) (t : Task) (c d : Channel)
    → same_queue (if c.queue == q then send t c else c) (if d.queue == q then send t d else d)
      ≡ same_queue c d
same_after q t c d =
    ap (λ x. x == (if d.queue == q then send t d else d).queue) (queue_after q t c)
    ∙ ap (λ x. c.queue == x) (queue_after q t d)

module _ (m : Mpsc) (laws : MpscLaws m) where
  -- What a channel holds while its receiver is there.
  abbrev pub view : Entry m.Chan → Channel
  view e = record {
    queue = e.queue;
    connected = laws.connected e.chan;
    sent = if laws.connected e.chan then laws.contents e.chan else [];
  }

  view-send :
      (q : ℕ) (t : Task) (c : m.Chan)
      → (m.poll_send (some t) c).finished ≡ true
      → view (record { queue = q; chan = (m.poll_send (some t) c).chan })
        ≡ send t (view (record { queue = q; chan = c }))
  view-send q t c over =
      let k = laws.send_connected (some t) c in
      elim (Bool-cases (laws.connected c)) [
        | inr gone ↦ rw (k, gone) refl
        | inl o ↦
            let n : (m.poll_send (some t) c).left ≡ none = laws.send_accepted (some t) c o over in
            let f = laws.send_fifo (some t) c o in
            let f' = rw (n, append-nil) at f in rw (k, o, f') refl
      ]

  missing :
      (q : ℕ) (t : Task) (registry : List (Entry m.Chan))
      → lookup q registry ≡ none
      → map view registry ≡ send_to q t (map view registry)
  missing q t [] e = refl
  missing q t (d ∷ ds) e = elim (Bool-cases (d.queue == q)) [
    | inl h ↦ let e' = rw h at e in absurd (cc)
    | inr h ↦ let e' = rw h at e in rw h (ap (λ l. view d ∷ l) (missing q t ds e'))
  ]

  elsewhere :
      (q : ℕ) (t : Task) (cs : List Channel)
      → All (λ c. (c.queue == q) ≡ false) cs
      → cs ≡ send_to q t cs
  elsewhere q t [] h = refl
  elsewhere q t (c ∷ cs) (h, hs) = rw h (ap (λ l. c ∷ l) (elsewhere q t cs hs))

  put-send_to :
      (q : ℕ) (t : Task) (c : m.Chan) (registry : List (Entry m.Chan))
      → lookup q registry ≡ some c
      → (m.poll_send (some t) c).finished ≡ true
      → Apart same_queue (map view registry)
      → map view (put q (m.poll_send (some t) c).chan registry) ≡ send_to q t (map view registry)
  put-send_to q t c [] at over a = absurd (cc)
  put-send_to q t c (d ∷ ds) at over (a, as') = elim (Bool-cases (d.queue == q)) [
    | inr h ↦
        let at' = rw h at at in rw h (ap (λ l. view d ∷ l) (put-send_to q t c ds at' over as'))
    | inl h ↦
        let at' = rw h at at in
        let same : c ≡ d.chan = cc in
        let n : d.queue ≡ q = ground arith in
        let c' = (m.poll_send (some t) c).chan in
        let first : view (record { queue = d.queue; chan = c' }) ≡ send t (view d) =
          view-send d.queue t c over
          ∙ ap (λ x. send t (view (record { queue = d.queue; chan = x }))) same in
        let others = elsewhere q t (map view ds) (
          All-imp (λ y. same_queue (view d) y ≡ false) (λ y. (y.queue == q) ≡ false) (map view ds)
            (λ y k. ground arith) a) in
        rw h (ap (λ x. x ∷ map view ds) first ∙ ap (λ l. send t (view d) ∷ l) others)
  ]

  -- The loop after the task in front agrees with the one of src/shared.rs.
  abbrev Agrees : List Task → (List (Entry m.Chan) → List (Entry m.Chan) × Drive) → Type 0
  Agrees ts go_on =
      (registry : List (Entry m.Chan))
      → Apart same_queue (map view registry)
      → (go_on registry).1 ≡ idle
      → map view (go_on registry).0 ≡ route_all ts (map view registry)

  send_on-send_to :
      (q : ℕ) (t : Task) (ts : List Task)
      → (go_on : List (Entry m.Chan) → List (Entry m.Chan) × Drive) → Agrees ts go_on
      → (registry : List (Entry m.Chan)) (o : Option m.Chan) → lookup q registry ≡ o
      → Apart same_queue (map view registry)
      → (send_on m q (some t) ts go_on registry o).1 ≡ idle
      → map view (send_on m q (some t) ts go_on registry o).0
        ≡ route_all ts (send_to q t (map view registry))
  send_on-send_to q t ts go_on h registry none at a e =
      h registry a e ∙ ap (route_all ts) (missing q t registry at)
  send_on-send_to q t ts go_on h registry (some c) at a e =
      let s = m.poll_send (some t) c in
      elim (Bool-cases s.finished) [
        | inr n ↦ let e' = rw n at e in absurd (cc)
        | inl over ↦
            let e' = rw over at e in
            let p = put-send_to q t c registry at over a in
            let a' : Apart same_queue (map view (put q s.chan registry)) =
              subst (Apart same_queue) (sym p) (
                Apart-map same_queue (λ d. if d.queue == q then send t d else d) (map view registry)
                  (λ x y. same_after q t x y) a) in
            rw over (h (put q s.chan registry) a' e' ∙ ap (route_all ts) p)
      ]

  send_task-route :
      (o : Option ℕ) (t : Task) (ts : List Task)
      → (go_on : List (Entry m.Chan) → List (Entry m.Chan) × Drive) → Agrees ts go_on
      → (registry : List (Entry m.Chan)) → t.queue ≡ o
      → Apart same_queue (map view registry)
      → (send_task m o t ts go_on registry).1 ≡ idle
      → map view (send_task m o t ts go_on registry).0 ≡ route_all ts (route t (map view registry))
  unfolding route
  send_task-route none t ts go_on h registry n a e =
      let cs = map view registry in
      h registry a e
      ∙ ap (λ o. route_all ts (elim o [ none ↦ cs | some q ↦ send_to q t cs ])) (sym n)
  send_task-route (some q) t ts go_on h registry n a e =
      let cs = map view registry in
      send_on-send_to q t ts go_on h registry (lookup q registry) refl a e
      ∙ ap (λ o. route_all ts (elim o [ none ↦ cs | some r ↦ send_to r t cs ])) (sym n)

  deliver-route_all :
      (tasks : List Task) (registry : List (Entry m.Chan))
      → Apart same_queue (map view registry)
      → (deliver m tasks registry).1 ≡ idle
      → map view (deliver m tasks registry).0 ≡ route_all tasks (map view registry)
  unfolding deliver route_all
  deliver-route_all [] registry a e = refl
  deliver-route_all (t ∷ ts) registry a e =
      send_task-route t.queue t ts (λ r. deliver m ts r) (λ r b k. deliver-route_all ts r b k)
        registry refl a e

  queues_of-view :
      (registry : List (Entry m.Chan)) → queues_of (map view registry) ≡ map (λ e. e.queue) registry
  queues_of-view [] = refl
  queues_of-view (e ∷ es) = ap (λ l. e.queue ∷ l) (queues_of-view es)

  delivered-tasks :
      (registry : List Channel) (r : Result (List Task))
      → delivered registry r ≡ route_all (elim r [ ok tasks ↦ tasks | err e ↦ [] ]) registry
  unfolding route_all
  delivered-tasks registry (ok tasks) = refl
  delivered-tasks registry (err e) = refl

  -- Where no send has to wait and the queues of the registry are distinct, one wake-up of the driver with
  -- the answer to its claim leaves in the channels of the receivers that are there, and in the database,
  -- what the one-step account of the driver leaves, which takes a channel for the list of all that it was
  -- sent.
  pub poll_driver-drive_registry :
      (server : Server) (apalis : Apalis) (registry : List (Entry m.Chan)) (w : World)
      → Apart same_queue (map view registry)
      → let s =
          poll_driver m apalis
            (woken ∷ answered server ∷ [])
            (record { registry = registry; drive = idle; world = w }) in
        s.drive ≡ idle
        → (map view s.registry, s.world) ≡ drive_registry server apalis (map view registry) w
  unfolding poll_driver drive_registry
  poll_driver-drive_registry server apalis [] w a e = refl
  poll_driver-drive_registry server apalis (d ∷ ds) w a e =
      let cs = map view (d ∷ ds) in
      let names = map (λ x. x.queue) ds in
      let fetch : ℕ → List ℕ → Result (List Task) × World =
        λ n qs. fetch_next_shared server apalis (d.queue ∷ qs) (as_i64 (max 10 (suc n))) w in
      let claims = fetch (length names) names in
      let after : ℕ → List ℕ → List Channel × World =
        λ n qs. (delivered cs (fetch n qs).0, (fetch n qs).1) in
      ap (λ l. (l, claims.1))
        (deliver-route_all (claim server apalis (d.queue ∷ names) w).0 (d ∷ ds) a e
          ∙ sym (delivered-tasks cs claims.0))
      ∙ ap (λ n. after n names) (length-map (λ x. x.queue) ds ∙ sym (length-map view ds))
      ∙ ap (after (length (map view ds))) (sym (queues_of-view ds))
