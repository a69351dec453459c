-- ===== src/Shared/Driver/Names.antt =====
-- The names of the queues in the registry of src/shared.rs, and the queue that the driver sends to.
use apalis_surrealdb.Prelude.{
  ℕ, ◌≡◌, refl, sym, ap, ◌∙◌, subst, Bool, true, false, ◌||◌, Option, none, some, List, [], ◌∷◌,
  ◌++◌, map, any, any-append, Apart, Apart-snoc, All_of_any-false, is_empty, ◌==◌, Bool-cases, inl,
  inr,
}
use apalis_surrealdb.Session.{World}
use apalis_surrealdb.Tasks.{Task, Apalis}
use apalis_surrealdb.Fetch.{Config}
use apalis_surrealdb.Shared.Mpsc.{Mpsc}
use apalis_surrealdb.Shared.Handles.{new_with_codec}
use apalis_surrealdb.Shared.Driver.{
  Entry, Drive, idle, claiming, sending, System, Signal, woken, answered, resumed, Event, polled,
  dropped, registered, lookup, put, is_sending, claim, Moved, send_on, send_task, deliver,
  advance_at, poll_driver, receive, poll_next, register, enter, drop_fetcher, step, run,
}

abbrev pub names : {C : Type 0} → List (Entry C) → List ℕ
names registry = map (λ e. e.queue) registry

abbrev pub same_name : ℕ → ℕ → Bool
same_name a b = a == b

put-names : {C : Type 0} → (q : ℕ) (c : C) (es : List (Entry C)) → names (put q c es) ≡ names es
put-names q c [] = refl
put-names q c (e ∷ es) = elim (Bool-cases (e.queue == q)) [
  | inl t ↦ rw t refl
  | inr f ↦ rw f (ap (λ l. e.queue ∷ l) (put-names q c es))
]

lookup-known :
    {C : Type 0}
    → (q : ℕ) (c : C) (es : List (Entry C)) → lookup q es ≡ some c
    → any (λ x. x == q) (names es) ≡ true
lookup-known q c [] h = absurd (cc)
lookup-known q c (e ∷ es) h = elim (Bool-cases (e.queue == q)) [
  | inl t ↦ rw t refl
  | inr f ↦ let h' = rw f at h in rw f (lookup-known q c es h')
]

-- The queue that the driver sends to is one of these.
abbrev pub sends_to : List ℕ → Drive → Bool
sends_to ns idle = true
sends_to ns (claiming queues) = true
sends_to ns (sending q item rest) = any (λ x. x == q) ns

names-snoc :
    {C : Type 0}
    → (es : List (Entry C)) (e : Entry C) → names (es ++ e ∷ []) ≡ names es ++ e.queue ∷ []
names-snoc [] e = refl
names-snoc (d ∷ es) e = ap (λ l. d.queue ∷ l) (names-snoc es e)

any-names :
    {C : Type 0}
    → (q : ℕ) (es : List (Entry C)) → any (λ x. x == q) (names es) ≡ any (λ e. e.queue == q) es
any-names q [] = refl
any-names q (e ∷ es) = rw (any-names q es) refl

sends_to-snoc :
    (ns : List ℕ) (n : ℕ) (d : Drive) → sends_to ns d ≡ true → sends_to (ns ++ n ∷ []) d ≡ true
sends_to-snoc ns n idle h = refl
sends_to-snoc ns n (claiming queues) h = refl
sends_to-snoc ns n (sending q item rest) h = rw (any-append (λ (x : ℕ). x == q) ns (n ∷ []), h) refl

module _ (m : Mpsc) where
  -- The names are these, and the driver sends to one of them, if at all.
  abbrev Named : List ℕ → Moved m → Type 0
  Named ns (registry, drive) = (names registry ≡ ns) × (sends_to ns drive ≡ true)

  send_on-Named :
      (ns : List ℕ) (q : ℕ) (item : Option Task) (rest : List Task)
      → (go_on : List (Entry m.Chan) → Moved m)
      → ((registry : List (Entry m.Chan)) → names registry ≡ ns → Named ns (go_on registry))
      → (registry : List (Entry m.Chan)) (o : Option m.Chan) → lookup q registry ≡ o
      → names registry ≡ ns
      → Named ns (send_on m q item rest go_on registry o)
  send_on-Named ns q item rest go_on h registry none at e = h registry e
  send_on-Named ns q item rest go_on h registry (some c) at e =
      let s = m.poll_send item c in
      let e' : names (put q s.chan registry) ≡ ns = put-names q s.chan registry ∙ e in
      elim (Bool-cases s.finished) [
        | inl t ↦ rw t (h (put q s.chan registry) e')
        | inr f ↦
            rw f ((e', subst (λ l. any (λ x. x == q) l ≡ true) e (lookup-known q c registry at)))
      ]

  send_task-Named :
      (ns : List ℕ) (o : Option ℕ) (t : Task) (rest : List Task)
      → (go_on : List (Entry m.Chan) → Moved m)
      → ((registry : List (Entry m.Chan)) → names registry ≡ ns → Named ns (go_on registry))
      → (registry : List (Entry m.Chan)) → names registry ≡ ns
      → Named ns (send_task m o t rest go_on registry)
  send_task-Named ns none t rest go_on h registry e = h registry e
  send_task-Named ns (some q) t rest go_on h registry e =
      send_on-Named ns q (some t) rest go_on h registry (lookup q registry) refl e

  deliver-Named :
      (ns : List ℕ) (tasks : List Task) (registry : List (Entry m.Chan))
      → names registry ≡ ns
      → Named ns (deliver m tasks registry)
  unfolding deliver
  deliver-Named ns [] registry e = (e, refl)
  deliver-Named ns (t ∷ ts) registry e =
      send_task-Named ns t.queue t ts (λ r. deliver m ts r) (λ r k. deliver-Named ns ts r k)
        registry e

  -- The names and the driver of a system.
  abbrev NamedIn : List ℕ → System m.Chan → Type 0
  NamedIn ns s = Named ns (s.registry, s.drive)

  advance_at-NamedIn :
      (apalis : Apalis) (ns : List ℕ) (d : Drive) (x : Signal) (s : System m.Chan)
      → NamedIn ns s
      → NamedIn ns (advance_at m apalis d x s)
  advance_at-NamedIn apalis ns idle woken s h =
      elim (Bool-cases (is_empty (map (λ e. e.queue) s.registry))) [
        | inl t ↦ rw t h
        | inr f ↦ rw f ((h.0, refl))
      ]
  advance_at-NamedIn apalis ns idle (answered server) s h = h
  advance_at-NamedIn apalis ns idle resumed s h = h
  advance_at-NamedIn apalis ns (claiming queues) woken s h = h
  advance_at-NamedIn apalis ns (claiming queues) resumed s h = h
  advance_at-NamedIn apalis ns (claiming queues) (answered server) s h =
      deliver-Named ns (claim server apalis queues s.world).0 s.registry h.0
  advance_at-NamedIn apalis ns (sending r item rest) woken s h = h
  advance_at-NamedIn apalis ns (sending r item rest) (answered server) s h = h
  advance_at-NamedIn apalis ns (sending r item rest) resumed s h =
      send_on-Named ns r item rest (λ x. deliver m rest x) (λ x k. deliver-Named ns rest x k)
        s.registry (lookup r s.registry) refl h.0

  poll_driver-NamedIn :
      (apalis : Apalis) (ns : List ℕ) (xs : List Signal) (s : System m.Chan)
      → NamedIn ns s
      → NamedIn ns (poll_driver m apalis xs s)
  unfolding poll_driver
  poll_driver-NamedIn apalis ns [] s h = h
  poll_driver-NamedIn apalis ns (x ∷ xs) s h =
      poll_driver-NamedIn apalis ns xs (advance_at m apalis s.drive x s)
        (advance_at-NamedIn apalis ns s.drive x s h)

  receive-NamedIn :
      (ns : List ℕ) (q : ℕ) (o : Option m.Chan) (s : System m.Chan)
      → NamedIn ns s
      → NamedIn ns (receive m q o s).1
  receive-NamedIn ns q none s h = h
  receive-NamedIn ns q (some c) s (e, t) = (put-names q (m.poll_receive c).1 s.registry ∙ e, t)

  drop_fetcher-NamedIn :
      (ns : List ℕ) (q : ℕ) (o : Option m.Chan) (s : System m.Chan)
      → NamedIn ns s
      → NamedIn ns (drop_fetcher m q o s)
  drop_fetcher-NamedIn ns q none s h = h
  drop_fetcher-NamedIn ns q (some c) s (e, t) = (put-names q (m.drop_receiver c) s.registry ∙ e, t)

  -- The queues' names are distinct, and the driver sends to one of them, if at all.
  pub record Registered (s : System m.Chan) : Type 0 where
    pub distinct : Apart same_name (names s.registry)
    pub target : sends_to (names s.registry) s.drive ≡ true

  renamed : (s s' : System m.Chan) → Registered s → NamedIn (names s.registry) s' → Registered s'
  renamed s s' r (e, t) = record {
    distinct = subst (Apart same_name) (sym e) r.distinct;
    target = subst (λ l. sends_to l s'.drive ≡ true) (sym e) t;
  }

  enter-Registered :
      (locked : Bool) (config : Config) (s : System m.Chan)
      → Registered s
      → Registered (enter m locked config s).1
  enter-Registered true config s r = r
  enter-Registered false config s r =
      let q = config.queue in
      let entry : Entry m.Chan = record { queue = q; chan = m.channel config.buffer_size } in
      elim (Bool-cases (any (λ e. e.queue == q) s.registry)) [
        | inl t ↦ rw t r
        | inr f ↦
            let e = sym (names-snoc s.registry entry) in
            let apart =
              Apart-snoc same_name (names s.registry) q r.distinct
                (All_of_any-false (λ x. x == q) (names s.registry) (any-names q s.registry ∙ f)) in
            let r' : Registered (record s { registry = s.registry ++ entry ∷ [] }) = record {
              distinct = subst (Apart same_name) e apart;
              target =
                  subst (λ l. sends_to l s.drive ≡ true) e
                    (sends_to-snoc (names s.registry) q s.drive r.target);
            } in
            rw f r'
      ]

  step-Registered :
      (apalis : Apalis) (e : Event) (s : System m.Chan)
      → Registered s
      → Registered (step m apalis e s)
  unfolding step poll_next register
  step-Registered apalis (polled poisoned q xs) s r =
      let ns = names s.registry in
      let s' = poll_driver m apalis xs s in
      let h = poll_driver-NamedIn apalis ns xs s (refl, r.target) in
      elim (Bool-cases poisoned) [
        | inl t ↦ rw t (renamed s s' r h)
        | inr f ↦
            let (p, s'') = receive m q (lookup q s'.registry) s' in
            rw f (renamed s s'' r (receive-NamedIn ns q (lookup q s'.registry) s' h))
      ]
  step-Registered apalis (dropped q) s r =
      renamed s (drop_fetcher m q (lookup q s.registry) s) r
        (drop_fetcher-NamedIn (names s.registry) q (lookup q s.registry) s (refl, r.target))
  step-Registered apalis (registered contended config) s r =
      enter-Registered (contended || is_sending s.drive) config s r

  after-Registered :
      (apalis : Apalis) (es : List Event) (s : System m.Chan)
      → Registered s
      → Registered (run m apalis es s)
  unfolding run
  after-Registered apalis [] s r = r
  after-Registered apalis (e ∷ es) s r =
      after-Registered apalis es (step m apalis e s) (step-Registered apalis e s r)

  -- After any polls, registrations and ends of fetchers, from a new shared storage, the queues in the
  -- registry have distinct names, and if the driver waits to send, it is to a queue of the registry.
  pub run-Registered :
      (apalis : Apalis) (es : List Event) (w : World)
      → Registered (run m apalis es (new_with_codec m w))
  unfolding new_with_codec
  run-Registered apalis es w =
      after-Registered apalis es (new_with_codec m w) (record { distinct = tt; target = refl })
