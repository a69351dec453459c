-- ===== src/Shared/Driver/Order.antt =====
-- src/shared.rs: the order in which a queue's fetcher gets what the driver claims for it.
use apalis_surrealdb.Prelude.{
  ℕ, ◌≡◌, refl, sym, ap, ◌∙◌, Bool, true, false, ◌||◌, Option, none, some, List, [], ◌∷◌, ◌++◌,
  append-nil, append_assoc, filter, any, All, if◌then◌else◌, ◌==◌, Bool-cases, inl, inr, arith,
}
use apalis_surrealdb.Tasks.{Task, Apalis}
use apalis_surrealdb.Fetch.{Config}
use apalis_surrealdb.Shared.Mpsc.{Polled, Mpsc, MpscLaws, given}
use apalis_surrealdb.Shared.Routes.{is_for}
use apalis_surrealdb.Shared.Driver.{
  Entry, System, Event, polled, dropped, registered, lookup, put, is_sending, poll_driver, receive,
  poll_next, register, enter, drop_fetcher, step, run,
}
use apalis_surrealdb.Shared.Driver.History.{
  drops, claimed_signals, claimed_event, claimed, received_event, received,
}
use apalis_surrealdb.Shared.Driver.Line.{lookup-put, lookup-put_other, lookup-snoc, owed, Line}
use apalis_surrealdb.Shared.Driver.Signals.{filter-append, InLine, InLine-poll_driver}

module _ (m : Mpsc) (laws : MpscLaws m) where
  -- A queue's line after a poll of the receiver of `r`.
  abbrev Received : ℕ → ℕ → List Task → Polled × System m.Chan → Type 0
  Received q r line (p, s) =
      (line' : List Task) × InLine m laws q line' s
      × ((if r == q then given p else []) ++ line' ≡ line)

  receive-InLine :
      (q r : ℕ) (line : List Task) (o : Option m.Chan) (s : System m.Chan)
      → lookup r s.registry ≡ o
      → InLine m laws q line s
      → Received q r line (receive m r o s)
  receive-InLine q r line none s at l =
      (line, l, elim (Bool-cases (r == q)) [ inl t ↦ rw t refl | inr f ↦ rw f refl ])
  receive-InLine q r line (some c) s at l =
      let c' = (m.poll_receive c).1 in
      let due = owed q s.drive in
      elim (Bool-cases (r == q)) [
        | inr f ↦
            let l' : Line m laws q (put r c' s.registry) due line = record {
              chan = l.chan;
              found = lookup-put_other q r c' s.registry f ∙ l.found;
              open_end = l.open_end;
              in_order = l.in_order;
            } in
            (line, l', rw f refl)
        | inl t ↦
            let e : r ≡ q = ground arith in
            let f : lookup q s.registry ≡ some l.chan = l.found in
            let at' : lookup q s.registry ≡ some c = rw (← e) at in
            let same : c ≡ l.chan = cc in
            let i : laws.contents c ++ due ≡ line = rw same l.in_order in
            let l' : Line m laws q (put r c' s.registry) due (laws.contents c' ++ due) = record {
              chan = c';
              found = rw e (lookup-put q c c' s.registry at');
              open_end = laws.receive_connected c ∙ rw same l.open_end;
              in_order = refl;
            } in
            (
              laws.contents c' ++ due,
              l',
              rw t (
                  sym (append_assoc (given (m.poll_receive c).0) (laws.contents c') due)
                  ∙ ap (λ x. x ++ due) (laws.receive_fifo c)
                  ∙ i),
            )
      ]

  drop_fetcher-InLine :
      (q r : ℕ) (line : List Task) (o : Option m.Chan) (s : System m.Chan)
      → (r == q) ≡ false
      → InLine m laws q line s
      → InLine m laws q line (drop_fetcher m r o s)
  drop_fetcher-InLine q r line none s f l = l
  drop_fetcher-InLine q r line (some c) s f l = record {
    chan = l.chan;
    found = lookup-put_other q r (m.drop_receiver c) s.registry f ∙ l.found;
    open_end = l.open_end;
    in_order = l.in_order;
  }

  enter-InLine :
      (q : ℕ) (locked : Bool) (line : List Task) (config : Config) (s : System m.Chan)
      → InLine m laws q line s
      → InLine m laws q line (enter m locked config s).1
  enter-InLine q true line config s l = l
  enter-InLine q false line config s l =
      let new : Entry m.Chan = record {
        queue = config.queue;
        chan = m.channel config.buffer_size;
      } in
      let l' : Line m laws q (s.registry ++ new ∷ []) (owed q s.drive) line = record {
        chan = l.chan;
        found = lookup-snoc q l.chan s.registry new l.found;
        open_end = l.open_end;
        in_order = l.in_order;
      } in
      elim (Bool-cases (any (λ e. e.queue == config.queue) s.registry)) [
        | inl t ↦ rw t l
        | inr f ↦ rw f l'
      ]

  -- A queue's line after an event.
  abbrev Stepped : Apalis → ℕ → List Task → Event → System m.Chan → Type 0
  Stepped apalis q line e s =
      (line' : List Task) × InLine m laws q line' (step m apalis e s)
      × (received_event m apalis q e s ++ line'
          ≡ line ++ filter (is_for q) (claimed_event m apalis e s))

  step-InLine :
      (apalis : Apalis) (q : ℕ) (line : List Task) (e : Event) (s : System m.Chan)
      → drops q e ≡ false
      → InLine m laws q line s
      → Stepped apalis q line e s
  unfolding step poll_next register
  step-InLine apalis q line (polled poisoned r xs) s n l =
      let s' = poll_driver m apalis xs s in
      let l' = InLine-poll_driver m laws apalis q line xs s l in
      elim (Bool-cases poisoned) [
        | inl t ↦ rw t (
            (
              line ++ filter (is_for q) (claimed_signals m apalis xs s),
              l',
              elim (Bool-cases (r == q)) [ inl u ↦ rw u refl | inr f ↦ rw f refl ],
            ))
        | inr f ↦ rw f (
            receive-InLine q r (line ++ filter (is_for q) (claimed_signals m apalis xs s))
              (lookup r s'.registry) s' refl l')
      ]
  step-InLine apalis q line (dropped r) s n l =
      (line, drop_fetcher-InLine q r line (lookup r s.registry) s n l, sym (append-nil line))
  step-InLine apalis q line (registered contended config) s n l = (
    line,
    enter-InLine q (contended || is_sending s.drive) line config s l,
    sym (append-nil line),
  )

  run-InLine :
      (apalis : Apalis) (q : ℕ) (line : List Task) (es : List Event) (s : System m.Chan)
      → All (λ e. drops q e ≡ false) es
      → InLine m laws q line s
      → (line' : List Task) × InLine m laws q line' (run m apalis es s)
        × (received m apalis q es s ++ line' ≡ line ++ filter (is_for q) (claimed m apalis es s))
  unfolding run received claimed
  run-InLine apalis q line [] s n l = (line, l, sym (append-nil line))
  run-InLine apalis q line (e ∷ es) s (n, ns) l =
      let (line', l', h) = step-InLine apalis q line e s n l in
      let (line'', l'', h') = run-InLine apalis q line' es (step m apalis e s) ns l' in
      let r = received_event m apalis q e s in
      let rs = received m apalis q es (step m apalis e s) in
      let c = claimed_event m apalis e s in
      let cs = claimed m apalis es (step m apalis e s) in
      (
        line'',
        l'',
        append_assoc r rs line''
            ∙ ap (λ x. r ++ x) h'
            ∙ sym (append_assoc r line' (filter (is_for q) cs))
            ∙ ap (λ x. x ++ filter (is_for q) cs) h
            ∙ append_assoc line (filter (is_for q) c) (filter (is_for q) cs)
            ∙ ap (λ x. line ++ x) (sym (filter-append (is_for q) c cs)),
      )

  -- In any run in which the fetcher of a registered queue is not dropped, what the fetcher gives out,
  -- followed by what is then in the queue's channel and by what the driver has then still to send to the
  -- queue, is what was in the channel and in the driver's hands at the start, followed by the queue's tasks
  -- among those that the driver claims during the run, in the order of the claims: no task is lost, given
  -- out twice or overtaken, however full the channels are and whichever fetchers poll the driver.
  pub run-fifo :
      (apalis : Apalis) (q : ℕ) (c : m.Chan) (es : List Event) (s : System m.Chan)
      → lookup q s.registry ≡ some c
      → laws.connected c ≡ true
      → All (λ e. drops q e ≡ false) es
      → (c' : m.Chan) × (lookup q (run m apalis es s).registry ≡ some c')
        × (received m apalis q es s ++ (laws.contents c' ++ owed q (run m apalis es s).drive)
            ≡ (laws.contents c ++ owed q s.drive) ++ filter (is_for q) (claimed m apalis es s))
  run-fifo apalis q c es s f o n =
      let (line', l, h) =
        run-InLine apalis q (laws.contents c ++ owed q s.drive) es s n
          (record { chan = c; found = f; open_end = o; in_order = refl }) in
      (l.chan, l.found, ap (λ x. received m apalis q es s ++ x) l.in_order ∙ h)
