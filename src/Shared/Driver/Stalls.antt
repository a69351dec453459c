-- ===== src/Shared/Driver/Stalls.antt =====
-- The lock of the registry that the driver of src/shared.rs keeps while it waits to send.
use apalis_surrealdb.Prelude.{
  ℕ, ◌≡◌, refl, sym, ap, ◌∙◌, subst, Bool, true, false, Option, none, some, List, [], ◌∷◌, ◌++◌,
  All, ◌==◌, Bool-cases, inl, inr,
}
use apalis_surrealdb.Session.{World}
use apalis_surrealdb.Tasks.{Task, Apalis}
use apalis_surrealdb.Fetch.{Config}
use apalis_surrealdb.Shared.{registry_locked}
use apalis_surrealdb.Shared.Mpsc.{Sent, Mpsc}
use apalis_surrealdb.Shared.Driver.{
  Entry, Drive, sending, System, Signal, woken, answered, resumed, Event, polled, dropped,
  registered, lookup, is_sending, deliver, advance_at, send_on, moved, poll_driver, receive,
  poll_next, register, enter, drop_fetcher, step, run,
}
use apalis_surrealdb.Shared.Driver.History.{claimed_at, claimed_signals, claimed_event, claimed}
use apalis_surrealdb.Shared.Driver.Line.{lookup-put, lookup-put_other}

-- The event is a poll or the end of the fetcher of `q`.
abbrev pub uses : ℕ → Event → Bool
uses q (polled poisoned r xs) = r == q
uses q (dropped r) = r == q
uses q (registered contended config) = false

-- The poll of a send that waits.
abbrev pub full : {C : Type 0} → Option Task → C → Sent C
full item c = record { left = item; finished = false; chan = c }

module _ (m : Mpsc) (apalis : Apalis) (q : ℕ) (item : Option Task) (rest : List Task) (c : m.Chan)
    (waits_on : m.poll_send item c ≡ full item c) where
  -- The driver waits to send to `q`, whose channel is `c`.
  abbrev Stuck : System m.Chan → Type 0
  Stuck s = (s.drive ≡ sending q item rest) × (lookup q s.registry ≡ some c)

  send_on-Stuck :
      (go_on : List (Entry m.Chan) → List (Entry m.Chan) × Drive)
      → (registry : List (Entry m.Chan)) (o : Option m.Chan) (w : World) → lookup q registry ≡ o
      → o ≡ some c
      → Stuck (moved m w (send_on m q item rest go_on registry o))
  send_on-Stuck go_on registry none w at e = absurd (cc)
  send_on-Stuck go_on registry (some d) w at e =
      let same : d ≡ c = cc in
      let p : m.poll_send item d ≡ full item c = rw same waits_on in
      rw p ((refl, lookup-put q d c registry at))

  advance_at-Stuck :
      (x : Signal) (s : System m.Chan)
      → Stuck s
      → Stuck (advance_at m apalis (sending q item rest) x s)
  advance_at-Stuck woken s h = h
  advance_at-Stuck (answered server) s h = h
  advance_at-Stuck resumed s (d, f) =
      send_on-Stuck (λ r. deliver m rest r) s.registry (lookup q s.registry) s.world refl f

  poll_driver-Stuck :
      (xs : List Signal) (s : System m.Chan)
      → Stuck s
      → Stuck (poll_driver m apalis xs s) × (claimed_signals m apalis xs s ≡ [])
  unfolding poll_driver
  poll_driver-Stuck [] s h = (h, refl)
  poll_driver-Stuck (x ∷ xs) s h =
      let e = h.0 in
      let h' : Stuck (advance_at m apalis s.drive x s) =
        subst (λ d. Stuck (advance_at m apalis d x s)) (sym e) (advance_at-Stuck x s h) in
      let n : claimed_at m apalis s.drive x s ≡ [] = ap (λ d. claimed_at m apalis d x s) e in
      let (k, ns) = poll_driver-Stuck xs (advance_at m apalis s.drive x s) h' in
      (k, ap (λ l. l ++ claimed_signals m apalis xs (advance_at m apalis s.drive x s)) n ∙ ns)

  receive-Stuck :
      (r : ℕ) (o : Option m.Chan) (s : System m.Chan)
      → (r == q) ≡ false
      → Stuck s
      → Stuck (receive m r o s).1
  receive-Stuck r none s n h = h
  receive-Stuck r (some d) s n (e, f) =
      (e, lookup-put_other q r (m.poll_receive d).1 s.registry n ∙ f)

  drop_fetcher-Stuck :
      (r : ℕ) (o : Option m.Chan) (s : System m.Chan)
      → (r == q) ≡ false
      → Stuck s
      → Stuck (drop_fetcher m r o s)
  drop_fetcher-Stuck r none s n h = h
  drop_fetcher-Stuck r (some d) s n (e, f) =
      (e, lookup-put_other q r (m.drop_receiver d) s.registry n ∙ f)

  -- Every registration is refused.
  register-refused :
      (contended : Bool) (config : Config) (s : System m.Chan)
      → Stuck s
      → register m contended config s ≡ (some registry_locked, s)
  unfolding register
  register-refused true config s h = refl
  register-refused false config s h = ap (λ d. enter m (is_sending d) config s) (h.0)

  step-Stuck :
      (e : Event) (s : System m.Chan)
      → uses q e ≡ false
      → Stuck s
      → Stuck (step m apalis e s) × (claimed_event m apalis e s ≡ [])
  unfolding step poll_next
  step-Stuck (polled poisoned r xs) s n h =
      let s' = poll_driver m apalis xs s in
      let (k, ns) = poll_driver-Stuck xs s h in
      elim (Bool-cases poisoned) [
        | inl t ↦ rw t ((k, ns))
        | inr f ↦ rw f ((receive-Stuck r (lookup r s'.registry) s' n k, ns))
      ]
  step-Stuck (dropped r) s n h = (drop_fetcher-Stuck r (lookup r s.registry) s n h, refl)
  step-Stuck (registered contended config) s n h =
      (subst Stuck (sym (ap (λ p. p.1) (register-refused contended config s h))) h, refl)

  run-Stuck :
      (es : List Event) (s : System m.Chan)
      → All (λ e. uses q e ≡ false) es
      → Stuck s
      → Stuck (run m apalis es s) × (claimed m apalis es s ≡ [])
  unfolding run claimed
  run-Stuck [] s n h = (h, refl)
  run-Stuck (e ∷ es) s (n, ns) h =
      let (h', x) = step-Stuck e s n h in
      let (h'', xs) = run-Stuck es (step m apalis e s) ns h' in
      (h'', ap (λ l. l ++ claimed m apalis es (step m apalis e s)) x ∙ xs)

  -- While the driver waits to send to a queue whose channel is full, and the queue's fetcher is neither
  -- polled nor dropped, whatever else happens: the driver stays at that send, it claims nothing for any
  -- queue, the full channel stays as it is, and a registration of any queue is refused because the registry
  -- is locked.
  pub run-stalls :
      (es : List Event) (s : System m.Chan) (contended : Bool) (config : Config)
      → s.drive ≡ sending q item rest
      → lookup q s.registry ≡ some c
      → All (λ e. uses q e ≡ false) es
      → let s' = run m apalis es s in
        (s'.drive ≡ sending q item rest)
        × (claimed m apalis es s ≡ [])
        × (lookup q s'.registry ≡ some c)
        × (register m contended config s' ≡ (some registry_locked, s'))
  run-stalls es s contended config d f n =
      let (h, x) = run-Stuck es s n (d, f) in
      (h.0, x, h.1, register-refused contended config (run m apalis es s) h)
