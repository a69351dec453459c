-- ===== src/Shared/Driver/Turns.antt =====
-- The sends of the driver of src/shared.rs come to an end when the fetchers that it waits for are polled.
use apalis_surrealdb.Prelude.{
  ℕ, zero, suc, ◌+◌, ◌*◌, ◌≤◌, ◌<◌, ◌≡◌, ◌≢◌, refl, sym, ap, ◌∙◌, false, Option, none, some, List,
  [], ◌∷◌, ◌++◌, length, length-append, Bool-cases, inl, inr, arith,
}
use apalis_surrealdb.Tasks.{Task, Apalis}
use apalis_surrealdb.Shared.Mpsc.{Sent, Mpsc, MpscLaws, items, given}
use apalis_surrealdb.Shared.Driver.{
  Entry, Drive, idle, claiming, sending, System, resumed, Event, polled, lookup, put, is_sending,
  sent, send_on, send_task, deliver, advance_at, poll_driver, receive, poll_next, step, run,
}
use apalis_surrealdb.Shared.Driver.Line.{lookup-put}

-- Two for a task that is to be sent, and one for one that waits for its flush.
abbrev pub weight : Drive → ℕ
weight idle = 0
weight (claiming queues) = 0
weight (sending q item rest) = 2 * length rest + 1 + length (items item)

module _ (m : Mpsc) (laws : MpscLaws m) (apalis : Apalis) where
  -- `n` polls of the fetcher of `q`, which takes `n` tasks if there are as many.
  abbrev pub takes : ℕ → ℕ → List Event
  takes zero q = []
  takes (suc n) q = polled false q [] ∷ takes n q

  abbrev pub backlog : Option m.Chan → ℕ
  backlog none = 0
  backlog (some c) = length (laws.contents c)

  -- The fetcher that the driver waits for takes what is in its channel, and polls the driver.
  abbrev pub turn : Drive → System m.Chan → List Event
  turn idle s = []
  turn (claiming queues) s = []
  turn (sending q item rest) s =
      takes (backlog (lookup q s.registry)) q ++ polled false q (resumed ∷ []) ∷ []

  unfoldable pub turns : ℕ → System m.Chan → System m.Chan
  turns zero s = s
  turns (suc n) s = turns n (run m apalis (turn s.drive s) s)

  items_short : (o : Option Task) → length (items o) ≤ 1
  items_short none = omega arith
  items_short (some t) = omega arith

  not_empty : (l : List Task) → l ≢ [] → 1 ≤ length l
  not_empty [] n = absurd (n refl)
  not_empty (x ∷ l) n = omega arith

  no_length : (l : List Task) → length l ≡ 0 → l ≡ []
  no_length [] e = refl
  no_length (x ∷ l) e = absurd (omega arith)

  sent-weight :
      (q : ℕ) (ts : List Task) (go_on : List (Entry m.Chan) → List (Entry m.Chan) × Drive)
      → ((registry : List (Entry m.Chan)) → weight (go_on registry).1 ≤ 2 * length ts)
      → (s : Sent m.Chan) (registry : List (Entry m.Chan)) (bound : ℕ) → 2 * length ts ≤ bound
      → (s.finished ≡ false → 2 * length ts + 1 + length (items s.left) ≤ bound)
      → weight (sent m q ts go_on s registry).1 ≤ bound
  sent-weight q ts go_on h s registry bound le waiting = elim (Bool-cases s.finished) [
    | inl t ↦ rw t (let k = h (put q s.chan registry) in omega arith)
    | inr f ↦ rw f (waiting f)
  ]

  send_on-weight :
      (q : ℕ) (t : Task) (ts : List Task)
      → (go_on : List (Entry m.Chan) → List (Entry m.Chan) × Drive)
      → ((registry : List (Entry m.Chan)) → weight (go_on registry).1 ≤ 2 * length ts)
      → (registry : List (Entry m.Chan)) (o : Option m.Chan)
      → weight (send_on m q (some t) ts go_on registry o).1 ≤ 2 * length (t ∷ ts)
  send_on-weight q t ts go_on h registry none = let k = h registry in omega arith
  send_on-weight q t ts go_on h registry (some c) =
      let s = m.poll_send (some t) c in
      let k = items_short s.left in
      sent-weight q ts go_on h s registry (2 * length (t ∷ ts)) (omega arith) (λ _. omega arith)

  send_task-weight :
      (o : Option ℕ) (t : Task) (ts : List Task)
      → (go_on : List (Entry m.Chan) → List (Entry m.Chan) × Drive)
      → ((registry : List (Entry m.Chan)) → weight (go_on registry).1 ≤ 2 * length ts)
      → (registry : List (Entry m.Chan))
      → weight (send_task m o t ts go_on registry).1 ≤ 2 * length (t ∷ ts)
  send_task-weight none t ts go_on h registry = let k = h registry in omega arith
  send_task-weight (some q) t ts go_on h registry =
      send_on-weight q t ts go_on h registry (lookup q registry)

  deliver-weight :
      (tasks : List Task) (registry : List (Entry m.Chan))
      → weight (deliver m tasks registry).1 ≤ 2 * length tasks
  unfolding deliver
  deliver-weight [] registry = omega arith
  deliver-weight (t ∷ ts) registry =
      send_task-weight t.queue t ts (λ r. deliver m ts r) (λ r. deliver-weight ts r) registry

  -- A send to an empty channel gets on.
  left_shorter :
      (item : Option Task) (c : m.Chan)
      → laws.contents c ≡ []
      → (m.poll_send item c).finished ≡ false
      → length (items (m.poll_send item c).left) < length (items item)
  left_shorter item c e n = elim (Bool-cases (laws.connected c)) [
    | inr gone ↦ let t = laws.send_gone item c gone in absurd (cc)
    | inl o ↦
        let s = m.poll_send item c in
        let k = not_empty (laws.contents s.chan) (laws.send_room item c n) in
        let f : laws.contents s.chan ++ items s.left ≡ items item =
          laws.send_fifo item c o ∙ ap (λ l. l ++ items item) e in
        let g = sym (length-append (laws.contents s.chan) (items s.left)) ∙ ap length f in
        omega arith
  ]

  send_on-progress :
      (q : ℕ) (item : Option Task) (rest : List Task) (registry : List (Entry m.Chan))
      → (o : Option m.Chan) → backlog o ≡ 0
      → weight (send_on m q item rest (λ r. deliver m rest r) registry o).1
        < weight (sending q item rest)
  send_on-progress q item rest registry none e = let k = deliver-weight rest registry in omega arith
  send_on-progress q item rest registry (some c) e =
      let s = m.poll_send item c in
      let bound = 2 * length rest + length (items item) in
      let k =
        sent-weight q rest (λ r. deliver m rest r) (λ r. deliver-weight rest r) s registry bound
          (omega arith)
          (λ n. let l = left_shorter item c (no_length (laws.contents c) e) n in omega arith) in
      omega arith

  one_fewer :
      (n : ℕ) (taken left l : List Task)
      → taken ++ left ≡ l
      → (taken ≡ [] → l ≡ [])
      → length l ≤ suc n
      → length left ≤ n
  one_fewer n [] left l e h le = let k = ap length (e ∙ h refl) in omega arith
  one_fewer n (x ∷ taken) left l e h le =
      let k = ap length e in let j = length-append taken left in omega arith

  -- A poll of a fetcher takes a task from its channel.
  receive-backlog :
      (q n : ℕ) (o : Option m.Chan) (s : System m.Chan)
      → lookup q s.registry ≡ o
      → backlog o ≤ suc n
      → backlog (lookup q (receive m q o s).1.registry) ≤ n
  receive-backlog q n none s at le = let k = ap backlog at in omega arith
  receive-backlog q n (some c) s at le =
      let c' = (m.poll_receive c).1 in
      let k =
        one_fewer n (given (m.poll_receive c).0) (laws.contents c') (laws.contents c)
          (laws.receive_fifo c) (laws.receive_waits c) le in
      let e = ap backlog (lookup-put q c c' s.registry at) in omega arith

  receive-drive :
      (q : ℕ) (o : Option m.Chan) (s : System m.Chan) → (receive m q o s).1.drive ≡ s.drive
  receive-drive q none s = refl
  receive-drive q (some c) s = refl

  -- The last poll of a turn.
  resume-progress :
      (q : ℕ) (item : Option Task) (rest : List Task) (s : System m.Chan)
      → s.drive ≡ sending q item rest
      → backlog (lookup q s.registry) ≡ 0
      → weight (step m apalis (polled false q (resumed ∷ [])) s).drive
        < weight (sending q item rest)
  unfolding step poll_next poll_driver
  resume-progress q item rest s d e =
      let s' = advance_at m apalis s.drive resumed s in
      let k = ap weight (receive-drive q (lookup q s'.registry) s') in
      let f = ap (λ x. weight (advance_at m apalis x resumed s).drive) d in
      let p = send_on-progress q item rest s.registry (lookup q s.registry) e in omega arith

  taken-drive : (q : ℕ) (s : System m.Chan) → (step m apalis (polled false q []) s).drive ≡ s.drive
  unfolding step poll_next poll_driver
  taken-drive q s = receive-drive q (lookup q s.registry) s

  taken-backlog :
      (q n : ℕ) (s : System m.Chan)
      → backlog (lookup q s.registry) ≤ suc n
      → backlog (lookup q (step m apalis (polled false q []) s).registry) ≤ n
  unfolding step poll_next poll_driver
  taken-backlog q n s le = receive-backlog q n (lookup q s.registry) s refl le

  turn-progress :
      (q n : ℕ) (item : Option Task) (rest : List Task) (s : System m.Chan)
      → s.drive ≡ sending q item rest
      → backlog (lookup q s.registry) ≤ n
      → weight (run m apalis (takes n q ++ polled false q (resumed ∷ []) ∷ []) s).drive
        < weight (sending q item rest)
  unfolding run
  turn-progress q zero item rest s d le = resume-progress q item rest s d (omega arith)
  turn-progress q (suc n) item rest s d le =
      let s' = step m apalis (polled false q []) s in
      turn-progress q n item rest s' (taken-drive q s ∙ d) (taken-backlog q n s le)

  turn-weight :
      (n : ℕ) (d : Drive) (s : System m.Chan)
      → s.drive ≡ d
      → weight d ≤ suc n
      → weight (run m apalis (turn d s) s).drive ≤ n
  unfolding run
  turn-weight n idle s e le = let k = ap weight e in omega arith
  turn-weight n (claiming queues) s e le = let k = ap weight e in omega arith
  turn-weight n (sending q item rest) s e le =
      let k = turn-progress q (backlog (lookup q s.registry)) item rest s e (omega arith) in
      omega arith

  no_weight : (d : Drive) → weight d ≤ 0 → is_sending d ≡ false
  no_weight idle le = refl
  no_weight (claiming queues) le = refl
  no_weight (sending q item rest) le = absurd (omega arith)

  -- Where the driver waits to send, let the fetcher of the queue that it waits for take what is in its
  -- channel and then poll the driver, and then the same for the queue that it waits for next. After as many
  -- such turns as the weight of what it has still to send, which is two for a task that is to be sent and
  -- one for one that waits for its flush, or more, the driver has none left and has given up the lock of the
  -- registry, whatever room the channels have and whichever receivers are gone.
  pub turns-rest :
      (n : ℕ) (s : System m.Chan) → weight s.drive ≤ n → is_sending (turns n s).drive ≡ false
  unfolding turns
  turns-rest zero s le = no_weight s.drive le
  turns-rest (suc n) s le =
      turns-rest n (run m apalis (turn s.drive s) s) (turn-weight n s.drive s refl le)
