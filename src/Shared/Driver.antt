-- ===== src/Shared/Driver.antt =====
-- src/shared.rs: `drive_registry`, `SharedFetcher` and the registration as steps, with the lock of the
-- registry that the driver keeps while it waits to send, and channels that are bounded.
pub mod Bounded
pub mod Coarse
pub mod History
pub mod Line
pub mod Names
pub mod Order
pub mod Serves
pub mod Signals
pub mod Stalls
pub mod Turns
use apalis_surrealdb.Prelude.{
  ℕ, max, length, Bool, true, false, ◌||◌, Option, none, some, List, [], ◌∷◌, ◌++◌, map, any,
  is_empty, if◌then◌else◌, ◌==◌,
}
use apalis_surrealdb.Prelude.Int.{as_i64}
use apalis_surrealdb.Session.{Result, ok, err, Server, World}
use apalis_surrealdb.Tasks.{Task, Apalis}
use apalis_surrealdb.Fetch.{Config, fetch_next_shared}
use apalis_surrealdb.Shared.{SharedSurrealError, namespace_exists, registry_locked}
use apalis_surrealdb.Shared.Mpsc.{Sent, Polled, waits, ready, Mpsc}

-- An entry of the registry; the channel stands for both its ends.
pub record Entry (Chan : Type 0) : Type 0 where
  pub queue : ℕ
  pub chan : Chan

-- Where the driver's future stands: before the next wake-up, at the claim for these queues, or at the
-- send of a task to a queue, with the tasks that come after it. There it holds the lock.
pub data Drive : Type 0 where
  idle : Drive
  claiming : List ℕ → Drive
  sending : ℕ → Option Task → List Task → Drive

-- `SharedSurrealStorage`, with the database behind it. Its clones, and those of a fetcher, share the registry,
-- the driver and the receiver, so that they stand for the same system.
pub record System (Chan : Type 0) : Type 0 where
  pub registry : List (Entry Chan)
  pub drive : Drive
  pub world : World

-- What a poll of the driver meets: a notification or a tick, the answer to its claim, or the send that it
-- waits for, polled again.
pub data Signal : Type 0 where
  woken : Signal
  answered : Server → Signal
  resumed : Signal

-- A poll of a queue's fetcher, with what its poll of the driver meets; the end of a fetcher; and a
-- registration, where `contended` says that another thread has the lock.
pub data Event : Type 0 where
  polled : (poisoned : Bool) → ℕ → List Signal → Event
  dropped : ℕ → Event
  registered : (contended : Bool) → Config → Event

abbrev pub lookup : {C : Type 0} → ℕ → List (Entry C) → Option C
lookup q [] = none
lookup q (e ∷ es) = let rest = lookup q es in if e.queue == q then some e.chan else rest

abbrev pub put : {C : Type 0} → ℕ → C → List (Entry C) → List (Entry C)
put q c [] = []
put q c (e ∷ es) =
    let rest = put q c es in if e.queue == q then record e { chan = c } ∷ es else e ∷ rest

abbrev pub is_sending : Drive → Bool
is_sending idle = false
is_sending (claiming queues) = false
is_sending (sending q item rest) = true

-- What a claim gives out; an error, which is only logged, gives nothing.
abbrev pub claim : Server → Apalis → List ℕ → World → List Task × World
claim server apalis queues w =
    let (r, w') = fetch_next_shared server apalis queues (as_i64 (max 10 (length queues))) w in
    (elim r [ ok tasks ↦ tasks | err e ↦ [] ], w')

module _ (m : Mpsc) where
  -- The registry, and where the driver stands.
  abbrev pub Moved : Type 0
  Moved = List (Entry m.Chan) × Drive

  -- After a poll of the send to `q`: `go_on` with the next task, or wait.
  abbrev pub sent :
      ℕ → List Task → (List (Entry m.Chan) → Moved) → Sent m.Chan → List (Entry m.Chan) → Moved
  sent q rest go_on s registry =
      if s.finished
      then go_on (put q s.chan registry)
      else (put q s.chan registry, sending q s.left rest)

  -- `registry.get_mut(&queue)`, and a poll of the send if there is a channel.
  abbrev pub send_on :
      ℕ
      → Option Task
      → List Task
      → (List (Entry m.Chan) → Moved)
      → List (Entry m.Chan)
      → Option m.Chan
      → Moved
  send_on q item rest go_on registry none = go_on registry
  send_on q item rest go_on registry (some c) = sent q rest go_on (m.poll_send item c) registry

  abbrev pub send_task :
      Option ℕ → Task → List Task → (List (Entry m.Chan) → Moved) → List (Entry m.Chan) → Moved
  send_task none task rest go_on registry = go_on registry
  send_task (some q) task rest go_on registry =
      send_on q (some task) rest go_on registry (lookup q registry)

  -- The loop over the claimed tasks, up to the first send that has to wait.
  unfoldable pub deliver : List Task → List (Entry m.Chan) → Moved
  deliver [] registry = (registry, idle)
  deliver (t ∷ ts) registry = send_task t.queue t ts (λ r. deliver ts r) registry

  abbrev pub moved : World → Moved → System m.Chan
  moved w p = record { registry = p.0; drive = p.1; world = w }

  -- The driver at a signal that it waits for; it does not notice another.
  abbrev pub advance_at : Apalis → Drive → Signal → System m.Chan → System m.Chan
  advance_at apalis idle woken s =
      let queues = map (λ e. e.queue) s.registry in
      if is_empty queues then s else record s { drive = claiming queues }
  advance_at apalis (claiming queues) (answered server) s =
      let (tasks, w') = claim server apalis queues s.world in moved w' (deliver tasks s.registry)
  advance_at apalis (sending q item rest) resumed s =
      moved s.world (send_on q item rest (λ r. deliver rest r) s.registry (lookup q s.registry))
  advance_at apalis idle (answered server) s = s
  advance_at apalis idle resumed s = s
  advance_at apalis (claiming queues) woken s = s
  advance_at apalis (claiming queues) resumed s = s
  advance_at apalis (sending q item rest) woken s = s
  advance_at apalis (sending q item rest) (answered server) s = s

  unfoldable pub poll_driver : Apalis → List Signal → System m.Chan → System m.Chan
  unfolding deliver
  poll_driver apalis [] s = s
  poll_driver apalis (x ∷ xs) s = poll_driver apalis xs (advance_at apalis s.drive x s)

  -- `receiver.poll_next_unpin`. Every fetcher's queue has an entry.
  abbrev pub receive : ℕ → Option m.Chan → System m.Chan → Polled × System m.Chan
  receive q none s = (waits, s)
  receive q (some c) s =
      let (p, c') = m.poll_receive c in (p, record s { registry = put q c' s.registry })

  -- `SharedFetcher::poll_next`. `poisoned`: a thread panicked with the receiver's lock.
  unfoldable pub poll_next :
      Apalis → (poisoned : Bool) → ℕ → List Signal → System m.Chan → Polled × System m.Chan
  unfolding poll_driver
  poll_next apalis poisoned q xs s =
      let s' = poll_driver apalis xs s in
      if poisoned then (ready none, s') else receive q (lookup q s'.registry) s'

  -- `make_shared_with_config` after `try_lock`: why it is refused, if it is, and the system.
  abbrev pub enter :
      (locked : Bool) → Config → System m.Chan → Option SharedSurrealError × System m.Chan
  enter true config s = (some registry_locked, s)
  enter false config s =
      let entry : Entry m.Chan = record {
        queue = config.queue;
        chan = m.channel config.buffer_size;
      } in
      if any (λ e. e.queue == config.queue) s.registry
      then (some (namespace_exists config.queue), s)
      else (none, record s { registry = s.registry ++ entry ∷ [] })

  unfoldable pub register :
      (contended : Bool) → Config → System m.Chan → Option SharedSurrealError × System m.Chan
  register contended config s = enter (contended || is_sending s.drive) config s

  abbrev pub drop_fetcher : ℕ → Option m.Chan → System m.Chan → System m.Chan
  drop_fetcher q none s = s
  drop_fetcher q (some c) s = record s { registry = put q (m.drop_receiver c) s.registry }

  unfoldable pub step : Apalis → Event → System m.Chan → System m.Chan
  unfolding poll_next register
  step apalis (polled poisoned q xs) s = (poll_next apalis poisoned q xs s).1
  step apalis (dropped q) s = drop_fetcher q (lookup q s.registry) s
  step apalis (registered contended config) s = (register contended config s).1

  unfoldable pub run : Apalis → List Event → System m.Chan → System m.Chan
  unfolding step
  run apalis [] s = s
  run apalis (e ∷ es) s = run apalis es (step apalis e s)
