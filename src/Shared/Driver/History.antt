-- ===== src/Shared/Driver/History.antt =====
-- What a run of the steps of src/shared.rs claims and gives out, read off its events.
use apalis_surrealdb.Prelude.{ℕ, Bool, false, List, [], ◌∷◌, ◌++◌, if◌then◌else◌, ◌==◌}
use apalis_surrealdb.Tasks.{Task, Apalis}
use apalis_surrealdb.Shared.Mpsc.{Mpsc, given}
use apalis_surrealdb.Shared.Driver.{
  Drive, idle, claiming, sending, System, Signal, woken, answered, resumed, Event, polled, dropped,
  registered, claim, advance_at, poll_next, step,
}

-- The event ends the fetcher of `q`.
abbrev pub drops : ℕ → Event → Bool
drops q (polled poisoned r xs) = false
drops q (dropped r) = r == q
drops q (registered contended config) = false

module _ (m : Mpsc) where
  -- The tasks that an answer to the driver's claim brings.
  abbrev pub claimed_at : Apalis → Drive → Signal → System m.Chan → List Task
  claimed_at apalis (claiming queues) (answered server) s = (claim server apalis queues s.world).0
  claimed_at apalis (claiming queues) woken s = []
  claimed_at apalis (claiming queues) resumed s = []
  claimed_at apalis idle x s = []
  claimed_at apalis (sending q item rest) x s = []

  abbrev pub claimed_signals : Apalis → List Signal → System m.Chan → List Task
  claimed_signals apalis [] s = []
  claimed_signals apalis (x ∷ xs) s =
      claimed_at apalis s.drive x s ++ claimed_signals apalis xs (advance_at m apalis s.drive x s)

  abbrev pub claimed_event : Apalis → Event → System m.Chan → List Task
  claimed_event apalis (polled poisoned q xs) s = claimed_signals apalis xs s
  claimed_event apalis (dropped q) s = []
  claimed_event apalis (registered contended config) s = []

  -- All the tasks that the driver claims in a run, in their order.
  unfoldable pub claimed : Apalis → List Event → System m.Chan → List Task
  claimed apalis [] s = []
  claimed apalis (e ∷ es) s = claimed_event apalis e s ++ claimed apalis es (step m apalis e s)

  abbrev pub received_event : Apalis → ℕ → Event → System m.Chan → List Task
  received_event apalis q (polled poisoned r xs) s =
      if r == q then given (poll_next m apalis poisoned r xs s).0 else []
  received_event apalis q (dropped r) s = []
  received_event apalis q (registered contended config) s = []

  -- The tasks that the fetcher of `q` gives out in a run, in their order.
  unfoldable pub received : Apalis → ℕ → List Event → System m.Chan → List Task
  received apalis q [] s = []
  received apalis q (e ∷ es) s =
      received_event apalis q e s ++ received apalis q es (step m apalis e s)
