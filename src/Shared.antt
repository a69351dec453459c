-- ===== src/Shared.antt =====
-- src/shared.rs: the registry of queues that share a connection, and the driver that claims for all
-- of them. The code itself, with the bound of the channels, the lock and the steps of the driver, is
-- modelled in Shared/Driver and Shared/Handles.
--
-- This file is a specification of the driver: what a wake-up comes to where no channel is ever full. A
-- channel is then the list of all that it was sent, and a wake-up is one step.
pub mod Driver
pub mod Handles
pub mod Mpsc
pub mod Routes
mod Tests
use apalis_surrealdb.Prelude.{
  ℕ, zero, suc, max, Bool, true, false, Option, none, some, List, [], ◌∷◌, ◌++◌, map, any, length,
  is_empty, if◌then◌else◌, ◌==◌,
}
use apalis_surrealdb.Prelude.Int.{as_i64}
use apalis_surrealdb.Session.{Result, ok, err, Server, World}
use apalis_surrealdb.Tasks.{Task, Apalis}
use apalis_surrealdb.Fetch.{fetch_next_shared}

-- `connected`: the receiver is still there. `sent`: what was sent while it was, oldest first.
pub record Channel : Type 0 where
  pub queue : ℕ
  pub connected : Bool
  pub sent : List Task

pub data SharedSurrealError : Type 0 where
  namespace_exists : ℕ → SharedSurrealError
  registry_locked : SharedSurrealError

abbrev pub send : Task → Channel → Channel
send task c = if c.connected then record c { sent = c.sent ++ task ∷ [] } else c

-- A task to the channel of a queue: the names in the registry are distinct.
abbrev pub send_to : ℕ → Task → List Channel → List Channel
send_to queue task registry = map (λ c. if c.queue == queue then send task c else c) registry

unfoldable pub route : Task → List Channel → List Channel
route task registry = elim task.queue [ none ↦ registry | some queue ↦ send_to queue task registry ]

-- All the claimed tasks in their order.
unfoldable pub route_all : List Task → List Channel → List Channel
unfolding route
route_all [] registry = registry
route_all (t ∷ ts) registry = route_all ts (route t registry)

abbrev pub queues_of : List Channel → List ℕ
queues_of registry = map (λ c. c.queue) registry

abbrev pub delivered : List Channel → Result (List Task) → List Channel
delivered registry (ok tasks) = route_all tasks registry
delivered registry (err e) = registry

-- A wake-up or tick as one step; an error is only logged.
unfoldable pub drive_registry : Server → Apalis → List Channel → World → List Channel × World
unfolding route_all
drive_registry server apalis registry w =
    let limit = as_i64 (max 10 (length registry)) in
    let (r, w') = fetch_next_shared server apalis (queues_of registry) limit w in
    if is_empty registry then (registry, w) else (delivered registry r, w')
