-- ===== src/Shared/Tests.antt =====
-- Routing to two queues on one connection.
use apalis_surrealdb.Prelude.{◌≡◌, refl, true, false, none, some, ℕ, List, [], ◌∷◌}
use apalis_surrealdb.Tasks.{Task}
use apalis_surrealdb.Samples.{task}
use apalis_surrealdb.Shared.{Channel, route, route_all}

abbrev channel : ℕ → List Task → Channel
channel queue sent = record { queue = queue; connected = true; sent = sent }

abbrev claimed : List Task
claimed =
    task 1 ∷ record (task 2) { queue = some 6 } ∷ record (task 3) { queue = none } ∷ task 4 ∷ []

abbrev registry : List Channel
registry = channel 5 [] ∷ record (channel 6 []) { connected = false } ∷ []

routed :
    route_all claimed registry
    ≡ channel 5 (task 1 ∷ task 4 ∷ []) ∷ record (channel 6 []) { connected = false } ∷ []
unfolding route_all route
routed = refl
