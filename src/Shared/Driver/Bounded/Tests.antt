-- ===== src/Shared/Driver/Bounded/Tests.antt =====
-- Two queues on one connection, whose channels have no room but the sender's slot.
use apalis_surrealdb.Prelude.{
  ℕ, max, Option, ◌≡◌, ◌++◌, filter, refl, arith, true, false, some, none, List, [], ◌∷◌, map,
}
use apalis_surrealdb.Prelude.Int.{as_i64}
use apalis_surrealdb.Tasks.{Task, Apalis, decode_row}
use apalis_surrealdb.Session.{ok, with_retries}
use apalis_surrealdb.Jobs.Claim.{ahead, fetch_next_shared_query}
use apalis_surrealdb.Tx.{classify_tx_errors}
use apalis_surrealdb.Fetch.{Config, decode_rows, fetch_next_shared}
use apalis_surrealdb.Samples.{task, table, obliging, start}
use apalis_surrealdb.Shared.{namespace_exists, registry_locked, drive_registry}
use apalis_surrealdb.Backend.{shared_storage}
use apalis_surrealdb.Shared.Handles.{made, refused, new_with_codec, make_shared}
use apalis_surrealdb.Shared.Driver.Names.{Registered, names, run-Registered}
use apalis_surrealdb.Shared.Driver.Coarse.{view, poll_driver-drive_registry}
use apalis_surrealdb.Shared.Routes.{is_for, tasks_of}
use apalis_surrealdb.Shared.Driver.{
  Entry, idle, sending, System, woken, answered, resumed, Event, polled, dropped, registered,
  deliver, lookup, is_sending, poll_driver, poll_next, register, step, run,
}
use apalis_surrealdb.Shared.Driver.Bounded.{Bounded, bounded, bounded_laws}
use apalis_surrealdb.Shared.Driver.History.{claimed, received}
use apalis_surrealdb.Shared.Driver.Line.{owed}
use apalis_surrealdb.Shared.Driver.Order.{run-fifo}
use apalis_surrealdb.Shared.Driver.Stalls.{run-stalls}
use apalis_surrealdb.Shared.Driver.Serves.{poll_driver-serves}
use apalis_surrealdb.Shared.Driver.Turns.{turns, turns-rest}

abbrev apalis : Apalis
apalis = record {
  try_into_task_compact = λ r. ok (record (task r.id) { queue = some r.job_type });
  to_string = λ e. 0;
}

abbrev config : ℕ → Config
config queue = record {
  queue = queue;
  buffer_size = 0;
  keep_alive = 1;
  reenqueue_orphaned_after = 1;
}

abbrev entry : ℕ → List Task → Entry Bounded
entry queue tasks = record {
  queue = queue;
  chan = record { buffer = 0; tasks = tasks; open_end = true };
}

abbrev two : System Bounded
two = record { registry = entry 5 [] ∷ entry 6 [] ∷ []; drive = idle; world = start table }

-- Both queues' fetchers polled; the claim is of the tasks 2, 3 and 1 of queue 5, in this order.
abbrev busy : List Event
busy =
    polled false 6 (woken ∷ answered obliging ∷ [])
    ∷ polled false 5 (resumed ∷ [])
    ∷ polled false 5 (resumed ∷ [])
    ∷ []

abbrev ids : List Task → List (Option ℕ)
ids tasks = map (λ t. t.task_id) tasks

claimed_in_order : ids (claimed bounded apalis busy two) ≡ some 2 ∷ some 3 ∷ some 1 ∷ []
unfolding claimed step poll_next poll_driver deliver fetch_next_shared with_retries
    fetch_next_shared_query classify_tx_errors decode_rows ahead decode_row
claimed_in_order = refl

received_in_order : ids (received bounded apalis 5 busy two) ≡ some 2 ∷ some 3 ∷ []
unfolding received step poll_next poll_driver deliver fetch_next_shared with_retries
    fetch_next_shared_query classify_tx_errors decode_rows ahead decode_row
received_in_order = refl

-- The driver waits to send the task 2 to queue 5, whose channel has the task 1.
abbrev crowded : Bounded
crowded = record { buffer = 0; tasks = task 1 ∷ []; open_end = true }

abbrev blocked : System Bounded
blocked = record {
  registry = record { queue = 5; chan = crowded } ∷ entry 6 [] ∷ [];
  drive = sending 5 (some (task 2)) (task 3 ∷ []);
  world = start table;
}

-- The other queue's fetcher is polled and dropped, and a queue is registered.
abbrev elsewhere : List Event
elsewhere =
    polled false 6 (resumed ∷ woken ∷ answered obliging ∷ [])
    ∷ registered false (config 7)
    ∷ dropped 6
    ∷ []

run-stalls_example :
    let s' = run bounded apalis elsewhere blocked in
    (s'.drive ≡ sending 5 (some (task 2)) (task 3 ∷ []))
    × (claimed bounded apalis elsewhere blocked ≡ [])
    × (lookup 5 s'.registry ≡ some crowded)
    × (register bounded false (config 7) s' ≡ (some registry_locked, s'))
run-stalls_example =
    run-stalls bounded apalis 5 (some (task 2)) (task 3 ∷ []) crowded refl elsewhere blocked false
      (config 7) refl refl (refl, (refl, (refl, tt)))

run-fifo_example :
    (c' : Bounded) × (lookup 5 (run bounded apalis busy two).registry ≡ some c')
    × (received bounded apalis 5 busy two
          ++ (c'.tasks ++ owed 5 (run bounded apalis busy two).drive)
        ≡ filter (is_for 5) (claimed bounded apalis busy two))
unfolding bounded_laws
run-fifo_example =
    run-fifo bounded bounded_laws apalis 5 ((entry 5 []).chan) busy two refl refl
      (refl, (refl, (refl, tt)))

-- Three turns: the send of the task 2, its flush and that of the task 3.
turns-rest_example : is_sending (turns bounded bounded_laws apalis 4 blocked).drive ≡ false
turns-rest_example = turns-rest bounded bounded_laws apalis 4 blocked (omega arith)

-- A registration while the driver does not send, and its repetition.
registered_once : (register bounded false (config 7) two).0 ≡ none
unfolding register
registered_once = refl

registered_twice :
    (register bounded false (config 7) (register bounded false (config 7) two).1).0
    ≡ some (namespace_exists 7)
unfolding register
registered_twice = refl

-- A channel with room for all, and one whose receiver is gone.
abbrev roomy : List (Entry Bounded)
roomy =
    record { queue = 5; chan = record { buffer = 4; tasks = []; open_end = true } }
    ∷ record { queue = 6; chan = record { buffer = 4; tasks = []; open_end = false } }
    ∷ []

poll_driver-drive_registry_example :
    let s =
      poll_driver bounded apalis
        (woken ∷ answered obliging ∷ [])
        (record { registry = roomy; drive = idle; world = start table }) in
    (map (view bounded bounded_laws) s.registry, s.world)
    ≡ drive_registry obliging apalis (map (view bounded bounded_laws) roomy) (start table)
unfolding poll_driver deliver fetch_next_shared with_retries fetch_next_shared_query
    classify_tx_errors decode_rows ahead decode_row bounded_laws
poll_driver-drive_registry_example =
    poll_driver-drive_registry bounded bounded_laws obliging apalis roomy (start table)
      ((refl, tt), (tt, tt)) refl

poll_driver-serves_example :
    let (r, w') =
      fetch_next_shared obliging apalis (5 ∷ 6 ∷ []) (as_i64 (max 10 2)) (start table) in
    let s =
      poll_driver bounded apalis
        (woken ∷ answered obliging ∷ [])
        (record { registry = roomy; drive = idle; world = start table }) in
    (s.world ≡ w')
    × ((c' : Bounded) × (lookup 5 s.registry ≡ some c')
        × (c'.tasks ≡ filter (is_for 5) (tasks_of r)))
unfolding poll_driver deliver fetch_next_shared with_retries fetch_next_shared_query
    classify_tx_errors decode_rows ahead decode_row bounded_laws
poll_driver-serves_example =
    poll_driver-serves bounded bounded_laws obliging apalis 5
      (record { buffer = 4; tasks = []; open_end = true }) roomy (start table) refl refl refl

-- Two registrations, one of them repeated, before the polls.
abbrev opened : List Event
opened =
    registered false (config 5) ∷ registered false (config 6) ∷ registered false (config 5) ∷ busy

run-Registered_example :
    Registered bounded (run bounded apalis opened (new_with_codec bounded (start table)))
run-Registered_example = run-Registered bounded apalis opened (start table)

two_queues :
    names (run bounded apalis opened (new_with_codec bounded (start table))).registry ≡ 5 ∷ 6 ∷ []
unfolding run step poll_next poll_driver register deliver fetch_next_shared with_retries
    fetch_next_shared_query classify_tx_errors decode_rows ahead decode_row new_with_codec
two_queues = refl

-- The storage of a queue, and a refusal.
made_once :
    (make_shared bounded config false 9 5 (new_with_codec bounded (start table))).0
    ≡ made (shared_storage 9 (config 5) 5)
unfolding make_shared new_with_codec
made_once = refl

made_twice : (make_shared bounded config false 9 5 two).0 ≡ refused (namespace_exists 5)
unfolding make_shared
made_twice = refl
