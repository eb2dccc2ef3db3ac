-- ===== src/Tests/Setting.antt =====
-- Examples of what is proved of lapinbeam/refs.py, of the stop of a node and of `register_groups`.
use mathlib.Core.List.{Mem}
use lapinbeam.Prelude.{
  ℕ, String, none, some, List, [], ◌∷◌, ◌++◌, false, ◌==◌, ◌≡◌, ◌⊎◌, refl, elem, string_eq, nat_eq,
  pair_eq, option_eq, arith, Bool-cases, inl, inr, if◌then◌else◌,
}
use lapinbeam.Dict
use lapinbeam.Dict.{get-put, get-empty}
use lapinbeam.Messages.{Message, user, join, groups_actor, group_op, GroupOp}
use lapinbeam.Node.State.{
  Node, ActorChild, done, unset, over, return, group_delta, send_data, local_id, call_core,
  create_tasks,
}
use lapinbeam.Node.Refs.{actor_ref}
use lapinbeam.Node.Mailboxes.{queue_at, register_actor, send_local}
use lapinbeam.Node.Running.{actor_tasks, stop_node, stop, close}
use lapinbeam.Supervisor.Lifecycle.{end_generation, cancel_child, cancel_children, tell_ended}
use lapinbeam.Registry.{clear_registry}
use lapinbeam.Node.Signals.{clear_monitors, clear_links, notify_monitors, notify_links}
use lapinbeam.Node.Mailboxes.{unregister_actor}
use lapinbeam.Node.Running.Ending.{stop_node_ends}
use lapinbeam.Asks.{begin_ask, new_queue}
use lapinbeam.Context.{send}
use lapinbeam.Groups
use lapinbeam.Registry
use lapinbeam.Groups.{join_group, clear_groups, discard_member}
use lapinbeam.Supervisor.Spawning.Leaving.{distinct}
use lapinbeam.Supervisor.Lifecycle.Shutdown.{IsCalm}
use lapinbeam.References.{Call, Begun, begin_asks, map_pool}
use lapinbeam.References.Mapping.{map_pool_in_order}
use lapinbeam.Registrations.Announcing.{with_peer, register_groups-announces}
use lapinbeam.Node.Tasks.{run_task}
use lapinbeam.Tests.Samples.{alpha, core, worker, some_meta, system, nothing_overlaps}

-- Two asks of the actor `boss`, and the answers to both, the second of which comes first.
abbrev ask_name : ℕ → String
ask_name number = if number == 1 then "ask_1" else "ask_2"

abbrev items : List (Message × Call)
items = (user 5, record { number = 1; box = 2 }) ∷ (user 6, record { number = 2; box = 3 }) ∷ []

abbrev answer : ℕ → Message
answer number = user number

abbrev answered : Node → Node
answered n = record n {
  queues =
      Dict.put (Dict.put n.queues 3 (record { maxsize = 1; waiting = (user 2, some_meta) ∷ [] })) 2
        (record { maxsize = 1; waiting = (user 1, some_meta) ∷ [] });
}

abbrev last_first : List Begun → List Begun
last_first [] = []
last_first (b ∷ begun) = last_first begun ++ b ∷ []

abbrev begun_asks : List Begun × Node
begun_asks = begin_asks ask_name (actor_ref "boss") items alpha

map_pool_in_order_example :
    (map_pool ask_name false answered last_first (actor_ref "boss") items alpha).0
    ≡ return (some (return (user 1) ∷ return (user 2) ∷ []))
unfolding begin_asks begin_ask new_queue register_actor send send_local queue_at call_core distinct
    elem Dict.get Dict.put Dict.empty
map_pool_in_order_example =
    map_pool_in_order ask_name answer false answered last_first (actor_ref "boss") items alpha
      begun_asks.0 begun_asks.1 refl refl (refl, (refl, tt))
      ((refl, (some_meta, [], refl)), ((refl, (some_meta, [], refl)), tt))

register_groups-announces_example :
    let n = with_peer 10 9 5 system "beta" in
    let task = group_delta "beta" "team" (local_id n, "worker") join in
    Mem task (join_group (some "worker") none "team" n).1.tasks
    × ((run_task task alpha).calls
        ≡ alpha.calls
          ++ send_data "beta" groups_actor
              (group_op (GroupOp.delta "team" (local_id n, "worker") join))
              none
              none
            ∷ [])
register_groups-announces_example =
    register_groups-announces 10 9 5 system "beta" "worker" "team" alpha core refl refl

alpha-IsCalm : IsCalm alpha
alpha-IsCalm ident child e = elim (Bool-cases (7 == ident)) [
  | inl p ↦ ground (arith, get-put (Dict.empty {V = ActorChild}) 7 ident worker)
  | inr p ↦ ground (
    arith,
    get-put (Dict.empty {V = ActorChild}) 7 ident worker,
    get-empty {V = ActorChild} ident,
  )
]

abbrev ended_worker : ActorChild
ended_worker = record worker { driver = done; task = over }

stop_node_ends_example : (ended_worker.task ≡ unset) ⊎ (ended_worker.task ≡ over)
unfolding stop_node actor_tasks Dict.keys_of Dict.get Dict.put Dict.empty stop cancel_child
    end_generation clear_registry clear_groups clear_monitors clear_links unregister_actor close
    call_core Dict.items cancel_children tell_ended notify_monitors create_tasks notify_links
    Dict.contains Dict.add Dict.no_elements local_id discard_member Groups.broadcast
    Registry.broadcast
stop_node_ends_example = stop_node_ends nothing_overlaps alpha 7 ended_worker alpha-IsCalm refl
