-- ===== src/Node/Tasks.antt =====
-- The coroutines that the node schedules with `asyncio.create_task`. None of them waits for
-- anything, so each runs in one go; a task that raises is logged by asyncio and changes no more.
use lapinbeam.Prelude.{String, List, [], ◌∷◌, string_eq, pair_eq}
use lapinbeam.Dict
use lapinbeam.Dict.{Set}
use lapinbeam.Messages.{
  Member, group_op, registry_op, GroupOp, RegistryOp, groups_actor, registry_actor,
}
use lapinbeam.Node.State.{
  Node, Task, deliver_exit, deliver_down, notify_remote_exit, notify_remote_down, group_delta,
  group_snapshot, registry_delta, registry_snapshot,
}
use lapinbeam.Node.Mailboxes.{send_quietly}
use lapinbeam.Node.Signals.{
  run_deliver_exit, run_deliver_down, run_notify_remote_exit, run_notify_remote_down,
}

-- `{group: [list(m) for m in members] for group, members in … if members}`
unfoldable pub group_lists : List (String × Set Member) → List (String × List Member)
group_lists [] = []
group_lists ((group, members) ∷ rest) =
    let more = group_lists rest in
    elim (Dict.to_list members) [ [] ↦ more | m ∷ ms ↦ (group, m ∷ ms) ∷ more ]

-- `_send_snapshot` of groups.py
unfoldable pub send_groups : String → Node → Node
send_groups peer n = elim (group_lists (Dict.items n.groups)) [
  | [] ↦ n
  | g ∷ gs ↦ send_quietly peer groups_actor (group_op (GroupOp.snapshot (g ∷ gs))) n
]

-- `_send_snapshot` of registry.py
unfoldable pub send_registry : String → Node → Node
send_registry peer n = elim (Dict.items n.registry) [
  | [] ↦ n
  | r ∷ rs ↦ send_quietly peer registry_actor (registry_op (RegistryOp.snapshot (r ∷ rs))) n
]

-- `_send_delta` of both modules is the send of a delta under `except Exception: pass`.
unfoldable pub run_task : Task → Node → Node
unfolding send_groups send_registry
run_task (deliver_exit from_label target reason) n = (run_deliver_exit from_label target reason n).1
run_task (deliver_down ref actor_label reason) n = (run_deliver_down ref actor_label reason n).1
run_task (notify_remote_exit peer target actor reason) n =
    run_notify_remote_exit peer target actor reason n
run_task (notify_remote_down peer ref actor reason) n =
    run_notify_remote_down peer ref actor reason n
run_task (group_delta peer group member verb) n =
    send_quietly peer groups_actor (group_op (GroupOp.delta group member verb)) n
run_task (group_snapshot peer) n = send_groups peer n
run_task (registry_delta peer name owner verb) n =
    send_quietly peer registry_actor (registry_op (RegistryOp.delta name owner verb)) n
run_task (registry_snapshot peer) n = send_registry peer n
