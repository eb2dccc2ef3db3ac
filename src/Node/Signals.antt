-- ===== src/Node/Signals.antt =====
-- Exit and `Down` signals of a `Node` (lapinbeam/node.py): their delivery to a local actor, the
-- records that are cleared when a generation of an actor ends, and who is told.
pub mod Kinds
pub mod Frame
pub mod Exits
pub mod Downs
use lapinbeam.Prelude.{
  ℕ, String, Option, none, some, List, [], ◌∷◌, Bool, true, false, ◌==◌, if◌then◌else◌, map,
  string_eq, nat_eq, pair_eq, option_eq,
}
use lapinbeam.Dict
use lapinbeam.Dict.{Dict, Set}
use lapinbeam.Messages.{
  Target, Error, linked_exit, Reason, Message, exit_message, down_message, link_op, monitor_op,
  LinkOp, exit, MonitorOp, down, link_actor, monitor_actor,
}
use lapinbeam.Node.State.{
  Node, ActorChild, Driver, absent, running, done, Task, deliver_exit, deliver_down,
  notify_remote_exit, notify_remote_down, return, Action, local_id, create_tasks,
}
use lapinbeam.Node.Mailboxes.{send_local, send_quietly}

-- `child.pending_exit = RuntimeError(…); child.driver.cancel()`, if the driver is a task that is
-- not done.
unfoldable pub kill : Error → ActorChild → ActorChild
kill why child = elim child.driver [
  | absent ↦ child
  | running cancelling ↦ record child { driver = running true; pending_exit = some why }
  | done ↦ child
]

unfoldable pub kill_child : Error → ℕ → Node → Node
unfolding kill
kill_child why ident n = elim (Dict.get n.children ident) [
  | none ↦ n
  | some child ↦ record n { children = Dict.put n.children ident (kill why child) }
]

-- The child that runs under a name, if any, is killed.
unfoldable pub kill_live : Error → String → Node → Node
unfolding kill_child
kill_live why name n = elim (Dict.get n.live_children name) [
  | none ↦ n
  | some ident ↦ kill_child why ident n
]

unfoldable pub is_trapping : Node → String → Bool
is_trapping n name = elim (Dict.get n.trap_exit name) [ none ↦ false | some enabled ↦ enabled ]

-- A message to a local actor, if it has a mailbox.
unfoldable pub tell : String → Message → Action
tell name msg n =
    if Dict.has n.mailboxes name then send_local name msg none none n else (return tt, n)

-- `_deliver_exit`
unfoldable pub run_deliver_exit : (from_label target : String) → Reason → Action
unfolding is_trapping tell kill_live
run_deliver_exit from_label target reason n =
    if is_trapping n target
    then tell target (exit_message from_label reason) n
    else (return tt, kill_live (linked_exit from_label reason) target n)

-- `_clear_links`
unfoldable pub clear_links : String → Node → Option (Set Target) × Node
clear_links name n = (
  Dict.get n.links name,
  record n { trap_exit = Dict.remove n.trap_exit name; links = Dict.remove n.links name },
)

unfoldable pub exit_task : String → Reason → Target → Task
exit_task actor reason (none, target) = deliver_exit actor target reason
exit_task actor reason (some peer, target) = notify_remote_exit peer target actor reason

-- `_notify_links`
unfoldable pub notify_links : String → Option (Set Target) → Reason → Node → Node
unfolding exit_task
notify_links actor none reason n = n
notify_links actor (some targets) reason n =
    create_tasks (map (exit_task actor reason) (Dict.to_list targets)) n

-- `_notify_remote_exit`
unfoldable pub run_notify_remote_exit : (peer target actor : String) → Reason → Node → Node
run_notify_remote_exit peer target actor reason n =
    send_quietly peer link_actor (link_op (exit target actor reason (local_id n))) n

-- `_deliver_down`
unfoldable pub run_deliver_down : (ref actor_label : String) → Reason → Action
unfolding tell
run_deliver_down ref actor_label reason n = elim (Dict.get n.monitors ref) [
  | none ↦ (return tt, n)
  | some (watcher, _, _) ↦
      tell watcher (down_message ref actor_label reason)
        (record n { monitors = Dict.remove n.monitors ref })
]

-- `_clear_monitors`
unfoldable pub clear_monitors : String → Node → Option (Dict String (Option String × String)) × Node
clear_monitors name n = (
  Dict.get n.monitor_watchers name,
  record n { monitor_watchers = Dict.remove n.monitor_watchers name },
)

unfoldable pub down_task : String → Reason → String × (Option String × String) → Task
down_task actor reason (ref, (none, watcher)) = deliver_down ref actor reason
down_task actor reason (ref, (some node, watcher)) = notify_remote_down node ref actor reason

-- `_notify_monitors`
unfoldable pub notify_monitors :
    String → Option (Dict String (Option String × String)) → Reason → Node → Node
unfolding down_task
notify_monitors actor none reason n = n
notify_monitors actor (some watchers) reason n =
    create_tasks (map (down_task actor reason) (Dict.items watchers)) n

-- `_notify_remote_down`
unfoldable pub run_notify_remote_down : (peer ref actor : String) → Reason → Node → Node
run_notify_remote_down peer ref actor reason n =
    send_quietly peer monitor_actor (monitor_op (down ref actor reason (local_id n))) n
