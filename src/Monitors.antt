-- ===== src/Monitors.antt =====
-- lapinbeam/monitors.py: one-way monitors, called from a running actor, and the reserved actor that
-- answers other nodes. The fresh `ref` that `uuid4` gives is an argument.
pub mod Watching
use lapinbeam.Prelude.{String, Option, none, some, if◌then◌else◌, string_eq}
use lapinbeam.Dict
use lapinbeam.Dict.{Dict}
use lapinbeam.Messages.{MonitorOp, monitor_op, noproc, monitor_actor, label, outside_actor}
use lapinbeam.Node.State.{Node, Result, return, raise, Method, Action, local_id}
use lapinbeam.Node.Refs.{Ref, actor_ref, remote_ref}
use lapinbeam.Node.Mailboxes.{send_remote, send_quietly}
use lapinbeam.Node.Signals.{run_deliver_down}

unfoldable pub watchers_of : Node → String → Dict String (Option String × String)
watchers_of n name = elim (Dict.get n.monitor_watchers name) [
  | none ↦ Dict.empty
  | some watchers ↦ watchers
]

-- `node._monitor_watchers.setdefault(name, {})[ref] = watcher`
unfoldable pub add_watcher : String → String → Option String × String → Node → Node
unfolding watchers_of
add_watcher name ref watcher n = record n {
  monitor_watchers = Dict.put n.monitor_watchers name (Dict.put (watchers_of n name) ref watcher);
}

-- `watchers = node._monitor_watchers.get(name)`, and `watchers.pop(ref, None)` if there are any.
unfoldable pub drop_watcher : String → String → Node → Node
drop_watcher name ref n = elim (Dict.get n.monitor_watchers name) [
  | none ↦ n
  | some watchers ↦ record n {
    monitor_watchers = Dict.put n.monitor_watchers name (Dict.remove watchers ref);
  }
]

-- A method's result, once its effects are made.
returning : String → Result (Unit {0}) × Node → Result String × Node
returning ref (return _, n) = (return ref, n)
returning ref (raise e, n) = (raise e, n)

-- `node._monitors[ref] = (me.name, peer_id, name)`
record_monitor : String → Option String → String → String → Node → Node
record_monitor me at name ref n = record n { monitors = Dict.put n.monitors ref (me, at, name) }

watch : String → Ref → String → Action
watch me (actor_ref name) ref n =
    let n' = add_watcher name ref (none, me) (record_monitor me none name ref n) in
    if Dict.has n'.mailboxes name then (return tt, n') else run_deliver_down ref name noproc n'
watch me (remote_ref peer actor) ref n =
    let n' = record_monitor me (some peer) actor ref n in
    send_remote peer monitor_actor (monitor_op (MonitorOp.monitor ref me (local_id n') actor)) none
      none n'

unfoldable pub monitor : (current : Option String) → Ref → (fresh : String) → Method String
unfolding watch returning record_monitor
monitor none other fresh n = (raise outside_actor, n)
monitor (some me) other fresh n = returning fresh (watch me other fresh n)

stop_watching : String → String × Option String × String → Node → Node
stop_watching ref (_, none, name) n = drop_watcher name ref n
stop_watching ref (_, some peer, name) n =
    send_quietly peer monitor_actor (monitor_op (MonitorOp.demonitor ref name)) n

unfoldable pub demonitor : (current : Option String) → (ref : String) → Action
unfolding stop_watching
demonitor none ref n = (raise outside_actor, n)
demonitor (some me) ref n = elim (Dict.get n.monitors ref) [
  | none ↦ (return tt, n)
  | some entry ↦
      (return tt, stop_watching ref entry (record n { monitors = Dict.remove n.monitors ref }))
]

-- `_MonitorActor.receive`
unfoldable pub receive : MonitorOp → Action
receive (MonitorOp.monitor ref watcher watcher_node target) n =
    let n' = add_watcher target ref (some watcher_node, watcher) n in
    if Dict.has n'.mailboxes target
    then (return tt, n')
    else send_remote watcher_node monitor_actor
        (monitor_op (MonitorOp.down ref target noproc (local_id n'))) none none n'
receive (MonitorOp.demonitor ref target) n = (return tt, drop_watcher target ref n)
receive (MonitorOp.down ref actor reason from_node) n =
    run_deliver_down ref (label from_node actor) reason n
