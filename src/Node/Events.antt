-- ===== src/Node/Events.antt =====
-- `Node._on_core_event` of lapinbeam/node.py: what the node does by itself when a peer comes or
-- goes, and then the listeners in the order of their registration.
pub mod Quiet
pub mod PeerLost
use lapinbeam.Prelude.{
  ℕ, String, Option, none, some, List, [], ◌∷◌, ◌++◌, Bool, ◌==◌, if◌then◌else◌, map, keep,
  string_eq, pair_eq, option_eq, nat_eq,
}
use lapinbeam.Dict
use lapinbeam.Dict.{Dict, Set}
use lapinbeam.Messages.{Target, Event, peer_connected, peer_disconnected, noconnection, label}
use lapinbeam.Node.State.{
  Node, Future, pending, resolved, failed, Listener, groups_listener, registry_listener,
  discovery_listener, application, Task, deliver_exit, deliver_down, create_tasks,
}
use lapinbeam.Groups
use lapinbeam.Registry

-- `if not fut.done(): fut.set_result(None)`
unfoldable pub resolve : Future → Future
resolve pending = resolved
resolve resolved = resolved
resolve failed = failed

-- A future of the heap is changed.
unfoldable pub settle : (Future → Future) → ℕ → Node → Node
settle f fut n = elim (Dict.get n.futures fut) [
  | none ↦ n
  | some state ↦ record n { futures = Dict.put n.futures fut (f state) }
]

-- `for fut in waiters`
unfoldable pub settle_all : (Future → Future) → List ℕ → Node → Node
unfolding settle
settle_all f [] n = n
settle_all f (fut ∷ futs) n = settle_all f futs (settle f fut n)

unfoldable pub wake_waiters : String → Node → Node
unfolding resolve settle_all
wake_waiters peer n = elim (Dict.get n.peer_waiters peer) [
  | none ↦ n
  | some waiters ↦ settle_all resolve waiters n
]

-- The targets of an actor's links that live on the peer.
unfoldable pub targets_on : String → Set Target → List Target
targets_on peer targets = keep (λ t. t.0 == some peer) (Dict.to_list targets)

unfoldable pub lost_links : String → String → List Target → List Task
lost_links peer name gone = map (λ t. deliver_exit (label peer t.1) name noconnection) gone

unfoldable pub cut_links : String → List (String × Set Target) → Node → Node
cut_links peer [] n = n
cut_links peer ((name, targets) ∷ rest) n =
    let gone = targets_on peer targets in
    cut_links peer rest (
      create_tasks (lost_links peer name gone)
        (record n { links = Dict.put n.links name (Dict.discard_all targets gone) }))

unfoldable pub without_watchers_on :
    String → Dict String (Option String × String) → Dict String (Option String × String)
without_watchers_on peer watchers =
    Dict.remove_all watchers (Dict.keys_of (λ w. w.0 == some peer) watchers)

-- One `Down` for each monitor of an actor on the peer.
unfoldable pub lost_monitors :
    String → List (String × (String × Option String × String)) → List Task
lost_monitors peer [] = []
lost_monitors peer ((ref, (watcher, at, name)) ∷ rest) =
    let more = lost_monitors peer rest in
    if at == some peer then deliver_down ref (label peer name) noconnection ∷ more else more

unfoldable pub on_peer_lost : String → Node → Node
unfolding cut_links targets_on lost_links without_watchers_on lost_monitors
on_peer_lost peer n =
    let n' = cut_links peer (Dict.items n.links) n in
    create_tasks (lost_monitors peer (Dict.items n'.monitors)) (record n' {
      monitor_watchers = Dict.update_values (without_watchers_on peer) n'.monitor_watchers;
    })

unfoldable pub by_itself : Event → Node → Node
unfolding wake_waiters on_peer_lost
by_itself (peer_connected peer) n = wake_waiters peer n
by_itself (peer_disconnected peer) n = on_peer_lost peer n
by_itself event n = n

-- The listener of `register_discovery` (lapinbeam/discovery.py).
unfoldable pub update_known : Event → Node → Node
update_known (peer_connected peer) n = record n { known = Dict.add n.known peer }
update_known (peer_disconnected peer) n = record n { known = Dict.discard n.known peer }
update_known event n = n

-- A listener that raises is logged, and changes nothing.
unfoldable pub call_listener : Event → Listener → Node → Node
unfolding update_known
call_listener event groups_listener n = Groups.on_peer_event event n
call_listener event registry_listener n = Registry.on_peer_event event n
call_listener event discovery_listener n = update_known event n
call_listener event (application k) n = record n { observed = n.observed ++ (k, event) ∷ [] }

unfoldable pub call_listeners : Event → List Listener → Node → Node
unfolding call_listener
call_listeners event [] n = n
call_listeners event (l ∷ ls) n = call_listeners event ls (call_listener event l n)

unfoldable pub on_core_event : Event → Node → Node
unfolding by_itself call_listeners
on_core_event event n = let n' = by_itself event n in call_listeners event n'.listeners n'
