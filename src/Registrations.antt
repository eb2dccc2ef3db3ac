-- ===== src/Registrations.antt =====
-- How a node is set up for its cluster: `register_links`, `register_monitors`, `register_groups`,
-- `register_registry` and `register_discovery` of the modules of those names in lapinbeam/. Each
-- spawns its reserved actor; the number of the child and that of its mailbox are arguments.
pub mod Announcing
use lapinbeam.Prelude.{ℕ, some, true, string_eq}
use lapinbeam.Dict
use lapinbeam.Messages.{link_actor, monitor_actor, groups_actor, registry_actor, discovery_actor}
use lapinbeam.Node.State.{
  Node, groups_listener, registry_listener, discovery_listener, Result, local_id,
}
use lapinbeam.Node.Peers.{on_event}
use lapinbeam.Supervisor.Lifecycle.{System}
use lapinbeam.Supervisor.Spawning.{spawn}

-- The set of peers, the listener and the hook, before the actor is spawned.
unfoldable pub watch_groups : Node → Node
unfolding on_event
watch_groups n =
    let n' = on_event groups_listener (record n { group_peers = some Dict.no_elements }) in
    record n' { group_leave_hook = true }

unfoldable pub watch_registry : Node → Node
unfolding on_event
watch_registry n =
    let n' = on_event registry_listener (record n { registry_peers = some Dict.no_elements }) in
    record n' { registry_release_hook = true }

-- `known = {node.local_id}`, with its listener
unfoldable pub watch_peers : Node → Node
unfolding on_event
watch_peers n =
    on_event discovery_listener (record n { known = Dict.add Dict.no_elements (local_id n) })

module _ (capacity ident mailbox : ℕ) where
  unfoldable pub register_links : System → Result (Unit {0}) × System
  unfolding spawn
  register_links sys = spawn capacity link_actor ident mailbox sys

  unfoldable pub register_monitors : System → Result (Unit {0}) × System
  unfolding spawn
  register_monitors sys = spawn capacity monitor_actor ident mailbox sys

  unfoldable pub register_groups : System → Result (Unit {0}) × System
  unfolding spawn watch_groups
  register_groups sys =
      spawn capacity groups_actor ident mailbox (record sys { node = watch_groups sys.node })

  unfoldable pub register_registry : System → Result (Unit {0}) × System
  unfolding spawn watch_registry
  register_registry sys =
      spawn capacity registry_actor ident mailbox (record sys { node = watch_registry sys.node })

  unfoldable pub register_discovery : System → Result (Unit {0}) × System
  unfolding spawn watch_peers
  register_discovery sys =
      spawn capacity discovery_actor ident mailbox (record sys { node = watch_peers sys.node })
