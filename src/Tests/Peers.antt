-- ===== src/Tests/Peers.antt =====
-- Examples of what is proved of connections and of the stop of a node (lapinbeam/node.py).
use lapinbeam.Prelude.{none, false, ◌≡◌, refl, if◌then◌else◌, string_eq, nat_eq, pair_eq, option_eq}
use lapinbeam.Messages.{peer_connected, not_started, stopped_connecting}
use lapinbeam.Node.State.{Node, return, raise}
use lapinbeam.Node.Events.{on_core_event}
use lapinbeam.Node.Mailboxes.{register_actor}
use lapinbeam.Node.Mailboxes.Delivery.{mailbox_of}
use lapinbeam.Node.Peers.{begin_connect, end_connect}
use lapinbeam.Node.Peers.Waiters.{waiters_of}
use lapinbeam.Node.Peers.Connecting.{connect_peer_connected}
use lapinbeam.Node.Running.{close}
use lapinbeam.Node.Running.Stopping.{waits_in, close_ends}
use lapinbeam.Tests.Samples.{alpha}

abbrev connecting : Node
connecting = (begin_connect "beta" 3 false false alpha).1

connect_peer_connected_example :
    (end_connect "beta" 3 (on_core_event (peer_connected "beta") connecting)).0 ≡ return tt
unfolding begin_connect
connect_peer_connected_example = connect_peer_connected "beta" 3 false false alpha connecting refl

close_ends_example :
    let n' = close connecting in
    ((end_connect "beta" 3 n').0 ≡ (
      if waits_in connecting 3
      then raise stopped_connecting
      else (end_connect "beta" 3 connecting).0))
    × (waiters_of n' "beta" ≡ none)
    × (mailbox_of n' "worker" ≡ none)
    × (register_actor "worker" 0 n' ≡ (raise not_started, n'))
close_ends_example = close_ends "beta" "worker" 3 0 connecting
