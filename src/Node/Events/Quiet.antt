-- ===== src/Node/Events/Quiet.antt =====
-- `_on_core_event` of lapinbeam/node.py for the events other than a peer's coming and going.
use lapinbeam.Prelude.{ℕ, List, [], ◌∷◌, ◌++◌, Bool, true, false, ◌≡◌, refl, sym, ◌∙◌}
use mathlib.Core.List.{append-nil, append_assoc}
use lapinbeam.Messages.{Event, peer_connected, peer_disconnected}
use lapinbeam.Node.State.{
  Node, Listener, groups_listener, registry_listener, discovery_listener, application,
}
use lapinbeam.Groups
use lapinbeam.Registry
use lapinbeam.Node.Events.{update_known, by_itself, call_listener, call_listeners, on_core_event}

abbrev pub is_quiet : Event → Bool
is_quiet (peer_connected peer) = false
is_quiet (peer_disconnected peer) = false
is_quiet _ = true

-- What the listeners of the application are called with.
abbrev pub heard : Event → List Listener → List (ℕ × Event)
heard event [] = []
heard event (application k ∷ ls) = (k, event) ∷ heard event ls
heard event (_ ∷ ls) = heard event ls

abbrev pub observe : List (ℕ × Event) → Node → Node
observe more n = record n { observed = n.observed ++ more }

observe-nil : (n : Node) → observe [] n ≡ n
observe-nil n = λ i. record n { observed = append-nil n.observed i }

observe-observe :
    (xs ys : List (ℕ × Event)) (n : Node) → observe ys (observe xs n) ≡ observe (xs ++ ys) n
observe-observe xs ys n = λ i. record n { observed = append_assoc n.observed xs ys i }

groups_quiet : (event : Event) (n : Node) → is_quiet event ≡ true → Groups.on_peer_event event n ≡ n
unfolding Groups.on_peer_event
groups_quiet (peer_connected peer) n h = cc
groups_quiet (peer_disconnected peer) n h = cc
groups_quiet _ n h = refl

registry_quiet :
    (event : Event) (n : Node) → is_quiet event ≡ true → Registry.on_peer_event event n ≡ n
unfolding Registry.on_peer_event
registry_quiet (peer_connected peer) n h = cc
registry_quiet (peer_disconnected peer) n h = cc
registry_quiet _ n h = refl

known_quiet : (event : Event) (n : Node) → is_quiet event ≡ true → update_known event n ≡ n
unfolding update_known
known_quiet (peer_connected peer) n h = cc
known_quiet (peer_disconnected peer) n h = cc
known_quiet _ n h = refl

by_itself_quiet : (event : Event) (n : Node) → is_quiet event ≡ true → by_itself event n ≡ n
unfolding by_itself
by_itself_quiet (peer_connected peer) n h = cc
by_itself_quiet (peer_disconnected peer) n h = cc
by_itself_quiet _ n h = refl

call_listeners_quiet :
    (event : Event) (ls : List Listener) (n : Node)
    → is_quiet event ≡ true
    → call_listeners event ls n ≡ observe (heard event ls) n
unfolding call_listeners call_listener
call_listeners_quiet event [] n h = sym (observe-nil n)
call_listeners_quiet event (groups_listener ∷ ls) n h =
    rw (groups_quiet event n h) (call_listeners_quiet event ls n h)
call_listeners_quiet event (registry_listener ∷ ls) n h =
    rw (registry_quiet event n h) (call_listeners_quiet event ls n h)
call_listeners_quiet event (discovery_listener ∷ ls) n h =
    rw (known_quiet event n h) (call_listeners_quiet event ls n h)
call_listeners_quiet event (application k ∷ ls) n h =
    call_listeners_quiet event ls (observe ((k, event) ∷ []) n) h
    ∙ observe-observe ((k, event) ∷ []) (heard event ls) n

-- Every listener of the application is called once with the event, in their order, and the node
-- is left as it was otherwise.
pub on_core_event_quiet :
    (event : Event) (n : Node)
    → is_quiet event ≡ true
    → on_core_event event n ≡ observe (heard event n.listeners) n
unfolding on_core_event
on_core_event_quiet event n h =
    rw (by_itself_quiet event n h) (call_listeners_quiet event n.listeners n h)
