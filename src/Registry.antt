-- ===== src/Registry.antt =====
-- lapinbeam/registry.py: one owner in the cluster for each name. The reserved actor that answers
-- the other nodes stands in `Actor`; what is proved, in the other children.
pub mod Actor
pub mod Frame
pub mod Ownership
use lapinbeam.Prelude.{
  String, Option, none, some, List, [], ◌∷◌, Bool, true, false, ◌==◌, ◌≡◌, if◌then◌else◌, map,
  string_eq, pair_eq, option_eq,
}
use lapinbeam.Dict
use lapinbeam.Dict.{Dict, Set}
use lapinbeam.Node.Refs.{Ref, me, ref_of, peer_list, add_peer, discard_peer}
use lapinbeam.Messages.{
  Member, Event, peer_connected, peer_disconnected, RegistryVerb, claim, release, outside_actor,
  name_registered,
}
use lapinbeam.Node.State.{
  Node, Result, return, raise, Action, registry_delta, registry_snapshot, registry_listener,
  local_id, create_task, create_tasks,
}

-- The owner that stands in the way of a claim.
unfoldable pub other_owner : Option Member → Member → Option Member
other_owner none owner = none
other_owner (some existing) owner = if existing == owner then none else some existing

-- `_broadcast`: a delta for each known peer; none if `register_registry` was never called.
unfoldable pub broadcast : String → Member → RegistryVerb → Node → Node
unfolding peer_list
broadcast name owner verb n =
    create_tasks (map (λ peer. registry_delta peer name owner verb) (peer_list n.registry_peers)) n

-- `node._registry[name] = owner`
unfoldable pub set_owner : String → Member → Node → Node
set_owner name owner n = record n { registry = Dict.put n.registry name owner }

-- `del node._registry[name]`
unfoldable pub delete_name : String → Node → Node
delete_name name n = record n { registry = Dict.remove n.registry name }

claim_for : String → Member → Action
unfolding other_owner
claim_for name owner n = elim (other_owner (Dict.get n.registry name) owner) [
  | some existing ↦ (raise (name_registered name existing), n)
  | none ↦ (return tt, broadcast name owner claim (set_owner name owner n))
]

unfoldable pub register_name : (ref current : Option String) → String → Action
unfolding claim_for me
register_name ref current name n = elim (me ref current) [
  | none ↦ (raise outside_actor, n)
  | some actor ↦ claim_for name (local_id n, actor) n
]

release_for : String → Member → Action
release_for name owner n =
    if Dict.get n.registry name == some owner
    then (return tt, broadcast name owner release (delete_name name n))
    else (return tt, n)

unfoldable pub unregister_name : (ref current : Option String) → String → Action
unfolding release_for me
unregister_name ref current name n = elim (me ref current) [
  | none ↦ (raise outside_actor, n)
  | some actor ↦ release_for name (local_id n, actor) n
]

unfoldable pub whereis_name : Node → String → Option Ref
unfolding ref_of
whereis_name n name = elim (Dict.get n.registry name) [
  | none ↦ none
  | some entry ↦ some (ref_of (local_id n) entry)
]

-- `_drop_peer_names`
unfoldable pub drop_peer_names : String → Node → Node
drop_peer_names peer n = record n {
  registry = Dict.remove_all n.registry (Dict.keys_of (λ owner. owner.0 == peer) n.registry);
}

-- The listener of `register_registry`.
unfoldable pub on_peer_event : Event → Node → Node
unfolding add_peer discard_peer drop_peer_names
on_peer_event (peer_connected peer) n =
    create_task (registry_snapshot peer)
      (record n { registry_peers = add_peer n.registry_peers peer })
on_peer_event (peer_disconnected peer) n =
    drop_peer_names peer (record n { registry_peers = discard_peer n.registry_peers peer })
on_peer_event event n = n

-- `Node._clear_registry`: the names of an actor whose generation has ended.
owned_names : String → Node → List String
owned_names actor n = Dict.keys_of (λ owner. owner == (local_id n, actor)) n.registry

-- The body of its loop, with the call of the release hook.
release_owned : String → String → Node → Node
unfolding delete_name
release_owned name actor n =
    let n' = delete_name name n in
    if n'.registry_release_hook then broadcast name (local_id n', actor) release n' else n'

release_names : List String → String → Node → Node
release_names [] actor n = n
release_names (name ∷ names) actor n = release_names names actor (release_owned name actor n)

unfoldable pub clear_registry : String → Node → Node
unfolding owned_names release_names release_owned
clear_registry actor n = release_names (owned_names actor n) actor n
