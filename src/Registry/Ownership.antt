-- ===== src/Registry/Ownership.antt =====
-- What the operations of lapinbeam/registry.py do to the owner of every name.
use lapinbeam.Prelude.{
  String, Option, none, some, List, [], ◌∷◌, ◌==◌, refl, ◌≡◌, ◌≢◌, if◌then◌else◌, ==_iff, string_eq,
  pair_eq, option_eq, arith, elem, ◌&&◌, ◌⊎◌,
}
use lapinbeam.Dict
use lapinbeam.Dict.{dict_laws, get-put, get-remove, get-remove_all, elem-keys_of}
use lapinbeam.Messages.{member_iff, Member, name_registered}
use lapinbeam.Node.State.{Node, return, raise, local_id, create_tasks}
use lapinbeam.Registry.{
  register_name, unregister_name, drop_peer_names, clear_registry, release_names, release_owned,
  owned_names, broadcast, set_owner, delete_name,
}

-- `node._registry.get(name)`
abbrev pub owner_of : Node → String → Option Member
owner_of n name = Dict.get n.registry name

-- A claim of a free name, or of a name that the actor has already, succeeds.
pub register_name_free :
    (actor name : String) (current : Option String) (n : Node)
    → (owner_of n name ≡ none) ⊎ (owner_of n name ≡ some (local_id n, actor))
    → (register_name (some actor) current name n).0 ≡ return tt
unfolding register_name
register_name_free actor name current n h =
    ground (arith, member_iff (local_id n, actor) (local_id n, actor))

-- A `register_name` that returns makes the actor the owner of exactly that name; every other name
-- keeps its owner.
pub register-owner :
    (actor name other : String) (current : Option String) (n : Node)
    → (register_name (some actor) current name n).0 ≡ return tt
    → owner_of (register_name (some actor) current name n).1 other
      ≡ (if name == other then some (local_id n, actor) else owner_of n other)
unfolding register_name broadcast set_owner create_tasks
register-owner actor name other current n h =
    ground (arith, get-put n.registry name other (local_id n, actor))

-- A name that another actor owns is refused: `register_name` raises, and the node is left as it
-- was.
pub register_name_taken :
    (actor name : String) (current : Option String) (n : Node) (owner : Member)
    → owner_of n name ≡ some owner
    → owner ≢ (local_id n, actor)
    → register_name (some actor) current name n ≡ (raise (name_registered name owner), n)
unfolding register_name
register_name_taken actor name current n owner h ne =
    ground (arith, member_iff owner (local_id n, actor))

pub unregister-owner :
    (actor name other : String) (current : Option String) (n : Node)
    → owner_of (unregister_name (some actor) current name n).1 other ≡ (
        if name == other && owner_of n name == some (local_id n, actor)
        then none
        else owner_of n other)
unfolding unregister_name broadcast delete_name create_tasks
unregister-owner actor name other current n =
    ground (arith, get-remove n.registry name other, ==_iff name other)

-- When a peer is lost, exactly the names that its actors own become free.
pub drop_peer-owner :
    (peer name : String) (n : Node)
    → owner_of (drop_peer_names peer n) name ≡ (elim (owner_of n name) [
      | none ↦ none
      | some owner ↦ if owner.0 == peer then none else some owner
    ])
unfolding drop_peer_names
drop_peer-owner peer name n = ground (
  arith,
  get-remove_all n.registry (Dict.keys_of (λ owner. owner.0 == peer) n.registry) name,
  elem-keys_of (λ owner. owner.0 == peer) n.registry name,
)

release_owned-owner :
    (dropped actor name : String) (n : Node)
    → owner_of (release_owned dropped actor n) name
      ≡ (if dropped == name then none else owner_of n name)
unfolding release_owned broadcast create_tasks
release_owned-owner dropped actor name n = ground (arith, get-remove n.registry dropped name)

release_names-owner :
    (names : List String) (actor name : String) (n : Node)
    → owner_of (release_names names actor n) name
      ≡ (if elem name names then none else owner_of n name)
unfolding release_names elem
release_names-owner [] actor name n = refl
release_names-owner (x ∷ xs) actor name n = ground (
  arith,
  release_names-owner xs actor name (release_owned x actor n),
  release_owned-owner x actor name n,
  ==_iff x name,
  ==_iff name x,
)

-- When a generation of an actor ends, exactly the names that it owned become free.
pub clear_registry-owner :
    (actor name : String) (n : Node)
    → owner_of (clear_registry actor n) name
      ≡ (if owner_of n name == some (local_id n, actor) then none else owner_of n name)
unfolding clear_registry
clear_registry-owner actor name n = ground (
  arith,
  release_names-owner (owned_names actor n) actor name n,
  elem-keys_of (λ owner. owner == (local_id n, actor)) n.registry name,
)
