-- ===== src/Registry/Actor.antt =====
-- `_RegistryActor.receive` of lapinbeam/registry.py: claims and releases from other nodes.
pub mod Merge
use lapinbeam.Prelude.{
  String, Option, none, some, List, [], ◌∷◌, ◌==◌, if◌then◌else◌, string_eq, pair_eq, option_eq,
}
use lapinbeam.Dict
use lapinbeam.Messages.{
  Member, registry_conflict, RegistryVerb, claim, release, RegistryOp, delta, snapshot,
}
use lapinbeam.Node.State.{Node}
use lapinbeam.Node.Events.{on_core_event}
use lapinbeam.Registry.{other_owner, set_owner, delete_name}

-- A claim that stands against another owner is reported and dropped.
unfoldable pub accept_claim : String → Member → Node → Node
unfolding other_owner set_owner
accept_claim name owner n = elim (other_owner (Dict.get n.registry name) owner) [
  | some existing ↦ on_core_event (registry_conflict name existing owner) n
  | none ↦ set_owner name owner n
]

unfoldable pub accept_release : String → Member → Node → Node
unfolding delete_name
accept_release name owner n =
    if Dict.get n.registry name == some owner then delete_name name n else n

unfoldable pub merge_snapshot : List (String × Member) → Node → Node
unfolding accept_claim
merge_snapshot [] n = n
merge_snapshot ((name, owner) ∷ rest) n = merge_snapshot rest (accept_claim name owner n)

unfoldable pub receive : RegistryOp → Node → Node
unfolding accept_release merge_snapshot
receive (delta name owner claim) n = accept_claim name owner n
receive (delta name owner release) n = accept_release name owner n
receive (snapshot registry) n = merge_snapshot registry n
