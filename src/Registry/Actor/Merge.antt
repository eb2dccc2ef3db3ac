-- ===== src/Registry/Actor/Merge.antt =====
-- How the registry of a node takes in what other nodes claim (lapinbeam/registry.py).
use lapinbeam.Prelude.{
  String, Option, none, some, List, [], ◌∷◌, ◌==◌, ==_iff, ◌≡◌, ◌≢◌, refl, if◌then◌else◌, string_eq,
  pair_eq, option_eq, arith, ap, ◌∙◌, ◌&&◌, Option-cases, inl, inr,
}
use lapinbeam.Dict
use lapinbeam.Dict.{get-put, get-remove, find, find-items}
use lapinbeam.Messages.{member_iff, Member, registry_conflict, claim, delta, snapshot}
use lapinbeam.Node.State.{Node}
use lapinbeam.Node.Events.{on_core_event}
use lapinbeam.Node.Events.Quiet.{observe, heard, on_core_event_quiet}
use lapinbeam.Registry.Ownership.{owner_of}
use lapinbeam.Registry.Actor.{accept_claim, accept_release, merge_snapshot, receive}

abbrev pub or_else {ℓ} : {A : Type ℓ} → Option A → Option A → Option A
or_else none o = o
or_else (some a) o = some a

-- A claim, received from another node, of a name that another actor owns changes no owner: all
-- that happens is that the listeners of the application observe the conflict.
pub receive_conflict :
    (name : String) (owner existing : Member) (n : Node)
    → owner_of n name ≡ some existing
    → existing ≢ owner
    → receive (delta name owner claim) n
      ≡ observe (heard (registry_conflict name existing owner) n.listeners) n
unfolding receive accept_claim
receive_conflict name owner existing n e ne = ground (
  arith,
  member_iff existing owner,
  on_core_event_quiet (registry_conflict name existing owner) n refl,
)

owner_of-conflict :
    (name other : String) (owner existing : Member) (n : Node)
    → owner_of (on_core_event (registry_conflict name existing owner) n) other ≡ owner_of n other
owner_of-conflict name other owner existing n =
    rw (on_core_event_quiet (registry_conflict name existing owner) n refl)

-- A claim is granted exactly if the name was free.
pub owner_of-accept_claim :
    (name other : String) (owner : Member) (n : Node)
    → owner_of (accept_claim name owner n) other
      ≡ (if name == other then or_else (owner_of n other) (some owner) else owner_of n other)
unfolding accept_claim
owner_of-accept_claim name other owner n = elim (Option-cases (owner_of n name)) [
  | inl e ↦ ground (arith, get-put n.registry name other owner, ==_iff name other)
  | inr (existing, e) ↦ ground (
    arith,
    get-put n.registry name other owner,
    ==_iff name other,
    member_iff existing owner,
    owner_of-conflict name other owner existing n,
  )
]

pub owner_of-accept_release :
    (name other : String) (owner : Member) (n : Node)
    → owner_of (accept_release name owner n) other
      ≡ (if name == other && owner_of n name == some owner then none else owner_of n other)
unfolding accept_release
owner_of-accept_release name other owner n =
    ground (arith, get-remove n.registry name other, ==_iff name other)

-- A snapshot fills the names that are free here, and never takes a name from its owner.
owner_of-merge_snapshot :
    (entries : List (String × Member)) (name : String) (n : Node)
    → owner_of (merge_snapshot entries n) name ≡ or_else (owner_of n name) (find name entries)
unfolding merge_snapshot find
owner_of-merge_snapshot [] name n = ground arith
owner_of-merge_snapshot ((x, owner) ∷ rest) name n = ground (
  arith,
  owner_of-merge_snapshot rest name (accept_claim x owner n),
  owner_of-accept_claim x name owner n,
  ==_iff x name,
)

-- When a node receives the snapshot of another node's names, each name that it had an owner for
-- keeps it, and each other name has the owner that the sender had for it, if any.
pub owner_of-receive_snapshot :
    (sender n : Node) (name : String)
    → owner_of (receive (snapshot (Dict.items sender.registry)) n) name
      ≡ or_else (owner_of n name) (owner_of sender name)
unfolding receive
owner_of-receive_snapshot sender n name =
    owner_of-merge_snapshot (Dict.items sender.registry) name n
    ∙ ap (or_else (owner_of n name)) (find-items sender.registry name)
