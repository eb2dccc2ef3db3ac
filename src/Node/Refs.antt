-- ===== src/Node/Refs.antt =====
-- What groups.py and registry.py share: who is meant by `ref=`, the reference that stands for an
-- `(origin, name)` pair (the classes of refs.py), and the sets of connected peers.
use lapinbeam.Prelude.{String, Option, none, some, List, [], ◌==◌, if◌then◌else◌, string_eq}
use lapinbeam.Dict
use lapinbeam.Dict.{Set}
use lapinbeam.Messages.{Member}

-- What `whereis_name` and `members` answer.
pub data Ref : Type 0 where
  actor_ref : (name : String) → Ref
  remote_ref : (peer actor : String) → Ref

-- `_me`: an explicit `ref=`, else the actor that is running.
unfoldable pub me : (ref current : Option String) → Option String
me (some r) current = some r
me none current = current

unfoldable pub ref_of : (local : String) → Member → Ref
ref_of local (origin, actor) = if origin == local then actor_ref actor else remote_ref origin actor

-- `for peer_id in list(peers)`, where the attribute may be missing or `None`.
unfoldable pub peer_list : Option (Set String) → List String
peer_list none = []
peer_list (some peers) = Dict.to_list peers

unfoldable pub add_peer : Option (Set String) → String → Option (Set String)
add_peer none peer = none
add_peer (some peers) peer = some (Dict.add peers peer)

unfoldable pub discard_peer : Option (Set String) → String → Option (Set String)
discard_peer none peer = none
discard_peer (some peers) peer = some (Dict.discard peers peer)
