-- ===== src/Groups.antt =====
-- lapinbeam/groups.py: sets of members by group name, kept on every node.
pub mod Frame
pub mod Membership
pub mod Convergence
use lapinbeam.Prelude.{
  String, Option, none, some, List, [], ◌∷◌, ◌==◌, ◌≡◌, if◌then◌else◌, map, keep, string_eq,
  pair_eq, option_eq, Bool, false,
}
use lapinbeam.Dict
use lapinbeam.Dict.{Dict, Set}
use lapinbeam.Node.Refs.{Ref, me, ref_of, peer_list, add_peer, discard_peer}
use lapinbeam.Messages.{
  Member, Event, peer_connected, peer_disconnected, GroupVerb, join, leave, outside_actor, GroupOp,
  delta, snapshot,
}
use lapinbeam.Node.State.{
  Node, return, raise, Action, Task, group_delta, group_snapshot, local_id, create_task,
  create_tasks,
}

-- `node._groups.get(group, set())`
bucket : Node → String → Set Member
bucket n group = elim (Dict.get n.groups group) [ none ↦ Dict.no_elements | some members ↦ members ]

-- `node._groups.setdefault(group, set()).add(member)`
unfoldable pub add_member : String → Member → Node → Node
unfolding bucket
add_member group member n = record n {
  groups = Dict.put n.groups group (Dict.add (bucket n group) member);
}

-- `node._groups.get(group, set()).discard(member)`
unfoldable pub discard_member : String → Member → Node → Node
discard_member group member n = elim (Dict.get n.groups group) [
  | none ↦ n
  | some members ↦ record n { groups = Dict.put n.groups group (Dict.discard members member) }
]

-- `_broadcast`
unfoldable pub broadcast : String → Member → GroupVerb → Node → Node
broadcast group member verb n =
    create_tasks (map (λ peer. group_delta peer group member verb) (peer_list n.group_peers)) n

unfoldable pub join_group : (ref current : Option String) → String → Action
unfolding me
join_group ref current group n = elim (me ref current) [
  | none ↦ (raise outside_actor, n)
  | some actor ↦
      let member : Member = (local_id n, actor) in
      (return tt, broadcast group member join (add_member group member n))
]

unfoldable pub leave_group : (ref current : Option String) → String → Action
unfolding me
leave_group ref current group n = elim (me ref current) [
  | none ↦ (raise outside_actor, n)
  | some actor ↦
      let member : Member = (local_id n, actor) in
      (return tt, broadcast group member leave (discard_member group member n))
]

-- `members`
unfoldable pub members : Node → String → List Ref
unfolding bucket
members n group = map (ref_of (local_id n)) (Dict.to_list (bucket n group))

-- `_drop_peer_members`
without_peer : String → Set Member → Set Member
without_peer peer s = Dict.discard_all s (keep (λ m. m.0 == peer) (Dict.to_list s))

unfoldable pub drop_peer_members : String → Node → Node
unfolding without_peer
drop_peer_members peer n = record n { groups = Dict.update_values (without_peer peer) n.groups }

-- The listener of `register_groups`.
unfoldable pub on_peer_event : Event → Node → Node
on_peer_event (peer_connected peer) n =
    create_task (group_snapshot peer) (record n { group_peers = add_peer n.group_peers peer })
on_peer_event (peer_disconnected peer) n =
    drop_peer_members peer (record n { group_peers = discard_peer n.group_peers peer })
on_peer_event event n = n

-- `_GroupsActor.receive`; a member that a snapshot repeats is added again to no effect.
add_members : String → List Member → Node → Node
add_members group [] n = n
add_members group (m ∷ ms) n = add_members group ms (add_member group m n)

-- `bucket = node._groups.setdefault(group, set())`
ensure_group : String → Node → Node
ensure_group group n = elim (Dict.get n.groups group) [
  | none ↦ record n { groups = Dict.put n.groups group Dict.no_elements }
  | some members ↦ n
]

merge_snapshot : List (String × List Member) → Node → Node
merge_snapshot [] n = n
merge_snapshot ((group, ms) ∷ rest) n =
    merge_snapshot rest (add_members group ms (ensure_group group n))

unfoldable pub receive : GroupOp → Node → Node
unfolding merge_snapshot add_members ensure_group
receive (delta group member join) n = add_member group member n
receive (delta group member leave) n = discard_member group member n
receive (snapshot groups) n = merge_snapshot groups n

-- `Node._clear_groups`: the groups of an actor whose generation has ended.
groups_with : Member → Node → List String
groups_with member n = Dict.keys_of (λ s. Dict.contains s member) n.groups

leave_one : String → String → Node → Node
leave_one group actor n =
    let n' = discard_member group (local_id n, actor) n in
    if n'.group_leave_hook then broadcast group (local_id n', actor) leave n' else n'

leave_all : List String → String → Node → Node
leave_all [] actor n = n
leave_all (group ∷ groups) actor n = leave_all groups actor (leave_one group actor n)

unfoldable pub clear_groups : String → Node → Node
unfolding groups_with leave_all leave_one
clear_groups actor n = leave_all (groups_with (local_id n, actor) n) actor n
