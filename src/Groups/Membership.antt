-- ===== src/Groups/Membership.antt =====
-- What the operations of lapinbeam/groups.py do to the membership of every actor in every group.
use lapinbeam.Prelude.{
  String, Option, some, List, [], ◌∷◌, Bool, true, false, ◌==◌, ==_iff, Option-cases, inl, inr, ◌≡◌,
  refl, ◌&&◌, ◌||◌, if◌then◌else◌, elem, elem-keep, keep, string_eq, pair_eq, arith,
}
use lapinbeam.Dict
use lapinbeam.Dict.{any_at}
use lapinbeam.Dict.{
  Set, get-put, get-remove_all, get-update_values, contains-add, contains-discard,
  contains-no_elements, contains-discard_all, elem-to_list, elem-keys_of, check,
}
use lapinbeam.Messages.{member_iff, Member, GroupVerb, join, leave, snapshot}
use lapinbeam.Node.State.{Node, local_id, create_tasks}
use lapinbeam.Groups.{
  bucket, add_member, discard_member, broadcast, join_group, leave_group, without_peer,
  drop_peer_members, receive, add_members, ensure_group, merge_snapshot, groups_with, leave_one,
  leave_all, clear_groups,
}

-- `member in node._groups.get(group, set())`
unfoldable pub is_member : Node → String → Member → Bool
is_member n group m = check (λ s. Dict.contains s m) (Dict.get n.groups group)

module _ (n : Node) (group other : String) (member m : Member) where
  pub is_member-add_member :
      is_member (add_member group member n) other m
      ≡ (if group == other && member == m then true else is_member n other m)
  unfolding is_member add_member
  is_member-add_member = ground (
    arith,
    get-put n.groups group other (Dict.add (bucket n group) member),
    contains-add (bucket n group) member m,
    contains-no_elements m,
    ==_iff group other,
  )

  pub is_member-discard_member :
      is_member (discard_member group member n) other m
      ≡ (if group == other && member == m then false else is_member n other m)
  unfolding is_member discard_member
  is_member-discard_member = elim (Option-cases (Dict.get n.groups group)) [
    | inl e ↦ ground (arith, ==_iff group other)
    | inr (s, e) ↦ ground (
      arith,
      get-put n.groups group other (Dict.discard s member),
      contains-discard s member m,
      ==_iff group other,
    )
  ]

  pub is_member-broadcast :
      (verb : GroupVerb) → is_member (broadcast group member verb n) other m ≡ is_member n other m
  unfolding is_member broadcast create_tasks
  is_member-broadcast verb = refl

module _ (n : Node) (actor group other : String) (current : Option String) (m : Member) where
  -- After a join exactly the joining actor is new in exactly the named group.
  pub is_member-join_group :
      is_member (join_group (some actor) current group n).1 other m
      ≡ (if group == other && (local_id n, actor) == m then true else is_member n other m)
  unfolding join_group
  is_member-join_group =
      let me : Member = (local_id n, actor) in
      ground (
        arith,
        is_member-broadcast (add_member group me n) group other me m join,
        is_member-add_member n group other me m,
      )

  pub is_member-leave_group :
      is_member (leave_group (some actor) current group n).1 other m
      ≡ (if group == other && (local_id n, actor) == m then false else is_member n other m)
  unfolding leave_group
  is_member-leave_group =
      let me : Member = (local_id n, actor) in
      ground (
        arith,
        is_member-broadcast (discard_member group me n) group other me m leave,
        is_member-discard_member n group other me m,
      )

contains-without_peer :
    (peer : String) (s : Set Member) (m : Member)
    → Dict.contains (without_peer peer s) m ≡ (if m.0 == peer then false else Dict.contains s m)
unfolding without_peer
contains-without_peer peer s m = ground (
  arith,
  contains-discard_all s (keep (λ x. x.0 == peer) (Dict.to_list s)) m,
  elem-keep (λ x. x.0 == peer) m (Dict.to_list s),
  elem-to_list s m,
)

-- When a peer disconnects, exactly its members leave, in every group.
pub is_member-drop_peer_members :
    (peer group : String) (m : Member) (n : Node)
    → is_member (drop_peer_members peer n) group m
      ≡ (if m.0 == peer then false else is_member n group m)
unfolding is_member drop_peer_members
is_member-drop_peer_members peer group m n = elim (Option-cases (Dict.get n.groups group)) [
  | inl e ↦ ground (arith, get-update_values (without_peer peer) n.groups group)
  | inr (s, e) ↦
      ground (
        arith,
        get-update_values (without_peer peer) n.groups group,
        contains-without_peer peer s m,
      )
]

is_member-leave_one :
    (left actor group : String) (m : Member) (n : Node)
    → is_member (leave_one left actor n) group m
      ≡ (if left == group && (local_id n, actor) == m then false else is_member n group m)
unfolding leave_one
is_member-leave_one left actor group m n =
    let me : Member = (local_id n, actor) in
    let n' = discard_member left me n in
    let me' : Member = (local_id n', actor) in
    ground (
      arith,
      is_member-discard_member n left group me m,
      is_member-broadcast n' left group me' m leave,
    )

local_id-leave_one :
    (left actor : String) (n : Node) → local_id (leave_one left actor n) ≡ local_id n
unfolding leave_one local_id broadcast create_tasks discard_member
local_id-leave_one left actor n = ground arith

is_member-leave_all :
    (lefts : List String) (actor group : String) (m : Member) (n : Node)
    → is_member (leave_all lefts actor n) group m
      ≡ (if elem group lefts && (local_id n, actor) == m then false else is_member n group m)
unfolding leave_all elem
is_member-leave_all [] actor group m n = refl
is_member-leave_all (x ∷ xs) actor group m n = ground (
  arith,
  is_member-leave_all xs actor group m (leave_one x actor n),
  is_member-leave_one x actor group m n,
  local_id-leave_one x actor n,
  ==_iff x group,
  ==_iff group x,
)

elem-groups_with :
    (me : Member) (group : String) (n : Node) → elem group (groups_with me n) ≡ is_member n group me
unfolding is_member groups_with
elem-groups_with me group n = elem-keys_of (λ s. Dict.contains s me) n.groups group

-- When a generation of an actor ends, exactly that actor leaves, in every group.
pub is_member-clear_groups :
    (actor group : String) (m : Member) (n : Node)
    → is_member (clear_groups actor n) group m
      ≡ (if (local_id n, actor) == m then false else is_member n group m)
unfolding clear_groups
is_member-clear_groups actor group m n =
    let me : Member = (local_id n, actor) in
    ground (
      arith,
      is_member-leave_all (groups_with me n) actor group m n,
      elem-groups_with me group n,
      member_iff me m,
    )

-- `_GroupsActor.receive`: what a snapshot lists.
abbrev pub listed : String → Member → List (String × List Member) → Bool
listed group m = any_at group (elem m)

is_member-ensure_group :
    (group other : String) (m : Member) (n : Node)
    → is_member (ensure_group group n) other m ≡ is_member n other m
unfolding is_member ensure_group
is_member-ensure_group group other m n = ground (
  arith,
  get-put n.groups group other Dict.no_elements,
  contains-no_elements m,
  ==_iff group other,
)

is_member-add_members :
    (group other : String) (m : Member) (ms : List Member) (n : Node)
    → is_member (add_members group ms n) other m
      ≡ (is_member n other m || (group == other && elem m ms))
unfolding add_members elem
is_member-add_members group other m [] n = ground arith
is_member-add_members group other m (x ∷ xs) n = ground (
  arith,
  is_member-add_members group other m xs (add_member group x n),
  is_member-add_member n group other x m,
  member_iff x m,
  member_iff m x,
)

-- After a snapshot a member is there exactly if it was there before or is listed.
is_member-merge_snapshot :
    (groups : List (String × List Member)) (other : String) (m : Member) (n : Node)
    → is_member (merge_snapshot groups n) other m ≡ (is_member n other m || listed other m groups)
unfolding merge_snapshot any_at
is_member-merge_snapshot [] other m n = ground arith
is_member-merge_snapshot ((group, ms) ∷ rest) other m n = ground (
  arith,
  is_member-merge_snapshot rest other m (add_members group ms (ensure_group group n)),
  is_member-add_members group other m ms (ensure_group group n),
  is_member-ensure_group group other m n,
)

pub is_member-receive_snapshot :
    (groups : List (String × List Member)) (group : String) (m : Member) (n : Node)
    → is_member (receive (snapshot groups) n) group m
      ≡ (is_member n group m || listed group m groups)
unfolding receive
is_member-receive_snapshot = is_member-merge_snapshot
