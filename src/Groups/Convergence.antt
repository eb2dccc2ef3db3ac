-- ===== src/Groups/Convergence.antt =====
-- Deltas of lapinbeam/groups.py in another order, and snapshots of whole nodes.
use lapinbeam.Prelude.{
  String, List, [], ◌∷◌, Bool, true, false, ◌==◌, ==_iff, ◌≡◌, ◌≢◌, ◌⊎◌, refl, ◌&&◌, ◌||◌,
  if◌then◌else◌, elem, string_eq, pair_eq, arith, ap, ◌∙◌,
}
use lapinbeam.Dict
use lapinbeam.Dict.{Set, any_at, any_at-items, elem-to_list, check}
use lapinbeam.Messages.{member_iff, Member, GroupVerb, join, leave, delta, snapshot}
use lapinbeam.Node.State.{Node}
use lapinbeam.Node.Tasks.{group_lists}
use lapinbeam.Groups.{receive}
use lapinbeam.Groups.Membership.{
  is_member, is_member-add_member, is_member-discard_member, is_member-receive_snapshot, listed,
}

abbrev pub SameMembers : Node → Node → Type 0
SameMembers a b = (group : String) (m : Member) → is_member a group m ≡ is_member b group m

-- The answer after a delta, by its verb.
abbrev set_to : GroupVerb → Bool
set_to join = true
set_to leave = false

pub is_member-receive_delta :
    (group other : String) (member m : Member) (verb : GroupVerb) (n : Node)
    → is_member (receive (delta group member verb) n) other m
      ≡ (if group == other && member == m then set_to verb else is_member n other m)
unfolding receive
is_member-receive_delta group other member m join n = is_member-add_member n group other member m
is_member-receive_delta group other member m leave n =
    is_member-discard_member n group other member m

-- Two deltas that are not about the same member of the same group, or that say the same, lead to
-- the same members in either order.
pub receive_comm :
    (g h : String) (p q : Member) (v w : GroupVerb) (n : Node)
    → (g ≢ h) ⊎ (p ≢ q) ⊎ (v ≡ w)
    → SameMembers
        (receive (delta g p v) (receive (delta h q w) n))
        (receive (delta h q w) (receive (delta g p v) n))
receive_comm g h p q v w n apart group m = ground (
  arith,
  is_member-receive_delta g group p m v (receive (delta h q w) n),
  is_member-receive_delta h group q m w (receive (delta g p v) n),
  is_member-receive_delta g group p m v n,
  is_member-receive_delta h group q m w n,
  ==_iff g group,
  ==_iff h group,
  member_iff p m,
  member_iff q m,
)

any_at-group_lists :
    (group : String) (m : Member) (l : List (String × Set Member))
    → any_at group (elem m) (group_lists l) ≡ any_at group (λ s. Dict.contains s m) l
unfolding any_at group_lists elem
any_at-group_lists group m [] = refl
any_at-group_lists group m ((g, s) ∷ rest) =
    ground (arith, any_at-group_lists group m rest, elem-to_list s m)

listed-group_lists :
    (sender : Node) (group : String) (m : Member)
    → listed group m (group_lists (Dict.items sender.groups)) ≡ is_member sender group m
unfolding is_member
listed-group_lists sender group m =
    any_at-group_lists group m (Dict.items sender.groups)
    ∙ any_at-items sender.groups group (λ s. Dict.contains s m)

-- A node that receives the snapshot of another node's groups has exactly the members that either
-- had.
pub receive_snapshot-union :
    (sender n : Node) (group : String) (m : Member)
    → is_member (receive (snapshot (group_lists (Dict.items sender.groups))) n) group m
      ≡ (is_member n group m || is_member sender group m)
receive_snapshot-union sender n group m =
    is_member-receive_snapshot (group_lists (Dict.items sender.groups)) group m n
    ∙ ap (λ b. is_member n group m || b) (listed-group_lists sender group m)
