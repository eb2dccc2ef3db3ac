-- ===== src/Groups/Frame.antt =====
-- Which fields of the node `_clear_groups` (lapinbeam/node.py) can change.
use lapinbeam.Prelude.{
  String, List, [], ◌∷◌, ◌≡◌, refl, ◌∙◌, ap, string_eq, pair_eq, Option-cases, Bool-cases, inl, inr,
}
use lapinbeam.Node.Refs.{peer_list}
use lapinbeam.Dict
use lapinbeam.Dict.{Dict, Set}
use lapinbeam.Messages.{Member, leave}
use lapinbeam.Node.State.{Node, Task, group_delta, create_tasks, local_id}
use lapinbeam.Node.Signals.Kinds.{signals, keep-map}
use lapinbeam.Groups.{broadcast, discard_member, leave_one, leave_all, groups_with, clear_groups}

abbrev pub regrouped : Dict String (Set Member) → List Task → Node → Node
regrouped groups tasks n = record n { groups = groups; tasks = tasks }

abbrev pub OnlyGroups : Node → Node → Type 0
OnlyGroups n n' =
    (groups : Dict String (Set Member)) × (tasks : List Task) × (n' ≡ regrouped groups tasks n)

OnlyGroups-discard_member :
    (group : String) (m : Member) (n : Node)
    → (groups : Dict String (Set Member)) × (discard_member group m n
        ≡ record n { groups = groups })
unfolding discard_member
OnlyGroups-discard_member group m n = elim (Option-cases (Dict.get n.groups group)) [
  | inl e ↦ (n.groups, rw (e, discard_member))
  | inr (s, e) ↦ (Dict.put n.groups group (Dict.discard s m), rw (e, discard_member))
]

OnlyGroups-leave_one : (group actor : String) (n : Node) → OnlyGroups n (leave_one group actor n)
unfolding leave_one broadcast create_tasks
OnlyGroups-leave_one group actor n =
    let (groups, e) = OnlyGroups-discard_member group (local_id n, actor) n in
    elim (Bool-cases n.group_leave_hook) [
      | inl h ↦ (groups, (leave_one group actor n).tasks, rw (e, leave_one) (rw h refl))
      | inr h ↦ (groups, n.tasks, rw (e, leave_one) (rw h refl))
    ]

OnlyGroups-leave_all :
    (groups : List String) (actor : String) (n : Node) → OnlyGroups n (leave_all groups actor n)
unfolding leave_all
OnlyGroups-leave_all [] actor n = (n.groups, n.tasks, refl)
OnlyGroups-leave_all (group ∷ rest) actor n =
    let (groups, tasks, e) = OnlyGroups-leave_one group actor n in
    let (groups', tasks', e') = OnlyGroups-leave_all rest actor (leave_one group actor n) in
    (groups', tasks', e' ∙ ap (regrouped groups' tasks') e)

pub OnlyGroups-clear_groups : (actor : String) (n : Node) → OnlyGroups n (clear_groups actor n)
unfolding clear_groups
OnlyGroups-clear_groups actor n = OnlyGroups-leave_all (groups_with (local_id n, actor) n) actor n

signals-leave_one :
    (group actor : String) (n : Node) → signals (leave_one group actor n) ≡ signals n
unfolding leave_one broadcast create_tasks local_id
signals-leave_one group actor n =
    let member : Member = (local_id n, actor) in
    let (groups, e) = OnlyGroups-discard_member group member n in
    elim (Bool-cases n.group_leave_hook) [
      | inl h ↦
          rw (e, leave_one)
            (rw h (
              keep-map (λ peer. group_delta peer group member leave) (λ peer. refl)
                (peer_list n.group_peers) n.tasks))
      | inr h ↦ rw (e, leave_one) (rw h refl)
    ]

signals-leave_all :
    (groups : List String) (actor : String) (n : Node)
    → signals (leave_all groups actor n) ≡ signals n
unfolding leave_all
signals-leave_all [] actor n = refl
signals-leave_all (group ∷ rest) actor n =
    signals-leave_all rest actor (leave_one group actor n) ∙ signals-leave_one group actor n

pub signals-clear_groups : (actor : String) (n : Node) → signals (clear_groups actor n) ≡ signals n
unfolding clear_groups
signals-clear_groups actor n = signals-leave_all (groups_with (local_id n, actor) n) actor n
