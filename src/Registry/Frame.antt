-- ===== src/Registry/Frame.antt =====
-- Which fields of the node `_clear_registry` (lapinbeam/node.py) can change.
use lapinbeam.Prelude.{String, List, [], ◌∷◌, ◌≡◌, refl, ◌∙◌, ap, string_eq, Bool-cases, inl, inr}
use lapinbeam.Node.Refs.{peer_list}
use lapinbeam.Dict
use lapinbeam.Dict.{Dict}
use lapinbeam.Messages.{Member, release}
use lapinbeam.Node.State.{Node, Task, registry_delta, create_tasks, local_id}
use lapinbeam.Node.Signals.Kinds.{signals, keep-map}
use lapinbeam.Registry.{broadcast, release_owned, release_names, owned_names, clear_registry}

abbrev pub reregistered : Dict String Member → List Task → Node → Node
reregistered registry tasks n = record n { registry = registry; tasks = tasks }

abbrev pub OnlyRegistry : Node → Node → Type 0
OnlyRegistry n n' =
    (registry : Dict String Member) × (tasks : List Task) × (n' ≡ reregistered registry tasks n)

OnlyRegistry-release_owned :
    (name actor : String) (n : Node) → OnlyRegistry n (release_owned name actor n)
unfolding release_owned broadcast create_tasks
OnlyRegistry-release_owned name actor n = elim (Bool-cases n.registry_release_hook) [
  | inl h ↦
      (Dict.remove n.registry name, (release_owned name actor n).tasks, rw (h, release_owned) refl)
  | inr h ↦ (Dict.remove n.registry name, n.tasks, rw (h, release_owned) refl)
]

OnlyRegistry-release_names :
    (names : List String) (actor : String) (n : Node) → OnlyRegistry n (release_names names actor n)
unfolding release_names
OnlyRegistry-release_names [] actor n = (n.registry, n.tasks, refl)
OnlyRegistry-release_names (name ∷ rest) actor n =
    let (registry, tasks, e) = OnlyRegistry-release_owned name actor n in
    let (registry', tasks', e') =
      OnlyRegistry-release_names rest actor (release_owned name actor n) in
    (registry', tasks', e' ∙ ap (reregistered registry' tasks') e)

pub OnlyRegistry-clear_registry :
    (actor : String) (n : Node) → OnlyRegistry n (clear_registry actor n)
unfolding clear_registry
OnlyRegistry-clear_registry actor n = OnlyRegistry-release_names (owned_names actor n) actor n

signals-release_owned :
    (name actor : String) (n : Node) → signals (release_owned name actor n) ≡ signals n
unfolding release_owned broadcast create_tasks local_id
signals-release_owned name actor n = elim (Bool-cases n.registry_release_hook) [
  | inl h ↦
      rw (h, release_owned)
        (keep-map (λ peer. registry_delta peer name (local_id n, actor) release) (λ peer. refl)
          (peer_list n.registry_peers) n.tasks)
  | inr h ↦ rw (h, release_owned) refl
]

signals-release_names :
    (names : List String) (actor : String) (n : Node)
    → signals (release_names names actor n) ≡ signals n
unfolding release_names
signals-release_names [] actor n = refl
signals-release_names (name ∷ rest) actor n =
    signals-release_names rest actor (release_owned name actor n)
    ∙ signals-release_owned name actor n

pub signals-clear_registry :
    (actor : String) (n : Node) → signals (clear_registry actor n) ≡ signals n
unfolding clear_registry
signals-clear_registry actor n = signals-release_names (owned_names actor n) actor n
