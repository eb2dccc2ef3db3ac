-- ===== src/Node/Signals/Kinds.antt =====
-- Which of the coroutines that a node schedules tell of the end of an actor (lapinbeam/node.py).
use lapinbeam.Prelude.{String, List, [], ◌∷◌, ◌++◌, Bool, true, false, map, keep, ◌≡◌, refl, arith}
use lapinbeam.Node.State.{
  Node, Task, deliver_exit, deliver_down, notify_remote_exit, notify_remote_down, group_delta,
  group_snapshot, registry_delta, registry_snapshot,
}

-- An exit signal or the message of a monitor, to an actor of this node or of another.
abbrev pub is_signal : Task → Bool
is_signal (deliver_exit from_label target reason) = true
is_signal (deliver_down ref actor_label reason) = true
is_signal (notify_remote_exit peer target actor reason) = true
is_signal (notify_remote_down peer ref actor reason) = true
is_signal (group_delta peer group member verb) = false
is_signal (group_snapshot peer) = false
is_signal (registry_delta peer name owner verb) = false
is_signal (registry_snapshot peer) = false

-- The signals that a node has scheduled, in their order.
abbrev pub signals : Node → List Task
signals n = keep is_signal n.tasks

-- Tasks that are no signals add none.
pub keep-map :
    (f : String → Task)
    → ((peer : String) → is_signal (f peer) ≡ false)
    → (peers : List String) (tasks : List Task)
    → keep is_signal (tasks ++ map f peers) ≡ keep is_signal tasks
unfolding keep
keep-map f quiet [] [] = refl
keep-map f quiet (p ∷ peers) [] = ground (arith, quiet p, keep-map f quiet peers [])
keep-map f quiet peers (t ∷ tasks) = ground (arith, keep-map f quiet peers tasks)
