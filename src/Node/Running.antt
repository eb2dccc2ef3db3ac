-- ===== src/Node/Running.antt =====
-- `start`, `stop` and `wait_until_stopped` of lapinbeam/node.py, and the tasks that a node keeps.
pub mod Stopping
pub mod Ending
use lapinbeam.Prelude.{
  ℕ, String, Option, none, some, List, [], ◌∷◌, Bool, true, false, if◌then◌else◌, string_eq, nat_eq,
}
use lapinbeam.Dict
use lapinbeam.Node.State.{
  Node, TaskState, unset, scheduled, live, backing_off, over, Core, Future, pending, resolved,
  failed, begin, listen, halt, call_core,
}
use lapinbeam.Node.Events.{settle_all}
use lapinbeam.Supervisor.Lifecycle.{cancel_children}

-- `start`, with the native core that its constructor gives
unfoldable pub start : Core → Node → Node
start core n =
    if n.started
    then n
    else call_core listen (record (call_core begin n) {
      core = some core;
      node_id = core.resolved_id;
      stopped = some false;
      started = true;
      is_current = true;
    })

-- `if not fut.done(): fut.set_exception(…)`
unfoldable pub fail : Future → Future
fail pending = failed
fail resolved = resolved
fail failed = failed

-- `for waiters in self._peer_waiters.values()`
unfoldable pub fail_waiters : List (String × List ℕ) → Node → Node
unfolding fail
fail_waiters [] n = n
fail_waiters ((peer, waiters) ∷ rest) n = fail_waiters rest (settle_all fail waiters n)

-- The native core is stopped, and the actors' mailboxes are forgotten.
unfoldable pub shut : Node → Node
shut n =
    let halted : Node = elim n.core [ none ↦ n | some core ↦ call_core halt n ] in
    record halted { core = none; mailboxes = Dict.empty; started = false }

-- `stop` once the tasks have ended
unfoldable pub close : Node → Node
unfolding fail_waiters shut
close n =
    let failed_all = fail_waiters (Dict.items n.peer_waiters) (shut n) in
    record failed_all {
      peer_waiters = Dict.empty;
      stopped = elim failed_all.stopped [ none ↦ none | some is_set ↦ some true ];
    }

unfoldable pub stop : (overlapping : ℕ → Node → Node) → (tasks : List ℕ) → Node → Node
unfolding close
stop overlapping tasks n = close (cancel_children overlapping tasks n)

-- A task that was created and is not done.
abbrev pub is_pending : TaskState → Bool
is_pending unset = false
is_pending scheduled = true
is_pending live = true
is_pending backing_off = true
is_pending over = false

-- `_actor_tasks`: `_register_task` adds each task of an actor, and its end takes it out. They are
-- named by their children.
unfoldable pub actor_tasks : Node → List ℕ
actor_tasks n = Dict.keys_of (λ child. is_pending child.task) n.children

-- `stop`, with the tasks that it finds
unfoldable pub stop_node : (overlapping : ℕ → Node → Node) → Node → Node
unfolding stop actor_tasks
stop_node overlapping n = stop overlapping (actor_tasks n) n

-- Whether `wait_until_stopped` returns at once.
unfoldable pub stops_waiting : Node → Bool
stops_waiting n = elim n.stopped [ none ↦ true | some is_set ↦ is_set ]
