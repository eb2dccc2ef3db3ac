-- ===== src/Supervisor/Nested.antt =====
-- Nested supervisors (lapinbeam/supervisor.py): `_SupervisorChild`, and the task of one,
-- `_run_supervisor_child`, cut where it waits. The parent is a system in which the child is a number
-- of its list; the nested supervisor runs on the same node.
pub mod Rounds
pub mod Retried
use lapinbeam.Prelude.{
  ℕ, String, Option, none, some, List, [], ◌∷◌, ◌++◌, Bool, true, false, if◌then◌else◌,
}
use lapinbeam.Messages.{Error, cancelled}
use lapinbeam.Node.State.{
  Node, TaskState, unset, scheduled, live, backing_off, over, Result, return, raise,
}
use lapinbeam.Supervisor.{Supervisor, Strategy, new_supervisor, allow_restart, affected_children}
use lapinbeam.Supervisor.Lifecycle.{
  System, exhausted, shutdown_all, cancel_children, respawn_all, others,
}
use lapinbeam.Supervisor.Spawning.{spawn}

-- `_SupervisorChild`, less its recipe `build`.
pub record NestedChild : Type 0 where
  pub name : String
  pub strategy : Strategy
  pub max_restarts : ℕ
  pub restart_window : ℕ
  pub inner : Option Supervisor
  pub task : TaskState

-- The whole of both supervisors, on one node.
pub record Nest : Type 0 where
  pub parent : System
  pub child : NestedChild

-- `_SupervisorChild.__init__`
unfoldable pub new_nested : String → Strategy → (max_restarts restart_window : ℕ) → NestedChild
new_nested name strategy max_restarts restart_window = record {
  name = name;
  strategy = strategy;
  max_restarts = max_restarts;
  restart_window = restart_window;
  inner = none;
  task = unset;
}

-- `spawn_supervisor`, for a new number: the child is listed, and its task is created.
unfoldable pub spawn_supervisor :
    (ident : ℕ) → String → Strategy → (max_restarts restart_window : ℕ) → System → Nest
unfolding new_nested
spawn_supervisor ident name strategy max_restarts restart_window sys = record {
  parent = record sys {
    supervisor = record sys.supervisor { children = sys.supervisor.children ++ ident ∷ [] };
  };
  child = record (new_nested name strategy max_restarts restart_window) { task = scheduled };
}

-- The head of the loop: a fresh supervisor, which `build` then populates.
unfoldable pub begin_round : NestedChild → NestedChild
begin_round child = record child {
  inner = some (new_supervisor child.strategy child.max_restarts child.restart_window);
  task = live;
}

-- `child_supervisor.spawn` in `build`, which runs in a round only.
unfoldable pub spawn_inner :
    (capacity : ℕ) → String → (actor mailbox : ℕ) → Nest → Result (Unit {0}) × Nest
unfolding spawn
spawn_inner capacity name actor mailbox nest = elim nest.child.inner [
  | none ↦ (return tt, nest)
  | some inner ↦
      let (result, sys) =
        spawn capacity name actor mailbox
          (record { node = nest.parent.node; supervisor = inner }) in
      (
        result,
        record {
          parent = record nest.parent { node = sys.node };
          child = record nest.child { inner = some sys.supervisor };
        },
      )
]

-- What `_wait_for_give_up` returns, once the nested supervisor has given up.
unfoldable pub gave_up : Supervisor → Option Error
gave_up s = if s.given_up then s.give_up_exc else none

-- How a round ends: by a cancellation, or with the error of `build` or of the nested supervisor.
pub data Round : Type 0 where
  stopped : Round
  failed : Error → Round

module _ (overlapping : ℕ → Node → Node) where
  -- `await child.supervisor.shutdown()`, on the node of the parent
  unfoldable pub shutdown_inner : Nest → Nest
  shutdown_inner nest = elim nest.child.inner [
    | none ↦ nest
    | some inner ↦
        let sys =
          shutdown_all overlapping (record { node = nest.parent.node; supervisor = inner }) in
        record {
          parent = record nest.parent { node = sys.node };
          child = record nest.child { inner = some sys.supervisor };
        }
  ]

  -- `_handle_child_crash` up to its backoff, or to the error that the task ends with.
  unfoldable pub nested_crash : ℕ → Error → (now : ℕ) → Nest → Nest
  nested_crash ident e now nest =
      let (allowed, s) = allow_restart now nest.parent.supervisor in
      let parent = record nest.parent { supervisor = s } in
      if allowed
      then record { parent = parent; child = record nest.child { task = backing_off } }
      else record {
        parent = exhausted overlapping ident nest.child.name e parent;
        child = record nest.child { task = over };
      }

  -- The end of a round.
  unfoldable pub end_round : ℕ → Round → (now : ℕ) → Nest → Nest
  unfolding shutdown_inner nested_crash
  end_round ident stopped now nest =
      let nest' = shutdown_inner nest in record nest' { child = record nest'.child { task = over } }
  end_round ident (failed e) now nest = nested_crash ident e now nest

  -- What follows the backoff, where the siblings that a group restart affects are actors: they are
  -- stopped and started anew, and the next round begins.
  unfoldable pub resume_nested : ℕ → Nest → Nest
  unfolding begin_round others
  resume_nested ident nest = elim (affected_children ident nest.parent.supervisor) [
    | raise e ↦ record nest { child = record nest.child { task = over } }
    | return affected ↦
        let siblings = others ident affected in
        record {
          parent = record nest.parent {
            node = respawn_all siblings (cancel_children overlapping siblings nest.parent.node);
          };
          child = begin_round nest.child;
        }
  ]
