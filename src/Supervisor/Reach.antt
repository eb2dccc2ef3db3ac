-- ===== src/Supervisor/Reach.antt =====
-- The states that a supervisor and its node come to (lapinbeam/supervisor.py): the pieces of a child's
-- life as steps, in any order that the event loop allows.
pub mod Led
pub mod Ops
pub mod Cancels
pub mod Steps
pub mod Invariant
pub mod Kept
pub mod Mailboxes
pub mod Lasting
pub mod Ledger
pub mod Turns
use lapinbeam.Prelude.{ℕ, String, Option, none, some, List, ◌≡◌, string_eq, nat_eq}
use lapinbeam.Dict
use lapinbeam.Messages.{Error, Reason, Message}
use lapinbeam.Node.State.{Node, Core, ActorChild, TaskState, scheduled, live, backing_off}
use lapinbeam.Node.Initial.{new_node}
use lapinbeam.Node.Running.{start}
use lapinbeam.Node.Mailboxes.{send_local}
use lapinbeam.Node.Signals.{run_deliver_exit}
use lapinbeam.Supervisor.{Strategy, new_supervisor}
use lapinbeam.Supervisor.Lifecycle.{System, Outcome, generation_over, attempt, resume, shutdown_all}
use lapinbeam.Supervisor.Spawning.{spawn}

-- `_spawn` with a number that no child has; the first run of a child's task; the end of a
-- generation; the end of a backoff; `shutdown`; a local send; and an exit signal. What pools and
-- nested supervisors do to the supervisor is in Turns.
pub data Step (overlapping : ℕ → Node → Node) (sys : System) : System → Type 0 where
  spawned :
      (capacity : ℕ) (name : String) (ident mailbox : ℕ)
      → Dict.get sys.node.children ident ≡ none
      → Step overlapping sys (spawn capacity name ident mailbox sys).1
  begun :
      (ident : ℕ) (child : ActorChild) (init : Option Error) (now : ℕ)
      → Dict.get sys.node.children ident ≡ some child
      → child.task ≡ scheduled
      → Step overlapping sys (attempt overlapping ident init now sys)
  ended :
      (ident : ℕ) (child : ActorChild) (outcome : Outcome) (now : ℕ)
      → Dict.get sys.node.children ident ≡ some child
      → child.task ≡ live
      → Step overlapping sys (generation_over overlapping ident child outcome now sys)
  resumed :
      (ident : ℕ) (child : ActorChild) (init : Option Error) (now : ℕ)
      → Dict.get sys.node.children ident ≡ some child
      → child.task ≡ backing_off
      → Step overlapping sys (resume overlapping ident init now sys)
  shut_down : Step overlapping sys (shutdown_all overlapping sys)
  sent :
      (name : String) (msg : Message) (reply_to : Option String) (correlation_id : Option ℕ)
      → Step overlapping sys
          (record sys { node = (send_local name msg reply_to correlation_id sys.node).1 })
  signalled :
      (from_label target : String) (reason : Reason)
      → Step overlapping sys
          (record sys { node = (run_deliver_exit from_label target reason sys.node).1 })

-- A node that has just started, with a new supervisor.
unfoldable pub initial :
    (node_id : String) → Core → Strategy → (max_restarts restart_window : ℕ) → System
initial node_id core strategy max_restarts restart_window = record {
  node = start core (new_node node_id);
  supervisor = new_supervisor strategy max_restarts restart_window;
}

pub data Reach (overlapping : ℕ → Node → Node) (first : System) : System → Type 0 where
  here : Reach overlapping first first
  next :
      {s t : System} → Reach overlapping first s → Step overlapping s t → Reach overlapping first t
