-- ===== src/Node/State.antt =====
-- The state of a `Node` (lapinbeam/node.py) with the objects that it shares: mailboxes and
-- supervised children live in heaps and are named by number, so that two names for one object are
-- seen as such. Coroutines that `asyncio.create_task` schedules wait in `tasks`, and the calls of
-- the native core are logged in `calls`.
use lapinbeam.Prelude.{
  ℕ, String, Option, none, some, List, [], ◌∷◌, ◌++◌, Bool, ltb, leb, length, ◌&&◌, if◌then◌else◌,
  string_eq, nat_eq, option_eq, pair_eq, ◌≡◌, ◌⊎◌, inl, inr, refl,
}
use lapinbeam.Dict.{Dict, Set}
use lapinbeam.Messages.{
  Member, Target, Error, Reason, Message, MessageMeta, Event, GroupVerb, RegistryVerb,
}

-- `asyncio.Queue`; a `maxsize` of 0 stands for no bound.
pub record Queue : Type 0 where
  pub maxsize : ℕ
  pub waiting : List (Message × MessageMeta)

-- `_ActorChild.driver`: `None`, a task that runs (and whether `cancel()` was called on it), or a
-- task that is done.
pub data Driver : Type 0 where
  absent : Driver
  running : (cancelling : Bool) → Driver
  done : Driver

-- `_ActorChild.task`, the task of `Supervisor._run_actor_child`: not set; created and not yet run;
-- waiting for the actor's driver; sleeping out a backoff in `_handle_child_crash`; or done.
pub data TaskState : Type 0 where
  unset scheduled live backing_off over : TaskState

-- `_ActorChild` of lapinbeam/supervisor.py, less the recipe of its actor.
pub record ActorChild : Type 0 where
  pub name : String
  pub mailbox : ℕ
  pub driver : Driver
  pub pending_exit : Option Error
  pub task : TaskState

-- An `asyncio.Future` of `connect_peer`.
pub data Future : Type 0 where
  pending resolved failed : Future

-- A callback of `on_event`: the closures of `register_groups`, `register_registry` and
-- `register_discovery`, or a callback of the application, which only observes.
pub data Listener : Type 0 where
  groups_listener registry_listener discovery_listener : Listener
  application : ℕ → Listener

-- A coroutine given to `asyncio.create_task`.
pub data Task : Type 0 where
  deliver_exit : (from_label target : String) → (reason : Reason) → Task
  deliver_down : (ref actor_label : String) → (reason : Reason) → Task
  notify_remote_exit : (peer target actor : String) → (reason : Reason) → Task
  notify_remote_down : (peer ref actor : String) → (reason : Reason) → Task
  group_delta : (peer group : String) → (member : Member) → (verb : GroupVerb) → Task
  group_snapshot : (peer : String) → Task
  registry_delta : (peer name : String) → (owner : Member) → (verb : RegistryVerb) → Task
  registry_snapshot : (peer : String) → Task

-- A call of the native core that leaves the process or that changes its table of actors.
pub data CoreCall : Type 0 where
  send_data :
      (peer actor : String)
      → (payload : Message) → (reply_to : Option String) → (correlation_id : Option ℕ) → CoreCall
  notify_peer_error :
      (peer : Option String) → (mailbox_full_of : String) → (correlation_id : Option ℕ) → CoreCall
  register unregister : (name : String) → CoreCall
  begin listen halt : CoreCall
  connect forget : (peer : String) → CoreCall

-- The native core, as the node sees it: its id, whether it takes a text for the identifier of a
-- peer, whether a send to a peer is taken now or raises, and what it answers of its peers.
pub record Core : Type 0 where
  pub resolved_id : String
  pub parses : String → Bool
  pub accepts : String → Bool
  pub connected_to : String → Bool
  pub peer_total : ℕ

-- `stopped` is the `asyncio.Event` of `stop`, if there is one, and whether it is set; `is_current`
-- says that the global `_current_node` is this node.
pub record Node : Type 0 where
  pub node_id : String
  pub core : Option Core
  pub started : Bool
  pub stopped : Option Bool
  pub is_current : Bool
  pub mailboxes : Dict String ℕ
  pub queues : Dict ℕ Queue
  pub peer_waiters : Dict String (List ℕ)
  pub futures : Dict ℕ Future
  pub links : Dict String (Set Target)
  pub trap_exit : Dict String Bool
  pub live_children : Dict String ℕ
  pub children : Dict ℕ ActorChild
  pub groups : Dict String (Set Member)
  pub group_leave_hook : Bool
  pub group_peers : Option (Set String)
  pub monitors : Dict String (String × Option String × String)
  pub monitor_watchers : Dict String (Dict String (Option String × String))
  pub registry : Dict String Member
  pub registry_release_hook : Bool
  pub registry_peers : Option (Set String)
  pub known : Set String
  pub listeners : List Listener
  pub observed : List (ℕ × Event)
  pub tasks : List Task
  pub calls : List CoreCall

-- `Node.local_id`
unfoldable pub local_id : Node → String
local_id n = elim n.core [ none ↦ n.node_id | some core ↦ core.resolved_id ]

-- `asyncio.create_task`
unfoldable pub create_task : Task → Node → Node
create_task t n = record n { tasks = n.tasks ++ t ∷ [] }

unfoldable pub create_tasks : List Task → Node → Node
create_tasks ts n = record n { tasks = n.tasks ++ ts }

unfoldable pub call_core : CoreCall → Node → Node
call_core c n = record n { calls = n.calls ++ c ∷ [] }

-- What a method returns or raises.
pub data Result {ℓ} (A : Type ℓ) : Type ℓ where
  return : A → Result A
  raise : Error → Result A

-- A method: what was changed before a raise stays changed.
abbrev pub Method {ℓ} : Type ℓ → Type ℓ
Method A = Node → Result A × Node

-- A method that returns `None`.
abbrev pub Action : Type 0
Action = Method (Unit {0})

-- `Queue.put_nowait`; `none` is `QueueFull`.
unfoldable pub put_nowait : Queue → Message × MessageMeta → Option Queue
put_nowait q item =
    if ltb 0 q.maxsize && leb q.maxsize (length q.waiting)
    then none
    else some (record q { waiting = q.waiting ++ item ∷ [] })

-- One method after another, unless the first raises.
unfoldable pub and_then {ℓ κ} :
    {A : Type ℓ} {B : Type κ} → Result A × Node → (A → Method B) → Result B × Node
and_then (raise e, n) rest = (raise e, n)
and_then (return a, n) rest = rest a n

-- What a method does, with the equation.
pub method-cases {ℓ} :
    {A : Type ℓ} (p : Result A × Node)
    → ((e : Error) × (n : Node) × (p ≡ (raise e, n))) ⊎ ((a : A) × (n : Node) × (p ≡ (return a, n)))
method-cases (raise e, n) = inl (e, n, refl)
method-cases (return a, n) = inr (a, n, refl)
