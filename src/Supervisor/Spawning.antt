-- ===== src/Supervisor/Spawning.antt =====
-- How the children of a `Supervisor` come and go (lapinbeam/supervisor.py, and `PoolRef` of
-- lapinbeam/refs.py): `spawn`, the actors of a pool, and nested supervisors.
pub mod Ready
pub mod Leaving
pub mod Once
use lapinbeam.Prelude.{
  ℕ, suc, ◌+◌, String, Option, none, some, List, [], ◌∷◌, ◌++◌, Bool, true, false, not, ◌&&◌, ◌||◌,
  ◌==◌, if◌then◌else◌, length, nat_eq, string_eq,
}
use lapinbeam.Dict
use lapinbeam.Messages.{
  Error, no_node, bad_executor, executor_with_class, executor_with_coroutine, Message,
}
use lapinbeam.Node.State.{Node, ActorChild, absent, scheduled, Result, return, raise}
use lapinbeam.Node.Mailboxes.{register_actor, send_local}
use lapinbeam.Asks.{new_queue}
use lapinbeam.Supervisor.{Supervisor, Strategy, new_supervisor, allow_restart, discard_child}
use lapinbeam.Supervisor.Lifecycle.{System, set_child, cancel_children, exhausted, shutdown_all}

-- `Supervisor.node`: the node it was given, else the one that is current.
unfoldable pub node_of {ℓ} : {A : Type ℓ} → (own current : Option A) → Result A
node_of (some own) current = return own
node_of none (some current) = return current
node_of none none = raise no_node

-- A child that was registered: it is listed, and its task is created.
unfoldable pub adopt : String → (ident mailbox : ℕ) → System → System
unfolding set_child
adopt name ident mailbox sys = record {
  node =
      set_child ident
        (record {
          name = name;
          mailbox = mailbox;
          driver = absent;
          pending_exit = none;
          task = scheduled;
        })
        sys.node;
  supervisor = record sys.supervisor { children = sys.supervisor.children ++ ident ∷ [] };
}

-- What follows the registration of a child's mailbox.
unfoldable pub after_register :
    String
    → (ident mailbox : ℕ) → Supervisor
    → Result (Unit {0}) × Node
    → Result (Unit {0}) × System
unfolding adopt
after_register name ident mailbox s (raise e, n) = (raise e, record { node = n; supervisor = s })
after_register name ident mailbox s (return _, n) =
    (return tt, adopt name ident mailbox (record { node = n; supervisor = s }))

-- `spawn` of a class with the given name; the numbers of the child and of its mailbox are new.
unfoldable pub spawn :
    (capacity : ℕ) → String → (ident mailbox : ℕ) → System → Result (Unit {0}) × System
unfolding after_register
spawn capacity name ident mailbox sys =
    after_register name ident mailbox sys.supervisor
      (register_actor name mailbox (new_queue mailbox capacity sys.node))

-- The checks of `_spawn_pool`, in their order.
unfoldable pub check_executor :
    (executor : Option String) → (is_actor_cls is_coroutine : Bool) → Result (Unit {0})
check_executor none is_actor_cls is_coroutine = return tt
check_executor (some executor) is_actor_cls is_coroutine =
    if not (executor == "thread" || executor == "process")
    then raise (bad_executor executor)
    else if is_actor_cls
    then raise executor_with_class
    else if is_coroutine
    then raise executor_with_coroutine
    else return tt

-- The children of a pool.
pub record PoolRef : Type 0 where
  pub dispatcher : ℕ
  pub workers : List ℕ

module _ (capacity : ℕ) (worker_name : ℕ → String) (start : Message) where
  -- A worker, and the message that starts its loop.
  unfoldable pub spawn_worker : (index ident mailbox : ℕ) → System → Result (Unit {0}) × System
  unfolding spawn
  spawn_worker index ident mailbox sys =
      let (result, sys') = spawn capacity (worker_name index) ident mailbox sys in
      elim result [
        | raise e ↦ (raise e, sys')
        | return _ ↦
            let (sent, n) = send_local (worker_name index) start none none sys'.node in
            (sent, record sys' { node = n })
      ]

  -- `for i in range(n_workers)`, with the numbers of each child and its mailbox
  unfoldable pub spawn_workers : (index : ℕ) → List (ℕ × ℕ) → System → Result (List ℕ) × System
  unfolding spawn_worker
  spawn_workers index [] sys = (return [], sys)
  spawn_workers index ((ident, mailbox) ∷ rest) sys =
      let (result, sys') = spawn_worker index ident mailbox sys in
      let (more, sys'') = spawn_workers (suc index) rest sys' in
      elim result [
        | raise e ↦ (raise e, sys')
        | return _ ↦
            (elim more [ raise e ↦ raise e | return idents ↦ return (ident ∷ idents) ], sys'')
      ]

  -- `_spawn_pool`
  unfoldable pub spawn_pool :
      (executor : Option String)
      → (is_actor_cls is_coroutine : Bool) → (name : String) → (ident mailbox : ℕ)
      → (workers : List (ℕ × ℕ)) → System
      → Result PoolRef × System
  unfolding check_executor spawn spawn_workers
  spawn_pool executor is_actor_cls is_coroutine name ident mailbox workers sys =
      elim (check_executor executor is_actor_cls is_coroutine) [
        | raise e ↦ (raise e, sys)
        | return _ ↦
            let (result, sys') = spawn capacity name ident mailbox sys in
            let (more, sys'') = spawn_workers 0 workers sys' in
            elim result [
              | raise e ↦ (raise e, sys')
              | return _ ↦ (
                elim more [
                  | raise e ↦ raise e
                  | return idents ↦ return (record { dispatcher = ident; workers = idents })
                ],
                sys'',
              )
            ]
      ]

unfoldable pub discard_children : List ℕ → Supervisor → Supervisor
unfolding discard_child
discard_children [] s = s
discard_children (ident ∷ idents) s = discard_children idents (discard_child ident s)

-- `PoolRef.size`
unfoldable pub pool_size : PoolRef → ℕ
pool_size pool = length pool.workers

-- `PoolRef.stop`
unfoldable pub stop_pool : (overlapping : ℕ → Node → Node) → PoolRef → System → System
unfolding discard_children
stop_pool overlapping pool sys =
    let refs = pool.dispatcher ∷ pool.workers in
    record {
      node = cancel_children overlapping refs sys.node;
      supervisor = discard_children refs sys.supervisor;
    }
