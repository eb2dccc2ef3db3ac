-- ===== src/Supervisor/Lifecycle.antt =====
-- `Supervisor._run_actor_child` of lapinbeam/supervisor.py, cut where it waits: the first run of a
-- child's task, the end of a generation with the first half of `_handle_child_crash`, and what
-- follows the backoff. Each piece runs without giving up control, but for the waits for cancelled
-- siblings to end, which are taken to end at once.
pub mod Clean
pub mod Endings
pub mod Restart
pub mod Pending
pub mod Shutdown
pub mod GiveUp
pub mod Taken
use lapinbeam.Prelude.{
  ℕ, String, Option, none, some, List, [], ◌∷◌, Bool, true, false, not, ◌==◌, if◌then◌else◌, keep,
  nat_eq, string_eq, pair_eq, option_eq,
}
use lapinbeam.Dict
use lapinbeam.Dict.{Dict, Set}
use lapinbeam.Messages.{Target, Error, Reason, crash, shutdown, normal, supervisor_gave_up}
use lapinbeam.Node.State.{
  Node, ActorChild, Driver, absent, running, done, TaskState, unset, scheduled, live, backing_off,
  over, Result, return, raise,
}
use lapinbeam.Node.Events.{on_core_event}
use lapinbeam.Node.Mailboxes.{register_actor, unregister_actor}
use lapinbeam.Node.Signals.{clear_links, notify_links, clear_monitors, notify_monitors}
use lapinbeam.Groups.{clear_groups}
use lapinbeam.Registry.{clear_registry}
use lapinbeam.Supervisor.{
  Supervisor, Strategy, one_for_one, one_for_all, rest_for_one, allow_restart, discard_child,
  affected_children,
}

-- A supervisor and the node that it runs on.
pub record System : Type 0 where
  pub node : Node
  pub supervisor : Supervisor

-- How the wait for an actor's driver ended.
pub data Outcome : Type 0 where
  cancelled : Outcome
  crashed : Error → Outcome
  returned : Outcome

-- What is kept of a generation that has ended: whom to tell.
pub record Ended : Type 0 where
  pub linked : Option (Set Target)
  pub monitored : Option (Dict String (Option String × String))
  pub node : Node

-- The calls that every branch begins with.
unfoldable pub end_generation : String → Node → Ended
end_generation name n =
    let unregistered = unregister_actor name n in
    let dead = record unregistered {
      live_children = Dict.remove unregistered.live_children name;
    } in
    let (linked, unlinked) = clear_links name dead in
    let (monitored, unwatched) = clear_monitors name unlinked in
    record {
      linked = linked;
      monitored = monitored;
      node = clear_registry name (clear_groups name unwatched);
    }

-- Tells linked actors and monitors that the generation is gone for good.
unfoldable pub tell_ended : String → Ended → Reason → Node
tell_ended name ended reason =
    notify_monitors name ended.monitored reason (notify_links name ended.linked reason ended.node)

unfoldable pub set_child : ℕ → ActorChild → Node → Node
set_child ident child n = record n { children = Dict.put n.children ident child }

-- A generation begins: the actor is built (`init` is what its constructor raises, if it does),
-- its mailbox registered, and its driver started.
unfoldable pub begin_generation :
    ℕ → ActorChild → (init : Option Error) → Node → Result (Unit {0}) × Node
unfolding set_child
begin_generation ident child (some e) n = (raise e, n)
begin_generation ident child none n =
    let (result, n') = register_actor child.name child.mailbox n in
    elim result [
      | raise e ↦ (raise e, n')
      | return _ ↦ (
        return tt,
        set_child ident (record child { driver = running false; task = live })
            (record n' { live_children = Dict.put n'.live_children child.name ident }),
      )
    ]

-- What the `except` clauses find: an error to be handled as a crash, or none, and the child with
-- its `pending_exit` taken where a cancellation carries one.
unfoldable pub routed : Outcome → ActorChild → Option Error × ActorChild
routed cancelled child = (child.pending_exit, record child { pending_exit = none })
routed (crashed e) child = (some e, child)
routed returned child = (none, child)

unfoldable pub final_reason : Outcome → Reason
final_reason returned = normal
final_reason cancelled = shutdown
final_reason (crashed e) = crash e

-- A task that is cancelled outside a crash handler: the clean-up of its branch if it runs, and
-- none if it has not begun or is sleeping out a backoff. The driver of a task that runs is taken to
-- end by the `CancelledError`.
unfoldable pub end_cancelled : ℕ → ActorChild → Node → Node
unfolding set_child
end_cancelled ident child n =
    tell_ended child.name
      (end_generation child.name (set_child ident (record child { driver = done; task = over }) n))
      shutdown

unfoldable pub cancel_live : ℕ → ActorChild → Node → Node
unfolding end_cancelled set_child
cancel_live ident child n = elim child.task [
  | unset ↦ n
  | scheduled ↦ set_child ident (record child { task = over }) n
  | live ↦ end_cancelled ident child n
  | backing_off ↦ set_child ident (record child { task = over }) n
  | over ↦ n
]

-- `child.task.cancel()` and the wait for its end. A child that is live and has an exit pending would
-- enter its own crash handler here: what that does to the node is the parameter, and what it does
-- to the supervisor is left to Supervisor/Reach/Turns.
module _ (overlapping : ℕ → Node → Node) where
  unfoldable pub cancel_child : ℕ → Node → Node
  unfolding cancel_live
  cancel_child ident n = elim (Dict.get n.children ident) [
    | none ↦ n
    | some child ↦ elim child.pending_exit [
      | some e ↦ elim child.task [ live ↦ overlapping ident n | _ ↦ cancel_live ident child n ]
      | none ↦ cancel_live ident child n
    ]
  ]

  unfoldable pub cancel_children : List ℕ → Node → Node
  cancel_children [] n = n
  cancel_children (c ∷ cs) n = cancel_children cs (cancel_child c n)

-- `_respawn_child`
unfoldable pub respawn : ℕ → Node → Node
respawn ident n = elim (Dict.get n.children ident) [
  | none ↦ n
  | some child ↦ set_child ident (record child { driver = absent; task = scheduled }) n
]

unfoldable pub respawn_all : List ℕ → Node → Node
unfolding respawn set_child
respawn_all [] n = n
respawn_all (c ∷ cs) n = respawn_all cs (respawn c n)

unfoldable pub others : ℕ → List ℕ → List ℕ
others ident = keep (λ c. not (c == ident))

unfoldable pub give_up : Error → Supervisor → Supervisor
give_up e s = record s { give_up_exc = some e; given_up = true }

-- `_shutdown_except` of the crashed child, and of no child for `shutdown`.
module _ (overlapping : ℕ → Node → Node) where
  unfoldable pub shutdown_except : ℕ → System → System
  unfolding others
  shutdown_except ident sys = record sys {
    node = cancel_children overlapping (others ident sys.supervisor.children) sys.node;
  }

  unfoldable pub shutdown_all : System → System
  shutdown_all sys = record sys {
    node = cancel_children overlapping sys.supervisor.children sys.node;
  }

  -- `_handle_child_crash` where the budget is spent.
  unfoldable pub give_up_one : ℕ → Error → System → System
  unfolding give_up discard_child
  give_up_one ident e sys =
      let s = discard_child ident sys.supervisor in
      elim s.children [
        | [] ↦ record sys { supervisor = give_up e s }
        | c ∷ cs ↦ record sys { supervisor = s }
      ]

  unfoldable pub give_up_all : ℕ → Error → System → System
  unfolding give_up
  give_up_all ident e sys =
      let sys' = shutdown_except ident sys in record sys' { supervisor = give_up e sys'.supervisor }

  unfoldable pub exhausted : ℕ → String → Error → System → System
  unfolding give_up_one give_up_all
  exhausted ident name e sys =
      let sys' = record sys { node = on_core_event (supervisor_gave_up name e) sys.node } in
      elim sys.supervisor.strategy [
        | one_for_one ↦ give_up_one ident e sys'
        | one_for_all ↦ give_up_all ident e sys'
        | rest_for_one ↦ give_up_all ident e sys'
      ]

  unfoldable pub set_task : ℕ → TaskState → Node → Node
  set_task ident state n = elim (Dict.get n.children ident) [
    | none ↦ n
    | some child ↦ set_child ident (record child { task = state }) n
  ]

  -- The child's crash is handled: it sleeps out the backoff if the budget allows a restart, and is
  -- gone for good otherwise.
  unfoldable pub crash_step : ℕ → String → Error → (now : ℕ) → Ended → Supervisor → System
  unfolding exhausted set_task
  crash_step ident name e now ended supervisor =
      let (allowed, s) = allow_restart now supervisor in
      if allowed
      then record { node = set_task ident backing_off ended.node; supervisor = s }
      else (let sys = exhausted ident name e (record { node = ended.node; supervisor = s }) in
          record sys {
            node =
                set_task ident over (tell_ended name (record ended { node = sys.node }) (crash e));
          })

  -- A child that was cancelled, or that returned, does not come back.
  unfoldable pub final_step : ℕ → String → Outcome → Ended → Supervisor → System
  unfolding set_task final_reason
  final_step ident name outcome ended supervisor = record {
    node = set_task ident over (tell_ended name ended (final_reason outcome));
    supervisor = elim outcome [
      | returned ↦ discard_child ident supervisor
      | cancelled ↦ supervisor
      | crashed e ↦ supervisor
    ];
  }

  -- By what the `except` clauses found.
  unfoldable pub end_by :
      Option Error → ℕ → String → Outcome → (now : ℕ) → Ended → Supervisor → System
  end_by (some e) ident name outcome now ended supervisor =
      crash_step ident name e now ended supervisor
  end_by none ident name outcome now ended supervisor =
      final_step ident name outcome ended supervisor

  -- The end of a generation.
  unfoldable pub generation_over : ℕ → ActorChild → Outcome → (now : ℕ) → System → System
  unfolding crash_step final_step end_by
  generation_over ident child outcome now sys =
      let (error, child') = routed outcome child in
      let ended =
        end_generation child.name (set_child ident (record child' { driver = done }) sys.node) in
      end_by error ident child.name outcome now ended sys.supervisor

  -- The head of the loop: a constructor or a registration that raises is a crash.
  unfoldable pub attempt : ℕ → (init : Option Error) → (now : ℕ) → System → System
  unfolding generation_over
  attempt ident init now sys = elim (Dict.get sys.node.children ident) [
    | none ↦ sys
    | some child ↦
        let (result, n) = begin_generation ident child init sys.node in
        elim result [
          | raise e ↦ generation_over ident child (crashed e) now (record sys { node = n })
          | return _ ↦ record sys { node = n }
        ]
  ]

  -- What follows the backoff: the other affected children are stopped and started anew, and the
  -- crashed child goes on in its own task.
  unfoldable pub resume : ℕ → (init : Option Error) → (now : ℕ) → System → System
  unfolding attempt set_task others
  resume ident init now sys = elim (affected_children ident sys.supervisor) [
    | raise e ↦ record sys { node = set_task ident over sys.node }
    | return affected ↦
        let siblings = others ident affected in
        attempt ident init now (record sys {
          node = respawn_all siblings (cancel_children overlapping siblings sys.node);
        })
  ]
