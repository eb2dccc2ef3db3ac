-- ===== src/Supervisor/Lifecycle/Pending.antt =====
-- Two unusual ends of a child's task (lapinbeam/supervisor.py): a shutdown during a backoff, and an
-- exit that is still pending when the child crashes by itself.
use lapinbeam.Prelude.{
  ℕ, none, some, ◌≡◌, refl, ◌∙◌, ap, keep, true, false, ==_iff, string_eq, nat_eq, arith,
}
use lapinbeam.Dict
use lapinbeam.Dict.{get-put}
use lapinbeam.Messages.{Error}
use lapinbeam.Node.State.{Node, Core, ActorChild, done, running, over, backing_off, live, call_core}
use lapinbeam.Node.Signals.Kinds.{is_signal, signals}
use lapinbeam.Supervisor.Lifecycle.Clean.{signals-end_generation}
use lapinbeam.Node.Mailboxes.{register_actor}
use lapinbeam.Node.Mailboxes.Delivery.{mailbox_of}
use lapinbeam.Supervisor.{one_for_one, allow_restart}
use lapinbeam.Supervisor.Lifecycle.{
  System, crashed, cancelled, set_child, generation_over, begin_generation, cancel_child,
  cancel_live,
}
use lapinbeam.Supervisor.Lifecycle.Endings.{generation_over_quiet, generation_over_killed}
use lapinbeam.Supervisor.Lifecycle.Restart.{
  crashed_node, sleeper, child-crashed, core-crashed, free-crashed, restarted, restarted-begin,
}

-- A task that sleeps out its backoff is ended by a cancellation alone.
cancel_child_asleep :
    (overlapping : ℕ → Node → Node) (ident : ℕ) (child : ActorChild) (n : Node)
    → Dict.get n.children ident ≡ some child
    → child.pending_exit ≡ none
    → child.task ≡ backing_off
    → cancel_child overlapping ident n ≡ set_child ident (record child { task = over }) n
unfolding cancel_child cancel_live
cancel_child_asleep overlapping ident child n e p b = ground arith

-- A shutdown that finds a crashed child, for which no exit is pending, in its backoff ends the
-- child for good, and no linked actor and no watcher was or is told: the signals that are
-- scheduled afterwards are those that were scheduled before the crash.
pub cancel_child_silent :
    (overlapping : ℕ → Node → Node) (ident now : ℕ) (child : ActorChild) (why : Error)
    (sys : System)
    → (allow_restart now sys.supervisor).0 ≡ true
    → child.pending_exit ≡ none
    → (Dict.get
          (cancel_child overlapping ident
            (generation_over overlapping ident child (crashed why) now sys).node).children
          ident
        ≡ some (record child { driver = done; task = over }))
      × (signals (
            cancel_child overlapping ident
              (generation_over overlapping ident child (crashed why) now sys).node)
          ≡ signals sys.node)
unfolding crashed_node set_child
cancel_child_silent overlapping ident now child why sys granted quiet =
    let n = (generation_over overlapping ident child (crashed why) now sys).node in
    let e =
      cancel_child_asleep overlapping ident (record child { driver = done; task = backing_off }) n
        (child-crashed overlapping ident now child why sys granted) quiet refl in
    (
      ap (λ k. Dict.get k.children ident) e
          ∙ get-put n.children ident ident (record child { driver = done; task = over })
          ∙ ground (arith, ==_iff ident ident),
      ap signals e
          ∙ ap (keep is_signal) (generation_over_quiet overlapping ident now child why sys granted)
          ∙ signals-end_generation child.name
              (set_child ident (record child { driver = done }) sys.node),
    )

-- The next generation of a child.
abbrev pub next_generation : ActorChild → ActorChild
next_generation child = record child { driver = running false; task = live }

begin_generation-child :
    (ident : ℕ) (child : ActorChild) (core : Core) (n : Node)
    → n.core ≡ some core
    → mailbox_of n child.name ≡ none
    → Dict.get (begin_generation ident child none n).1.children ident ≡ some (next_generation child)
unfolding begin_generation register_actor call_core set_child
begin_generation-child ident child core n started free =
    ground (arith, get-put n.children ident ident (next_generation child), ==_iff ident ident)

-- On a node that has started, under `one_for_one`, where an exit is pending when the child crashes
-- by itself and the budget allows a restart: the next generation still carries that exit, and its
-- end by any cancellation is handled as a crash with the old exit.
pub pending_exit_outlives :
    (overlapping : ℕ → Node → Node) (ident now later : ℕ) (child : ActorChild) (why old : Error)
    (core : Core) (sys : System) (again : ℕ) (next : System)
    → (allow_restart now sys.supervisor).0 ≡ true
    → sys.supervisor.strategy ≡ one_for_one
    → sys.node.core ≡ some core
    → child.pending_exit ≡ some old
    → (Dict.get (restarted overlapping ident now later child why sys).node.children ident
        ≡ some (next_generation child))
      × (generation_over overlapping ident (next_generation child) cancelled again next
          ≡ generation_over overlapping ident
              (record (next_generation child) { pending_exit = none })
              (crashed old)
              again
              next)
unfolding sleeper
pending_exit_outlives overlapping ident now later child why old core sys again next granted alone
      started p =
    (
      ap (λ k. Dict.get k.children ident)
            (restarted-begin overlapping ident now later child why core sys granted alone started)
          ∙ begin_generation-child ident (record child { driver = done; task = backing_off }) core
              (crashed_node overlapping ident now child why sys granted)
              (core-crashed overlapping ident now child why sys granted ∙ started)
              (free-crashed overlapping ident now child why sys granted),
      generation_over_killed overlapping ident (next_generation child) old again next p,
    )
