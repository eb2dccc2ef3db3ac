-- ===== src/Supervisor/Lifecycle/Taken.antt =====
-- A generation that begins under a name which another actor has taken during the backoff
-- (lapinbeam/supervisor.py).
use lapinbeam.Prelude.{
  ℕ, none, some, true, ==_ne, ◌≡◌, ◌≢◌, ◌∙◌, ap, string_eq, nat_eq, pair_eq, option_eq, arith,
}
use lapinbeam.Dict
use lapinbeam.Messages.{name_taken}
use lapinbeam.Node.State.{Node, Core, ActorChild, done, backing_off, raise}
use lapinbeam.Node.Mailboxes.{register_actor}
use lapinbeam.Node.Mailboxes.Delivery.{mailbox_of}
use lapinbeam.Supervisor.{allow_restart}
use lapinbeam.Supervisor.Lifecycle.{System, crashed, begin_generation, generation_over, attempt}
use lapinbeam.Supervisor.Lifecycle.Restart.{crashed_node, child-crashed, free-crashed}

begin_generation_taken :
    (ident : ℕ) (child : ActorChild) (core : Core) (other : ℕ) (n : Node)
    → n.core ≡ some core
    → mailbox_of n child.name ≡ some other
    → other ≢ child.mailbox
    → begin_generation ident child none n ≡ (raise (name_taken child.name), n)
unfolding begin_generation register_actor
begin_generation_taken ident child core other n started here differs =
    ground (arith, ==_ne other child.mailbox differs)

-- On a node that has started, where the name of a child that begins a generation leads to the
-- mailbox of another actor and the budget allows a restart: afterwards the name leads to no
-- mailbox, so that the other actor is cut off, and the child sleeps out a backoff.
pub attempt_taken :
    (overlapping : ℕ → Node → Node) (ident now other : ℕ) (child : ActorChild) (core : Core)
    (sys : System)
    → Dict.get sys.node.children ident ≡ some child
    → sys.node.core ≡ some core
    → mailbox_of sys.node child.name ≡ some other
    → other ≢ child.mailbox
    → (allow_restart now sys.supervisor).0 ≡ true
    → (mailbox_of (attempt overlapping ident none now sys).node child.name ≡ none)
      × (Dict.get (attempt overlapping ident none now sys).node.children ident
          ≡ some (record child { driver = done; task = backing_off }))
unfolding attempt crashed_node
attempt_taken overlapping ident now other child core sys e started here differs granted =
    let failed = crashed (name_taken child.name) in
    let as_crash : attempt overlapping ident none now sys
        ≡ generation_over overlapping ident child failed now sys =
      ground
        (arith, e, begin_generation_taken ident child core other sys.node started here differs) in
    (
      ap (λ s. mailbox_of s.node child.name) as_crash
          ∙ free-crashed overlapping ident now child (name_taken child.name) sys granted,
      ap (λ s. Dict.get s.node.children ident) as_crash
          ∙ child-crashed overlapping ident now child (name_taken child.name) sys granted,
    )
