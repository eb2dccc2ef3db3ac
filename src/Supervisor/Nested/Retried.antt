-- ===== src/Supervisor/Nested/Retried.antt =====
-- A nested supervisor whose `build` fails halfway: its next round (lapinbeam/supervisor.py).
use lapinbeam.Prelude.{
  ℕ, String, none, some, true, ==_self, ◌≡◌, ◌≢◌, refl, ◌∙◌, ap, if◌then◌else◌, string_eq, nat_eq,
}
use lapinbeam.Dict
use lapinbeam.Dict.{get-put}
use lapinbeam.Messages.{Error, name_taken}
use lapinbeam.Node.State.{
  Node, Core, ActorChild, absent, scheduled, backing_off, call_core, Result, return, raise,
}
use lapinbeam.Node.Mailboxes.Delivery.{mailbox_of}
use lapinbeam.Asks.{new_queue}
use lapinbeam.Supervisor.{Supervisor, one_for_one, new_supervisor, allow_restart}
use lapinbeam.Supervisor.Lifecycle.{System, set_child, cancel_children, respawn_all}
use lapinbeam.Supervisor.Lifecycle.Restart.{affected_alone, others_self, strategy-allow_restart}
use lapinbeam.Supervisor.Spawning.{spawn, after_register, adopt}
use lapinbeam.Supervisor.Spawning.Ready.{
  registered, mailbox_of-adopt, register_actor-registered, spawn_taken,
}
use lapinbeam.Supervisor.Nested.{
  Nest, spawn_inner, begin_round, failed, nested_crash, end_round, resume_nested,
}

-- A child that has just been spawned.
abbrev pub fresh_child : String → (mailbox : ℕ) → ActorChild
fresh_child name mailbox = record {
  name = name;
  mailbox = mailbox;
  driver = absent;
  pending_exit = none;
  task = scheduled;
}

child-adopt :
    (name : String) (actor mailbox : ℕ) (sys : System)
    → Dict.get (adopt name actor mailbox sys).node.children actor ≡ some (fresh_child name mailbox)
unfolding adopt set_child
child-adopt name actor mailbox sys =
    let child = fresh_child name mailbox in
    get-put sys.node.children actor actor child
    ∙ ap (λ b. if b then some child else Dict.get sys.node.children actor) (==_self actor)

-- A system, once an actor has been spawned under a free name.
abbrev spawned : (capacity : ℕ) → String → (actor mailbox : ℕ) → System → System
spawned capacity name actor mailbox sys =
    adopt name actor mailbox (record sys { node = registered capacity name mailbox sys.node })

module _ (overlapping : ℕ → Node → Node) where
  end_round_granted :
      (ident now : ℕ) (e : Error) (nest : Nest)
      → (allow_restart now nest.parent.supervisor).0 ≡ true
      → end_round overlapping ident (failed e) now nest ≡ record {
        parent = record nest.parent { supervisor = (allow_restart now nest.parent.supervisor).1 };
        child = record nest.child { task = backing_off };
      }
  unfolding end_round nested_crash
  end_round_granted ident now e nest allowed = rw (allowed, end_round, nested_crash) refl

  resume_nested_alone :
      (ident : ℕ) (nest : Nest)
      → nest.parent.supervisor.strategy ≡ one_for_one
      → resume_nested overlapping ident nest ≡ record nest { child = begin_round nest.child }
  unfolding resume_nested cancel_children respawn_all
  resume_nested_alone ident nest alone =
      rw (affected_alone ident nest.parent.supervisor alone, resume_nested, others_self ident) refl

  -- Under `one_for_one`, an error that the budget allows leaves the node as it is, and a fresh
  -- supervisor is populated.
  retried_round :
      (ident now : ℕ) (e : Error) (nest : Nest)
      → nest.parent.supervisor.strategy ≡ one_for_one
      → (allow_restart now nest.parent.supervisor).0 ≡ true
      → resume_nested overlapping ident (end_round overlapping ident (failed e) now nest) ≡ record {
        parent = record nest.parent { supervisor = (allow_restart now nest.parent.supervisor).1 };
        child = begin_round (record nest.child { task = backing_off });
      }
  retried_round ident now e nest alone allowed =
      ap (resume_nested overlapping ident) (end_round_granted ident now e nest allowed)
      ∙ resume_nested_alone ident _ (strategy-allow_restart now nest.parent.supervisor ∙ alone)

  -- The whole nest, once an actor has been spawned under a free name.
  spawn_inner_free :
      (capacity : ℕ) (name : String) (actor mailbox : ℕ) (core : Core) (inner : Supervisor)
      (nest : Nest)
      → nest.parent.node.core ≡ some core
      → nest.child.inner ≡ some inner
      → mailbox_of nest.parent.node name ≡ none
      → let sys =
          spawned capacity name actor mailbox
            (record { node = nest.parent.node; supervisor = inner }) in
        spawn_inner capacity name actor mailbox nest ≡ (
          return tt,
          record {
            parent = record nest.parent { node = sys.node };
            child = record nest.child { inner = some sys.supervisor };
          },
        )
  unfolding spawn_inner spawn after_register
  spawn_inner_free capacity name actor mailbox core inner nest started populating free =
      let placed : Result (Unit {0}) × System → Result (Unit {0}) × Nest = λ r. (
        r.0,
        record {
          parent = record nest.parent { node = r.1.node };
          child = record nest.child { inner = some r.1.supervisor };
        },
      ) in
      let registers =
        register_actor-registered capacity name mailbox nest.parent.node core started free in
      rw (populating, spawn_inner)
        (ap (λ r. placed (after_register name actor mailbox inner r)) registers)

  -- Under a parent that is `one_for_one`, on a node that has started, where `build` spawns an
  -- actor under a free name and then raises, and the parent's budget allows a restart: in the next
  -- round the nested supervisor is a new one, with no children, while the actor of the round
  -- before is still a child whose task is to run, and a spawn under the same name raises, since
  -- the name is taken.
  pub retried_build_taken :
      (ident now capacity : ℕ) (name : String) (actor mailbox again another : ℕ) (e : Error)
      (core : Core) (inner : Supervisor) (nest : Nest)
      → nest.parent.supervisor.strategy ≡ one_for_one
      → (allow_restart now nest.parent.supervisor).0 ≡ true
      → nest.parent.node.core ≡ some core
      → nest.child.inner ≡ some inner
      → mailbox_of nest.parent.node name ≡ none
      → mailbox ≢ another
      → let built = spawn_inner capacity name actor mailbox nest in
        let retried =
          resume_nested overlapping ident (end_round overlapping ident (failed e) now built.1) in
        (built.0 ≡ return tt)
        × (Dict.get retried.parent.node.children actor ≡ some (fresh_child name mailbox))
        × (retried.child.inner
            ≡ some (
                new_supervisor nest.child.strategy nest.child.max_restarts
                  nest.child.restart_window))
        × ((spawn_inner capacity name again another retried).0 ≡ raise (name_taken name))
  unfolding spawn_inner begin_round adopt set_child new_queue call_core
  retried_build_taken ident now capacity name actor mailbox again another e core inner nest alone
        allowed started populating free differs =
      let sys =
        spawned capacity name actor mailbox
          (record { node = nest.parent.node; supervisor = inner }) in
      let built : Nest = record {
        parent = record nest.parent { node = sys.node };
        child = record nest.child { inner = some sys.supervisor };
      } in
      let round = λ (k : Nest).
        resume_nested overlapping ident (end_round overlapping ident (failed e) now k) in
      let by_build =
        spawn_inner_free capacity name actor mailbox core inner nest started populating free in
      let came = ap (λ r. round r.1) by_build ∙ retried_round ident now e built alone allowed in
      let fresh =
        new_supervisor nest.child.strategy nest.child.max_restarts nest.child.restart_window in
      (
        ap (λ r. r.0) by_build,
        ap (λ k. Dict.get k.parent.node.children actor) came
            ∙ child-adopt name actor mailbox (record {
              node = registered capacity name mailbox nest.parent.node;
              supervisor = inner;
            }),
        ap (λ k. k.child.inner) came,
        ap (λ k. (spawn_inner capacity name again another k).0) came
            ∙ (spawn_taken capacity name again another mailbox
                (record { node = sys.node; supervisor = fresh }) core started
                (mailbox_of-adopt capacity name actor mailbox
                  (record { node = nest.parent.node; supervisor = inner }))
                differs).0,
      )
