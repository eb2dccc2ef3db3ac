-- ===== src/Supervisor/Lifecycle/Restart.antt =====
-- A crash, the backoff and the generation that follows (lapinbeam/supervisor.py).
use lapinbeam.Prelude.{
  ℕ, String, Option, none, some, [], ◌∷◌, true, ==_iff, ==_self, ◌≡◌, refl, ◌∙◌, ap, if◌then◌else◌,
  string_eq, nat_eq, pair_eq, option_eq, arith, Option-cases, inl, inr, not, keep,
}
use lapinbeam.Dict
use lapinbeam.Dict.{get-put}
use lapinbeam.Messages.{Error}
use lapinbeam.Node.State.{Node, Core, ActorChild, done, backing_off, TaskState, call_core, return}
use lapinbeam.Node.Mailboxes.{register_actor}
use lapinbeam.Node.Mailboxes.Delivery.{mailbox_of}
use lapinbeam.Supervisor.{Supervisor, one_for_one, allow_restart, affected_children, affected_by}
use lapinbeam.Supervisor.Lifecycle.{
  System, crashed, Ended, end_generation, set_child, routed, set_task, crash_step, end_by,
  generation_over, begin_generation, attempt, resume, respawn_all, cancel_children, others,
}
use lapinbeam.Supervisor.Lifecycle.Clean.{unwatched, read-end_generation, end_generation-records}
use lapinbeam.Supervisor.Lifecycle.Endings.{get-set_task}

module _ (name : String) (n : Node) where
  queues-end_generation : (end_generation name n).node.queues ≡ n.queues
  unfolding unwatched call_core
  queues-end_generation =
      read-end_generation (λ k. k.queues) name n (λ _ _ _ _ _. refl)
      ∙ elim (Option-cases n.core) [ inl e ↦ ground arith | inr (core, e) ↦ ground arith ]

  pub children-end_generation : (end_generation name n).node.children ≡ n.children
  unfolding unwatched call_core
  children-end_generation =
      read-end_generation (λ k. k.children) name n (λ _ _ _ _ _. refl)
      ∙ elim (Option-cases n.core) [ inl e ↦ ground arith | inr (core, e) ↦ ground arith ]

  core-end_generation : (end_generation name n).node.core ≡ n.core
  unfolding unwatched call_core
  core-end_generation =
      read-end_generation (λ k. k.core) name n (λ _ _ _ _ _. refl)
      ∙ elim (Option-cases n.core) [ inl e ↦ ground arith | inr (core, e) ↦ ground arith ]

-- A free name can be registered on a node that has started.
begin_generation_free :
    (ident : ℕ) (child : ActorChild) (core : Core) (n : Node)
    → n.core ≡ some core
    → mailbox_of n child.name ≡ none
    → ((begin_generation ident child none n).0 ≡ return tt)
      × ((begin_generation ident child none n).1.queues ≡ n.queues)
      × (mailbox_of (begin_generation ident child none n).1 child.name ≡ some child.mailbox)
      × (Dict.get (begin_generation ident child none n).1.live_children child.name ≡ some ident)
unfolding begin_generation register_actor call_core
begin_generation_free ident child core n started free = ground (
  arith,
  get-put n.mailboxes child.name child.name child.mailbox,
  get-put n.live_children child.name child.name ident,
  ==_iff child.name child.name,
)

module _ (overlapping : ℕ → Node → Node) (ident : ℕ) (state : TaskState) (n : Node) where
  set_task-frame :
      ((set_task overlapping ident state n).queues ≡ n.queues)
      × ((set_task overlapping ident state n).mailboxes ≡ n.mailboxes)
      × ((set_task overlapping ident state n).core ≡ n.core)
  unfolding set_task set_child
  set_task-frame = elim (Option-cases (Dict.get n.children ident)) [
    | inl e ↦ ground arith
    | inr (child, e) ↦ ground arith
  ]

-- The node once a crash has been granted its restart.
module _ (overlapping : ℕ → Node → Node) (ident now : ℕ) (child : ActorChild) (why : Error)
    (sys : System) (granted : (allow_restart now sys.supervisor).0 ≡ true) where
  ending : Ended
  ending = end_generation child.name (set_child ident (record child { driver = done }) sys.node)

  unfoldable pub crashed_node : Node
  crashed_node = (generation_over overlapping ident child (crashed why) now sys).node

  node-crashed : crashed_node ≡ set_task overlapping ident backing_off ending.node
  unfolding crashed_node ending generation_over routed crash_step end_by
  node-crashed = rw (crashed_node, generation_over, crash_step, granted) refl

  -- The crashed child sleeps; its `pending_exit` is as it was.
  pub child-crashed :
      Dict.get crashed_node.children ident
      ≡ some (record child { driver = done; task = backing_off })
  unfolding ending set_child
  child-crashed =
      let n = set_child ident (record child { driver = done }) sys.node in
      rw node-crashed (
        get-set_task overlapping ident backing_off (record child { driver = done }) ending.node
          (ap (λ d. Dict.get d ident) (children-end_generation child.name n)
            ∙ get-put sys.node.children ident ident (record child { driver = done })
            ∙ ground (arith, ==_iff ident ident)))

  queues-crashed : crashed_node.queues ≡ sys.node.queues
  unfolding ending set_child
  queues-crashed =
      let n = set_child ident (record child { driver = done }) sys.node in
      ap (λ k. k.queues) node-crashed
      ∙ (set_task-frame overlapping ident backing_off ending.node).0
      ∙ queues-end_generation child.name n

  pub core-crashed : crashed_node.core ≡ sys.node.core
  unfolding ending set_child
  core-crashed =
      let n = set_child ident (record child { driver = done }) sys.node in
      ap (λ k. k.core) node-crashed
      ∙ (set_task-frame overlapping ident backing_off ending.node).2
      ∙ core-end_generation child.name n

  pub free-crashed : mailbox_of crashed_node child.name ≡ none
  unfolding ending
  free-crashed =
      let n = set_child ident (record child { driver = done }) sys.node in
      ap (λ k. mailbox_of k child.name) node-crashed
      ∙ ap (λ d. Dict.get d child.name) (set_task-frame overlapping ident backing_off ending.node).1
      ∙ ground
          (arith, (end_generation-records child.name child.name n).0, ==_iff child.name child.name)

  supervisor-crashed :
      (generation_over overlapping ident child (crashed why) now sys).supervisor
      ≡ (allow_restart now sys.supervisor).1
  unfolding generation_over routed crash_step end_by
  supervisor-crashed = rw (generation_over, crash_step, granted) refl

pub strategy-allow_restart :
    (now : ℕ) (s : Supervisor) → (allow_restart now s).1.strategy ≡ s.strategy
unfolding allow_restart
strategy-allow_restart now s = ground arith

pub affected_alone :
    (ident : ℕ) (s : Supervisor)
    → s.strategy ≡ one_for_one
    → affected_children ident s ≡ return (ident ∷ [])
unfolding affected_children affected_by
affected_alone ident s alone = ap (λ k. affected_by k ident s.children) alone

pub others_self : (ident : ℕ) → others ident (ident ∷ []) ≡ []
unfolding others keep
others_self ident = ap (λ b. if not b then ident ∷ [] else []) (==_self ident)

-- The generation that follows the backoff.
abbrev pub restarted :
    (ℕ → Node → Node) → (ident now later : ℕ) → ActorChild → Error → System → System
restarted overlapping ident now later child why sys =
    resume overlapping ident none later
      (generation_over overlapping ident child (crashed why) now sys)

resume_alone :
    (overlapping : ℕ → Node → Node) (ident later : ℕ) (init : Option Error) (sys : System)
    → sys.supervisor.strategy ≡ one_for_one
    → resume overlapping ident init later sys ≡ attempt overlapping ident init later sys
unfolding resume cancel_children respawn_all
resume_alone overlapping ident later init sys alone =
    rw (affected_alone ident sys.supervisor alone, resume, others_self ident) refl

attempt_free :
    (overlapping : ℕ → Node → Node) (ident later : ℕ) (child : ActorChild) (core : Core)
    (sys : System)
    → Dict.get sys.node.children ident ≡ some child
    → sys.node.core ≡ some core
    → mailbox_of sys.node child.name ≡ none
    → (attempt overlapping ident none later sys).node
      ≡ (begin_generation ident child none sys.node).1
unfolding attempt
attempt_free overlapping ident later child core sys e started free =
    let (ok, _, _, _) = begin_generation_free ident child core sys.node started free in
    rw (e, attempt, ok) refl

-- Where only the crashed child is affected, the new generation begins on the node that the crash
-- has left, by the child as it sleeps.
module _ (overlapping : ℕ → Node → Node) (ident now later : ℕ) (child : ActorChild) (why : Error)
    (core : Core) (sys : System) (granted : (allow_restart now sys.supervisor).0 ≡ true)
    (alone : sys.supervisor.strategy ≡ one_for_one) (started : sys.node.core ≡ some core) where
  unfoldable pub sleeper : ActorChild
  sleeper = record child { driver = done; task = backing_off }

  pub restarted-begin :
      (restarted overlapping ident now later child why sys).node
      ≡ (begin_generation ident sleeper none
          (crashed_node overlapping ident now child why sys granted)).1
  unfolding crashed_node sleeper
  restarted-begin =
      let asleep = generation_over overlapping ident child (crashed why) now sys in
      ap (λ s. s.node)
        (resume_alone overlapping ident later none asleep (
          ap (λ s. s.strategy) (supervisor-crashed overlapping ident now child why sys granted)
          ∙ strategy-allow_restart now sys.supervisor
          ∙ alone))
      ∙ attempt_free overlapping ident later sleeper core asleep
          (child-crashed overlapping ident now child why sys granted)
          (core-crashed overlapping ident now child why sys granted ∙ started)
          (free-crashed overlapping ident now child why sys granted)

-- On a node that has started, under `one_for_one`, where the budget allows a restart of a child
-- that has crashed, nothing else happens during its backoff, and the constructor of its actor
-- returns: the crash ends in a new generation with the mailbox that the child had, the name leads
-- to that mailbox and to that child again, and every queue is as it was before the crash.
pub restarted_keeps_mail :
    (overlapping : ℕ → Node → Node) (ident now later : ℕ) (child : ActorChild) (why : Error)
    (core : Core) (sys : System)
    → (allow_restart now sys.supervisor).0 ≡ true
    → sys.supervisor.strategy ≡ one_for_one
    → sys.node.core ≡ some core
    → ((restarted overlapping ident now later child why sys).node.queues ≡ sys.node.queues)
      × (mailbox_of (restarted overlapping ident now later child why sys).node child.name
          ≡ some child.mailbox)
      × (Dict.get
            (restarted overlapping ident now later child why sys).node.live_children
            child.name
          ≡ some ident)
unfolding sleeper
restarted_keeps_mail overlapping ident now later child why core sys granted alone started =
    let again =
      restarted-begin overlapping ident now later child why core sys granted alone started in
    let (_, queues, mailbox, alive) =
      begin_generation_free ident (record child { driver = done; task = backing_off }) core
        (crashed_node overlapping ident now child why sys granted)
        (core-crashed overlapping ident now child why sys granted ∙ started)
        (free-crashed overlapping ident now child why sys granted) in
    (
      ap (λ k. k.queues) again
          ∙ queues
          ∙ queues-crashed overlapping ident now child why sys granted,
      ap (λ k. mailbox_of k child.name) again ∙ mailbox,
      ap (λ k. Dict.get k.live_children child.name) again ∙ alive,
    )
