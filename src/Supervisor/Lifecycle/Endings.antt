-- ===== src/Supervisor/Lifecycle/Endings.antt =====
-- Who learns of an actor's end, and what outlives a restart (lapinbeam/supervisor.py).
use mathlib.Core.List.{Mem, mem-append_left, mem-append_right, mem-map_of_mem}
use lapinbeam.Prelude.{
  ℕ, String, Option, none, some, Bool, true, false, ==_iff, ◌≡◌, refl, ◌∙◌, ap, if◌then◌else◌,
  elem-mem, string_eq, nat_eq, pair_eq, option_eq, arith, Option-cases, Bool-cases, inl, inr, subst,
}
use mathlib.Core.Option.{some-injective}
use lapinbeam.Dict
use lapinbeam.Dict.{Set, get-put, elem-to_list}
use lapinbeam.Messages.{Target, Error, Reason, crash, shutdown, normal}
use lapinbeam.Node.State.{
  Node, ActorChild, done, TaskState, call_core, Task, deliver_exit, notify_remote_exit,
  create_tasks,
}
use lapinbeam.Node.Mailboxes.{unregister_actor}
use lapinbeam.Node.Signals.{clear_links, exit_task, notify_links, notify_monitors}
use lapinbeam.Supervisor.{Supervisor, allow_restart}
use lapinbeam.Supervisor.Lifecycle.{
  System, Outcome, cancelled, crashed, returned, Ended, end_generation, tell_ended, set_child,
  routed, set_task, final_reason, crash_step, final_step, end_by, generation_over,
}

-- The end of a generation by a link-triggered kill is handled exactly as a crash with the pending
-- exit, which is taken off the child.
pub generation_over_killed :
    (overlapping : ℕ → Node → Node) (ident : ℕ) (child : ActorChild) (e : Error) (now : ℕ)
    (sys : System)
    → child.pending_exit ≡ some e
    → generation_over overlapping ident child cancelled now sys
      ≡ generation_over overlapping ident (record child { pending_exit = none }) (crashed e) now sys
unfolding generation_over routed
generation_over_killed overlapping ident child e now sys h = rw (h, generation_over, routed) refl

tasks-notify_monitors :
    (name : String) (watchers : Option (Dict.Dict String (Option String × String)))
    (reason : Reason) (n : Node) (t : Task)
    → Mem t n.tasks
    → Mem t (notify_monitors name watchers reason n).tasks
unfolding notify_monitors create_tasks
tasks-notify_monitors name none reason n t m = m
tasks-notify_monitors name (some watchers) reason n t m = mem-append_left _ m

-- Each actor that was linked is told once the generation is gone for good, the local ones by an
-- exit signal and the remote ones by a message to their node.
pub tell_ended_links :
    (name : String) (ended : Ended) (reason : Reason) (targets : Set Target) (t : Target)
    → ended.linked ≡ some targets
    → Dict.contains targets t ≡ true
    → Mem (exit_task name reason t) (tell_ended name ended reason).tasks
unfolding tell_ended notify_links create_tasks
tell_ended_links name ended reason targets t e c =
    tasks-notify_monitors name ended.monitored reason
      (notify_links name ended.linked reason ended.node) (exit_task name reason t)
      (rw (e, notify_links)
        (mem-append_right ended.node.tasks (
          mem-map_of_mem (exit_task name reason)
            (elem-mem t (Dict.to_list targets) (elem-to_list targets t ∙ c)))))

-- The reason that a generation's end gives if it is for good, and none if the child comes back.
abbrev pub final_reason_of : Outcome → ActorChild → (allowed : Bool) → Option Reason
final_reason_of returned child allowed = some normal
final_reason_of cancelled child allowed = elim child.pending_exit [
  | none ↦ some shutdown
  | some e ↦ if allowed then none else some (crash e)
]
final_reason_of (crashed e) child allowed = if allowed then none else some (crash e)

linked-end_generation :
    (name : String) (n : Node) → (end_generation name n).linked ≡ Dict.get n.links name
unfolding end_generation unregister_actor clear_links call_core
linked-end_generation name n = elim (Option-cases n.core) [
  | inl e ↦ ground arith
  | inr (core, e) ↦ ground arith
]

pub tasks-set_task :
    (overlapping : ℕ → Node → Node) (ident : ℕ) (state : TaskState) (n : Node)
    → (set_task overlapping ident state n).tasks ≡ n.tasks
unfolding set_task set_child
tasks-set_task overlapping ident state n = elim (Option-cases (Dict.get n.children ident)) [
  | inl e ↦ rw (e, set_task) refl
  | inr (child, e) ↦ rw (e, set_task) refl
]

module _ (overlapping : ℕ → Node → Node) (ident : ℕ) (name : String) (now : ℕ) (ended : Ended)
    (supervisor : Supervisor) (targets : Set Target) (t : Target) (e : ended.linked ≡ some targets)
    (c : Dict.contains targets t ≡ true) where
  crash_step_tells :
      (why : Error)
      → (allow_restart now supervisor).0 ≡ false
      → Mem
          (exit_task name (crash why) t)
          (crash_step overlapping ident name why now ended supervisor).node.tasks
  unfolding crash_step
  crash_step_tells why h =
      rw (h, crash_step, tasks-set_task)
        (tell_ended_links name (record ended { node = _ }) (crash why) targets t e c)

  by_budget :
      (why : Error) (reason : Reason)
      → (if (allow_restart now supervisor).0 then none else some (crash why)) ≡ some reason
      → Mem
          (exit_task name reason t)
          (crash_step overlapping ident name why now ended supervisor).node.tasks
  by_budget why reason h = elim (Bool-cases (allow_restart now supervisor).0) [
    | inl granted ↦
        cc (ap (λ b. if◌then◌else◌ {A = Option Reason} b none (some (crash why))) granted, h)
    | inr refused ↦
        subst
          (λ r.
            Mem (exit_task name r t)
              (crash_step overlapping ident name why now ended supervisor).node.tasks)
          (some-injective _ _ (rw refused at h)) (crash_step_tells why refused)
  ]

  final_step_tells :
      (outcome : Outcome)
      → Mem
          (exit_task name (final_reason outcome) t)
          (final_step overlapping ident name outcome ended supervisor).node.tasks
  unfolding final_step
  final_step_tells outcome =
      rw tasks-set_task (tell_ended_links name ended (final_reason outcome) targets t e c)

  -- The three ways in which a generation ends for good.
  end_by_tells :
      (outcome : Outcome) (child : ActorChild) (reason : Reason)
      → final_reason_of outcome child (allow_restart now supervisor).0 ≡ some reason
      → Mem
          (exit_task name reason t)
          (end_by overlapping
            (routed outcome child).0
            ident
            name
            outcome
            now
            ended
            supervisor).node.tasks
  unfolding routed final_reason end_by
  end_by_tells returned child reason h =
      subst
        (λ r.
          Mem (exit_task name r t)
            (final_step overlapping ident name returned ended supervisor).node.tasks)
        (some-injective _ _ h) (final_step_tells returned)
  end_by_tells (crashed why) child reason h = by_budget why reason h
  end_by_tells cancelled child reason h = elim (Option-cases child.pending_exit) [
    | inl p ↦ rw p (
        subst
          (λ r.
            Mem (exit_task name r t)
              (final_step overlapping ident name cancelled ended supervisor).node.tasks)
          (some-injective _ _ (rw p at h)) (final_step_tells cancelled))
    | inr (why, p) ↦ rw p (by_budget why reason (rw p at h))
  ]

exit_task-by_home :
    (actor : String) (reason : Reason) (t : Target)
    → exit_task actor reason t ≡ (elim t.0 [
      | none ↦ deliver_exit actor t.1 reason
      | some peer ↦ notify_remote_exit peer t.1 actor reason
    ])
unfolding exit_task
exit_task-by_home actor reason (none, target) = refl
exit_task-by_home actor reason (some peer, target) = refl

-- Where a generation ends for good (`final_reason_of` gives a reason: a return, a shutdown, or a
-- crash or a kill that the budget refuses to restart), an exit signal from it with that reason is
-- scheduled to each actor that was linked, a local one or one of another node.
pub generation_over_tells :
    (overlapping : ℕ → Node → Node) (ident now : ℕ) (child : ActorChild) (outcome : Outcome)
    (reason : Reason) (sys : System) (targets : Set Target) (t : Target)
    → Dict.get sys.node.links child.name ≡ some targets
    → Dict.contains targets t ≡ true
    → final_reason_of outcome child (allow_restart now sys.supervisor).0 ≡ some reason
    → Mem
        (elim t.0 [
          | none ↦ deliver_exit child.name t.1 reason
          | some peer ↦ notify_remote_exit peer t.1 child.name reason
        ])
        (generation_over overlapping ident child outcome now sys).node.tasks
unfolding generation_over set_child
generation_over_tells overlapping ident now child outcome reason sys targets t e c h =
    let child' = (routed outcome child).1 in
    let n = set_child ident (record child' { driver = done }) sys.node in
    subst (λ task. Mem task (generation_over overlapping ident child outcome now sys).node.tasks)
      (exit_task-by_home child.name reason t)
      (end_by_tells overlapping ident child.name now (end_generation child.name n) sys.supervisor
        targets t (linked-end_generation child.name n ∙ e) c outcome child reason h)

-- A crash that the budget allows to restart tells no linked actor and no watcher: what is scheduled
-- is what leaving groups and releasing names has scheduled.
pub generation_over_quiet :
    (overlapping : ℕ → Node → Node) (ident now : ℕ) (child : ActorChild) (why : Error)
    (sys : System)
    → (allow_restart now sys.supervisor).0 ≡ true
    → (generation_over overlapping ident child (crashed why) now sys).node.tasks
      ≡ (end_generation child.name
          (set_child ident (record child { driver = done }) sys.node)).node.tasks
unfolding generation_over routed crash_step end_by
generation_over_quiet overlapping ident now child why sys h =
    rw (h, generation_over, crash_step, tasks-set_task) refl

pub get-set_task :
    (overlapping : ℕ → Node → Node) (ident : ℕ) (state : TaskState) (child : ActorChild) (n : Node)
    → Dict.get n.children ident ≡ some child
    → Dict.get (set_task overlapping ident state n).children ident
      ≡ some (record child { task = state })
unfolding set_task set_child
get-set_task overlapping ident state child n e =
    ground
      (arith, get-put n.children ident ident (record child { task = state }), ==_iff ident ident)
