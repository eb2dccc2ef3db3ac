-- ===== src/Tests/Reaching.antt =====
-- Examples of what is proved of the states that a supervisor comes to (lapinbeam/supervisor.py): a
-- child is spawned, crashes and comes back.
use lapinbeam.Prelude.{
  ℕ, none, some, false, ◌∷◌, [], ◌≡◌, refl, sym, ◌∙◌, subst, string_eq, nat_eq, pair_eq, option_eq,
  arith, Option-cases, inl, inr,
}
use lapinbeam.Dict
use lapinbeam.Messages.{raised}
use lapinbeam.Node.State.{
  Node, ActorChild, absent, running, done, scheduled, live, backing_off, call_core,
}
use lapinbeam.Node.Initial.{new_node}
use lapinbeam.Node.Running.{start}
use lapinbeam.Node.Mailboxes.{register_actor, unregister_actor}
use lapinbeam.Node.Mailboxes.Delivery.{mailbox_of}
use lapinbeam.Node.Signals.{clear_links, clear_monitors}
use lapinbeam.Asks.{new_queue}
use lapinbeam.Groups.{clear_groups}
use lapinbeam.Registry.{clear_registry}
use lapinbeam.Supervisor.{
  one_for_one, one_for_all, new_supervisor, allow_restart, affected_children,
}
use lapinbeam.Supervisor.Lifecycle.{
  System, crashed, cancel_live, cancel_children, respawn_all, attempt, begin_generation,
  generation_over, routed, resume, end_generation, crash_step,
}
use lapinbeam.Supervisor.Spawning.{spawn, PoolRef, stop_pool}
use lapinbeam.Supervisor.Nested.{Nest, spawn_supervisor, failed, end_round}
use lapinbeam.Supervisor.Reach.{spawned, begun, ended, resumed, initial, Reach, here, next}
use lapinbeam.Supervisor.Reach.Led.{LeadsTo}
use lapinbeam.Supervisor.Reach.Cancels.{Retires, Retires-cancel_live}
use lapinbeam.Supervisor.Reach.Kept.{Keeps, Keeps-refl, Keeps-cancel_live}
use lapinbeam.Supervisor.Reach.Invariant.{reached-live}
use lapinbeam.Supervisor.Reach.Lasting.{reached-mailbox}
use lapinbeam.Supervisor.Reach.Ledger.{IsSound}
use lapinbeam.Supervisor.Reach.Turns.{
  Turns, at_first, after, stepped, handled, pool_stopped, nested_spawned, nested_ended,
  reached-IsSound,
}
use lapinbeam.Tests.Samples.{alpha, core}

-- A child with an exit pending is ended as any other.
abbrev ends_it : ℕ → Node → Node
ends_it ident n = elim (Dict.get n.children ident) [
  | none ↦ n
  | some child ↦ cancel_live ident child n
]

ends_it-Retires : (ident : ℕ) (n : Node) → Retires ident n (ends_it ident n)
ends_it-Retires ident n = elim (Option-cases (Dict.get n.children ident)) [
  | inl e ↦
      let same : n ≡ ends_it ident n = ground (arith, e) in
      subst (Retires ident n) same
        (λ led. (led, λ name h. cc (sym e ∙ (led name ident h).1), λ other u. u))
  | inr (child, e) ↦
      let same : cancel_live ident child n ≡ ends_it ident n = ground (arith, e) in
      subst (Retires ident n) same (Retires-cancel_live ident child n e)
]

ends_it-Keeps : (ident : ℕ) (n : Node) → Keeps n.children (ends_it ident n).children
ends_it-Keeps ident n = elim (Option-cases (Dict.get n.children ident)) [
  | inl e ↦
      let same : n ≡ ends_it ident n = ground (arith, e) in
      subst (λ k. Keeps n.children k.children) same (Keeps-refl n.children)
  | inr (child, e) ↦
      let same : cancel_live ident child n ≡ ends_it ident n = ground (arith, e) in
      subst (λ k. Keeps n.children k.children) same (Keeps-cancel_live ident child n e)
]

abbrev fresh_child : ActorChild
fresh_child = record {
  name = "worker";
  mailbox = 0;
  driver = absent;
  pending_exit = none;
  task = scheduled;
}

abbrev running_child : ActorChild
running_child = record fresh_child { driver = running false; task = live }

abbrev sleeping_child : ActorChild
sleeping_child = record fresh_child { driver = done; task = backing_off }

abbrev first : System
first = initial "alpha" core one_for_one 2 1000

abbrev with_worker : System
with_worker = (spawn 10 "worker" 7 0 first).1

abbrev with_running : System
with_running = attempt ends_it 7 none 100 with_worker

abbrev with_sleeping : System
with_sleeping = generation_over ends_it 7 running_child (crashed (raised 3)) 110 with_running

abbrev with_restarted : System
with_restarted = resume ends_it 7 none 120 with_sleeping

nobody_yet : Dict.get first.node.children 7 ≡ none
unfolding initial start new_node Dict.get Dict.empty call_core
nobody_yet = refl

worker_fresh : Dict.get with_worker.node.children 7 ≡ some fresh_child
unfolding initial start new_node Dict.get Dict.empty Dict.put call_core spawn register_actor
    new_queue
worker_fresh = refl

worker_running : Dict.get with_running.node.children 7 ≡ some running_child
unfolding initial start new_node Dict.get Dict.empty Dict.put call_core spawn register_actor
    new_queue attempt begin_generation
worker_running = refl

worker_sleeping : Dict.get with_sleeping.node.children 7 ≡ some sleeping_child
unfolding initial start new_node Dict.get Dict.empty Dict.put call_core spawn register_actor
    new_queue attempt begin_generation generation_over routed allow_restart new_supervisor
    end_generation clear_registry Dict.keys_of clear_groups clear_monitors clear_links
    unregister_actor
worker_sleeping = refl

running_live : Dict.get with_running.node.live_children "worker" ≡ some 7
unfolding initial start new_node Dict.get Dict.empty Dict.put call_core spawn register_actor
    new_queue attempt begin_generation
running_live = refl

restarted_live : Dict.get with_restarted.node.live_children "worker" ≡ some 7
unfolding initial start new_node Dict.get Dict.empty Dict.put call_core spawn register_actor
    new_queue attempt begin_generation generation_over routed allow_restart new_supervisor
    end_generation clear_registry Dict.keys_of clear_groups clear_monitors clear_links
    unregister_actor resume affected_children respawn_all cancel_children Dict.remove
restarted_live = refl

to_running : Reach ends_it first with_running
to_running =
    next (next here (spawned 10 "worker" 7 0 nobody_yet))
      (begun 7 fresh_child none 100 worker_fresh refl)

running_to_restarted : Reach ends_it with_running with_restarted
running_to_restarted =
    next (next here (ended 7 running_child (crashed (raised 3)) 110 worker_running refl))
      (resumed 7 sleeping_child none 120 worker_sleeping refl)

reached-live_example : LeadsTo with_running.node "worker" 7
reached-live_example =
    reached-live ends_it ends_it-Retires "alpha" core one_for_one 2 1000 with_running to_running
      "worker" 7 running_live

reached-mailbox_example :
    mailbox_of with_restarted.node "worker" ≡ mailbox_of with_running.node "worker"
reached-mailbox_example =
    reached-mailbox ends_it ends_it-Retires ends_it-Keeps "alpha" core one_for_one 2 1000
      with_running with_restarted "worker" 7 to_running running_to_restarted running_live
      restarted_live

-- A nested supervisor is spawned and fails, a crash is handled meanwhile, and a pool is stopped.
abbrev with_nested : Nest
with_nested = spawn_supervisor 20 "tree" one_for_all 1 100 with_running

abbrev with_failed : System
with_failed = (end_round ends_it 20 (failed (raised 5)) 120 with_nested).parent

abbrev with_handled : System
with_handled =
    crash_step ends_it 7 "worker" (raised 6) 130 (end_generation "worker" alpha)
      with_failed.supervisor

abbrev small_pool : PoolRef
small_pool = record { dispatcher = 7; workers = 8 ∷ [] }

to_stopped : Turns ends_it first (stop_pool ends_it small_pool with_handled)
to_stopped =
    after
      (after
        (after
          (after
            (after (after at_first (stepped (spawned 10 "worker" 7 0 nobody_yet)))
              (stepped (begun 7 fresh_child none 100 worker_fresh refl)))
            (nested_spawned 20 "tree" one_for_all 1 100))
          (nested_ended 20 120 (failed (raised 5)) with_nested.child))
        (handled 7 130 "worker" (raised 6) (end_generation "worker" alpha)))
      (pool_stopped small_pool)

reached-IsSound_example : IsSound (stop_pool ends_it small_pool with_handled).supervisor
reached-IsSound_example =
    reached-IsSound ends_it "alpha" core one_for_one 2 1000
      (stop_pool ends_it small_pool with_handled) to_stopped
