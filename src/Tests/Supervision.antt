-- ===== src/Tests/Supervision.antt =====
-- Examples of what is proved of lapinbeam/supervisor.py, on a supervised actor.
use lapinbeam.Prelude.{
  none, some, ◌≡◌, refl, elem, length, keep, ltb, ◌-◌, ◌≤◌, string_eq, nat_eq, pair_eq, option_eq,
  arith,
}
use mathlib.Core.List.{Mem}
use lapinbeam.Dict
use lapinbeam.Dict.{get-put, get-empty, contains-no_elements}
use lapinbeam.Messages.{normal, raised}
use lapinbeam.Node.State.{ActorChild, deliver_exit, done, over, local_id}
use lapinbeam.Node.Signals.Kinds.{signals}
use lapinbeam.Node.Mailboxes.Delivery.{mailbox_of}
use lapinbeam.Supervisor.{one_for_all, new_supervisor, recent, allow_restart}
use lapinbeam.Supervisor.Budget.{granted, granted_bounded}
use lapinbeam.Supervisor.Lifecycle.{
  Ended, end_generation, generation_over, returned, crashed, cancelled, shutdown_all, cancel_child,
}
use lapinbeam.Supervisor.Lifecycle.Clean.{IsForgotten, end_generation-IsForgotten}
use lapinbeam.Supervisor.Lifecycle.Restart.{restarted, restarted_keeps_mail}
use lapinbeam.Supervisor.Lifecycle.Endings.{generation_over_tells}
use lapinbeam.Supervisor.Lifecycle.Pending.{
  cancel_child_silent, pending_exit_outlives, next_generation,
}
use lapinbeam.Supervisor.Lifecycle.Shutdown.{IsCalm, stop_some, get-shutdown_all}
use lapinbeam.Tests.Samples.{
  core, worker, alpha, system, nothing_overlaps, killed_worker, crash_times, worker_targets,
}

alpha-IsCalm : IsCalm alpha
alpha-IsCalm ident child e = ground (
  arith,
  get-put (Dict.empty {V = ActorChild}) 7 ident worker,
  get-empty {V = ActorChild} ident,
  e,
)

ended : Ended
ended = end_generation "worker" alpha

granted_bounded_example :
    length
      (keep (λ t. ltb (150 - t) 1000) (granted crash_times (new_supervisor one_for_all 2 1000)))
    ≤ 2
granted_bounded_example =
    granted_bounded one_for_all 2 1000 150 crash_times
      ((omega arith), ((omega arith), ((omega arith), tt)))

end_generation-IsForgotten_example :
    IsForgotten "worker" (local_id alpha) (end_generation "worker" alpha).node
end_generation-IsForgotten_example = end_generation-IsForgotten "worker" alpha

restarted_keeps_mail_example :
    ((restarted nothing_overlaps 7 100 110 worker (raised 3) system).node.queues
      ≡ system.node.queues)
    × (mailbox_of (restarted nothing_overlaps 7 100 110 worker (raised 3) system).node worker.name
        ≡ some worker.mailbox)
    × (Dict.get
          (restarted nothing_overlaps 7 100 110 worker (raised 3) system).node.live_children
          worker.name
        ≡ some 7)
unfolding allow_restart recent new_supervisor
restarted_keeps_mail_example =
    restarted_keeps_mail nothing_overlaps 7 100 110 worker (raised 3) core system refl refl refl

generation_over_tells_example :
    Mem
      (deliver_exit worker.name "boss" normal)
      (generation_over nothing_overlaps 7 worker returned 100 system).node.tasks
unfolding Dict.get Dict.put Dict.empty Dict.add Dict.contains Dict.no_elements Dict.has
generation_over_tells_example =
    generation_over_tells nothing_overlaps 7 100 worker returned normal system worker_targets
      (none, "boss") refl refl refl

get-shutdown_all_example :
    Dict.get (shutdown_all nothing_overlaps system).node.children 7
    ≡ stop_some (elem 7 system.supervisor.children) (Dict.get system.node.children 7)
get-shutdown_all_example = get-shutdown_all nothing_overlaps 7 system alpha-IsCalm

cancel_child_silent_example :
    (Dict.get
        (cancel_child nothing_overlaps 7
          (generation_over nothing_overlaps 7 worker (crashed (raised 3)) 100 system).node).children
        7
      ≡ some (record worker { driver = done; task = over }))
    × (signals (
          cancel_child nothing_overlaps 7
            (generation_over nothing_overlaps 7 worker (crashed (raised 3)) 100 system).node)
        ≡ signals system.node)
unfolding allow_restart recent new_supervisor
cancel_child_silent_example =
    cancel_child_silent nothing_overlaps 7 100 worker (raised 3) system refl refl

pending_exit_outlives_example :
    (Dict.get (restarted nothing_overlaps 7 100 110 killed_worker (raised 4) system).node.children 7
      ≡ some (next_generation killed_worker))
    × (generation_over nothing_overlaps 7 (next_generation killed_worker) cancelled 200 system
        ≡ generation_over nothing_overlaps 7
            (record (next_generation killed_worker) { pending_exit = none })
            (crashed (raised 3))
            200
            system)
unfolding allow_restart recent new_supervisor
pending_exit_outlives_example =
    pending_exit_outlives nothing_overlaps 7 100 110 killed_worker (raised 4) (raised 3) core system
      200 system refl refl refl refl
