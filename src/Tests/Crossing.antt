-- ===== src/Tests/Crossing.antt =====
-- Examples of what is proved of two nodes, or of what one hears of another.
use lapinbeam.Prelude.{none, some, [], ◌∷◌, ◌++◌, true, false, ◌≡◌, refl, string_eq, nat_eq}
use lapinbeam.Dict
use lapinbeam.Messages.{normal, label, link_actor, linked_exit}
use lapinbeam.Node.State.{Node, running, return, notify_remote_exit, send_data, local_id}
use lapinbeam.Node.Mailboxes.{queue_at, remote_callback}
use lapinbeam.Node.Signals.{is_trapping}
use lapinbeam.Node.Tasks.{run_task}
use lapinbeam.Links.Remote.{exit_signal, take_turn, remote_exit_arrives}
use lapinbeam.Tests.Samples.{alpha, core, worker, worker_ident, some_meta}

abbrev beta : Node
beta = record alpha { node_id = "beta" }

remote_exit_arrives_example :
    ((run_task (notify_remote_exit "beta" "worker" "boss" normal) alpha).calls
      ≡ alpha.calls
        ++ send_data "beta" link_actor
            (exit_signal "boss" "worker" (local_id alpha) normal)
            none
            none
          ∷ [])
    × (Dict.get
          (take_turn 5 (
            remote_callback link_actor 5
              (return (exit_signal "boss" "worker" (local_id alpha) normal))
              some_meta
              beta)).1.children
          worker_ident
        ≡ some (record worker {
          driver = running true;
          pending_exit = some (linked_exit (label (local_id alpha) "boss") normal);
        }))
unfolding Dict.get Dict.put Dict.empty is_trapping queue_at
remote_exit_arrives_example =
    remote_exit_arrives "beta" "worker" "boss" normal core alpha beta 5 worker_ident worker false
      some_meta refl refl refl refl refl refl refl
