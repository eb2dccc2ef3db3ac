-- ===== src/Tests/Delivery.antt =====
-- Examples of what is proved of mailboxes, signals, links and monitors.
use lapinbeam.Prelude.{
  String, none, some, [], false, ◌≡◌, refl, string_eq, nat_eq, pair_eq, option_eq, arith, sym, ◌∙◌,
  ap,
}
use mathlib.Core.List.{Mem}
use lapinbeam.Dict
use lapinbeam.Dict.{get-put, get-empty, contains-no_elements}
use lapinbeam.Messages.{Target, user, noconnection, label}
use lapinbeam.Node.State.{Queue, deliver_exit}
use lapinbeam.Node.Refs.{actor_ref}
use lapinbeam.Node.Events.{on_peer_lost}
use lapinbeam.Node.Events.PeerLost.{on_peer_lost_tells}
use lapinbeam.Node.Mailboxes.{queue_at, send_local}
use lapinbeam.Node.Mailboxes.Capacity.{IsBounded, send_local-IsBounded}
use lapinbeam.Node.Signals.Downs.{monitor_of}
use lapinbeam.Links.{link, links_of}
use lapinbeam.Links.Pairs
use lapinbeam.Links.Pairs.{IsSymmetric, link-IsSymmetric, unlink-IsSymmetric, link_missing}
use lapinbeam.Monitors.{monitor, demonitor, watchers_of}
use lapinbeam.Monitors.Watching.{watcher_of, demonitor-monitor}
use lapinbeam.Tests.Samples.{alpha, unlinked}

alpha-IsBounded : IsBounded alpha
unfolding queue_at
alpha-IsBounded mailbox = ground (
  arith,
  get-put (Dict.empty {V = Queue}) 0 mailbox (record { maxsize = 1; waiting = [] }),
  get-empty {V = Queue} mailbox,
)

no_link : (a : String) (t : Target) → Pairs.is_linked unlinked a t ≡ false
unfolding Pairs.is_linked links_of
no_link a t =
    ap
      (λ found.
        Dict.contains
          (elim found as (λ x. Dict.Set Target) [ none ↦ Dict.no_elements | some ts ↦ ts ]) t)
      (get-empty {V = Dict.Set Target} a)
    ∙ contains-no_elements t

unlinked-IsSymmetric : IsSymmetric unlinked
unlinked-IsSymmetric a b = no_link a _ ∙ sym (no_link b _)

send_local-IsBounded_example : IsBounded (send_local "worker" (user 5) none none alpha).1
send_local-IsBounded_example =
    send_local-IsBounded "worker" (user 5) none none alpha alpha-IsBounded

on_peer_lost_tells_example :
    Mem
      (deliver_exit (label "beta" "remote") "worker" noconnection)
      (on_peer_lost "beta" alpha).tasks
unfolding Dict.get Dict.put Dict.empty Dict.add Dict.contains Dict.no_elements Dict.has
on_peer_lost_tells_example = on_peer_lost_tells "beta" "worker" "remote" alpha refl

demonitor-monitor_example :
    (monitor_of
        (demonitor
          (some "boss")
          "fresh"
          (monitor (some "boss") (actor_ref "worker") "fresh" alpha).1).1
        "m"
      ≡ monitor_of alpha "m")
    × (watcher_of
          (demonitor
            (some "boss")
            "fresh"
            (monitor (some "boss") (actor_ref "worker") "fresh" alpha).1).1
          "worker"
          "m"
        ≡ watcher_of alpha "worker" "m")
unfolding Dict.get Dict.put Dict.empty Dict.has watcher_of watchers_of
demonitor-monitor_example =
    demonitor-monitor "boss" "worker" "fresh" "worker" "m" alpha refl refl refl

link-IsSymmetric_example : IsSymmetric (link (some "boss") (actor_ref "worker") unlinked).1
link-IsSymmetric_example = link-IsSymmetric "boss" "worker" unlinked unlinked-IsSymmetric
