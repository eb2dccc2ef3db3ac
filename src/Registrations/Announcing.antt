-- ===== src/Registrations/Announcing.antt =====
-- A peer that connects after `register_groups`, and the members that it is told of
-- (lapinbeam/groups.py).
use mathlib.Core.List.{Mem, mem-append_right, mem-map_of_mem}
use lapinbeam.Prelude.{
  ℕ, String, none, some, List, [], ◌∷◌, ◌++◌, Bool, true, false, ==_self, elem-mem, ◌≡◌, refl, sym,
  ◌∙◌, ap, subst, string_eq, nat_eq, pair_eq, option_eq, arith, Option-cases, inl, inr,
}
use lapinbeam.Dict
use lapinbeam.Dict.{Set, contains-add, elem-to_list}
use lapinbeam.Messages.{groups_actor, group_op, GroupOp, peer_connected, join}
use lapinbeam.Node.State.{
  Node, Core, send_data, Listener, groups_listener, registry_listener, discovery_listener,
  application, group_delta, create_task, create_tasks, call_core, local_id,
}
use lapinbeam.Node.Refs.{peer_list, add_peer}
use lapinbeam.Node.Events.{
  settle, settle_all, resolve, wake_waiters, by_itself, update_known, call_listener, call_listeners,
  on_core_event,
}
use lapinbeam.Node.Mailboxes.{register_actor, send_remote, send_quietly}
use lapinbeam.Node.Tasks.{run_task}
use lapinbeam.Node.Peers.{on_event}
use lapinbeam.Asks.{new_queue}
use lapinbeam.Groups
use lapinbeam.Groups.{add_member, broadcast, join_group}
use lapinbeam.Registry
use lapinbeam.Supervisor.Lifecycle.{System, set_child}
use lapinbeam.Supervisor.Spawning.{spawn, after_register, adopt}
use lapinbeam.Registrations.{watch_groups, register_groups}

-- The peers that the groups module has heard of.
abbrev pub HearsOf : Node → String → Type 0
HearsOf n peer =
    (peers : Set String) × (n.group_peers ≡ some peers) × (Dict.contains peers peer ≡ true)

abbrev hears : List Listener → Bool
hears [] = false
hears (groups_listener ∷ ls) = true
hears (_ ∷ ls) = hears ls

hears-last : (ls : List Listener) → hears (ls ++ groups_listener ∷ []) ≡ true
hears-last [] = refl
hears-last (groups_listener ∷ ls) = refl
hears-last (registry_listener ∷ ls) = hears-last ls
hears-last (discovery_listener ∷ ls) = hears-last ls
hears-last (application k ∷ ls) = hears-last ls

module _ (peer : String) where
  heard_of :
      (n : Node) (peers : Set String)
      → n.group_peers ≡ some peers
      → HearsOf (Groups.on_peer_event (peer_connected peer) n) peer
  unfolding Groups.on_peer_event create_task add_peer
  heard_of n peers e = (
    Dict.add peers peer,
    ground (arith, e),
    ground (arith, contains-add peers peer peer, ==_self peer),
  )

  -- A peer that was heard of is not forgotten by what listens besides.
  still_heard :
      (ls : List Listener) (n : Node)
      → HearsOf n peer
      → HearsOf (call_listeners (peer_connected peer) ls n) peer
  unfolding call_listeners call_listener update_known Registry.on_peer_event create_task
  still_heard [] n h = h
  still_heard (groups_listener ∷ ls) n (peers, e, _) = still_heard ls _ (heard_of n peers e)
  still_heard (registry_listener ∷ ls) n h = still_heard ls _ h
  still_heard (discovery_listener ∷ ls) n h = still_heard ls _ h
  still_heard (application k ∷ ls) n h = still_heard ls _ h

  call_listeners_heard :
      (ls : List Listener) (n : Node) (peers : Set String)
      → hears ls ≡ true
      → n.group_peers ≡ some peers
      → HearsOf (call_listeners (peer_connected peer) ls n) peer
  unfolding call_listeners call_listener update_known Registry.on_peer_event create_task
  call_listeners_heard [] n peers h e = cc
  call_listeners_heard (groups_listener ∷ ls) n peers h e = still_heard ls _ (heard_of n peers e)
  call_listeners_heard (registry_listener ∷ ls) n peers h e = call_listeners_heard ls _ peers h e
  call_listeners_heard (discovery_listener ∷ ls) n peers h e = call_listeners_heard ls _ peers h e
  call_listeners_heard (application k ∷ ls) n peers h e = call_listeners_heard ls _ peers h e

settle_all-frame :
    (futs : List ℕ) (n : Node)
    → ((settle_all resolve futs n).group_peers ≡ n.group_peers)
      × ((settle_all resolve futs n).listeners ≡ n.listeners)
unfolding settle_all settle
settle_all-frame [] n = (refl, refl)
settle_all-frame (fut ∷ futs) n =
    let (p, l) = settle_all-frame futs (settle resolve fut n) in
    elim (Option-cases (Dict.get n.futures fut)) [
      | inl e ↦ (p ∙ ground (arith, e), l ∙ ground (arith, e))
      | inr (state, e) ↦ (p ∙ ground (arith, e), l ∙ ground (arith, e))
    ]

by_itself-frame :
    (peer : String) (n : Node)
    → ((by_itself (peer_connected peer) n).group_peers ≡ n.group_peers)
      × ((by_itself (peer_connected peer) n).listeners ≡ n.listeners)
unfolding by_itself wake_waiters
by_itself-frame peer n = elim (Option-cases (Dict.get n.peer_waiters peer)) [
  | inl e ↦ ground (arith, e)
  | inr (waiters, e) ↦ ground (arith, e, settle_all-frame waiters n)
]

-- A spawn changes neither the listeners nor the set of peers.
spawn-frame :
    (capacity : ℕ) (name : String) (ident mailbox : ℕ) (sys : System)
    → ((spawn capacity name ident mailbox sys).1.node.group_peers ≡ sys.node.group_peers)
      × ((spawn capacity name ident mailbox sys).1.node.listeners ≡ sys.node.listeners)
unfolding spawn adopt new_queue register_actor call_core set_child after_register
spawn-frame capacity name ident mailbox sys = ground arith

-- The node of `register_groups`, whether the spawn of its actor returns or raises.
abbrev pub after_groups : (capacity ident mailbox : ℕ) → System → Node
after_groups capacity ident mailbox sys = (register_groups capacity ident mailbox sys).1.node

HearsOf-connected :
    (capacity ident mailbox : ℕ) (sys : System) (peer : String)
    → HearsOf (on_core_event (peer_connected peer) (after_groups capacity ident mailbox sys)) peer
unfolding register_groups watch_groups on_core_event on_event
HearsOf-connected capacity ident mailbox sys peer =
    let n = after_groups capacity ident mailbox sys in
    let sys' : System = record sys { node = watch_groups sys.node } in
    let (p, l) = spawn-frame capacity groups_actor ident mailbox sys' in
    let (p', l') = by_itself-frame peer n in
    call_listeners_heard peer (by_itself (peer_connected peer) n).listeners
      (by_itself (peer_connected peer) n) Dict.no_elements
      (ap hears (l' ∙ l) ∙ hears-last sys.node.listeners) (p' ∙ p)

-- The same node once the peer has connected.
abbrev pub with_peer : (capacity ident mailbox : ℕ) → System → (peer : String) → Node
with_peer capacity ident mailbox sys peer =
    on_core_event (peer_connected peer) (after_groups capacity ident mailbox sys)

-- Once `register_groups` has been called on a node, whatever listens besides, and a peer has
-- connected: when an actor joins a group, a task is scheduled that, on a node that has started and
-- whose native core takes sends to the peer, sends the actor of the groups there the delta with
-- that group, that actor and the join.
pub register_groups-announces :
    (capacity ident mailbox : ℕ) (sys : System) (peer actor group : String) (later : Node)
    (core : Core)
    → later.core ≡ some core
    → core.accepts peer ≡ true
    → let n = with_peer capacity ident mailbox sys peer in
      let task = group_delta peer group (local_id n, actor) join in
      Mem task (join_group (some actor) none group n).1.tasks
      × ((run_task task later).calls
          ≡ later.calls
            ++ send_data peer groups_actor
                (group_op (GroupOp.delta group (local_id n, actor) join))
                none
                none
              ∷ [])
unfolding join_group broadcast create_tasks add_member peer_list run_task send_quietly send_remote
    call_core
register_groups-announces capacity ident mailbox sys peer actor group later core started takes =
    let n = with_peer capacity ident mailbox sys peer in
    let (peers, here, known) = HearsOf-connected capacity ident mailbox sys peer in
    let listed : Mem peer (peer_list n.group_peers) =
      subst (λ p. Mem peer (peer_list p)) (sym here)
        (elem-mem peer (Dict.to_list peers) (elem-to_list peers peer ∙ known)) in
    (
      mem-append_right n.tasks
          (mem-map_of_mem (λ p. group_delta p group (local_id n, actor) join) listed),
      ground (arith, started, takes),
    )
