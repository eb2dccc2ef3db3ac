-- ===== src/Node/Peers.antt =====
-- Connections to peers: `connect_peer` of lapinbeam/node.py, cut where it waits, and what is asked of
-- the native core.
pub mod Waiters
pub mod Connecting
use lapinbeam.Prelude.{
  ℕ, String, Option, none, some, List, [], ◌∷◌, ◌++◌, Bool, true, false, elem, not, ◌==◌,
  if◌then◌else◌, string_eq, nat_eq,
}
use lapinbeam.Dict
use lapinbeam.Messages.{not_started, invalid_peer, connect_failed, stopped_connecting}
use lapinbeam.Node.State.{
  Node, Core, Future, pending, resolved, failed, Listener, Result, return, raise, Action, Method,
  connect, forget, call_core,
}
use lapinbeam.Node.Refs.{Ref, remote_ref}

-- `on_event`
unfoldable pub on_event : Listener → Node → Node
on_event l n = record n { listeners = n.listeners ++ l ∷ [] }

unfoldable pub has_peer : String → Node → Bool
has_peer peer n = elim n.core [ none ↦ false | some core ↦ core.connected_to peer ]

unfoldable pub peer_count : Node → ℕ
peer_count n = elim n.core [ none ↦ 0 | some core ↦ core.peer_total ]

unfoldable pub forget_peer : String → Action
forget_peer peer n = elim n.core [
  | none ↦ (raise not_started, n)
  | some core ↦
      if core.parses peer
      then (return tt, call_core (forget peer) n)
      else (raise (invalid_peer peer), n)
]

unfoldable pub get_remote_actor : (peer actor : String) → Ref
get_remote_actor peer actor = remote_ref peer actor

-- A list with one more future, where no list stands for an empty one.
abbrev pub appended : ℕ → Option (List ℕ) → List ℕ
appended fut none = fut ∷ []
appended fut (some waiters) = waiters ++ fut ∷ []

-- `self._peer_waiters.setdefault(peer_id, []).append(fut)`, for a new future
unfoldable pub add_waiter : String → ℕ → Node → Node
add_waiter peer fut n = record n {
  futures = Dict.put n.futures fut pending;
  peer_waiters = Dict.put n.peer_waiters peer (appended fut (Dict.get n.peer_waiters peer));
}

-- `waiters.remove(fut)`
unfoldable pub remove_future : ℕ → List ℕ → List ℕ
remove_future fut [] = []
remove_future fut (f ∷ fs) = let rest = remove_future fut fs in if f == fut then fs else f ∷ rest

keep_waiters : String → List ℕ → Node → Node
keep_waiters peer [] n = record n { peer_waiters = Dict.remove n.peer_waiters peer }
keep_waiters peer (f ∷ fs) n = record n { peer_waiters = Dict.put n.peer_waiters peer (f ∷ fs) }

-- The `finally` of `connect_peer`.
unfoldable pub drop_waiter : String → ℕ → Node → Node
unfolding remove_future keep_waiters
drop_waiter peer fut n = elim (Dict.get n.peer_waiters peer) [
  | none ↦ n
  | some waiters ↦
      let dropped = keep_waiters peer (remove_future fut waiters) n in
      if elem fut waiters then dropped else n
]

-- Whether the call is over or waits for its future.
pub data Progress : Type 0 where
  over waiting : Progress

-- `connect_peer` up to the wait. The native core raises where it cannot parse the identifier; `now` and `again` are the two answers of `has_peer`.
unfoldable pub begin_connect : String → (fut : ℕ) → (now again : Bool) → Method Progress
unfolding add_waiter drop_waiter
begin_connect peer fut now again n = elim n.core [
  | none ↦ (raise not_started, n)
  | some core ↦
      let called = call_core (connect peer) n in
      let waits = add_waiter peer fut called in
      if not (core.parses peer)
      then (raise (invalid_peer peer), n)
      else if now
      then (return over, called)
      else if again
      then (return over, drop_waiter peer fut waits)
      else (return waiting, waits)
]

-- What the future says once the wait is over; a future that is pending has timed out.
unfoldable pub awaited : String → Option Future → Result (Unit {0})
awaited peer (some resolved) = return tt
awaited peer (some failed) = raise stopped_connecting
awaited peer (some pending) = raise (connect_failed peer)
awaited peer none = raise (connect_failed peer)

unfoldable pub end_connect : String → (fut : ℕ) → Action
unfolding awaited drop_waiter
end_connect peer fut n = (awaited peer (Dict.get n.futures fut), drop_waiter peer fut n)
