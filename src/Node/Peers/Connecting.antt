-- ===== src/Node/Peers/Connecting.antt =====
-- A call of `connect_peer` that waits, and the event that ends the wait (lapinbeam/node.py).
use lapinbeam.Prelude.{
  ℕ, String, Option, none, some, List, [], ◌∷◌, Bool, true, elem, elem-append, ◌==◌, ==_iff,
  ==_self, ◌≡◌, ◌∙◌, ap, refl, if◌then◌else◌, string_eq, nat_eq, arith, Option-cases, inl, inr,
}
use lapinbeam.Dict
use lapinbeam.Dict.{get-put}
use lapinbeam.Messages.{peer_connected}
use lapinbeam.Node.State.{
  Node, Future, pending, resolved, failed, Listener, groups_listener, registry_listener,
  discovery_listener, application, return, connect, call_core, create_task,
}
use lapinbeam.Node.Events.{
  resolve, settle, settle_all, wake_waiters, by_itself, update_known, call_listener, call_listeners,
  on_core_event,
}
use lapinbeam.Groups
use lapinbeam.Registry
use lapinbeam.Node.Peers.{appended, add_waiter, waiting, begin_connect, awaited, end_connect}
use lapinbeam.Node.Peers.Waiters.{waiters_of, waiters_of-add_waiter}

abbrev pub future_of : Node → ℕ → Option Future
future_of n fut = Dict.get n.futures fut

-- The future is set to hold a change, if there is one.
abbrev pub changed : (Future → Future) → Option Future → Option Future
changed f none = none
changed f (some state) = some (f state)

future_of-settle :
    (f : Future → Future) (fut other : ℕ) (n : Node)
    → future_of (settle f fut n) other
      ≡ (if fut == other then changed f (future_of n other) else future_of n other)
unfolding settle
future_of-settle f fut other n = elim (Option-cases (future_of n fut)) [
  | inl e ↦ ground (arith, e, ==_iff fut other)
  | inr (state, e) ↦ ground (arith, e, ==_iff fut other, get-put n.futures fut other (f state))
]

-- Futures of a list are changed once, where a second change has no effect.
pub future_of-settle_all :
    (f : Future → Future)
    → ((state : Future) → f (f state) ≡ f state)
    → (futs : List ℕ) (other : ℕ) (n : Node)
    → future_of (settle_all f futs n) other
      ≡ (if elem other futs then changed f (future_of n other) else future_of n other)
unfolding settle_all elem
future_of-settle_all f once [] other n = refl
future_of-settle_all f once (fut ∷ futs) other n =
    future_of-settle_all f once futs other (settle f fut n)
    ∙ rw (future_of-settle f fut other n) (elim (Option-cases (future_of n other)) [
      | inl e ↦ ground (arith, e, ==_iff fut other, ==_iff other fut)
      | inr (state, e) ↦ ground (arith, e, once state, ==_iff fut other, ==_iff other fut)
    ])

resolve-resolve : (state : Future) → resolve (resolve state) ≡ resolve state
unfolding resolve
resolve-resolve pending = refl
resolve-resolve resolved = refl
resolve-resolve failed = refl

wake_waiters-some :
    (peer : String) (waiters : List ℕ) (n : Node)
    → waiters_of n peer ≡ some waiters
    → wake_waiters peer n ≡ settle_all resolve waiters n
unfolding wake_waiters
wake_waiters-some peer waiters n e = rw (e, wake_waiters) refl

future_of-call_listener :
    (peer : String) (l : Listener) (n : Node)
    → (call_listener (peer_connected peer) l n).futures ≡ n.futures
unfolding call_listener update_known Groups.on_peer_event Registry.on_peer_event create_task
future_of-call_listener peer groups_listener n = refl
future_of-call_listener peer registry_listener n = refl
future_of-call_listener peer discovery_listener n = refl
future_of-call_listener peer (application k) n = refl

future_of-call_listeners :
    (peer : String) (ls : List Listener) (n : Node)
    → (call_listeners (peer_connected peer) ls n).futures ≡ n.futures
unfolding call_listeners
future_of-call_listeners peer [] n = refl
future_of-call_listeners peer (l ∷ ls) n =
    future_of-call_listeners peer ls (call_listener (peer_connected peer) l n)
    ∙ future_of-call_listener peer l n

-- A peer that connects resolves the futures of its waiters, and no other.
pub future_of-peer_connected :
    (peer : String) (fut : ℕ) (waiters : List ℕ) (n : Node)
    → waiters_of n peer ≡ some waiters
    → future_of (on_core_event (peer_connected peer) n) fut
      ≡ (if elem fut waiters then changed resolve (future_of n fut) else future_of n fut)
unfolding on_core_event by_itself
future_of-peer_connected peer fut waiters n e =
    let n' = by_itself (peer_connected peer) n in
    ap (λ d. Dict.get d fut) (future_of-call_listeners peer n'.listeners n')
    ∙ ap (λ m. future_of m fut) (wake_waiters-some peer waiters n e)
    ∙ future_of-settle_all resolve resolve-resolve waiters fut n

elem-appended : (fut : ℕ) (o : Option (List ℕ)) → elem fut (appended fut o) ≡ true
unfolding elem
elem-appended fut none = ground (arith, ==_self fut)
elem-appended fut (some ws) = ground (arith, elem-append fut ws (fut ∷ []), ==_self fut)

future_of-add_waiter :
    (peer : String) (fut : ℕ) (n : Node) → future_of (add_waiter peer fut n) fut ≡ some pending
unfolding add_waiter
future_of-add_waiter peer fut n = ground (arith, get-put n.futures fut fut pending, ==_self fut)

begin_connect_waits :
    (peer : String) (fut : ℕ) (now again : Bool) (n n' : Node)
    → begin_connect peer fut now again n ≡ (return waiting, n')
    → n' ≡ add_waiter peer fut (call_core (connect peer) n)
unfolding begin_connect
begin_connect_waits peer fut now again n n' e = ground arith

-- A `connect_peer` that waits returns once the native core reports that the peer is connected.
pub connect_peer_connected :
    (peer : String) (fut : ℕ) (now again : Bool) (n n' : Node)
    → begin_connect peer fut now again n ≡ (return waiting, n')
    → (end_connect peer fut (on_core_event (peer_connected peer) n')).0 ≡ return tt
unfolding end_connect awaited resolve
connect_peer_connected peer fut now again n n' e =
    let after = call_core (connect peer) n in
    let waits = add_waiter peer fut after in
    let waiters = appended fut (waiters_of after peer) in
    let waited =
      waiters_of-add_waiter peer peer fut after
      ∙ ap (λ b. if b then some waiters else waiters_of after peer) (==_self peer) in
    ground (
      arith,
      begin_connect_waits peer fut now again n n' e,
      future_of-peer_connected peer fut waiters waits waited,
      elem-appended fut (waiters_of after peer),
      future_of-add_waiter peer fut after,
    )
