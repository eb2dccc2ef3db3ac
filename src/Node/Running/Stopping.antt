-- ===== src/Node/Running/Stopping.antt =====
-- What `stop` of lapinbeam/node.py does to calls that wait for a peer, and to the node.
use lapinbeam.Prelude.{
  ℕ, String, Option, none, some, List, [], ◌∷◌, Bool, true, false, elem, ◌||◌, ◌&&◌, ◌≡◌, ◌∙◌, ap,
  refl, if◌then◌else◌, string_eq, nat_eq, arith, Option-cases, inl, inr,
}
use lapinbeam.Dict
use lapinbeam.Dict.{get-empty, find, find-items}
use lapinbeam.Messages.{not_started, stopped_connecting}
use lapinbeam.Node.State.{Node, Future, pending, resolved, failed, raise, call_core}
use lapinbeam.Node.Events.{settle, settle_all}
use lapinbeam.Node.Mailboxes.{register_actor}
use lapinbeam.Node.Mailboxes.Delivery.{mailbox_of}
use lapinbeam.Node.Peers.{awaited, end_connect}
use lapinbeam.Node.Peers.Waiters.{waiters_of}
use lapinbeam.Node.Peers.Connecting.{future_of, changed, future_of-settle_all}
use lapinbeam.Node.Running.{fail, fail_waiters, shut, close}

fail-fail : (state : Future) → fail (fail state) ≡ fail state
unfolding fail
fail-fail pending = refl
fail-fail resolved = refl
fail-fail failed = refl

-- Some list of the table has the future.
unfoldable pub is_waiting : ℕ → List (String × List ℕ) → Bool
is_waiting fut [] = false
is_waiting fut ((peer, waiters) ∷ rest) = elem fut waiters || is_waiting fut rest

future_of-fail_waiters :
    (l : List (String × List ℕ)) (fut : ℕ) (n : Node)
    → future_of (fail_waiters l n) fut
      ≡ (if is_waiting fut l then changed fail (future_of n fut) else future_of n fut)
unfolding fail_waiters is_waiting
future_of-fail_waiters [] fut n = refl
future_of-fail_waiters ((peer, waiters) ∷ rest) fut n =
    future_of-fail_waiters rest fut (settle_all fail waiters n)
    ∙ rw (future_of-settle_all fail fail-fail waiters fut n)
        (elim (Option-cases (future_of n fut)) [
          | inl e ↦ ground (arith, e)
          | inr (state, e) ↦ ground (arith, e, fail-fail state)
        ])

-- A change of futures alone.
abbrev OnlyFutures : Node → Node → Type 0
OnlyFutures n n' = (futures : Dict.Dict ℕ Future) × (n' ≡ record n { futures = futures })

OnlyFutures-settle_all :
    (f : Future → Future) (futs : List ℕ) (n : Node) → OnlyFutures n (settle_all f futs n)
unfolding settle_all settle
OnlyFutures-settle_all f [] n = (n.futures, refl)
OnlyFutures-settle_all f (fut ∷ futs) n =
    let (d, e) = OnlyFutures-settle_all f futs (settle f fut n) in
    elim (Option-cases (future_of n fut)) [
      | inl h ↦ (d, e ∙ rw (h, settle) refl)
      | inr (state, h) ↦ (d, e ∙ rw (h, settle) refl)
    ]

OnlyFutures-fail_waiters :
    (l : List (String × List ℕ)) (n : Node) → OnlyFutures n (fail_waiters l n)
unfolding fail_waiters
OnlyFutures-fail_waiters [] n = (n.futures, refl)
OnlyFutures-fail_waiters ((peer, waiters) ∷ rest) n =
    let (d, e) = OnlyFutures-fail_waiters rest (settle_all fail waiters n) in
    let (d', e') = OnlyFutures-settle_all fail waiters n in
    (d, e ∙ ap {A = Node} {B = Node} (λ m. record m { futures = d }) e')

register_actor_down :
    (name : String) (box : ℕ) (n : Node)
    → n.core ≡ none
    → register_actor name box n ≡ (raise not_started, n)
unfolding register_actor
register_actor_down name box n down = ground arith

future_of-shut : (fut : ℕ) (n : Node) → future_of (shut n) fut ≡ future_of n fut
unfolding shut call_core
future_of-shut fut n = elim (Option-cases n.core) [
  | inl e ↦ ground (arith, e)
  | inr (core, e) ↦ ground (arith, e)
]

-- Whether a call of `connect_peer` waits: its future is pending and in the list of some peer.
abbrev pub waits_in : Node → ℕ → Bool
waits_in n fut = is_waiting fut (Dict.items n.peer_waiters) && (elim (Dict.get n.futures fut) [
  | none ↦ false
  | some state ↦ elim state [ pending ↦ true | resolved ↦ false | failed ↦ false ]
])

awaited-fail :
    (peer : String) (listed : Bool) (state : Option Future)
    → awaited peer (if listed then changed fail state else state) ≡ (
        if listed && (elim state [
          | none ↦ false
          | some s ↦ elim s [ pending ↦ true | resolved ↦ false | failed ↦ false ]
        ])
        then raise stopped_connecting
        else awaited peer state)
unfolding awaited fail
awaited-fail peer false state = refl
awaited-fail peer true none = refl
awaited-fail peer true (some pending) = refl
awaited-fail peer true (some resolved) = refl
awaited-fail peer true (some failed) = refl

-- Once a node has stopped: a call of `connect_peer` whose future is pending and in the list of
-- some peer raises, and any other call ends as it would have before; no peer has waiters, no name
-- has a mailbox, and a registration raises.
pub close_ends :
    (peer name : String) (fut box : ℕ) (n : Node)
    → let n' = close n in
      ((end_connect peer fut n').0
        ≡ (if waits_in n fut then raise stopped_connecting else (end_connect peer fut n).0))
      × (waiters_of n' peer ≡ none)
      × (mailbox_of n' name ≡ none)
      × (register_actor name box n' ≡ (raise not_started, n'))
unfolding close end_connect shut call_core
close_ends peer name fut box n =
    let down = shut n in
    let l = Dict.items n.peer_waiters in
    let (d, e) = OnlyFutures-fail_waiters l down in
    (
      ap (awaited peer) (future_of-fail_waiters l fut down)
          ∙ ap (λ f. awaited peer (if is_waiting fut l then changed fail f else f))
              (future_of-shut fut n)
          ∙ awaited-fail peer (is_waiting fut l) (future_of n fut),
      get-empty peer,
      ap (λ m. mailbox_of m name) e ∙ get-empty name,
      register_actor_down name box (close n) (ap (λ m. m.core) e),
    )
