-- ===== src/Node/Peers/Waiters.antt =====
-- The table of waiters of `connect_peer` (lapinbeam/node.py).
use lapinbeam.Prelude.{
  ℕ, String, Option, none, some, List, [], ◌∷◌, ◌++◌, Bool, false, elem, elem-append, ◌==◌, ==_iff,
  ==_self, ◌≡◌, ◌≢◌, refl, if◌then◌else◌, string_eq, nat_eq, arith, Option-cases, Bool-cases, inl,
  inr,
}
use lapinbeam.Dict
use lapinbeam.Dict.{get-put, get-remove}
use lapinbeam.Node.State.{Node, return, connect, call_core}
use lapinbeam.Node.Peers.{
  appended, add_waiter, remove_future, keep_waiters, drop_waiter, waiting, begin_connect,
  end_connect,
}

abbrev pub waiters_of : Node → String → Option (List ℕ)
waiters_of n peer = Dict.get n.peer_waiters peer

-- A list of waiters less a future, where an empty list stands for none.
kept : List ℕ → Option (List ℕ)
kept [] = none
kept (f ∷ fs) = some (f ∷ fs)

unfoldable pub remaining : ℕ → Option (List ℕ) → Option (List ℕ)
unfolding kept
remaining fut none = none
remaining fut (some waiters) =
    if elem fut waiters then kept (remove_future fut waiters) else some waiters

waiters_of-keep_waiters :
    (peer other : String) (waiters : List ℕ) (n : Node)
    → waiters_of (keep_waiters peer waiters n) other
      ≡ (if peer == other then kept waiters else waiters_of n other)
unfolding keep_waiters kept
waiters_of-keep_waiters peer other [] n = get-remove n.peer_waiters peer other
waiters_of-keep_waiters peer other (f ∷ fs) n = get-put n.peer_waiters peer other (f ∷ fs)

pub waiters_of-drop_waiter :
    (peer other : String) (fut : ℕ) (n : Node)
    → waiters_of (drop_waiter peer fut n) other
      ≡ (if peer == other then remaining fut (waiters_of n peer) else waiters_of n other)
unfolding drop_waiter remaining
waiters_of-drop_waiter peer other fut n = elim (Option-cases (waiters_of n peer)) [
  | inl e ↦ ground (arith, e, ==_iff peer other)
  | inr (waiters, e) ↦ ground (
    arith,
    e,
    ==_iff peer other,
    waiters_of-keep_waiters peer other (remove_future fut waiters) n,
  )
]

pub waiters_of-add_waiter :
    (peer other : String) (fut : ℕ) (n : Node)
    → waiters_of (add_waiter peer fut n) other
      ≡ (if peer == other then some (appended fut (waiters_of n peer)) else waiters_of n other)
unfolding add_waiter
waiters_of-add_waiter peer other fut n =
    get-put n.peer_waiters peer other (appended fut (waiters_of n peer))

-- No peer has an empty list of waiters.
abbrev pub IsTidy : Node → Type 0
IsTidy n = (peer : String) → waiters_of n peer ≢ some []

kept-some : (waiters : List ℕ) → kept waiters ≢ some []
unfolding kept
kept-some [] h = cc
kept-some (f ∷ fs) h = cc

remaining-some :
    (fut : ℕ) (waiters : Option (List ℕ)) → waiters ≢ some [] → remaining fut waiters ≢ some []
unfolding remaining
remaining-some fut none tidy h = cc
remaining-some fut (some ws) tidy h = elim (Bool-cases (elem fut ws)) [
  | inl e ↦ kept-some (remove_future fut ws) (rw (e, remaining) at h)
  | inr e ↦ tidy (rw (e, remaining) at h)
]

-- A future that no peer's list has.
abbrev pub IsNew : ℕ → Node → Type 0
IsNew fut n =
    (peer : String) (waiters : List ℕ) → waiters_of n peer ≡ some waiters → elem fut waiters ≡ false

remove_future_last :
    (fut : ℕ) (ws : List ℕ) → elem fut ws ≡ false → remove_future fut (ws ++ fut ∷ []) ≡ ws
unfolding remove_future elem
remove_future_last fut [] h = ground (arith, ==_self fut)
remove_future_last fut (w ∷ ws) h =
    ground (arith, remove_future_last fut ws, ==_iff fut w, ==_iff w fut)

remaining-appended :
    (fut : ℕ) (o : Option (List ℕ))
    → o ≢ some []
    → ((ws : List ℕ) → o ≡ some ws → elem fut ws ≡ false)
    → remaining fut (some (appended fut o)) ≡ o
unfolding remaining kept remove_future elem
remaining-appended fut none tidy new = ground (arith, ==_self fut)
remaining-appended fut (some []) tidy new = absurd (tidy refl)
remaining-appended fut (some (w ∷ ws)) tidy new = ground (
  arith,
  new (w ∷ ws) refl,
  elem-append fut (w ∷ ws) (fut ∷ []),
  remove_future_last fut (w ∷ ws),
  ==_self fut,
)

appended_some : (fut : ℕ) (o : Option (List ℕ)) → appended fut o ≢ []
appended_some fut none h = cc
appended_some fut (some []) h = cc
appended_some fut (some (w ∷ ws)) h = cc

-- A call that has registered its future and drops it leaves the table as it was.
drop_waiter-add_waiter :
    (peer other : String) (fut : ℕ) (n : Node)
    → IsTidy n
    → IsNew fut n
    → waiters_of (drop_waiter peer fut (add_waiter peer fut n)) other ≡ waiters_of n other
drop_waiter-add_waiter peer other fut n tidy new = ground (
  arith,
  ==_iff peer other,
  ==_self peer,
  waiters_of-drop_waiter peer other fut (add_waiter peer fut n),
  waiters_of-add_waiter peer other fut n,
  waiters_of-add_waiter peer peer fut n,
  remaining-appended fut (waiters_of n peer) (tidy peer) (new peer),
)

drop_waiter-IsTidy :
    (peer : String) (fut : ℕ) (n : Node) → IsTidy n → IsTidy (drop_waiter peer fut n)
drop_waiter-IsTidy peer fut n tidy other h = ground (
  arith,
  waiters_of-drop_waiter peer other fut n,
  remaining-some fut (waiters_of n peer) (tidy peer),
  tidy other,
)

add_waiter-IsTidy : (peer : String) (fut : ℕ) (n : Node) → IsTidy n → IsTidy (add_waiter peer fut n)
add_waiter-IsTidy peer fut n tidy other h = ground (
  arith,
  waiters_of-add_waiter peer other fut n,
  appended_some fut (waiters_of n peer),
  tidy other,
)

-- A `connect_peer` that does not come to wait (it raises, or finds the peer connected before or
-- after it has registered its future) leaves every peer's waiters as they were, where no peer has
-- an empty list of waiters and the future is new.
pub begin_connect-waiters_of :
    (peer other : String) (fut : ℕ) (now again : Bool) (n : Node)
    → IsTidy n
    → IsNew fut n
    → (begin_connect peer fut now again n).0 ≢ return waiting
    → waiters_of (begin_connect peer fut now again n).1 other ≡ waiters_of n other
unfolding begin_connect call_core
begin_connect-waiters_of peer other fut now again n tidy new h =
    let after = call_core (connect peer) n in
    ground (arith, drop_waiter-add_waiter peer other fut after tidy new)

-- Neither part of `connect_peer` leaves a peer with an empty list of waiters, where none had one.
pub connect_peer-IsTidy :
    (peer : String) (fut : ℕ) (now again : Bool) (n : Node)
    → IsTidy n
    → IsTidy (begin_connect peer fut now again n).1 × IsTidy (end_connect peer fut n).1
unfolding begin_connect end_connect call_core
connect_peer-IsTidy peer fut now again n tidy =
    let after = call_core (connect peer) n in
    let waits = add_waiter peer fut after in
    let tidy' = add_waiter-IsTidy peer fut after tidy in
    (
      λ other h.
          ground (arith, tidy other, tidy' other, drop_waiter-IsTidy peer fut waits tidy' other),
      drop_waiter-IsTidy peer fut n tidy,
    )
