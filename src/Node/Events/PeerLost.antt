-- ===== src/Node/Events/PeerLost.antt =====
-- What the loss of a peer leaves on a node: links, and the exit signals that stand for it
-- (lapinbeam/node.py).
use mathlib.Core.List.{Mem, mem-append_left, mem-append_right, mem-map_of_mem}
use mathlib.Core.Option.{some-injective}
use lapinbeam.Prelude.{
  String, some, List, [], ◌∷◌, Bool, true, false, ◌==◌, ==_iff, ==_self, ◌≡◌, refl, sym, ◌∙◌, ap,
  if◌then◌else◌, elem, elem-keep, elem-mem, All, is_some, string_eq, nat_eq, pair_eq, option_eq,
  arith, Option-cases, Bool-cases, inl, inr,
}
use lapinbeam.Dict
use lapinbeam.Dict.{
  Dict, Set, get-put, contains-discard_all, elem-to_list, find-items, find, items_found, check,
}
use lapinbeam.Messages.{Target, noconnection, label}
use lapinbeam.Node.State.{Node, Task, deliver_exit, create_tasks}
use lapinbeam.Node.Events.{targets_on, lost_links, cut_links, on_peer_lost}

abbrev pub is_linked : Node → String → Target → Bool
is_linked n name t = check (λ ts. Dict.contains ts t) (Dict.get n.links name)

elem-targets_on :
    (peer : String) (targets : Set Target) (t : Target)
    → elem t (targets_on peer targets)
      ≡ (if t.0 == some peer then Dict.contains targets t else false)
unfolding targets_on
elem-targets_on peer targets t =
    elem-keep (λ u. u.0 == some peer) t (Dict.to_list targets) ∙ rw (elem-to_list targets t) refl

contains-cut :
    (peer : String) (targets : Set Target) (t : Target)
    → Dict.contains (Dict.discard_all targets (targets_on peer targets)) t
      ≡ (if t.0 == some peer then false else Dict.contains targets t)
contains-cut peer targets t = ground (
  arith,
  contains-discard_all targets (targets_on peer targets) t,
  elem-targets_on peer targets t,
)

-- One actor's links, cut.
unfoldable cut_actor : String → String → Set Target → Node → Node
cut_actor peer name targets n =
    let gone = targets_on peer targets in
    create_tasks (lost_links peer name gone)
      (record n { links = Dict.put n.links name (Dict.discard_all targets gone) })

is_linked-cut_actor :
    (peer name other : String) (targets : Set Target) (t : Target) (n : Node)
    → is_linked (cut_actor peer name targets n) other t ≡ (
        if name == other
        then if t.0 == some peer then false else Dict.contains targets t
        else is_linked n other t)
unfolding cut_actor create_tasks
is_linked-cut_actor peer name other targets t n =
    let kept = Dict.discard_all targets (targets_on peer targets) in
    ground (arith, get-put n.links name other kept, contains-cut peer targets t)

module _ (peer : String) (t : Target) where
  -- A target on the peer is unlinked from every actor of the entries.
  cut_links-on :
      (l : List (String × Set Target)) (k : String) (n : Node)
      → (t.0 == some peer) ≡ true
      → is_linked (cut_links peer l n) k t ≡ (if is_some (find k l) then false else is_linked n k t)
  unfolding cut_links find cut_actor
  cut_links-on [] k n h = refl
  cut_links-on ((name, targets) ∷ l) k n h = ground (
    arith,
    cut_links-on l k (cut_actor peer name targets n) h,
    is_linked-cut_actor peer name k targets t n,
  )

  Agree : Node → String × Set Target → Type 0
  Agree n p = Dict.contains p.1 t ≡ is_linked n p.0 t

  Agree-All :
      (l : List (String × Set Target)) (n m : Node)
      → ((k : String) → is_linked m k t ≡ is_linked n k t)
      → All (Agree n) l
      → All (Agree m) l
  unfolding Agree
  Agree-All [] n m same h = tt
  Agree-All ((name, targets) ∷ l) n m same (e, h) = (e ∙ sym (same name), Agree-All l n m same h)

  -- Another target keeps its links.
  cut_actor-off :
      (name k : String) (targets : Set Target) (n : Node)
      → (t.0 == some peer) ≡ false
      → Agree n (name, targets)
      → is_linked (cut_actor peer name targets n) k t ≡ is_linked n k t
  unfolding Agree
  cut_actor-off name k targets n h e = elim (Bool-cases (name == k)) [
    | inl p ↦ ground (
      arith,
      is_linked-cut_actor peer name k targets t n,
      h,
      e,
      ap (λ i. is_linked n i t) ((==_iff name k).0 p),
    )
    | inr p ↦ ground (arith, is_linked-cut_actor peer name k targets t n)
  ]

  cut_links-off :
      (l : List (String × Set Target)) (k : String) (n : Node)
      → (t.0 == some peer) ≡ false
      → All (Agree n) l
      → is_linked (cut_links peer l n) k t ≡ is_linked n k t
  unfolding cut_links cut_actor Agree
  cut_links-off [] k n h a = refl
  cut_links-off ((name, targets) ∷ l) k n h (e, a) =
      let n' = cut_actor peer name targets n in
      cut_links-off l k n' h (Agree-All l n n' (λ j. cut_actor-off name j targets n h e) a)
      ∙ cut_actor-off name k targets n h e

  Agree-items :
      (l : List (String × Set Target)) (n : Node)
      → All (λ p. Dict.get n.links p.0 ≡ some p.1) l
      → All (Agree n) l
  unfolding Agree
  Agree-items [] n h = tt
  Agree-items ((name, targets) ∷ l) n (e, h) = (rw e refl, Agree-items l n h)

  links-on_peer_lost :
      (n : Node) → (on_peer_lost peer n).links ≡ (cut_links peer (Dict.items n.links) n).links
  unfolding on_peer_lost create_tasks
  links-on_peer_lost n = refl

  is_linked-cut_links :
      (k : String) (n : Node)
      → is_linked (cut_links peer (Dict.items n.links) n) k t
        ≡ (if t.0 == some peer then false else is_linked n k t)
  is_linked-cut_links k n = elim (Bool-cases (t.0 == some peer)) [
    | inl on ↦ ground (arith, on, cut_links-on (Dict.items n.links) k n on, find-items n.links k)
    | inr off ↦ ground (
      arith,
      off,
      cut_links-off (Dict.items n.links) k n off
          (Agree-items (Dict.items n.links) n (items_found n.links)),
    )
  ]

  -- After the loss of a peer no actor is linked to an actor there, and every other link is kept.
  pub is_linked-on_peer_lost :
      (k : String) (n : Node)
      → is_linked (on_peer_lost peer n) k t ≡ (if t.0 == some peer then false else is_linked n k t)
  is_linked-on_peer_lost k n =
      ap (λ d. check (λ ts. Dict.contains ts t) (Dict.get d k)) (links-on_peer_lost n)
      ∙ is_linked-cut_links k n

-- What is scheduled stays scheduled.
tasks-cut_links :
    (peer : String) (l : List (String × Set Target)) (n : Node) (task : Task)
    → Mem task n.tasks
    → Mem task (cut_links peer l n).tasks
unfolding cut_links create_tasks cut_actor
tasks-cut_links peer [] n task m = m
tasks-cut_links peer ((name, targets) ∷ l) n task m =
    tasks-cut_links peer l (cut_actor peer name targets n) task (mem-append_left _ m)

cut_links_tells :
    (peer name target : String) (targets : Set Target) (l : List (String × Set Target)) (n : Node)
    → find name l ≡ some targets
    → Dict.contains targets (some peer, target) ≡ true
    → Mem (deliver_exit (label peer target) name noconnection) (cut_links peer l n).tasks
unfolding cut_links find cut_actor create_tasks lost_links
cut_links_tells peer name target targets [] n e c = cc
cut_links_tells peer name target targets ((other, others) ∷ l) n e c =
    elim (Bool-cases (other == name)) [
      | inl p ↦
          let here = some-injective _ _ (rw p at e) in
          tasks-cut_links peer l (cut_actor peer other others n) _ (
            mem-append_right n.tasks (
              rw ((==_iff other name).0 p) (
                mem-map_of_mem (λ t. deliver_exit (label peer t.1) name noconnection)
                  (elem-mem (some peer, target) (targets_on peer others)
                    (elem-targets_on peer others (some peer, target)
                      ∙ rw (here, ==_self peer) c)))))
      | inr p ↦
          cut_links_tells peer name target targets l (cut_actor peer other others n) (rw p at e) c
    ]

-- Each link to an actor on a lost peer is told to the local actor: an exit signal for
-- `noconnection` is scheduled.
pub on_peer_lost_tells :
    (peer name target : String) (n : Node)
    → is_linked n name (some peer, target) ≡ true
    → Mem (deliver_exit (label peer target) name noconnection) (on_peer_lost peer n).tasks
unfolding on_peer_lost create_tasks
on_peer_lost_tells peer name target n h = elim (Option-cases (Dict.get n.links name)) [
  | inl e ↦ cc (ap (check (λ ts. Dict.contains ts (some peer, target))) e, h)
  | inr (targets, e) ↦ mem-append_left _ (
      cut_links_tells peer name target targets (Dict.items n.links) n (find-items n.links name ∙ e)
        (rw e at h))
]
