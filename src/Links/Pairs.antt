-- ===== src/Links/Pairs.antt =====
-- What `link` and `unlink` of lapinbeam/links.py do to both sides, and what a link to an actor that
-- does not exist does.
use lapinbeam.Prelude.{
  ℕ, String, none, some, Bool, true, false, ◌==◌, ==_iff, ◌≡◌, refl, ◌&&◌, if◌then◌else◌, string_eq,
  pair_eq, option_eq, nat_eq, arith, Option-cases, Bool-cases, inl, inr, sym,
}
use lapinbeam.Dict
use lapinbeam.Dict.{get-put, contains-add, contains-discard, contains-no_elements, has-get}
use lapinbeam.Messages.{Target, noproc, linked_exit}
use lapinbeam.Node.State.{Node, ActorChild, running}
use lapinbeam.Node.Refs.{actor_ref}
use lapinbeam.Node.Signals.{is_trapping}
use lapinbeam.Node.Signals.Frame.{OnlyDelivers-run_deliver_exit}
use lapinbeam.Node.Signals.Exits.{run_deliver_exit_kills}
use lapinbeam.Links.{links_of, add_link, discard_link, link_to, link, unlink}

-- `target in node._links.get(name, set())`
unfoldable pub is_linked : Node → String → Target → Bool
unfolding links_of
is_linked n name target = Dict.contains (links_of n name) target

module _ (n : Node) (name other : String) (target t : Target) where
  is_linked-add_link :
      is_linked (add_link name target n) other t
      ≡ (if name == other && target == t then true else is_linked n other t)
  unfolding is_linked add_link
  is_linked-add_link = ground (
    arith,
    get-put n.links name other (Dict.add (links_of n name) target),
    contains-add (links_of n name) target t,
    ==_iff name other,
  )

  is_linked-discard_link :
      is_linked (discard_link name target n) other t
      ≡ (if name == other && target == t then false else is_linked n other t)
  unfolding is_linked discard_link
  is_linked-discard_link = elim (Option-cases (Dict.get n.links name)) [
    | inl e ↦ ground (arith, ==_iff name other, contains-no_elements t)
    | inr (targets, e) ↦ ground (
      arith,
      get-put n.links name other (Dict.discard targets target),
      contains-discard targets target t,
      ==_iff name other,
    )
  ]

is_linked-link :
    (me name other : String) (t : Target) (n : Node)
    → is_linked (link (some me) (actor_ref name) n).1 other t
      ≡ is_linked (add_link name (none, me) (add_link me (none, name) n)) other t
unfolding link
is_linked-link me name other t n =
    let n' = add_link name (none, me) (add_link me (none, name) n) in
    elim (Bool-cases (Dict.has n'.mailboxes name)) [
      | inl h ↦ rw (h, link_to) refl
      | inr h ↦
          let (queues, observed, children, e) = OnlyDelivers-run_deliver_exit name me noproc n' in
          rw (h, link_to) (unfold is_linked in rw e refl)
    ]

-- Between local actors every link is recorded on both sides.
abbrev pub IsSymmetric : Node → Type 0
IsSymmetric n = (a b : String) → is_linked n a (none, b) ≡ is_linked n b (none, a)

-- Where every link between local actors is recorded on both sides, so it is after a `link` to a
-- local actor, whether that actor exists or not.
pub link-IsSymmetric :
    (me name : String) (n : Node)
    → IsSymmetric n
    → IsSymmetric (link (some me) (actor_ref name) n).1
link-IsSymmetric me name n sym a b =
    let here : Target = (none, name) in
    let there : Target = (none, me) in
    let to_b : Target = (none, b) in
    let to_a : Target = (none, a) in
    ground (
      arith,
      sym a b,
      is_linked-link me name a to_b n,
      is_linked-link me name b to_a n,
      is_linked-add_link (add_link me here n) name a there to_b,
      is_linked-add_link (add_link me here n) name b there to_a,
      is_linked-add_link n me a here to_b,
      is_linked-add_link n me b here to_a,
      ==_iff me a,
      ==_iff me b,
      ==_iff name a,
      ==_iff name b,
    )

-- Where every link between local actors is recorded on both sides, so it is after an `unlink` of a
-- local actor.
pub unlink-IsSymmetric :
    (me name : String) (n : Node)
    → IsSymmetric n
    → IsSymmetric (unlink (some me) (actor_ref name) n).1
unfolding unlink
unlink-IsSymmetric me name n sym a b =
    let here : Target = (none, name) in
    let there : Target = (none, me) in
    let to_b : Target = (none, b) in
    let to_a : Target = (none, a) in
    ground (
      arith,
      sym a b,
      is_linked-discard_link (discard_link me here n) name a there to_b,
      is_linked-discard_link (discard_link me here n) name b there to_a,
      is_linked-discard_link n me a here to_b,
      is_linked-discard_link n me b here to_a,
      ==_iff me a,
      ==_iff me b,
      ==_iff name a,
      ==_iff name b,
    )

-- A running actor that does not trap exits and links to a local actor that has no mailbox is
-- killed with the reason `noproc`.
pub link_missing :
    (me name : String) (ident : ℕ) (child : ActorChild) (cancelling : Bool) (n : Node)
    → Dict.get n.mailboxes name ≡ none
    → is_trapping n me ≡ false
    → Dict.get n.live_children me ≡ some ident
    → Dict.get n.children ident ≡ some child
    → child.driver ≡ running cancelling
    → Dict.get (link (some me) (actor_ref name) n).1.children ident
      ≡ some (record child { driver = running true; pending_exit = some (linked_exit name noproc) })
unfolding link add_link is_trapping
link_missing me name ident child cancelling n absent t l c d =
    let n' = add_link name (none, me) (add_link me (none, name) n) in
    ground (
      arith,
      has-get n.mailboxes name,
      run_deliver_exit_kills name me noproc ident ident child cancelling n' t l c d,
      ==_iff ident ident,
    )
