-- ===== src/Links.antt =====
-- lapinbeam/links.py: bidirectional links, called from a running actor, and the reserved actor that
-- answers other nodes.
pub mod Pairs
pub mod Remote
use lapinbeam.Prelude.{
  String, Option, none, some, Bool, if◌then◌else◌, string_eq, pair_eq, option_eq,
}
use lapinbeam.Dict
use lapinbeam.Dict.{Set}
use lapinbeam.Messages.{Target, LinkOp, link_op, noproc, link_actor, label, outside_actor}
use lapinbeam.Messages
use lapinbeam.Node.State.{Node, return, raise, Action, local_id}
use lapinbeam.Node.Refs.{Ref, actor_ref, remote_ref}
use lapinbeam.Node.Mailboxes.{send_remote}
use lapinbeam.Node.Signals.{run_deliver_exit}

-- `_target`
unfoldable pub target_of : Ref → Target
target_of (actor_ref name) = (none, name)
target_of (remote_ref peer actor) = (some peer, actor)

unfoldable pub links_of : Node → String → Set Target
links_of n name = elim (Dict.get n.links name) [ none ↦ Dict.no_elements | some targets ↦ targets ]

-- `node._links.setdefault(name, set()).add(target)`
unfoldable pub add_link : String → Target → Node → Node
unfolding links_of
add_link name target n = record n {
  links = Dict.put n.links name (Dict.add (links_of n name) target);
}

-- `node._links.get(name, set()).discard(target)`
unfoldable pub discard_link : String → Target → Node → Node
discard_link name target n = elim (Dict.get n.links name) [
  | none ↦ n
  | some targets ↦ record n { links = Dict.put n.links name (Dict.discard targets target) }
]

link_to : String → Ref → Action
link_to me (actor_ref name) n =
    let n' = add_link name (none, me) (add_link me (none, name) n) in
    if Dict.has n'.mailboxes name then (return tt, n') else run_deliver_exit name me noproc n'
link_to me (remote_ref peer actor) n =
    let n' = add_link me (some peer, actor) n in
    send_remote peer link_actor (link_op (LinkOp.link me actor (local_id n'))) none none n'

-- The actor that runs, if any, comes from `current_actor_ref`.
unfoldable pub link : (current : Option String) → Ref → Action
unfolding link_to
link none other n = (raise outside_actor, n)
link (some me) other n = link_to me other n

unlink_from : String → Ref → Action
unlink_from me (actor_ref name) n =
    (return tt, discard_link name (none, me) (discard_link me (none, name) n))
unlink_from me (remote_ref peer actor) n =
    let n' = discard_link me (some peer, actor) n in
    send_remote peer link_actor (link_op (LinkOp.unlink me actor (local_id n'))) none none n'

unfoldable pub unlink : (current : Option String) → Ref → Action
unfolding unlink_from
unlink none other n = (raise outside_actor, n)
unlink (some me) other n = unlink_from me other n

unfoldable pub trap_exit : (current : Option String) → Bool → Action
trap_exit none enabled n = (raise outside_actor, n)
trap_exit (some me) enabled n =
    (return tt, record n { trap_exit = Dict.put n.trap_exit me enabled })

-- `_LinkActor.receive`
unfoldable pub receive : LinkOp → Action
receive (LinkOp.link source target from_node) n =
    let n' = add_link target (some from_node, source) n in
    if Dict.has n'.mailboxes target
    then (return tt, n')
    else send_remote from_node link_actor (link_op (LinkOp.exit source target noproc (local_id n')))
        none none n'
receive (LinkOp.unlink source target from_node) n =
    (return tt, discard_link target (some from_node, source) n)
receive (LinkOp.exit target actor reason from_node) n =
    run_deliver_exit (label from_node actor) target reason n
