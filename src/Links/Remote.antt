-- ===== src/Links/Remote.antt =====
-- An exit signal that crosses from one node to another: `_notify_remote_exit` of lapinbeam/node.py on
-- the first, and on the second the callback of `register_actor` and `_LinkActor` of
-- lapinbeam/links.py.
use lapinbeam.Prelude.{
  ℕ, String, none, some, List, [], ◌∷◌, ◌++◌, Bool, true, false, ==_self, ◌≡◌, ◌∙◌, ap, string_eq,
  nat_eq, arith,
}
use lapinbeam.Dict
use lapinbeam.Dict.{get-put}
use lapinbeam.Messages.{
  raised, linked_exit, Reason, Message, MessageMeta, link_op, LinkOp, link_actor, label,
}
use lapinbeam.Node.State.{
  Node, Core, Queue, ActorChild, running, return, raise, Action, notify_remote_exit, send_data,
  call_core, local_id, put_nowait,
}
use lapinbeam.Node.Mailboxes.{queue_at, put_or, remote_callback, send_remote, send_quietly}
use lapinbeam.Node.Mailboxes.Delivery.{waiting_in, is_full, with_last, waiting_in-with_last}
use lapinbeam.Node.Signals.{is_trapping, run_notify_remote_exit}
use lapinbeam.Node.Signals.Exits.{run_deliver_exit_kills}
use lapinbeam.Node.Tasks.{run_task}
use lapinbeam.Asks.{take_first}
use lapinbeam.Asks.Taking.{taken, take_first-waiting}
use lapinbeam.Links.{receive}

-- What `_LinkActor` does with a message: one without the keys of an operation raises.
unfoldable pub receive_message : Message → Action
unfolding receive
receive_message (link_op op) n = receive op n
receive_message msg n = (raise (raised 0), n)

-- Its next turn.
unfoldable pub take_turn : (mailbox : ℕ) → Action
unfolding receive_message take_first
take_turn mailbox n = elim (take_first mailbox n) [
  | none ↦ (return tt, n)
  | some (item, n') ↦ receive_message item.0 n'
]

-- The signal as it crosses.
abbrev pub exit_signal : (actor target from_node : String) → Reason → Message
exit_signal actor target from_node reason = link_op (LinkOp.exit target actor reason from_node)

remote_callback_room :
    (name : String) (mailbox : ℕ) (msg : Message) (meta : MessageMeta) (n : Node)
    → is_full (queue_at n mailbox) ≡ false
    → remote_callback name mailbox (return msg) meta n ≡ with_last mailbox (msg, meta) n
unfolding remote_callback put_or put_nowait
remote_callback_room name mailbox msg meta n room = ground arith

not_full : (q : Queue) → q.waiting ≡ [] → is_full q ≡ false
not_full q e = ground (arith, e)

take_turn-link_op :
    (mailbox : ℕ) (op : LinkOp) (meta : MessageMeta) (rest : List (Message × MessageMeta))
    (n : Node)
    → waiting_in n mailbox ≡ (link_op op, meta) ∷ rest
    → take_turn mailbox n ≡ receive op (taken mailbox rest n)
unfolding take_turn
take_turn-link_op mailbox op meta rest n e =
    ground (arith, (take_first-waiting mailbox (link_op op, meta) rest n e).0)

-- The task of a signal to another node, on a node that has started and whose native core takes
-- sends to that node, gives the core that one message. Once it has been handed on to the other
-- node, where the mailbox of the links' actor was empty, the next turn of that actor cancels the
-- driver of the child that lives under the target's name, if it runs and the actor does not trap
-- exits, and leaves pending the exit of the first actor, under the label of its node, with the
-- same reason.
pub remote_exit_arrives :
    (peer target actor : String) (reason : Reason) (core : Core) (here there : Node)
    (mailbox ident : ℕ) (child : ActorChild) (cancelling : Bool) (meta : MessageMeta)
    → here.core ≡ some core
    → core.accepts peer ≡ true
    → waiting_in there mailbox ≡ []
    → is_trapping there target ≡ false
    → Dict.get there.live_children target ≡ some ident
    → Dict.get there.children ident ≡ some child
    → child.driver ≡ running cancelling
    → ((run_task (notify_remote_exit peer target actor reason) here).calls
        ≡ here.calls
          ++ send_data peer link_actor (exit_signal actor target (local_id here) reason) none none
            ∷ [])
      × (Dict.get
            (take_turn mailbox (
              remote_callback link_actor mailbox
                (return (exit_signal actor target (local_id here) reason))
                meta
                there)).1.children
            ident
          ≡ some (record child {
            driver = running true;
            pending_exit = some (linked_exit (label (local_id here) actor) reason);
          }))
unfolding run_task run_notify_remote_exit send_quietly send_remote call_core receive is_trapping
remote_exit_arrives peer target actor reason core here there mailbox ident child cancelling meta
      started takes empty mortal live found runs =
    let from_node = local_id here in
    let op = LinkOp.exit target actor reason from_node in
    let arrived = with_last mailbox (link_op op, meta) there in
    let waits : waiting_in arrived mailbox ≡ (link_op op, meta) ∷ [] =
      waiting_in-with_last mailbox (link_op op, meta) there
      ∙ ap (λ l. l ++ (link_op op, meta) ∷ []) empty in
    let killed =
      run_deliver_exit_kills (label from_node actor) target reason ident ident child cancelling
        (taken mailbox [] arrived) mortal live found runs in
    (
      ground (arith, started, takes),
      ap (λ k. Dict.get (take_turn mailbox k).1.children ident)
            (remote_callback_room link_actor mailbox (link_op op) meta there
              (not_full (queue_at there mailbox) empty))
          ∙ ap (λ r. Dict.get r.1.children ident)
              (take_turn-link_op mailbox op meta [] arrived waits)
          ∙ killed.0
          ∙ ground (arith, ==_self ident),
    )
