-- ===== src/Node/Signals/Exits.antt =====
-- What an exit signal does to the actor that it is addressed to (lapinbeam/node.py).
use lapinbeam.Prelude.{
  ℕ, String, none, some, [], ◌∷◌, ◌++◌, Bool, true, false, ◌==◌, ◌≡◌, if◌then◌else◌, string_eq,
  nat_eq, arith, ◌&&◌, not,
}
use lapinbeam.Dict
use lapinbeam.Dict.{get-put, has-get}
use lapinbeam.Messages.{Reason, linked_exit, exit_message}
use lapinbeam.Node.State.{Node, ActorChild, running, return}
use lapinbeam.Node.Mailboxes.{queue_at, local_meta}
use lapinbeam.Node.Mailboxes.Delivery.{mailbox_of, waiting_in, is_full, waiting_in-send_local}
use lapinbeam.Node.Signals.Frame.{OnlyDelivers-send_local}
use lapinbeam.Node.Signals.{kill, kill_child, kill_live, is_trapping, tell, run_deliver_exit}

-- An exit signal to an actor that does not trap exits and whose driver runs cancels the driver and
-- leaves the exit pending; no other child and no queue changes.
pub run_deliver_exit_kills :
    (from_label target : String) (reason : Reason) (ident other : ℕ) (child : ActorChild)
    (cancelling : Bool) (n : Node)
    → is_trapping n target ≡ false
    → Dict.get n.live_children target ≡ some ident
    → Dict.get n.children ident ≡ some child
    → child.driver ≡ running cancelling
    → (Dict.get (run_deliver_exit from_label target reason n).1.children other ≡ (
        if ident == other
        then some (record child {
          driver = running true;
          pending_exit = some (linked_exit from_label reason);
        })
        else Dict.get n.children other))
      × ((run_deliver_exit from_label target reason n).1.queues ≡ n.queues)
unfolding run_deliver_exit kill_live kill_child kill
run_deliver_exit_kills from_label target reason ident other child cancelling n t l c d =
    ground (arith, get-put n.children ident other (kill (linked_exit from_label reason) child))

-- An actor that traps exits and has a mailbox finds the exit signal as the last message of that
-- mailbox, if there is room, no other mailbox changes, and no child is killed.
pub run_deliver_exit_trapped :
    (from_label target : String) (reason : Reason) (mailbox other : ℕ) (n : Node)
    → is_trapping n target ≡ true
    → mailbox_of n target ≡ some mailbox
    → (waiting_in (run_deliver_exit from_label target reason n).1 other ≡ (
        if mailbox == other && not (is_full (queue_at n mailbox))
        then waiting_in n mailbox ++ (exit_message from_label reason, local_meta none none n) ∷ []
        else waiting_in n other))
      × ((run_deliver_exit from_label target reason n).1.children ≡ n.children)
unfolding run_deliver_exit tell
run_deliver_exit_trapped from_label target reason mailbox other n t m =
    let msg = exit_message from_label reason in
    let (queues, observed, e) = OnlyDelivers-send_local target msg none none n in
    ground (
      arith,
      has-get n.mailboxes target,
      waiting_in-send_local target msg none none mailbox other n m,
      e,
    )

-- A signal to an actor that neither traps exits nor runs changes nothing.
pub run_deliver_exit_absent :
    (from_label target : String) (reason : Reason) (n : Node)
    → is_trapping n target ≡ false
    → Dict.get n.live_children target ≡ none
    → run_deliver_exit from_label target reason n ≡ (return tt, n)
unfolding run_deliver_exit kill_live
run_deliver_exit_absent from_label target reason n t l = ground arith
