-- ===== src/Node/Mailboxes/Delivery.antt =====
-- Where a message goes: registration of mailboxes and sends of lapinbeam/node.py.
use lapinbeam.Prelude.{
  ℕ, String, Option, none, some, List, [], ◌∷◌, ◌++◌, Bool, true, false, ◌==◌, ==_iff, ==_self, ◌∙◌,
  ap, ◌≡◌, ◌≢◌, refl, ◌&&◌, not, if◌then◌else◌, ltb, leb, length, string_eq, nat_eq, arith,
}
use lapinbeam.Dict
use lapinbeam.Dict.{get-put, get-remove}
use lapinbeam.Messages.{name_taken, no_local_actor, Message, MessageMeta, mailbox_full, Event}
use lapinbeam.Node.State.{
  Node, Core, Queue, return, raise, notify_peer_error, register, call_core, put_nowait,
}
use lapinbeam.Node.Events.Quiet.{observe, heard, on_core_event_quiet}
use lapinbeam.Node.Mailboxes.{
  register_actor, queue_at, put_or, local_meta, send_local, remote_callback,
}

abbrev pub is_full : Queue → Bool
is_full q = ltb 0 q.maxsize && leb q.maxsize (length q.waiting)

abbrev pub mailbox_of : Node → String → Option ℕ
mailbox_of n name = Dict.get n.mailboxes name

-- What waits in a mailbox.
abbrev pub waiting_in : Node → ℕ → List (Message × MessageMeta)
waiting_in n mailbox = (queue_at n mailbox).waiting

-- A name is never taken from another actor: the second registration raises, and changes nothing.
pub register_actor_taken :
    (name : String) (mailbox other : ℕ) (n : Node) (core : Core)
    → n.core ≡ some core
    → mailbox_of n name ≡ some other
    → other ≢ mailbox
    → register_actor name mailbox n ≡ (raise (name_taken name), n)
unfolding register_actor
register_actor_taken name mailbox other n core started e ne = ground (arith, ==_iff other mailbox)

-- A name that is free is given.
pub register_actor_fresh :
    (name : String) (box : ℕ) (n : Node) (core : Core)
    → n.core ≡ some core
    → mailbox_of n name ≡ none
    → register_actor name box n ≡ (
      return tt,
      call_core (register name) (record n { mailboxes = Dict.put n.mailboxes name box }),
    )
unfolding register_actor
register_actor_fresh name box n core started fresh = ground arith

pub register_actor-mailbox_of :
    (name other : String) (mailbox : ℕ) (n : Node)
    → (register_actor name mailbox n).0 ≡ return tt
    → mailbox_of (register_actor name mailbox n).1 other
      ≡ (if name == other then some mailbox else mailbox_of n other)
unfolding register_actor call_core
register_actor-mailbox_of name other mailbox n h =
    ground (arith, get-put n.mailboxes name other mailbox)

pub queue_at-put :
    (n : Node) (mailbox other : ℕ) (q : Queue)
    → queue_at (record n { queues = Dict.put n.queues mailbox q }) other
      ≡ (if mailbox == other then q else queue_at n other)
unfolding queue_at
queue_at-put n mailbox other q = ground (arith, get-put n.queues mailbox other q)

waiting_in-observe :
    (n : Node) (mailbox : ℕ) (more : List (ℕ × Event))
    → waiting_in (observe more n) mailbox ≡ waiting_in n mailbox
unfolding queue_at
waiting_in-observe n mailbox more = refl

-- A local send to a name that has a mailbox puts the message last there, unless the mailbox is
-- full; no other mailbox changes.
pub waiting_in-send_local :
    (name : String) (msg : Message) (reply_to : Option String) (correlation_id : Option ℕ)
    (mailbox other : ℕ) (n : Node)
    → mailbox_of n name ≡ some mailbox
    → waiting_in (send_local name msg reply_to correlation_id n).1 other ≡ (
        if mailbox == other && not (is_full (queue_at n mailbox))
        then waiting_in n mailbox ++ (msg, local_meta reply_to correlation_id n) ∷ []
        else waiting_in n other)
unfolding send_local put_or put_nowait
waiting_in-send_local name msg reply_to correlation_id mailbox other n e =
    let q = queue_at n mailbox in
    let item : Message × MessageMeta = (msg, local_meta reply_to correlation_id n) in
    ground (
      arith,
      on_core_event_quiet (mailbox_full name) n refl,
      waiting_in-observe n other (heard (mailbox_full name) n.listeners),
      queue_at-put n mailbox other (record q { waiting = q.waiting ++ item ∷ [] }),
      ==_iff mailbox other,
    )

-- A local send to a mailbox with room, as one change of the queues.
abbrev pub with_last : ℕ → Message × MessageMeta → Node → Node
with_last mailbox item n = record n {
  queues =
      Dict.put n.queues mailbox
        (record (queue_at n mailbox) { waiting = waiting_in n mailbox ++ item ∷ [] });
}

pub waiting_in-with_last :
    (mailbox : ℕ) (item : Message × MessageMeta) (n : Node)
    → waiting_in (with_last mailbox item n) mailbox ≡ waiting_in n mailbox ++ item ∷ []
waiting_in-with_last mailbox item n =
    let q : Queue = record (queue_at n mailbox) { waiting = waiting_in n mailbox ++ item ∷ [] } in
    ap (λ r. r.waiting)
      (queue_at-put n mailbox mailbox q
        ∙ ap (λ b. if b then q else queue_at n mailbox) (==_self mailbox))

pub send_local_room :
    (name : String) (msg : Message) (reply_to : Option String) (correlation_id : Option ℕ)
    (mailbox : ℕ) (n : Node)
    → mailbox_of n name ≡ some mailbox
    → is_full (queue_at n mailbox) ≡ false
    → send_local name msg reply_to correlation_id n
      ≡ (return tt, with_last mailbox (msg, local_meta reply_to correlation_id n) n)
unfolding send_local put_or put_nowait
send_local_room name msg reply_to correlation_id mailbox n e room = ground arith

-- A local send to a full mailbox returns without an error and drops the message: all that happens
-- is that the listeners of the application observe one `mailbox_full` event.
pub send_local_full :
    (name : String) (msg : Message) (reply_to : Option String) (correlation_id : Option ℕ)
    (mailbox : ℕ) (n : Node)
    → mailbox_of n name ≡ some mailbox
    → is_full (queue_at n mailbox) ≡ true
    → send_local name msg reply_to correlation_id n
      ≡ (return tt, observe (heard (mailbox_full name) n.listeners) n)
unfolding send_local put_or put_nowait
send_local_full name msg reply_to correlation_id mailbox n e full =
    ground (arith, on_core_event_quiet (mailbox_full name) n refl)

-- A send to a name that has no mailbox raises, and changes nothing.
pub send_local_missing :
    (name : String) (msg : Message) (reply_to : Option String) (correlation_id : Option ℕ)
    (n : Node)
    → mailbox_of n name ≡ none
    → send_local name msg reply_to correlation_id n ≡ (raise (no_local_actor name), n)
unfolding send_local
send_local_missing name msg reply_to correlation_id n e = ground arith

-- A message from a peer to a full mailbox is dropped: the listeners of the application observe one
-- `mailbox_full` event, and then the sending peer is notified.
pub remote_callback_full :
    (name : String) (mailbox : ℕ) (msg : Message) (meta : MessageMeta) (n : Node)
    → is_full (queue_at n mailbox) ≡ true
    → remote_callback name mailbox (return msg) meta n
      ≡ call_core
          (notify_peer_error meta.src name meta.correlation_id)
          (observe (heard (mailbox_full name) n.listeners) n)
unfolding remote_callback put_or put_nowait
remote_callback_full name mailbox msg meta n full =
    ground (arith, on_core_event_quiet (mailbox_full name) n refl)
