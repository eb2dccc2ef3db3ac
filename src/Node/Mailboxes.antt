-- ===== src/Node/Mailboxes.antt =====
-- Actors and mailboxes of a `Node` (lapinbeam/node.py): registration, local delivery, delivery of
-- what the native core has received, and sends to other nodes.
pub mod Delivery
pub mod Capacity
use lapinbeam.Prelude.{
  ℕ, String, Option, none, some, List, [], ◌∷◌, Bool, true, false, ◌==◌, if◌then◌else◌, string_eq,
  nat_eq,
}
use lapinbeam.Dict
use lapinbeam.Messages.{
  Error, not_started, name_taken, no_local_actor, send_failed, Message, MessageMeta, mailbox_full,
  decode_error,
}
use lapinbeam.Node.State.{
  Node, Core, Queue, Result, return, raise, Action, send_data, notify_peer_error, register,
  unregister, local_id, call_core, put_nowait,
}
use lapinbeam.Node.Events.{on_core_event}

-- `existing is not None and existing is not mailbox`
taken_by_other : Option ℕ → ℕ → Bool
taken_by_other none mailbox = false
taken_by_other (some existing) mailbox = if existing == mailbox then false else true

unfoldable pub register_actor : String → ℕ → Action
unfolding taken_by_other
register_actor name mailbox n = elim n.core [
  | none ↦ (raise not_started, n)
  | some core ↦
      if taken_by_other (Dict.get n.mailboxes name) mailbox then (raise (name_taken name), n) else (
        return tt,
        call_core (register name) (record n { mailboxes = Dict.put n.mailboxes name mailbox }),
      )
]

unfoldable pub unregister_actor : String → Node → Node
unregister_actor name n =
    let n' = record n { mailboxes = Dict.remove n.mailboxes name } in
    elim n'.core [ none ↦ n' | some core ↦ call_core (unregister name) n' ]

-- A queue that the heap does not hold is empty and has no bound.
unfoldable pub queue_at : Node → ℕ → Queue
queue_at n mailbox = elim (Dict.get n.queues mailbox) [
  | none ↦ record { maxsize = 0; waiting = [] }
  | some q ↦ q
]

-- `mailbox.put_nowait((msg, meta))`, with what is done where it raises `QueueFull`.
unfoldable pub put_or : ℕ → Message × MessageMeta → (Node → Node) → Node → Node
unfolding queue_at put_nowait
put_or mailbox item full n = elim (put_nowait (queue_at n mailbox) item) [
  | none ↦ full n
  | some q ↦ record n { queues = Dict.put n.queues mailbox q }
]

unfoldable pub local_meta :
    (reply_to : Option String) → (correlation_id : Option ℕ) → Node → MessageMeta
local_meta reply_to correlation_id n = record {
  src = some (local_id n);
  reply_to = reply_to;
  correlation_id = correlation_id;
  msg_id = none;
}

unfoldable pub send_local :
    String → Message → (reply_to : Option String) → (correlation_id : Option ℕ) → Action
unfolding put_or local_meta
send_local name msg reply_to correlation_id n = elim (Dict.get n.mailboxes name) [
  | none ↦ (raise (no_local_actor name), n)
  | some mailbox ↦ (
    return tt,
    put_or mailbox (msg, local_meta reply_to correlation_id n) (on_core_event (mailbox_full name))
        n,
  )
]

refuse_remote : String → MessageMeta → Node → Node
refuse_remote name meta n =
    call_core (notify_peer_error meta.src name meta.correlation_id)
      (on_core_event (mailbox_full name) n)

-- The `callback` of `register_actor`, for a payload that decodes to a message or raises.
unfoldable pub remote_callback : String → ℕ → Result Message → MessageMeta → Node → Node
unfolding put_or refuse_remote
remote_callback name mailbox (raise e) meta n = on_core_event (decode_error name) n
remote_callback name mailbox (return msg) meta n =
    put_or mailbox (msg, meta) (refuse_remote name meta) n

-- `_send_remote` of a message that `encode_payload` takes; what it gives stands as the message.
unfoldable pub send_remote :
    (peer actor : String)
    → Message
    → (reply_to : Option String) → (correlation_id : Option ℕ) → Action
send_remote peer actor msg reply_to correlation_id n = elim n.core [
  | none ↦ (raise not_started, n)
  | some core ↦
      if core.accepts peer
      then (return tt, call_core (send_data peer actor msg reply_to correlation_id) n)
      else (raise (send_failed peer), n)
]

-- A send under `try: … except Exception: pass`.
unfoldable pub send_quietly : (peer actor : String) → Message → Node → Node
unfolding send_remote
send_quietly peer actor msg n = (send_remote peer actor msg none none n).1
