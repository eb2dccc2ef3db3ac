-- ===== src/Node/Mailboxes/Capacity.antt =====
-- The `maxsize` of mailboxes (lapinbeam/node.py).
use lapinbeam.Prelude.{
  ℕ, String, Option, some, List, [], ◌∷◌, ◌≡◌, ◌⊎◌, refl, ◌≤◌, length, length-append, string_eq,
  nat_eq, arith, Option-cases, inl, inr,
}
use lapinbeam.Messages.{Message, MessageMeta, mailbox_full, decode_error, Event}
use lapinbeam.Node.State.{Node, Queue, Result, return, raise, call_core, put_nowait}
use lapinbeam.Node.Events.{on_core_event}
use lapinbeam.Node.Events.Quiet.{observe, heard, on_core_event_quiet}
use lapinbeam.Node.Mailboxes.{
  queue_at, put_or, local_meta, send_local, refuse_remote, remote_callback,
}
use lapinbeam.Node.Mailboxes.Delivery.{mailbox_of, queue_at-put}

-- A bounded mailbox holds at most `maxsize` messages.
abbrev pub Fits : Queue → Type 0
Fits q = (q.maxsize ≡ 0) ⊎ (length q.waiting ≤ q.maxsize)

abbrev pub IsBounded : Node → Type 0
IsBounded n = (mailbox : ℕ) → Fits (queue_at n mailbox)

Fits-put_nowait :
    (q q' : Queue) (item : Message × MessageMeta) → put_nowait q item ≡ some q' → Fits q → Fits q'
unfolding put_nowait
Fits-put_nowait q q' item e fits = ground (arith, length-append q.waiting (item ∷ []))

put_or-IsBounded :
    (mailbox : ℕ) (item : Message × MessageMeta) (full : Node → Node) (n : Node)
    → IsBounded n
    → IsBounded (full n)
    → IsBounded (put_or mailbox item full n)
unfolding put_or
put_or-IsBounded mailbox item full n bounded bounded_full other =
    elim (Option-cases (put_nowait (queue_at n mailbox) item)) [
      | inl e ↦ rw (e, put_or) (bounded_full other)
      | inr (q, e) ↦ ground (
        arith,
        queue_at-put n mailbox other q,
        Fits-put_nowait (queue_at n mailbox) q item e (bounded mailbox),
        bounded other,
      )
    ]

observe-IsBounded : (more : List (ℕ × Event)) (n : Node) → IsBounded n → IsBounded (observe more n)
unfolding queue_at
observe-IsBounded more n bounded = bounded

full-IsBounded :
    (name : String) (n : Node) → IsBounded n → IsBounded (on_core_event (mailbox_full name) n)
full-IsBounded name n bounded =
    rw (on_core_event_quiet (mailbox_full name) n refl)
      (observe-IsBounded (heard (mailbox_full name) n.listeners) n bounded)

-- Where no bounded mailbox holds more than its `maxsize`, none does after a local send, whether it
-- raises or not.
pub send_local-IsBounded :
    (name : String) (msg : Message) (reply_to : Option String) (correlation_id : Option ℕ)
    (n : Node)
    → IsBounded n
    → IsBounded (send_local name msg reply_to correlation_id n).1
unfolding send_local
send_local-IsBounded name msg reply_to correlation_id n bounded =
    elim (Option-cases (mailbox_of n name)) [
      | inl e ↦ rw (e, send_local) bounded
      | inr (mailbox, e) ↦
          rw (e, send_local)
            (put_or-IsBounded mailbox (msg, local_meta reply_to correlation_id n)
              (on_core_event (mailbox_full name)) n bounded (full-IsBounded name n bounded))
    ]

refuse_remote-IsBounded :
    (name : String) (meta : MessageMeta) (n : Node)
    → IsBounded n
    → IsBounded (refuse_remote name meta n)
unfolding queue_at call_core refuse_remote
refuse_remote-IsBounded name meta n bounded =
    rw (on_core_event_quiet (mailbox_full name) n refl) bounded

-- Where no bounded mailbox holds more than its `maxsize`, none does after a delivery from a peer,
-- whether the payload decodes or not.
pub remote_callback-IsBounded :
    (name : String) (mailbox : ℕ) (decoded : Result Message) (meta : MessageMeta) (n : Node)
    → IsBounded n
    → IsBounded (remote_callback name mailbox decoded meta n)
unfolding remote_callback
remote_callback-IsBounded name mailbox (raise e) meta n bounded =
    rw (on_core_event_quiet (decode_error name) n refl)
      (observe-IsBounded (heard (decode_error name) n.listeners) n bounded)
remote_callback-IsBounded name mailbox (return msg) meta n bounded =
    put_or-IsBounded mailbox (msg, meta) (refuse_remote name meta) n bounded
      (refuse_remote-IsBounded name meta n bounded)
