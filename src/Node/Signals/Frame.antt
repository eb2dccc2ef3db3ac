-- ===== src/Node/Signals/Frame.antt =====
-- Which fields of the node a local delivery can change.
use lapinbeam.Prelude.{
  ℕ, String, Option, none, List, ◌++◌, ◌≡◌, refl, string_eq, nat_eq, Option-cases, inl, inr,
  Bool-cases,
}
use lapinbeam.Dict
use lapinbeam.Dict.{Dict}
use lapinbeam.Messages.{Message, exit_message, linked_exit, Error, Event, Reason, mailbox_full}
use lapinbeam.Node.State.{Node, Queue, ActorChild, put_nowait}
use lapinbeam.Node.Events.Quiet.{heard, on_core_event_quiet}
use lapinbeam.Node.Mailboxes.{queue_at, local_meta, put_or, send_local}
use lapinbeam.Node.Signals.{kill, kill_child, kill_live, is_trapping, tell, run_deliver_exit}

-- The node, but for what waits in mailboxes, what listeners have observed and supervised children.
abbrev pub changed : Dict ℕ Queue → List (ℕ × Event) → Dict ℕ ActorChild → Node → Node
changed queues observed children n = record n {
  queues = queues;
  observed = observed;
  children = children;
}

abbrev pub OnlyDelivers : Node → Node → Type 0
OnlyDelivers n n' =
    (queues : Dict ℕ Queue) × (observed : List (ℕ × Event)) × (children : Dict ℕ ActorChild) × (n'
      ≡ changed queues observed children n)

pub OnlyDelivers-send_local :
    (name : String) (msg : Message) (reply_to : Option String) (correlation_id : Option ℕ)
    (n : Node)
    → (queues : Dict ℕ Queue) × (observed : List (ℕ × Event)) × ((send_local name msg reply_to
          correlation_id n).1
        ≡ changed queues observed n.children n)
unfolding send_local put_or
OnlyDelivers-send_local name msg reply_to correlation_id n =
    elim (Option-cases (Dict.get n.mailboxes name)) [
      | inl e ↦ (n.queues, n.observed, rw (e, send_local))
      | inr (mailbox, e) ↦
          elim (Option-cases
            (put_nowait (queue_at n mailbox) (msg, local_meta reply_to correlation_id n))) [
              | inl full ↦ (
                n.queues,
                n.observed ++ heard (mailbox_full name) n.listeners,
                rw (e, send_local, full, put_or) (on_core_event_quiet (mailbox_full name) n refl),
              )
              | inr (q, fits) ↦
                  (Dict.put n.queues mailbox q, n.observed, rw (e, send_local, fits, put_or))
            ]
    ]

pub OnlyDelivers-tell :
    (name : String) (msg : Message) (n : Node)
    → (queues : Dict ℕ Queue) × (observed : List (ℕ × Event)) × ((tell name msg n).1
        ≡ changed queues observed n.children n)
unfolding tell
OnlyDelivers-tell name msg n = elim (Bool-cases (Dict.has n.mailboxes name)) [
  | inl h ↦ rw (h, tell) (OnlyDelivers-send_local name msg none none n)
  | inr h ↦ (n.queues, n.observed, rw (h, tell))
]

OnlyDelivers-kill_live :
    (why : Error) (name : String) (n : Node)
    → (children : Dict ℕ ActorChild) × (kill_live why name n ≡ record n { children = children })
unfolding kill_live
OnlyDelivers-kill_live why name n = elim (Option-cases (Dict.get n.live_children name)) [
  | inl e ↦ (n.children, rw (e, kill_live))
  | inr (ident, e) ↦ elim (Option-cases (Dict.get n.children ident)) [
    | inl absent ↦ (n.children, rw (e, kill_live, absent, kill_child))
    | inr (child, found) ↦
        (Dict.put n.children ident (kill why child), rw (e, kill_live, found, kill_child))
  ]
]

-- An exit signal changes nothing but mailboxes, observations and children.
pub OnlyDelivers-run_deliver_exit :
    (from_label target : String) (reason : Reason) (n : Node)
    → OnlyDelivers n (run_deliver_exit from_label target reason n).1
unfolding run_deliver_exit
OnlyDelivers-run_deliver_exit from_label target reason n =
    elim (Bool-cases (is_trapping n target)) [
      | inl h ↦
          let (queues, observed, e) = OnlyDelivers-tell target (exit_message from_label reason) n in
          (queues, observed, n.children, rw (h, run_deliver_exit) e)
      | inr h ↦
          let (children, e) = OnlyDelivers-kill_live (linked_exit from_label reason) target n in
          (n.queues, n.observed, children, rw (h, run_deliver_exit) e)
    ]
