-- ===== src/Asks/Streams.antt =====
-- The loop of `_ask_stream` of lapinbeam/refs.py, over the replies that wait.
use mathlib.Core.List.{append_assoc, append-nil}
use lapinbeam.Prelude.{
  ℕ, zero, suc, ◌<◌, String, none, some, List, [], ◌∷◌, ◌++◌, map, length, true, false, ◌==◌,
  ==_self, ◌≡◌, ◌⊎◌, ◌∙◌, ap, refl, inl, inr, if◌then◌else◌, string_eq, nat_eq, arith,
}
use lapinbeam.Dict
use lapinbeam.Messages.{Message, MessageMeta, stream, timed_out, not_a_stream_reply}
use lapinbeam.Node.State.{Node, Queue, return, raise}
use lapinbeam.Node.Mailboxes.{unregister_actor, queue_at}
use lapinbeam.Node.Mailboxes.Delivery.{mailbox_of, waiting_in, queue_at-put}
use lapinbeam.Asks.{broken, turn_of, turn, take_first, Stream, stream_loop}
use lapinbeam.Asks.Cleaning.{mailbox_of-unregister_actor}

-- What a consumer may see of the replies that wait: all values up to the final one.
unfoldable pub reading : List Message → Stream
reading [] = record { yielded = []; ended = raise timed_out }
reading (stream false value ∷ msgs) =
    let rest = reading msgs in record rest { yielded = value ∷ rest.yielded }
reading (stream true value ∷ msgs) = record { yielded = value ∷ []; ended = return tt }
reading (_ ∷ msgs) = record { yielded = []; ended = raise not_a_stream_reply }

abbrev after : List Message → Stream → Stream
after out s = record s { yielded = out ++ s.yielded }

abbrev pub messages : List (Message × MessageMeta) → List Message
messages = map (λ item. item.0)

-- The queue of a mailbox once its first message was taken.
abbrev without_first : ℕ → List (Message × MessageMeta) → Node → Node
without_first box rest n = record n {
  queues = Dict.put n.queues box (record { maxsize = (queue_at n box).maxsize; waiting = rest });
}

turn_waiting :
    (box : ℕ) (msg : Message) (meta : MessageMeta) (rest : List (Message × MessageMeta)) (n : Node)
    → waiting_in n box ≡ (msg, meta) ∷ rest
    → turn box n ≡ turn_of msg (without_first box rest n)
unfolding turn take_first
turn_waiting box msg meta rest n e = ground arith

turn_empty : (box : ℕ) (n : Node) → waiting_in n box ≡ [] → turn box n ≡ broken timed_out n
unfolding turn take_first
turn_empty box n e = ground arith

waiting_in-without_first :
    (box : ℕ) (rest : List (Message × MessageMeta)) (n : Node)
    → waiting_in (without_first box rest n) box ≡ rest
waiting_in-without_first box rest n =
    let q : Queue = record { maxsize = (queue_at n box).maxsize; waiting = rest } in
    ap (λ r. r.waiting)
      (queue_at-put n box box q ∙ ap (λ b. if b then q else queue_at n box) (==_self box))

-- The mailboxes once the hidden one is closed.
abbrev pub Closed : String → Node → Node → Type 0
Closed name n n' =
    (other : String) → mailbox_of n' other ≡ (if name == other then none else mailbox_of n other)

-- What a message is to a consumer.
stream-cases :
    (msg : Message)
    → ((v : Message) × (msg ≡ stream false v))
      ⊎ ((v : Message) × (msg ≡ stream true v))
      ⊎ ((msgs : List Message) (n : Node)
          → (turn_of msg n ≡ broken not_a_stream_reply n)
            × (reading (msg ∷ msgs) ≡ record { yielded = []; ended = raise not_a_stream_reply }))
unfolding turn_of reading
stream-cases (stream false v) = inl (v, refl)
stream-cases (stream true v) = inr (inl (v, refl))
stream-cases msg = inr (inr (λ msgs n. (refl, refl)))

Closed-without_first :
    (name : String) (box : ℕ) (rest : List (Message × MessageMeta)) (n n' : Node)
    → Closed name (without_first box rest n) n'
    → Closed name n n'
Closed-without_first name box rest n n' closed = closed

stream_loop_from :
    (fuel : ℕ) (name : String) (box : ℕ) (out : List Message)
    (waiting : List (Message × MessageMeta)) (n : Node)
    → waiting_in n box ≡ waiting
    → length waiting < fuel
    → (n' : Node) × (stream_loop fuel name box out n
        ≡ some (after out (reading (messages waiting)), n'))
      × Closed name n n'
unfolding stream_loop reading
stream_loop_from zero name box out waiting n e enough = absurd (omega arith)
stream_loop_from (suc fuel) name box out [] n e enough = (
  unregister_actor name n,
  rw (stream_loop, turn_empty box n e, reading, append-nil out) refl,
  λ other. mailbox_of-unregister_actor name other n,
)
stream_loop_from (suc fuel) name box out ((msg, meta) ∷ rest) n e enough =
    let n1 = without_first box rest n in
    elim (stream-cases msg) [
      | inl (v, t) ↦
          let (n', looped, closed) =
            stream_loop_from fuel name box (out ++ v ∷ []) rest n1
              (waiting_in-without_first box rest n) (omega arith) in
          (
            n',
            rw
                (
                  stream_loop,
                  turn_waiting box msg meta rest n e,
                  t,
                  turn_of,
                  reading,
                  looped,
                  append_assoc out (v ∷ []),
                )
                refl,
            closed,
          )
      | inr (inl (v, t)) ↦ (
        unregister_actor name n1,
        rw (stream_loop, turn_waiting box msg meta rest n e, t, turn_of, reading) refl,
        λ other. mailbox_of-unregister_actor name other n1,
      )
      | inr (inr t) ↦ (
        unregister_actor name n1,
        rw
            (
              stream_loop,
              turn_waiting box msg meta rest n e,
              (t [] n1).0,
              (t (messages rest) n1).1,
              append-nil out,
            )
            refl,
        λ other. mailbox_of-unregister_actor name other n1,
      )
    ]

-- With more fuel than replies that wait, the loop of `ask_stream` ends, with what those replies
-- read as in order: the streamed values up to the final one, or up to a reply that was not
-- streamed, or up to a timeout; and of all names just the hidden one has lost its mailbox.
pub stream_loop_reads :
    (fuel : ℕ) (name : String) (box : ℕ) (n : Node)
    → length (waiting_in n box) < fuel
    → (n' : Node) × (stream_loop fuel name box [] n
        ≡ some (reading (messages (waiting_in n box)), n'))
      × Closed name n n'
stream_loop_reads fuel name box n enough =
    stream_loop_from fuel name box [] (waiting_in n box) n refl enough
