-- ===== src/Asks/Delivering.antt =====
-- A handler that streams its replies, and what `_ask_stream` of lapinbeam/refs.py yields of them.
use mathlib.Core.List.{append_assoc, append-nil}
use lapinbeam.Prelude.{
  ℕ, suc, ◌<◌, String, none, some, List, [], ◌∷◌, ◌++◌, map, length, length-append, Bool, true,
  false, ==_self, ◌≡◌, ◌∙◌, sym, ap, refl, if◌then◌else◌, string_eq, nat_eq, arith,
}
use lapinbeam.Messages.{Message, MessageMeta, stream}
use lapinbeam.Node.State.{Node, Queue, return, local_id}
use lapinbeam.Node.Mailboxes.{queue_at, local_meta}
use lapinbeam.Node.Mailboxes.Delivery.{
  mailbox_of, waiting_in, queue_at-put, send_local_room, with_last, waiting_in-with_last,
}
use lapinbeam.Context.{send, reply_stream, reply_final, send_stream, send_back, reply_ref}
use lapinbeam.Asks.{stream_loop}
use lapinbeam.Asks.Streams.{reading, messages, stream_loop_reads}

-- A mailbox without a bound, on the node of the given id.
pub record Open (name : String) (box : ℕ) (src : String) (n : Node) : Type 0 where
  pub registered : mailbox_of n name ≡ some box
  pub unbounded : (queue_at n box).maxsize ≡ 0
  pub here : local_id n ≡ src

abbrev pub stream_meta : (src name : String) → (number : ℕ) → MessageMeta
stream_meta src name number = record {
  src = some src;
  reply_to = some name;
  correlation_id = some number;
  msg_id = none;
}

messages-last :
    (items : List (Message × MessageMeta)) (item : Message × MessageMeta)
    → messages (items ++ item ∷ []) ≡ messages items ++ item.0 ∷ []
messages-last [] item = refl
messages-last (first ∷ items) item = ap (λ l. first.0 ∷ l) (messages-last items item)

with_last-Open :
    (name : String) (box : ℕ) (src : String) (item : Message × MessageMeta) (n : Node)
    → Open name box src n
    → Open name box src (with_last box item n)
unfolding local_id
with_last-Open name box src item n o =
    let q : Queue = record (queue_at n box) { waiting = waiting_in n box ++ item ∷ [] } in
    record {
      registered = o.registered;
      unbounded =
          ap (λ r. r.maxsize)
            (queue_at-put n box box q ∙ ap (λ b. if b then q else queue_at n box) (==_self box))
          ∙ o.unbounded;
      here = o.here;
    }

send_stream-Open :
    (name : String) (box : ℕ) (src : String) (number : ℕ) (v : Message) (final : Bool) (n : Node)
    → Open name box src n
    → (item : MessageMeta) × (send_stream (stream_meta src name number) v final n
        ≡ (return tt, with_last box (stream final v, item) n))
unfolding send_stream send_back send reply_ref
send_stream-Open name box src number v final n o = (
  local_meta none (some number) n,
  ground (
    arith,
    o.registered,
    o.unbounded,
    o.here,
    ==_self src,
    send_local_room name (stream final v) none (some number) box n o.registered
        (ground (arith, o.unbounded)),
  ),
)

-- A handler that streams a list of values.
unfoldable pub stream_all : MessageMeta → List Message → Node → Node
stream_all meta [] n = n
stream_all meta (v ∷ vs) n = stream_all meta vs (reply_stream meta v n).1

-- The values as they wait, and the final one after them.
abbrev streamed : List Message → List Message
streamed = map (stream false)

stream_all-Open :
    (name : String) (box : ℕ) (src : String) (number : ℕ) (vs : List Message) (n : Node)
    → Open name box src n
    → let n' = stream_all (stream_meta src name number) vs n in
      Open name box src n'
      × (messages (waiting_in n' box) ≡ messages (waiting_in n box) ++ streamed vs)
unfolding stream_all reply_stream
stream_all-Open name box src number [] n o = (o, sym (append-nil (messages (waiting_in n box))))
stream_all-Open name box src number (v ∷ vs) n o =
    let (item, sent) = send_stream-Open name box src number v false n o in
    let m : Node = with_last box (stream false v, item) n in
    let (o', rest) =
      stream_all-Open name box src number vs m
        (with_last-Open name box src (stream false v, item) n o) in
    rw sent (
      o',
      rest
          ∙ ap (λ l. messages l ++ streamed vs) (waiting_in-with_last box (stream false v, item) n)
          ∙ ap (λ l. l ++ streamed vs) (messages-last (waiting_in n box) (stream false v, item))
          ∙ append_assoc (messages (waiting_in n box)) (stream false v ∷ []) (streamed vs),
    )

reading-streamed :
    (vs : List Message) (v : Message)
    → reading (streamed vs ++ stream true v ∷ [])
      ≡ record { yielded = vs ++ v ∷ []; ended = return tt }
unfolding reading
reading-streamed [] v = refl
reading-streamed (w ∷ vs) v = rw (reading-streamed vs v) refl

length-map : {A B : Type 0} (f : A → B) (xs : List A) → length (map f xs) ≡ length xs
length-map f [] = refl
length-map f (x ∷ xs) = ap suc (length-map f xs)

-- Where the hidden mailbox of an `ask_stream` is open, unbounded and empty, a handler's
-- `reply_stream` of each value of a list and its `reply_final` make the loop, given two more
-- rounds than the list is long, yield exactly those values in order and end without an error, with
-- the hidden name closed.
pub stream_delivers :
    (fuel : ℕ) (name : String) (box : ℕ) (src : String) (number : ℕ) (vs : List Message)
    (v : Message) (n : Node)
    → Open name box src n
    → waiting_in n box ≡ []
    → suc (length vs) < fuel
    → let meta = stream_meta src name number in
      (n' : Node) × (stream_loop fuel name box [] (reply_final meta v (stream_all meta vs n)).1
        ≡ some (record { yielded = vs ++ v ∷ []; ended = return tt }, n'))
      × (mailbox_of n' name ≡ none)
unfolding reply_final
stream_delivers fuel name box src number vs v n o empty enough =
    let m = stream_all (stream_meta src name number) vs n in
    let (o', wait) = stream_all-Open name box src number vs n o in
    let (item, sent) = send_stream-Open name box src number v true m o' in
    let last_one : Message × MessageMeta = (stream true v, item) in
    let m' = with_last box last_one m in
    let seen : messages (waiting_in m' box) ≡ streamed vs ++ stream true v ∷ [] =
      ap messages (waiting_in-with_last box last_one m)
      ∙ messages-last (waiting_in m box) last_one
      ∙ ap (λ l. l ++ stream true v ∷ []) (wait ∙ ap (λ l. messages l ++ streamed vs) empty) in
    let (n', looped, closed) = stream_loop_reads fuel name box m' (
      omega (
        arith,
        length-map (λ i. i.0) (waiting_in m' box),
        ap length seen,
        length-append (streamed vs) (stream true v ∷ []),
        length-map (stream false) vs,
      )) in
    (
      n',
      ap (λ m. stream_loop fuel name box [] m) (ap (λ p. p.1) sent)
          ∙ looped
          ∙ ap (λ l. some (reading l, n')) seen
          ∙ ap (λ s. some (s, n')) (reading-streamed vs v),
      closed name ∙ ap (λ b. if b then none else mailbox_of m' name) (==_self name),
    )
