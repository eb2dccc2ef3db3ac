-- ===== src/Asks/Reply.antt =====
-- What `_ask` of lapinbeam/refs.py returns.
use lapinbeam.Prelude.{
  ℕ, String, none, some, [], ◌∷◌, ◌++◌, false, ◌==◌, ==_iff, ==_self, ◌≡◌, ◌≢◌, refl, ◌∙◌, ap,
  if◌then◌else◌, string_eq, nat_eq, arith,
}
use lapinbeam.Dict
use lapinbeam.Dict.{get-put, get-remove}
use lapinbeam.Messages.{Message, MessageMeta}
use lapinbeam.Node.State.{Node, Core, Queue, return, register, local_id, call_core, and_then}
use lapinbeam.Node.Refs.{actor_ref}
use lapinbeam.Node.Mailboxes.{queue_at, local_meta}
use lapinbeam.Node.Mailboxes.Delivery.{
  is_full, mailbox_of, waiting_in, register_actor_fresh, queue_at-put, send_local_room, with_last,
  waiting_in-with_last,
}
use lapinbeam.Context.{send, reply, send_back, reply_ref}
use lapinbeam.Asks.{new_queue, closing, closing_on_raise, begin_ask, take_first, end_ask}

-- The hidden mailbox of a call that waits for its reply.
abbrev pub Awaits : (name : String) → (box : ℕ) → Node → Type 0
Awaits name box n =
    (mailbox_of n name ≡ some box) × (queue_at n box ≡ record { maxsize = 1; waiting = [] })

-- The node once the hidden mailbox is registered.
abbrev with_box : (name : String) → (box : ℕ) → Node → Node
with_box name box n =
    let n' = new_queue box 1 n in
    call_core (register name) (record n' { mailboxes = Dict.put n'.mailboxes name box })

queue_at-with_box :
    (name : String) (box other : ℕ) (n : Node)
    → queue_at (with_box name box n) other
      ≡ (if box == other then record { maxsize = 1; waiting = [] } else queue_at n other)
unfolding call_core new_queue queue_at
queue_at-with_box name box other n =
    ground (arith, get-put n.queues box other (record { maxsize = 1; waiting = [] }))

local_meta-with_box :
    (name : String) (number box : ℕ) (n : Node)
    → local_meta (some name) (some number) (with_box name box n)
      ≡ local_meta (some name) (some number) n
unfolding call_core new_queue local_meta local_id
local_meta-with_box name number box n = refl

local_id-asked :
    (target : ℕ) (item : Message × MessageMeta) (name : String) (box : ℕ) (n : Node)
    → local_id (with_last target item (with_box name box n)) ≡ local_id n
unfolding call_core new_queue local_id
local_id-asked target item name box n = refl

mailbox_of-with_box :
    (name other : String) (box : ℕ) (n : Node)
    → mailbox_of (with_box name box n) other
      ≡ (if name == other then some box else mailbox_of n other)
unfolding call_core new_queue
mailbox_of-with_box name other box n = get-put n.mailboxes name other box

begin_ask-asked :
    (actor : String) (msg : Message) (name : String) (number box target : ℕ) (n : Node)
    (core : Core)
    → n.core ≡ some core
    → mailbox_of n name ≡ none
    → mailbox_of n actor ≡ some target
    → target ≢ box
    → is_full (queue_at n target) ≡ false
    → (asked : Node) × (begin_ask 1 (actor_ref actor) msg name number box n ≡ (return tt, asked))
      × Awaits name box asked
      × (waiting_in asked target
          ≡ waiting_in n target ++ (msg, local_meta (some name) (some number) n) ∷ [])
      × (local_id asked ≡ local_id n)
unfolding begin_ask closing_on_raise send and_then
begin_ask-asked actor msg name number box target n core started fresh found apart room =
    let n' = with_box name box n in
    let item : Message × MessageMeta = (msg, local_meta (some name) (some number) n') in
    let q : Queue = record (queue_at n' target) { waiting = waiting_in n' target ++ item ∷ [] } in
    let same : queue_at n' target ≡ queue_at n target =
      ground (arith, queue_at-with_box name box target n, ==_iff box target) in
    let found' : mailbox_of n' actor ≡ some target =
      ground (arith, mailbox_of-with_box name actor box n, ==_iff name actor) in
    (
      with_last target item n',
      rw
          (
            register_actor_fresh name box (new_queue box 1 n) core started fresh,
            begin_ask,
            and_then,
            send,
            send_local_room actor msg (some name) (some number) target n' found' (rw same room),
            closing_on_raise,
          )
          refl,
      (
        mailbox_of-with_box name name box n
            ∙ ap (λ b. if b then some box else mailbox_of n name) (==_self name),
        ground (
          arith,
          queue_at-put n' target box q,
          queue_at-with_box name box box n,
          ==_iff target box,
          ==_self box,
        ),
      ),
      waiting_in-with_last target item n'
          ∙ ap (λ b. b.waiting ++ item ∷ []) same
          ∙ ap (λ m. waiting_in n target ++ (msg, m) ∷ []) (local_meta-with_box name number box n),
      local_id-asked target item name box n,
    )

end_ask_first :
    (name : String) (box : ℕ) (item : Message × MessageMeta) (n : Node)
    → waiting_in n box ≡ item ∷ []
    → (end_ask name box n).0 ≡ return item.0
unfolding end_ask take_first closing
end_ask_first name box item n e = ground arith

end_ask-replied :
    (name : String) (number box : ℕ) (r : Message) (n : Node)
    → Awaits name box n
    → (replied : Node) × (reply (local_meta (some name) (some number) n) r n ≡ (return tt, replied))
      × ((end_ask name box replied).0 ≡ return r)
unfolding reply send_back reply_ref send local_meta
end_ask-replied name number box r n (found, empty) =
    let item : Message × MessageMeta = (r, local_meta none (some number) n) in
    (
      with_last box item n,
      ground (
        arith,
        ==_self (local_id n),
        send_local_room name r none (some number) box n found (rw empty refl),
      ),
      end_ask_first name box item (with_last box item n)
          (waiting_in-with_last box item n ∙ ap (λ q. q.waiting ++ item ∷ []) empty),
    )

-- On a node that has started, an `ask` of a local actor whose mailbox has room, under a hidden
-- name that is free, puts the question last in that mailbox, and the `reply` of a handler to the
-- metadata that came with it is what the `ask` returns.
pub ask_answered :
    (actor : String) (msg r : Message) (name : String) (number box target : ℕ) (n : Node)
    (core : Core)
    → n.core ≡ some core
    → mailbox_of n name ≡ none
    → mailbox_of n actor ≡ some target
    → target ≢ box
    → is_full (queue_at n target) ≡ false
    → (asked replied : Node) × (meta : MessageMeta) × (begin_ask 1
          (actor_ref actor)
          msg
          name
          number
          box
          n
        ≡ (return tt, asked))
      × (waiting_in asked target ≡ waiting_in n target ++ (msg, meta) ∷ [])
      × (reply meta r asked ≡ (return tt, replied))
      × ((end_ask name box replied).0 ≡ return r)
unfolding local_meta
ask_answered actor msg r name number box target n core started fresh found apart room =
    let (asked, begun, awaits, last, same) =
      begin_ask-asked actor msg name number box target n core started fresh found apart room in
    let (replied, answer, ends) = end_ask-replied name number box r asked awaits in
    (asked, replied, local_meta (some name) (some number) n, begun, last, rw same at answer, ends)
