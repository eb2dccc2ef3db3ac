-- ===== src/Asks/Taking.antt =====
-- A message that is taken from a mailbox (`mailbox.get()` in lapinbeam/refs.py and
-- lapinbeam/supervisor.py).
use lapinbeam.Prelude.{ℕ, some, List, ◌∷◌, ◌≡◌, ◌∙◌, ap, ==_self, if◌then◌else◌, nat_eq, arith}
use lapinbeam.Dict
use lapinbeam.Messages.{Message, MessageMeta}
use lapinbeam.Node.State.{Node, Queue}
use lapinbeam.Node.Mailboxes.{queue_at}
use lapinbeam.Node.Mailboxes.Delivery.{waiting_in, queue_at-put}
use lapinbeam.Asks.{take_first}

-- The node once the first message has been taken.
abbrev pub taken : ℕ → List (Message × MessageMeta) → Node → Node
taken box rest n = record n {
  queues = Dict.put n.queues box (record { maxsize = (queue_at n box).maxsize; waiting = rest });
}

pub take_first-waiting :
    (box : ℕ) (item : Message × MessageMeta) (rest : List (Message × MessageMeta)) (n : Node)
    → waiting_in n box ≡ item ∷ rest
    → (take_first box n ≡ some (item, taken box rest n))
      × (waiting_in (taken box rest n) box ≡ rest)
unfolding take_first
take_first-waiting box item rest n e =
    let q : Queue = record { maxsize = (queue_at n box).maxsize; waiting = rest } in
    (
      ground (arith, e),
      ap (λ r. r.waiting)
          (queue_at-put n box box q ∙ ap (λ b. if b then q else queue_at n box) (==_self box)),
    )
