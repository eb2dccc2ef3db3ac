-- ===== src/Supervisor/Spawning/Ready.antt =====
-- What a `spawn` leaves (lapinbeam/supervisor.py).
use lapinbeam.Prelude.{
  ℕ, String, Option, none, some, [], ◌∷◌, ◌++◌, false, ==_self, ◌≡◌, ◌≢◌, ◌∙◌, ap, refl,
  if◌then◌else◌, nat_eq, string_eq, arith,
}
use lapinbeam.Dict
use lapinbeam.Dict.{get-put}
use lapinbeam.Messages.{name_taken, Message, MessageMeta}
use lapinbeam.Node.State.{Node, Core, Queue, return, raise, register, call_core}
use lapinbeam.Node.Mailboxes.{register_actor, queue_at, local_meta, send_local}
use lapinbeam.Node.Mailboxes.Delivery.{
  is_full, mailbox_of, waiting_in, with_last, waiting_in-with_last, send_local_room,
  register_actor_taken, register_actor_fresh,
}
use lapinbeam.Asks.{new_queue}
use lapinbeam.Supervisor.Lifecycle.{System, set_child}
use lapinbeam.Supervisor.Spawning.{adopt, after_register, spawn}

-- The node once the mailbox of the child is registered.
abbrev pub registered : (capacity : ℕ) → String → (mailbox : ℕ) → Node → Node
registered capacity name mailbox n =
    let n' = new_queue mailbox capacity n in
    call_core (register name) (record n' { mailboxes = Dict.put n'.mailboxes name mailbox })

pub mailbox_of-adopt :
    (capacity : ℕ) (name : String) (ident mailbox : ℕ) (sys : System)
    → mailbox_of
        (adopt name ident mailbox
          (record sys { node = registered capacity name mailbox sys.node })).node
        name
      ≡ some mailbox
unfolding adopt set_child call_core new_queue
mailbox_of-adopt capacity name ident mailbox sys =
    get-put sys.node.mailboxes name name mailbox
    ∙ ap (λ b. if b then some mailbox else mailbox_of sys.node name) (==_self name)

queue_at-adopt :
    (capacity : ℕ) (name : String) (ident mailbox : ℕ) (sys : System)
    → queue_at
        (adopt name ident mailbox
          (record sys { node = registered capacity name mailbox sys.node })).node
        mailbox
      ≡ record { maxsize = capacity; waiting = [] }
unfolding adopt set_child call_core new_queue queue_at
queue_at-adopt capacity name ident mailbox sys = ground (
  arith,
  get-put sys.node.queues mailbox mailbox (record { maxsize = capacity; waiting = [] }),
  ==_self mailbox,
)

is_full_empty :
    (capacity : ℕ) (q : Queue) → q ≡ record { maxsize = capacity; waiting = [] } → is_full q ≡ false
is_full_empty capacity q e = ground arith

pub register_actor-registered :
    (capacity : ℕ) (name : String) (mailbox : ℕ) (n : Node) (core : Core)
    → n.core ≡ some core
    → mailbox_of n name ≡ none
    → register_actor name mailbox (new_queue mailbox capacity n)
      ≡ (return tt, registered capacity name mailbox n)
unfolding new_queue
register_actor-registered capacity name mailbox n core started free =
    register_actor_fresh name mailbox (new_queue mailbox capacity n) core started free

-- On a node that has started, a `spawn` under a free name returns with the child last in the list,
-- and a message that is sent before the child's task has run waits alone in its mailbox.
pub spawn_ready :
    (capacity : ℕ) (name : String) (ident mailbox : ℕ) (msg : Message) (reply_to : Option String)
    (correlation_id : Option ℕ) (sys : System) (core : Core)
    → sys.node.core ≡ some core
    → mailbox_of sys.node name ≡ none
    → (sys' : System) × (sent : Node) × (spawn capacity name ident mailbox sys ≡ (return tt, sys'))
      × (sys'.supervisor.children ≡ sys.supervisor.children ++ ident ∷ [])
      × (send_local name msg reply_to correlation_id sys'.node ≡ (return tt, sent))
      × (waiting_in sent mailbox ≡ (msg, local_meta reply_to correlation_id sys'.node) ∷ [])
unfolding spawn after_register adopt
spawn_ready capacity name ident mailbox msg reply_to correlation_id sys core started free =
    let sys' =
      adopt name ident mailbox (record sys { node = registered capacity name mailbox sys.node }) in
    let item : Message × MessageMeta = (msg, local_meta reply_to correlation_id sys'.node) in
    let empty = queue_at-adopt capacity name ident mailbox sys in
    (
      sys',
      with_last mailbox item sys'.node,
      ap (after_register name ident mailbox sys.supervisor)
          (register_actor-registered capacity name mailbox sys.node core started free),
      refl,
      send_local_room name msg reply_to correlation_id mailbox sys'.node
          (mailbox_of-adopt capacity name ident mailbox sys)
          (is_full_empty capacity (queue_at sys'.node mailbox) empty),
      waiting_in-with_last mailbox item sys'.node ∙ ap (λ q. q.waiting ++ item ∷ []) empty,
    )

-- A `spawn` under a name that is taken raises: the supervisor is as it was, and the name leads where
-- it led.
pub spawn_taken :
    (capacity : ℕ) (name : String) (ident mailbox other : ℕ) (sys : System) (core : Core)
    → sys.node.core ≡ some core
    → mailbox_of sys.node name ≡ some other
    → other ≢ mailbox
    → ((spawn capacity name ident mailbox sys).0 ≡ raise (name_taken name))
      × ((spawn capacity name ident mailbox sys).1.supervisor ≡ sys.supervisor)
      × (mailbox_of (spawn capacity name ident mailbox sys).1.node name ≡ some other)
unfolding spawn after_register new_queue
spawn_taken capacity name ident mailbox other sys core started taken apart =
    let e =
      register_actor_taken name mailbox other (new_queue mailbox capacity sys.node) core started
        taken apart in
    rw (spawn, e) (refl, refl, taken)
