-- ===== src/Asks/Cleaning.antt =====
-- What `_ask` of lapinbeam/refs.py leaves behind.
use lapinbeam.Prelude.{
  ℕ, String, Option, none, some, ◌==◌, ==_iff, ◌≡◌, ◌∙◌, sym, ap, inl, inr, if◌then◌else◌,
  string_eq, nat_eq, arith, Option-cases,
}
use lapinbeam.Dict.{get-remove}
use lapinbeam.Messages.{Error, Message, MessageMeta}
use lapinbeam.Node.State.{Node, return, raise, method-cases, call_core, and_then}
use lapinbeam.Node.Refs.{Ref, actor_ref, remote_ref}
use lapinbeam.Node.Mailboxes.{register_actor, unregister_actor, send_local, send_remote}
use lapinbeam.Node.Mailboxes.Delivery.{mailbox_of, register_actor-mailbox_of}
use lapinbeam.Context.{send}
use lapinbeam.Asks.{new_queue, closing, closing_on_raise, begin_ask, take_first, end_ask}

pub mailbox_of-unregister_actor :
    (name other : String) (n : Node)
    → mailbox_of (unregister_actor name n) other
      ≡ (if name == other then none else mailbox_of n other)
unfolding unregister_actor call_core
mailbox_of-unregister_actor name other n = ground (arith, get-remove n.mailboxes name other)

-- A send that raises changes nothing.
send-raised :
    (ref : Ref) (msg : Message) (reply_to : Option String) (correlation_id : Option ℕ) (e : Error)
    (n : Node)
    → (send ref msg reply_to correlation_id n).0 ≡ raise e
    → (send ref msg reply_to correlation_id n).1 ≡ n
unfolding send send_local send_remote
send-raised (actor_ref name) msg reply_to correlation_id e n h = ground arith
send-raised (remote_ref peer actor) msg reply_to correlation_id e n h = ground arith

register_actor-raised :
    (name : String) (mailbox : ℕ) (e : Error) (n : Node)
    → (register_actor name mailbox n).0 ≡ raise e
    → (register_actor name mailbox n).1 ≡ n
unfolding register_actor
register_actor-raised name mailbox e n h = ground arith

-- The hidden name is taken by a registration that returns.
opened :
    (maxsize : ℕ) (name other : String) (box : ℕ) (n n' : Node)
    → register_actor name box (new_queue box maxsize n) ≡ (return tt, n')
    → mailbox_of n' other ≡ (if name == other then some box else mailbox_of n other)
unfolding new_queue
opened maxsize name other box n n' eq =
    ap (λ p. mailbox_of p.1 other) (sym eq)
    ∙ register_actor-mailbox_of name other box (new_queue box maxsize n) (ap (λ p. p.0) eq)

-- An `ask` whose registration or send raises, under a hidden name that is free, leaves no mailbox
-- behind: every name leads where it led before.
pub begin_ask-raised :
    (maxsize : ℕ) (ref : Ref) (msg : Message) (name other : String) (number box : ℕ) (e : Error)
    (n : Node)
    → mailbox_of n name ≡ none
    → (begin_ask maxsize ref msg name number box n).0 ≡ raise e
    → mailbox_of (begin_ask maxsize ref msg name number box n).1 other ≡ mailbox_of n other
unfolding begin_ask closing_on_raise register_actor new_queue
begin_ask-raised maxsize ref msg name other number box e n fresh h =
    elim (method-cases (register_actor name box (new_queue box maxsize n))) [
      | inl (why, n', eq) ↦
          rw (eq, begin_ask, and_then)
            (ap (λ p. mailbox_of p.1 other) (sym eq)
              ∙ ap (λ m. mailbox_of m other)
                  (register_actor-raised name box why (new_queue box maxsize n) (ap (λ p. p.0) eq)))
      | inr (_, n', eq) ↦ elim (method-cases (send ref msg (some name) (some number) n')) [
        | inl (why, n'', eq') ↦
            rw (eq, begin_ask, and_then, eq', closing_on_raise)
              (ground (
                arith,
                mailbox_of-unregister_actor name other n',
                opened maxsize name other box n n' eq,
                ==_iff name other,
                sym (ap (λ p. p.1) eq')
                    ∙ send-raised ref msg (some name) (some number) why n' (ap (λ p. p.0) eq'),
              ))
        | inr (_, n'', eq') ↦
            ground (arith, rw (eq, begin_ask, and_then, eq', closing_on_raise) at h)
      ]
    ]

take_first-mailbox_of :
    (other : String) (box : ℕ) (n n' : Node) (item : Message × MessageMeta)
    → take_first box n ≡ some (item, n')
    → mailbox_of n' other ≡ mailbox_of n other
unfolding take_first
take_first-mailbox_of other box n n' item e = ground arith

end_ask-mailbox_of :
    (name other : String) (box : ℕ) (n : Node)
    → mailbox_of (end_ask name box n).1 other ≡ (if name == other then none else mailbox_of n other)
unfolding end_ask closing take_first
end_ask-mailbox_of name other box n = elim (Option-cases (take_first box n)) [
  | inl e ↦ rw (e, end_ask, closing) (mailbox_of-unregister_actor name other n)
  | inr ((item, n'), e) ↦
      rw (e, end_ask, closing)
        (mailbox_of-unregister_actor name other n'
          ∙ ap (λ o. if name == other then none else o)
              (take_first-mailbox_of other box n n' item e))
]
