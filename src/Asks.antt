-- ===== src/Asks.antt =====
-- `_ask` and `_ask_stream` of lapinbeam/refs.py, cut where they wait for a reply. The hidden name
-- and the number of a call, both of a counter, and its mailbox are arguments.
pub mod Taking
pub mod Cleaning
pub mod Reply
pub mod Streams
pub mod Delivering
use lapinbeam.Prelude.{
  ℕ, zero, suc, String, Option, none, some, List, [], ◌∷◌, ◌++◌, Bool, true, false, nat_eq,
}
use lapinbeam.Dict
use lapinbeam.Messages.{Error, Message, MessageMeta, stream, timed_out, not_a_stream_reply}
use lapinbeam.Node.State.{Node, Queue, Result, return, raise, Action, Method, and_then}
use lapinbeam.Node.Refs.{Ref}
use lapinbeam.Node.Mailboxes.{register_actor, unregister_actor, queue_at}
use lapinbeam.Context.{send}

-- `asyncio.Queue(maxsize=…)`, at a place of the heap
unfoldable pub new_queue : ℕ → (maxsize : ℕ) → Node → Node
new_queue box maxsize n = record n {
  queues = Dict.put n.queues box (record { maxsize = maxsize; waiting = [] });
}

-- `finally: node.unregister_actor(name)` after a part that returned or raised
unfoldable pub closing {ℓ} : {A : Type ℓ} → String → Result A × Node → Result A × Node
closing name (result, n) = (result, unregister_actor name n)

-- The same where the part goes on after it returned.
unfoldable pub closing_on_raise : String → Result (Unit {0}) × Node → Result (Unit {0}) × Node
closing_on_raise name (raise e, n) = (raise e, unregister_actor name n)
closing_on_raise name (return _, n) = (return tt, n)

-- Up to the wait: a mailbox of the given size is registered, and the message is sent.
unfoldable pub begin_ask :
    (maxsize : ℕ) → Ref → Message → (name : String) → (number box : ℕ) → Action
unfolding new_queue closing_on_raise and_then
begin_ask maxsize ref msg name number box n =
    and_then (register_actor name box (new_queue box maxsize n))
      (λ _ n'. closing_on_raise name (send ref msg (some name) (some number) n'))

-- What `mailbox.get()` takes, if anything waits.
unfoldable pub take_first : ℕ → Node → Option ((Message × MessageMeta) × Node)
take_first box n = elim (queue_at n box).waiting [
  | [] ↦ none
  | item ∷ rest ↦ some (
    item,
    record n {
      queues =
          Dict.put n.queues box (record { maxsize = (queue_at n box).maxsize; waiting = rest });
    },
  )
]

-- The end of the wait in `_ask`: with the first reply if there is one, else by the timeout.
unfoldable pub end_ask : (name : String) → (box : ℕ) → Method Message
unfolding closing take_first
end_ask name box n = elim (take_first box n) [
  | none ↦ closing name (raise timed_out, n)
  | some (item, n') ↦ closing name (return item.0, n')
]

-- What a round of `_ask_stream` comes to.
pub data Turn : Type 0 where
  more : Message → Node → Turn
  last : Message → Node → Turn
  broken : Error → Node → Turn

unfoldable pub turn_of : Message → Node → Turn
turn_of (stream false value) n = more value n
turn_of (stream true value) n = last value n
turn_of msg n = broken not_a_stream_reply n

-- One round of its loop: the wait, and what is yielded.
unfoldable pub turn : (box : ℕ) → Node → Turn
unfolding turn_of take_first
turn box n = elim (take_first box n) [
  | none ↦ broken timed_out n
  | some (item, n') ↦ turn_of item.0 n'
]

-- What the caller of `_ask_stream` sees.
pub record Stream : Type 0 where
  pub yielded : List Message
  pub ended : Result (Unit {0})

-- The loop, once no more replies arrive; fuel bounds the rounds, and `none` stands for its end.
unfoldable pub stream_loop :
    (fuel : ℕ) → (name : String) → (box : ℕ) → List Message → Node → Option (Stream × Node)
unfolding turn closing
stream_loop zero name box out n = none
stream_loop (suc fuel) name box out n = elim (turn box n) [
  | more value n' ↦ stream_loop fuel name box (out ++ value ∷ []) n'
  | last value n' ↦
      some (record { yielded = out ++ value ∷ []; ended = return tt }, unregister_actor name n')
  | broken e n' ↦ some (record { yielded = out; ended = raise e }, unregister_actor name n')
]
