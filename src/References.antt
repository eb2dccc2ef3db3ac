-- ===== src/References.antt =====
-- The references of lapinbeam/refs.py: what each stands for, whole asks, and `PoolRef.map`. What
-- happens on the node while a call waits is a parameter; so are the text that an f-string makes of a
-- number, and the order in which tasks complete.
pub mod Mapping
use lapinbeam.Prelude.{
  ℕ, suc, ◌+◌, String, Option, none, some, List, [], ◌∷◌, Bool, true, false, map, nat_eq,
}
use lapinbeam.Dict
use lapinbeam.Dict.{find}
use lapinbeam.Messages.{Error, Message}
use lapinbeam.Node.State.{Node, TaskState, Result, return, raise, Action, Method, and_then}
use lapinbeam.Node.Refs.{Ref, actor_ref, remote_ref}
use lapinbeam.Context.{send}
use lapinbeam.Asks.{begin_ask, end_ask, Stream, stream_loop}
use lapinbeam.Supervisor.{Supervisor}
use lapinbeam.Supervisor.Nested.{NestedChild}

-- `ActorRef`, with the number of the child that it was made for
pub record ActorRef : Type 0 where
  pub name : String
  pub child : Option ℕ

-- `ActorRef.task`, looked up each time
unfoldable pub task : ActorRef → Node → Option TaskState
task ref n = elim ref.child [
  | none ↦ none
  | some ident ↦ elim (Dict.get n.children ident) [ none ↦ none | some c ↦ some c.task ]
]

-- `SupervisorRef.supervisor` and `SupervisorRef.task`
unfoldable pub current_supervisor : NestedChild → Option Supervisor
current_supervisor child = child.inner

unfoldable pub supervisor_task : NestedChild → TaskState
supervisor_task child = child.task

-- The hidden mailbox of a call.
pub record Call : Type 0 where
  pub number : ℕ
  pub box : ℕ

-- A call that has begun, or whose registration or send has raised.
abbrev pub Begun : Type 0
Begun = Call × Result (Unit {0})

unfoldable pub first_raised : List (ℕ × Result Message) → Option Error
first_raised [] = none
first_raised ((number, raise e) ∷ rest) = some e
first_raised ((number, return _) ∷ rest) = first_raised rest

-- The results in the order of the tasks; `none` while some task has not completed.
unfoldable pub in_order :
    List (Message × Call) → List (ℕ × Result Message) → Option (List (Result Message))
in_order [] ended = some []
in_order ((msg, call) ∷ items) ended = elim (find call.number ended) [
  | none ↦ none
  | some result ↦ elim (in_order items ended) [
    | none ↦ none
    | some results ↦ some (result ∷ results)
  ]
]

-- What `gather` does once its tasks have completed in some order.
unfoldable pub gathered :
    (return_exceptions : Bool)
    → List (Message × Call)
    → List (ℕ × Result Message)
    → Result (Option (List (Result Message)))
unfolding first_raised in_order
gathered true items ended = return (in_order items ended)
gathered false items ended = elim (first_raised ended) [
  | some e ↦ raise e
  | none ↦ return (in_order items ended)
]

module _ (ask_name : ℕ → String) where
  -- `ActorRef.ask`, `RemoteRef.ask` and `PoolRef.ask`: `_ask` of the reference
  unfoldable pub ask : (meanwhile : Node → Node) → Ref → Message → Call → Method Message
  unfolding and_then
  ask meanwhile ref msg call n =
      and_then (begin_ask 1 ref msg (ask_name call.number) call.number call.box n)
        (λ _ n'. end_ask (ask_name call.number) call.box (meanwhile n'))

  -- `ask_stream` of the same, up to its end
  unfoldable pub ask_stream :
      (fuel : ℕ) → (meanwhile : Node → Node) → Ref → Message → Call → Method (Option Stream)
  unfolding and_then
  ask_stream fuel meanwhile ref msg call n =
      and_then (begin_ask 0 ref msg (ask_name call.number) call.number call.box n) (λ _ n'.
        elim (stream_loop fuel (ask_name call.number) call.box [] (meanwhile n')) [
          | none ↦ (return none, meanwhile n')
          | some (stream, n'') ↦ (return (some stream), n'')
        ])

  -- The tasks of `gather`, which begin in the order of the items.
  unfoldable pub begin_asks : Ref → List (Message × Call) → Node → List Begun × Node
  begin_asks ref [] n = ([], n)
  begin_asks ref ((msg, call) ∷ items) n =
      let (result, n') = begin_ask 1 ref msg (ask_name call.number) call.number call.box n in
      let (more, n'') = begin_asks ref items n' in ((call, result) ∷ more, n'')

  unfoldable pub end_begun : Begun → Method Message
  end_begun (call, raise e) n = (raise e, n)
  end_begun (call, return _) n = end_ask (ask_name call.number) call.box n

  -- The tasks complete, in the order of the list.
  unfoldable pub end_asks : List Begun → Node → List (ℕ × Result Message) × Node
  unfolding end_begun
  end_asks [] n = ([], n)
  end_asks (begun ∷ rest) n =
      let (result, n') = end_begun begun n in
      let (more, n'') = end_asks rest n' in ((begun.0.number, result) ∷ more, n'')

  -- `PoolRef.map`
  unfoldable pub map_pool :
      (return_exceptions : Bool)
      → (meanwhile : Node → Node) → (order : List Begun → List Begun) → (dispatcher : Ref)
      → List (Message × Call)
      → Method (Option (List (Result Message)))
  unfolding begin_asks end_asks gathered
  map_pool return_exceptions meanwhile order dispatcher items n =
      let (begun, n') = begin_asks dispatcher items n in
      let (ended, n'') = end_asks (order begun) (meanwhile n') in
      (gathered return_exceptions items ended, n'')
