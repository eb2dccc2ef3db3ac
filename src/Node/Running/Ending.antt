-- ===== src/Node/Running/Ending.antt =====
-- What becomes of a node's actors when it stops (lapinbeam/node.py).
use lapinbeam.Prelude.{
  ℕ, String, some, List, [], ◌∷◌, elem, ◌≡◌, ◌⊎◌, refl, sym, ◌∙◌, ap, string_eq, nat_eq, arith,
  Option-cases, inl, inr,
}
use lapinbeam.Dict
use lapinbeam.Dict.{check, elem-keys_of}
use lapinbeam.Node.State.{
  Node, ActorChild, TaskState, unset, scheduled, live, backing_off, over, call_core,
}
use lapinbeam.Node.Events.{settle, settle_all}
use lapinbeam.Node.Running.{
  is_pending, actor_tasks, stop_node, stop, close, shut, fail, fail_waiters,
}
use lapinbeam.Supervisor.Lifecycle.{cancel_children}
use lapinbeam.Supervisor.Lifecycle.Shutdown.{IsCalm, stop_some, get-cancel_children}

children-settle_all : (futs : List ℕ) (n : Node) → (settle_all fail futs n).children ≡ n.children
unfolding settle_all settle
children-settle_all [] n = refl
children-settle_all (fut ∷ futs) n =
    children-settle_all futs (settle fail fut n) ∙ elim (Option-cases (Dict.get n.futures fut)) [
      | inl e ↦ ground (arith, e)
      | inr (state, e) ↦ ground (arith, e)
    ]

children-fail_waiters :
    (l : List (String × List ℕ)) (n : Node) → (fail_waiters l n).children ≡ n.children
unfolding fail_waiters
children-fail_waiters [] n = refl
children-fail_waiters ((peer, waiters) ∷ rest) n =
    children-fail_waiters rest (settle_all fail waiters n) ∙ children-settle_all waiters n

children-close : (n : Node) → (close n).children ≡ n.children
unfolding close shut call_core
children-close n =
    children-fail_waiters (Dict.items n.peer_waiters) (shut n)
    ∙ elim (Option-cases n.core) [ inl e ↦ ground (arith, e) | inr (core, e) ↦ ground (arith, e) ]

-- A task that is cancelled where it was pending is over, and another was not to run.
ended :
    (child : ActorChild) (state : TaskState)
    → child.task ≡ state
    → (after : ActorChild) → stop_some (is_pending child.task) (some child) ≡ some after
    → (after.task ≡ unset) ⊎ (after.task ≡ over)
ended child unset h after e = ground (arith, h, e)
ended child scheduled h after e = ground (arith, h, e)
ended child live h after e = ground (arith, h, e)
ended child backing_off h after e = ground (arith, h, e)
ended child over h after e = ground (arith, h, e)

-- Once a node on which no exit is pending has stopped, the task of each actor's child that it
-- knows, whichever supervisor has spawned the child, is over or was never created.
pub stop_node_ends :
    (overlapping : ℕ → Node → Node) (n : Node) (ident : ℕ) (after : ActorChild)
    → IsCalm n
    → Dict.get (stop_node overlapping n).children ident ≡ some after
    → (after.task ≡ unset) ⊎ (after.task ≡ over)
unfolding stop_node stop actor_tasks
stop_node_ends overlapping n ident after calm h =
    let e =
      sym (
        ap (λ d. Dict.get d ident) (children-close (cancel_children overlapping (actor_tasks n) n))
        ∙ get-cancel_children overlapping (actor_tasks n) ident n calm)
      ∙ h in
    elim (Option-cases (Dict.get n.children ident)) [
      | inl gone ↦ ground (arith, tested, e, gone)
      | inr (child, found) ↦ ended child child.task refl after (ground (arith, tested, e, found))
    ]
  where
    tested :
        elem ident (actor_tasks n)
        ≡ check (λ child. is_pending child.task) (Dict.get n.children ident)
    tested = elem-keys_of (λ child. is_pending child.task) n.children ident
