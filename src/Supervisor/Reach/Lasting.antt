-- ===== src/Supervisor/Reach/Lasting.antt =====
-- The mailbox of a child over its whole life (lapinbeam/supervisor.py).
use lapinbeam.Prelude.{
  ℕ, String, none, some, ◌≡◌, sym, ◌∙◌, ap, subst, string_eq, nat_eq, Option-cases, Bool-cases, inl,
  inr,
}
use mathlib.Core.Option.{some-injective}
use lapinbeam.Dict
use lapinbeam.Messages.{Error, linked_exit, Reason, exit_message}
use lapinbeam.Node.State.{Node, Core, ActorChild, call_core}
use lapinbeam.Node.Mailboxes.Delivery.{mailbox_of}
use lapinbeam.Node.Signals.{run_deliver_exit, kill, kill_child, kill_live, is_trapping}
use lapinbeam.Node.Signals.Frame.{OnlyDelivers-send_local, OnlyDelivers-tell}
use lapinbeam.Asks.{new_queue}
use lapinbeam.Supervisor.{Strategy}
use lapinbeam.Supervisor.Lifecycle.{System, set_child, shutdown_all}
use lapinbeam.Supervisor.Spawning.{spawn, after_register, adopt}
use lapinbeam.Supervisor.Reach.{
  Step, spawned, begun, ended, resumed, shut_down, sent, signalled, initial, Reach, here, next,
}
use lapinbeam.Supervisor.Reach.Ops.{register_actor-cases}
use lapinbeam.Supervisor.Reach.Cancels.{Retires}
use lapinbeam.Supervisor.Reach.Kept.{
  Keeps, Keeps-refl, Keeps-trans, Keeps-put, Keeps-put_new, Keeps-cancel_children,
}
use lapinbeam.Supervisor.Reach.Mailboxes.{Keeps-generation_over, Keeps-attempt, Keeps-resume}
use lapinbeam.Supervisor.Reach.Invariant.{kill_frame, reached-live}

Keeps-spawn :
    (capacity : ℕ) (name : String) (ident mailbox : ℕ) (sys : System)
    → Dict.get sys.node.children ident ≡ none
    → Keeps sys.node.children (spawn capacity name ident mailbox sys).1.node.children
unfolding spawn after_register adopt new_queue call_core set_child
Keeps-spawn capacity name ident mailbox sys fresh =
    let s = sys.supervisor in
    elim (register_actor-cases name mailbox (new_queue mailbox capacity sys.node)) [
      | inl (why, e) ↦
          subst
            (λ r. Keeps sys.node.children (after_register name ident mailbox s r).1.node.children)
            (sym e) (Keeps-refl sys.node.children)
      | inr (e, own) ↦
          subst
            (λ r. Keeps sys.node.children (after_register name ident mailbox s r).1.node.children)
            (sym e) (Keeps-put_new sys.node.children ident _ fresh)
    ]

Keeps-kill_live :
    (why : Error) (name : String) (n : Node) → Keeps n.children (kill_live why name n).children
unfolding kill_live kill_child
Keeps-kill_live why name n = elim (Option-cases (Dict.get n.live_children name)) [
  | inl e ↦ rw (e, kill_live) (Keeps-refl n.children)
  | inr (ident, e) ↦ elim (Option-cases (Dict.get n.children ident)) [
    | inl absent ↦ rw (e, kill_live, absent, kill_child) (Keeps-refl n.children)
    | inr (child, found) ↦
        let (named, boxed, _) = kill_frame why child in
        rw (e, kill_live, found, kill_child)
          (Keeps-put n.children ident child (kill why child) found (named, boxed))
  ]
]

Keeps-run_deliver_exit :
    (from_label target : String) (reason : Reason) (n : Node)
    → Keeps n.children (run_deliver_exit from_label target reason n).1.children
unfolding run_deliver_exit
Keeps-run_deliver_exit from_label target reason n = elim (Bool-cases (is_trapping n target)) [
  | inl trapped ↦
      let (queues, observed, e) = OnlyDelivers-tell target (exit_message from_label reason) n in
      rw (run_deliver_exit, trapped)
        (subst (λ k. Keeps n.children k.children) (sym e) (Keeps-refl n.children))
  | inr mortal ↦
      rw (run_deliver_exit, mortal) (Keeps-kill_live (linked_exit from_label reason) target n)
]

module _ (overlapping : ℕ → Node → Node)
    (ends : (ident : ℕ) (n : Node) → Retires ident n (overlapping ident n))
    (keeps : (ident : ℕ) (n : Node) → Keeps n.children (overlapping ident n).children) where
  Step-Keeps : {s t : System} → Step overlapping s t → Keeps s.node.children t.node.children
  unfolding shutdown_all
  Step-Keeps {s} (spawned capacity name ident mailbox fresh) =
      Keeps-spawn capacity name ident mailbox s fresh
  Step-Keeps {s} (begun ident child init now found waits) =
      Keeps-attempt overlapping keeps ident init now s
  Step-Keeps {s} (ended ident child outcome now found alive) =
      Keeps-generation_over overlapping keeps ident child outcome now s found
  Step-Keeps {s} (resumed ident child init now found asleep) =
      Keeps-resume overlapping keeps ident init now s
  Step-Keeps {s} shut_down = Keeps-cancel_children overlapping keeps s.supervisor.children s.node
  Step-Keeps {s} (sent name msg reply_to correlation_id) =
      let (queues, observed, e) = OnlyDelivers-send_local name msg reply_to correlation_id s.node in
      subst (λ k. Keeps s.node.children k.children) (sym e) (Keeps-refl s.node.children)
  Step-Keeps {s} (signalled from_label target reason) =
      Keeps-run_deliver_exit from_label target reason s.node

  Reach-Keeps : {s t : System} → Reach overlapping s t → Keeps s.node.children t.node.children
  Reach-Keeps {s} here = Keeps-refl s.node.children
  Reach-Keeps (next r st) = Keeps-trans _ _ _ (Reach-Keeps r) (Step-Keeps st)

  Reach-trans :
      {s t u : System} → Reach overlapping s t → Reach overlapping t u → Reach overlapping s u
  Reach-trans r here = r
  Reach-trans r (next r' st) = next (Reach-trans r r') st

  -- Where what the overlap of a cancellation with a pending exit does retires that child and keeps
  -- every child's name and mailbox: of two states that a new supervisor on a node that has just
  -- started comes to, one after the other, if the same child is live under a name in both,
  -- whatever crashes, restarts, exit signals and other spawns lie between, the name leads to the
  -- same mailbox in both.
  pub reached-mailbox :
      (node_id : String) (core : Core) (strategy : Strategy) (max_restarts restart_window : ℕ)
      (sys sys' : System) (name : String) (ident : ℕ)
      → Reach overlapping (initial node_id core strategy max_restarts restart_window) sys
      → Reach overlapping sys sys'
      → Dict.get sys.node.live_children name ≡ some ident
      → Dict.get sys'.node.live_children name ≡ some ident
      → mailbox_of sys'.node name ≡ mailbox_of sys.node name
  reached-mailbox node_id core strategy max_restarts restart_window sys sys' name ident r r' l l' =
      let (child, found, _, _, boxed) =
        reached-live overlapping ends node_id core strategy max_restarts restart_window sys r name
          ident l in
      let (child', found', _, _, boxed') =
        reached-live overlapping ends node_id core strategy max_restarts restart_window sys'
          (Reach-trans r r') name ident l' in
      let (kept, found'', _, same) = Reach-Keeps r' ident child found in
      boxed'
      ∙ ap (λ (k : ℕ). some k)
          (ap (λ (c : ActorChild). c.mailbox) (some-injective _ _ (sym found' ∙ found'')) ∙ same)
      ∙ sym boxed
