-- ===== src/Supervisor/Reach/Invariant.antt =====
-- What holds in every state that a supervisor and its node come to (lapinbeam/supervisor.py).
use lapinbeam.Prelude.{
  ℕ, String, Option, none, some, ◌≡◌, sym, ◌∙◌, subst, string_eq, nat_eq, arith, Option-cases,
  Bool-cases, inl, inr,
}
use lapinbeam.Dict
use lapinbeam.Dict.{get-put, get-empty}
use lapinbeam.Messages.{Error, linked_exit, Reason, Message, exit_message}
use lapinbeam.Node.State.{Node, Core, ActorChild, call_core}
use lapinbeam.Node.Initial.{new_node}
use lapinbeam.Node.Running.{start}
use lapinbeam.Node.Mailboxes.{send_local}
use lapinbeam.Node.Signals.{run_deliver_exit, kill, kill_child, kill_live, is_trapping}
use lapinbeam.Node.Signals.Frame.{OnlyDelivers-send_local, OnlyDelivers-tell}
use lapinbeam.Asks.{new_queue}
use lapinbeam.Supervisor.{Strategy}
use lapinbeam.Supervisor.Lifecycle.{System, shutdown_all}
use lapinbeam.Supervisor.Spawning.{spawn, after_register, adopt}
use lapinbeam.Supervisor.Reach.{
  Step, spawned, begun, ended, resumed, shut_down, sent, signalled, initial, Reach, here, next,
}
use lapinbeam.Supervisor.Reach.Led.{LeadsTo, IsLed, IsLed-set_child, IsLed-updated}
use lapinbeam.Supervisor.Reach.Ops.{register_actor-cases, registered, IsLed-registered}
use lapinbeam.Supervisor.Reach.Cancels.{Retires, Retires-cancel_children, IsUnled-task}
use lapinbeam.Supervisor.Reach.Steps.{IsLed-generation_over, IsLed-attempt, IsLed-resume}

IsLed-spawn :
    (capacity : ℕ) (name : String) (ident mailbox : ℕ) (sys : System)
    → Dict.get sys.node.children ident ≡ none
    → IsLed sys.node
    → IsLed (spawn capacity name ident mailbox sys).1.node
unfolding spawn after_register adopt new_queue call_core
IsLed-spawn capacity name ident mailbox sys fresh led =
    let n = new_queue mailbox capacity sys.node in
    elim (register_actor-cases name mailbox n) [
      | inl (why, e) ↦
          subst (λ r. IsLed (after_register name ident mailbox sys.supervisor r).1.node) (sym e) led
      | inr (e, own) ↦
          subst (λ r. IsLed (after_register name ident mailbox sys.supervisor r).1.node) (sym e)
            (IsLed-set_child ident _ (registered name mailbox n)
              (IsLed-registered name mailbox n own led)
              (λ other h. cc (sym fresh ∙ (led other ident h).1)))
    ]

pub kill_frame :
    (why : Error) (child : ActorChild)
    → ((kill why child).name ≡ child.name)
      × ((kill why child).mailbox ≡ child.mailbox)
      × ((kill why child).task ≡ child.task)
unfolding kill
kill_frame why child = ground arith

IsLed-kill_child : (why : Error) (ident : ℕ) (n : Node) → IsLed n → IsLed (kill_child why ident n)
unfolding kill_child
IsLed-kill_child why ident n led = elim (Option-cases (Dict.get n.children ident)) [
  | inl e ↦ let same : n ≡ kill_child why ident n = ground (arith, e) in subst IsLed same led
  | inr (child, e) ↦
      let same : record n { children = Dict.put n.children ident (kill why child) }
          ≡ kill_child why ident n =
        ground (arith, e) in
      subst IsLed same (IsLed-updated ident child (kill why child) n e (kill_frame why child) led)
]

IsLed-kill_live : (why : Error) (name : String) (n : Node) → IsLed n → IsLed (kill_live why name n)
unfolding kill_live
IsLed-kill_live why name n led = elim (Option-cases (Dict.get n.live_children name)) [
  | inl e ↦ let same : n ≡ kill_live why name n = ground (arith, e) in subst IsLed same led
  | inr (ident, e) ↦
      let same : kill_child why ident n ≡ kill_live why name n = ground (arith, e) in
      subst IsLed same (IsLed-kill_child why ident n led)
]

IsLed-run_deliver_exit :
    (from_label target : String) (reason : Reason) (n : Node)
    → IsLed n
    → IsLed (run_deliver_exit from_label target reason n).1
unfolding run_deliver_exit
IsLed-run_deliver_exit from_label target reason n led = elim (Bool-cases (is_trapping n target)) [
  | inl trapped ↦
      let (queues, observed, e) = OnlyDelivers-tell target (exit_message from_label reason) n in
      rw (run_deliver_exit, trapped) (subst IsLed (sym e) led)
  | inr mortal ↦
      rw (run_deliver_exit, mortal) (IsLed-kill_live (linked_exit from_label reason) target n led)
]

IsLed-send_local :
    (name : String) (msg : Message) (reply_to : Option String) (correlation_id : Option ℕ)
    (n : Node)
    → IsLed n
    → IsLed (send_local name msg reply_to correlation_id n).1
IsLed-send_local name msg reply_to correlation_id n led =
    let (queues, observed, e) = OnlyDelivers-send_local name msg reply_to correlation_id n in
    subst IsLed (sym e) led

-- At first no child is live.
IsLed-initial :
    (node_id : String) (core : Core) (strategy : Strategy) (max_restarts restart_window : ℕ)
    → IsLed (initial node_id core strategy max_restarts restart_window).node
unfolding initial start new_node call_core
IsLed-initial node_id core strategy max_restarts restart_window name ident h =
    cc (sym (get-empty {V = ℕ} name) ∙ h)

module _ (overlapping : ℕ → Node → Node)
    (ends : (ident : ℕ) (n : Node) → Retires ident n (overlapping ident n)) where
  -- A backoff is slept out by a child that does not run.
  Step-IsLed : {s t : System} → Step overlapping s t → IsLed s.node → IsLed t.node
  unfolding shutdown_all
  Step-IsLed {s} (spawned capacity name ident mailbox fresh) led =
      IsLed-spawn capacity name ident mailbox s fresh led
  Step-IsLed {s} (begun ident child init now found waits) led =
      IsLed-attempt overlapping ends ident init now s led
  Step-IsLed {s} (ended ident child outcome now found alive) led =
      IsLed-generation_over overlapping ends ident child outcome now s found led
  Step-IsLed {s} (resumed ident child init now found asleep) led =
      IsLed-resume overlapping ends ident init now s
        (IsUnled-task ident child s.node found (λ alive. cc (sym asleep ∙ alive)) led) led
  Step-IsLed {s} shut_down led =
      (Retires-cancel_children overlapping ends s.supervisor.children s.node led).0
  Step-IsLed {s} (sent name msg reply_to correlation_id) led =
      IsLed-send_local name msg reply_to correlation_id s.node led
  Step-IsLed {s} (signalled from_label target reason) led =
      IsLed-run_deliver_exit from_label target reason s.node led

  Reach-IsLed : {s t : System} → IsLed s.node → Reach overlapping s t → IsLed t.node
  Reach-IsLed led here = led
  Reach-IsLed led (next r st) = Step-IsLed st (Reach-IsLed led r)

  -- Where what the overlap of a cancellation with a pending exit does retires that child: in every
  -- state that a new supervisor on a node that has just started comes to, by spawns, ends of
  -- generations, backoffs, restarts, shutdowns, local sends and exit signals in any order, the
  -- name of each live child leads to it: the child has that name, its task runs, and the mailbox
  -- registered under the name is the child's own.
  pub reached-live :
      (node_id : String) (core : Core) (strategy : Strategy) (max_restarts restart_window : ℕ)
      (sys : System)
      → Reach overlapping (initial node_id core strategy max_restarts restart_window) sys
      → (name : String) (ident : ℕ) → Dict.get sys.node.live_children name ≡ some ident
      → LeadsTo sys.node name ident
  reached-live node_id core strategy max_restarts restart_window sys r =
      Reach-IsLed (IsLed-initial node_id core strategy max_restarts restart_window) r
