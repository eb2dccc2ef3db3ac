-- ===== src/Supervisor/Reach/Mailboxes.antt =====
-- A child's mailbox in the states that its supervisor comes to (lapinbeam/supervisor.py).
use lapinbeam.Prelude.{
  ℕ, String, Option, none, some, List, false, ◌≡◌, refl, sym, ◌∙◌, ap, subst, string_eq, nat_eq,
  arith, Option-cases, Bool-cases, inl, inr,
}
use lapinbeam.Dict
use lapinbeam.Messages.{Error, Reason, crash}
use lapinbeam.Node.State.{
  Node, ActorChild, running, live, call_core, over, backing_off, done, Result, return, raise,
}
use lapinbeam.Supervisor.{Supervisor, allow_restart, affected_children}
use lapinbeam.Supervisor.Lifecycle.{
  System, Outcome, crashed, cancelled, returned, Ended, end_generation, tell_ended, set_child,
  set_task, routed, final_reason, begin_generation, others, exhausted, crash_step, final_step,
  end_by, generation_over, attempt, resume, respawn_all, cancel_children,
}
use lapinbeam.Supervisor.Lifecycle.Shutdown.{children-tell_ended}
use lapinbeam.Supervisor.Reach.Ops.{begin_generation-cases}
use lapinbeam.Supervisor.Reach.Kept.{
  Keeps, Keeps-refl, Keeps-trans, Keeps-put, Keeps-end_generation, Keeps-set_task,
  Keeps-cancel_children, Keeps-respawn_all, Keeps-exhausted,
}

-- What the except clauses do with a child before its mailbox is dealt with.
routed_frame :
    (outcome : Outcome) (child : ActorChild)
    → ((routed outcome child).1.name ≡ child.name)
      × ((routed outcome child).1.mailbox ≡ child.mailbox)
unfolding routed
routed_frame cancelled child = (refl, refl)
routed_frame (crashed e) child = (refl, refl)
routed_frame returned child = (refl, refl)

module _ (overlapping : ℕ → Node → Node)
    (keeps : (ident : ℕ) (n : Node) → Keeps n.children (overlapping ident n).children) where
  finish_told :
      (ident : ℕ) (name : String) (ended : Ended) (reason : Reason)
      → Keeps ended.node.children
          (set_task overlapping ident over (tell_ended name ended reason)).children
  finish_told ident name ended reason =
      subst (λ d. Keeps d (set_task overlapping ident over (tell_ended name ended reason)).children)
        (children-tell_ended name ended reason)
        (Keeps-set_task overlapping ident over (tell_ended name ended reason))

  Keeps-crash_step :
      (ident : ℕ) (name : String) (why : Error) (now : ℕ) (ended : Ended) (s : Supervisor)
      → Keeps ended.node.children (crash_step overlapping ident name why now ended s).node.children
  unfolding crash_step
  Keeps-crash_step ident name why now ended s = elim (Bool-cases (allow_restart now s).0) [
    | inl granted ↦
        rw (granted, crash_step) (Keeps-set_task overlapping ident backing_off ended.node)
    | inr refused ↦
        let spent : System = record { node = ended.node; supervisor = (allow_restart now s).1 } in
        let n = (exhausted overlapping ident name why spent).node in
        rw (refused, crash_step)
          (Keeps-trans _ _ _ (Keeps-exhausted overlapping keeps ident name why spent)
            (finish_told ident name (record ended { node = n }) (crash why)))
  ]

  Keeps-end_by :
      (error : Option Error) (ident : ℕ) (name : String) (outcome : Outcome) (now : ℕ)
      (ended : Ended) (s : Supervisor)
      → Keeps ended.node.children
          (end_by overlapping error ident name outcome now ended s).node.children
  unfolding end_by final_step
  Keeps-end_by none ident name outcome now ended s =
      finish_told ident name ended (final_reason outcome)
  Keeps-end_by (some why) ident name outcome now ended s =
      Keeps-crash_step ident name why now ended s

  pub Keeps-generation_over :
      (ident : ℕ) (child : ActorChild) (outcome : Outcome) (now : ℕ) (sys : System)
      → Dict.get sys.node.children ident ≡ some child
      → Keeps sys.node.children
          (generation_over overlapping ident child outcome now sys).node.children
  unfolding generation_over
  Keeps-generation_over ident child outcome now sys found =
      let new = record (routed outcome child).1 { driver = done } in
      Keeps-trans _ _ _
        (Keeps-end_generation ident child sys.node found new (routed_frame outcome child))
        (Keeps-end_by (routed outcome child).0 ident child.name outcome now
          (end_generation child.name (set_child ident new sys.node)) sys.supervisor)

  pub Keeps-attempt :
      (ident : ℕ) (init : Option Error) (now : ℕ) (sys : System)
      → Keeps sys.node.children (attempt overlapping ident init now sys).node.children
  unfolding attempt set_child call_core
  Keeps-attempt ident init now sys = elim (Option-cases (Dict.get sys.node.children ident)) [
    | inl e ↦
        let same : sys ≡ attempt overlapping ident init now sys = ground (arith, e) in
        subst (λ s. Keeps sys.node.children s.node.children) same (Keeps-refl sys.node.children)
    | inr (child, e) ↦ elim (begin_generation-cases ident child init sys.node) [
      | inl (why, b) ↦
          let same : generation_over overlapping ident child (crashed why) now sys
              ≡ attempt overlapping ident init now sys =
            ground (arith, e, b) in
          subst (λ s. Keeps sys.node.children s.node.children) same
            (Keeps-generation_over ident child (crashed why) now sys e)
      | inr (b, own) ↦
          let same : (begin_generation ident child init sys.node).1
              ≡ (attempt overlapping ident init now sys).node =
            ground (arith, e, b) in
          subst (λ k. Keeps sys.node.children k.children) (ap (λ r. r.1) (sym b) ∙ same)
            (Keeps-put sys.node.children ident child
              (record child { driver = running false; task = live }) e (refl, refl))
    ]
  ]

  pub Keeps-resume :
      (ident : ℕ) (init : Option Error) (now : ℕ) (sys : System)
      → Keeps sys.node.children (resume overlapping ident init now sys).node.children
  unfolding resume
  Keeps-resume ident init now sys = by_affected (affected_children ident sys.supervisor) refl
    where
      by_affected :
          (result : Result (List ℕ))
          → affected_children ident sys.supervisor ≡ result
          → Keeps sys.node.children (resume overlapping ident init now sys).node.children
      by_affected (raise e) h = rw (resume, h) (Keeps-set_task overlapping ident over sys.node)
      by_affected (return affected) h =
          let siblings = others ident affected in
          let stopped = cancel_children overlapping siblings sys.node in
          rw (resume, h)
            (Keeps-trans _ _ _ (Keeps-cancel_children overlapping keeps siblings sys.node) (
              Keeps-trans _ _ _ (Keeps-respawn_all overlapping keeps siblings stopped) (
                Keeps-attempt ident init now (record sys { node = respawn_all siblings stopped }))))
