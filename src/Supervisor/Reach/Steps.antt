-- ===== src/Supervisor/Reach/Steps.antt =====
-- The pieces of a child's life and the names of those that live (lapinbeam/supervisor.py).
use lapinbeam.Prelude.{
  ℕ, String, Option, none, some, List, ◌≡◌, ◌⊎◌, refl, sym, ◌∙◌, ap, subst, string_eq, nat_eq,
  arith, Option-cases, Bool-cases, inl, inr,
}
use lapinbeam.Dict
use lapinbeam.Messages.{Error, Reason, crash, supervisor_gave_up}
use lapinbeam.Node.State.{Node, ActorChild, backing_off, over, done, Result, return, raise}
use lapinbeam.Node.Events.{on_core_event}
use lapinbeam.Node.Events.Quiet.{on_core_event_quiet}
use lapinbeam.Supervisor.{
  Supervisor, Strategy, one_for_one, one_for_all, rest_for_one, allow_restart, affected_children,
}
use lapinbeam.Supervisor.Lifecycle.{
  System, Outcome, Ended, crashed, end_generation, tell_ended, set_child, set_task, routed,
  final_reason, begin_generation, others, exhausted, give_up_one, give_up_all, shutdown_except,
  crash_step, final_step, end_by, generation_over, attempt, resume, respawn_all, cancel_children,
}
use lapinbeam.Supervisor.Reach.Led.{IsLed, IsUnled, IsLed-same, IsUnled-ended, IsLed-end_generation}
use lapinbeam.Supervisor.Reach.Ops.{
  IsLed-tell_ended, IsUnled-tell_ended, IsLed-set_task, begin_generation-cases, IsLed-begun,
}
use lapinbeam.Supervisor.Reach.Cancels.{Retires, Retires-cancel_children, IsLed-respawn_all}

-- The node once it has been said that the supervisor gives up.
unfoldable pub told : String → Error → Node → Node
told name why n = on_core_event (supervisor_gave_up name why) n

pub told_frame :
    (name : String) (why : Error) (n : Node)
    → ((told name why n).mailboxes ≡ n.mailboxes)
      × ((told name why n).live_children ≡ n.live_children)
      × ((told name why n).children ≡ n.children)
unfolding told
told_frame name why n =
    let e = on_core_event_quiet (supervisor_gave_up name why) n refl in
    (ap (λ k. k.mailboxes) e, ap (λ k. k.live_children) e, ap (λ k. k.children) e)

module _ (overlapping : ℕ → Node → Node) where
  pub exhausted-cases :
      (ident : ℕ) (name : String) (why : Error) (sys : System) (strategy : Strategy)
      → sys.supervisor.strategy ≡ strategy
      → (told name why sys.node ≡ (exhausted overlapping ident name why sys).node)
        ⊎ (cancel_children overlapping
              (others ident sys.supervisor.children)
              (told name why sys.node)
            ≡ (exhausted overlapping ident name why sys).node)
  unfolding exhausted give_up_one give_up_all shutdown_except told
  exhausted-cases ident name why sys one_for_one h = inl (ground (arith, h))
  exhausted-cases ident name why sys one_for_all h = inr (ground (arith, h))
  exhausted-cases ident name why sys rest_for_one h = inr (ground (arith, h))

module _ (overlapping : ℕ → Node → Node)
    (ends : (ident : ℕ) (n : Node) → Retires ident n (overlapping ident n)) where
  -- A supervisor whose budget is spent retires children only.
  IsLed-exhausted :
      (ident : ℕ) (name : String) (why : Error) (sys : System)
      → IsLed sys.node
      → IsLed (exhausted overlapping ident name why sys).node
        × ((other : ℕ)
            → IsUnled other sys.node
            → IsUnled other (exhausted overlapping ident name why sys).node)
  IsLed-exhausted ident name why sys led =
      let (m, l, c) = told_frame name why sys.node in
      let led' = IsLed-same sys.node (told name why sys.node) m l c led in
      elim (exhausted-cases overlapping ident name why sys sys.supervisor.strategy refl) [
        | inl e ↦ (
          subst IsLed e led',
          λ other u. subst (IsUnled other) e (λ k h. u k (ap (λ d. Dict.get d k) (sym l) ∙ h)),
        )
        | inr e ↦
            let (led'', _, keeps) =
              Retires-cancel_children overlapping ends (others ident sys.supervisor.children)
                (told name why sys.node) led' in
            (
              subst IsLed e led'',
              λ other u.
                  subst (IsUnled other) e
                    (keeps other (λ k h. u k (ap (λ d. Dict.get d k) (sym l) ∙ h))),
            )
      ]

  module _ (ident : ℕ) (name : String) (now : ℕ) (ended : Ended) (s : Supervisor)
      (led : IsLed ended.node) (unled : IsUnled ident ended.node) where
    -- The child is marked, and whoever was linked to it or watched it may be told.
    finish_told :
        (n : Node) (reason : Reason)
        → IsLed n
        → IsUnled ident n
        → IsLed
            (set_task overlapping ident over (tell_ended name (record ended { node = n }) reason))
    finish_told n reason l u =
        let last = record ended { node = n } in
        IsLed-set_task overlapping ident over (tell_ended name last reason)
          (IsLed-tell_ended name last reason l) (IsUnled-tell_ended name last reason ident u)

    IsLed-crash_step :
        (why : Error) → IsLed (crash_step overlapping ident name why now ended s).node
    unfolding crash_step
    IsLed-crash_step why = elim (Bool-cases (allow_restart now s).0) [
      | inl granted ↦
          rw (granted, crash_step)
            (IsLed-set_task overlapping ident backing_off ended.node led unled)
      | inr refused ↦
          let spent : System = record { node = ended.node; supervisor = (allow_restart now s).1 } in
          let (led', keeps) = IsLed-exhausted ident name why spent led in
          rw (refused, crash_step)
            (finish_told (exhausted overlapping ident name why spent).node (crash why) led'
              (keeps ident unled))
    ]

    IsLed-end_by :
        (error : Option Error) (outcome : Outcome)
        → IsLed (end_by overlapping error ident name outcome now ended s).node
    unfolding end_by final_step
    IsLed-end_by none outcome = finish_told ended.node (final_reason outcome) led unled
    IsLed-end_by (some why) outcome = IsLed-crash_step why

  pub IsLed-generation_over :
      (ident : ℕ) (child : ActorChild) (outcome : Outcome) (now : ℕ) (sys : System)
      → Dict.get sys.node.children ident ≡ some child
      → IsLed sys.node
      → IsLed (generation_over overlapping ident child outcome now sys).node
  unfolding generation_over
  IsLed-generation_over ident child outcome now sys found led =
      let new = record (routed outcome child).1 { driver = done } in
      IsLed-end_by ident child.name now (end_generation child.name (set_child ident new sys.node))
        sys.supervisor (IsLed-end_generation ident child new sys.node found led)
        (IsUnled-ended ident child new sys.node found led) (routed outcome child).0 outcome

  pub IsLed-attempt :
      (ident : ℕ) (init : Option Error) (now : ℕ) (sys : System)
      → IsLed sys.node
      → IsLed (attempt overlapping ident init now sys).node
  unfolding attempt
  IsLed-attempt ident init now sys led = elim (Option-cases (Dict.get sys.node.children ident)) [
    | inl e ↦
        let same : sys ≡ attempt overlapping ident init now sys = ground (arith, e) in
        subst (λ s. IsLed s.node) same led
    | inr (child, e) ↦ elim (begin_generation-cases ident child init sys.node) [
      | inl (why, b) ↦
          let same : generation_over overlapping ident child (crashed why) now sys
              ≡ attempt overlapping ident init now sys =
            ground (arith, e, b) in
          subst (λ s. IsLed s.node) same
            (IsLed-generation_over ident child (crashed why) now sys e led)
      | inr (b, own) ↦
          let same : (begin_generation ident child init sys.node).1
              ≡ (attempt overlapping ident init now sys).node =
            ground (arith, e, b) in
          subst IsLed (ap (λ r. r.1) (sym b) ∙ same) (IsLed-begun ident child sys.node own e led)
    ]
  ]

  pub IsLed-resume :
      (ident : ℕ) (init : Option Error) (now : ℕ) (sys : System)
      → IsUnled ident sys.node
      → IsLed sys.node
      → IsLed (resume overlapping ident init now sys).node
  unfolding resume
  IsLed-resume ident init now sys unled led =
      by_affected (affected_children ident sys.supervisor) refl
    where
      by_affected :
          (result : Result (List ℕ))
          → affected_children ident sys.supervisor ≡ result
          → IsLed (resume overlapping ident init now sys).node
      by_affected (raise e) h =
          rw (resume, h) (IsLed-set_task overlapping ident over sys.node led unled)
      by_affected (return affected) h =
          let siblings = others ident affected in
          let (led', gone, _) = Retires-cancel_children overlapping ends siblings sys.node led in
          rw (resume, h)
            (IsLed-attempt ident init now
              (record sys {
                node = respawn_all siblings (cancel_children overlapping siblings sys.node);
              })
              (IsLed-respawn_all siblings (cancel_children overlapping siblings sys.node) gone
                led'))
