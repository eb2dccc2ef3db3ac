-- ===== src/Supervisor/Reach/Ledger.antt =====
-- What the pieces of a child's life keep of what a supervisor has on record (lapinbeam/supervisor.py).
use lapinbeam.Prelude.{
  ℕ, String, Option, none, some, List, [], ◌∷◌, length, length-append, length-keep-le, is_some, ltb,
  ◌≤◌, ◌-◌, ◌≡◌, refl, subst, string_eq, nat_eq, arith, Option-cases, Bool-cases, inl, inr,
}
use lapinbeam.Dict
use lapinbeam.Messages.{Error}
use lapinbeam.Node.State.{Node, ActorChild, Result, return, raise, method-cases}
use lapinbeam.Asks.{new_queue}
use lapinbeam.Node.Mailboxes.{register_actor}
use lapinbeam.Supervisor.{Supervisor, recent, allow_restart, discard_child, affected_children}
use lapinbeam.Supervisor.Lifecycle.{
  System, Outcome, crashed, cancelled, returned, Ended, routed, exhausted, give_up, give_up_one,
  give_up_all, shutdown_except, crash_step, final_step, end_by, begin_generation, generation_over,
  attempt, resume, shutdown_all,
}
use lapinbeam.Supervisor.Spawning.{spawn, after_register, adopt}
use lapinbeam.Supervisor.Reach.{Step, spawned, begun, ended, resumed, shut_down, sent, signalled}

-- No more restarts are on record than are allowed, and there is an error to give up with exactly
-- where the supervisor has given up.
pub record IsSound (s : Supervisor) : Type 0 where
  pub within : length s.restart_times ≤ s.max_restarts
  pub explained : s.given_up ≡ is_some s.give_up_exc

pub IsSound-allow_restart : (now : ℕ) (s : Supervisor) → IsSound s → IsSound (allow_restart now s).1
unfolding allow_restart recent
IsSound-allow_restart now s sound =
    let few = length-keep-le (λ t. ltb (now - t) s.restart_window) s.restart_times in
    ground (arith, few, length-append (recent s.restart_window now s.restart_times) (now ∷ []))

pub IsSound-discard_child :
    (ident : ℕ) (s : Supervisor) → IsSound s → IsSound (discard_child ident s)
unfolding discard_child
IsSound-discard_child ident s sound = record { within = sound.within; explained = sound.explained }

IsSound-give_up : (e : Error) (s : Supervisor) → IsSound s → IsSound (give_up e s)
unfolding give_up
IsSound-give_up e s sound = record { within = sound.within; explained = refl }

module _ (overlapping : ℕ → Node → Node) where
  pub IsSound-exhausted :
      (ident : ℕ) (name : String) (why : Error) (sys : System)
      → IsSound sys.supervisor
      → IsSound (exhausted overlapping ident name why sys).supervisor
  unfolding exhausted give_up_one give_up_all give_up discard_child shutdown_except
  IsSound-exhausted ident name why sys sound = ground arith

  pub IsSound-crash_step :
      (ident : ℕ) (name : String) (why : Error) (now : ℕ) (last : Ended) (s : Supervisor)
      → IsSound s
      → IsSound (crash_step overlapping ident name why now last s).supervisor
  unfolding crash_step
  IsSound-crash_step ident name why now last s sound =
      let sound' = IsSound-allow_restart now s sound in
      elim (Bool-cases (allow_restart now s).0) [
        | inl granted ↦ rw (granted, crash_step) sound'
        | inr refused ↦ rw (refused, crash_step) (IsSound-exhausted ident name why _ sound')
      ]

  IsSound-end_by :
      (error : Option Error) (ident : ℕ) (name : String) (outcome : Outcome) (now : ℕ)
      (last : Ended) (s : Supervisor)
      → IsSound s
      → IsSound (end_by overlapping error ident name outcome now last s).supervisor
  unfolding end_by final_step
  IsSound-end_by none ident name returned now last s sound = IsSound-discard_child ident s sound
  IsSound-end_by none ident name cancelled now last s sound = sound
  IsSound-end_by none ident name (crashed e) now last s sound = sound
  IsSound-end_by (some why) ident name outcome now last s sound =
      IsSound-crash_step ident name why now last s sound

  IsSound-generation_over :
      (ident : ℕ) (child : ActorChild) (outcome : Outcome) (now : ℕ) (sys : System)
      → IsSound sys.supervisor
      → IsSound (generation_over overlapping ident child outcome now sys).supervisor
  unfolding generation_over
  IsSound-generation_over ident child outcome now sys sound =
      IsSound-end_by (routed outcome child).0 ident child.name outcome now _ sys.supervisor sound

  IsSound-attempt :
      (ident : ℕ) (init : Option Error) (now : ℕ) (sys : System)
      → IsSound sys.supervisor
      → IsSound (attempt overlapping ident init now sys).supervisor
  unfolding attempt
  IsSound-attempt ident init now sys sound =
      elim (Option-cases (Dict.get sys.node.children ident)) [
        | inl e ↦
            let same : sys ≡ attempt overlapping ident init now sys = ground (arith, e) in
            subst (λ s. IsSound s.supervisor) same sound
        | inr (child, e) ↦ elim (method-cases (begin_generation ident child init sys.node)) [
          | inl (why, n, b) ↦
              let same : generation_over overlapping ident child (crashed why) now
                    (record sys { node = n })
                  ≡ attempt overlapping ident init now sys =
                ground (arith, e, b) in
              subst (λ s. IsSound s.supervisor) same
                (IsSound-generation_over ident child (crashed why) now (record sys { node = n })
                  sound)
          | inr (_, n, b) ↦
              let same : record sys { node = n } ≡ attempt overlapping ident init now sys =
                ground (arith, e, b) in
              subst (λ s. IsSound s.supervisor) same sound
        ]
      ]

  IsSound-resume :
      (ident : ℕ) (init : Option Error) (now : ℕ) (sys : System)
      → IsSound sys.supervisor
      → IsSound (resume overlapping ident init now sys).supervisor
  unfolding resume
  IsSound-resume ident init now sys sound =
      by_affected (affected_children ident sys.supervisor) refl
    where
      by_affected :
          (result : Result (List ℕ))
          → affected_children ident sys.supervisor ≡ result
          → IsSound (resume overlapping ident init now sys).supervisor
      by_affected (raise e) h = rw (resume, h) sound
      by_affected (return affected) h = rw (resume, h) (IsSound-attempt ident init now _ sound)

  IsSound-spawn :
      (capacity : ℕ) (name : String) (ident mailbox : ℕ) (sys : System)
      → IsSound sys.supervisor
      → IsSound (spawn capacity name ident mailbox sys).1.supervisor
  unfolding spawn adopt
  IsSound-spawn capacity name ident mailbox sys sound =
      by_result (register_actor name mailbox (new_queue mailbox capacity sys.node))
    where
      by_result :
          (r : Result (Unit {0}) × Node)
          → IsSound (after_register name ident mailbox sys.supervisor r).1.supervisor
      by_result (raise e, n) = sound
      by_result (return _, n) = record { within = sound.within; explained = sound.explained }

  pub Step-IsSound :
      {s t : System} → Step overlapping s t → IsSound s.supervisor → IsSound t.supervisor
  unfolding shutdown_all
  Step-IsSound {s} (spawned capacity name ident mailbox fresh) sound =
      IsSound-spawn capacity name ident mailbox s sound
  Step-IsSound {s} (begun ident child init now found waits) sound =
      IsSound-attempt ident init now s sound
  Step-IsSound {s} (ended ident child outcome now found alive) sound =
      IsSound-generation_over ident child outcome now s sound
  Step-IsSound {s} (resumed ident child init now found asleep) sound =
      IsSound-resume ident init now s sound
  Step-IsSound shut_down sound = sound
  Step-IsSound (sent name msg reply_to correlation_id) sound = sound
  Step-IsSound (signalled from_label target reason) sound = sound
