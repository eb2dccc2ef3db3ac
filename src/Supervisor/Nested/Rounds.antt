-- ===== src/Supervisor/Nested/Rounds.antt =====
-- How an error goes up a tree of supervisors (lapinbeam/supervisor.py).
use lapinbeam.Prelude.{
  ℕ, String, Option, none, some, List, [], ◌∷◌, Bool, true, false, ◌&&◌, ◌==◌, ◌||◌, ◌≡◌, refl, ◌∙◌,
  if◌then◌else◌, nat_eq, string_eq, arith, Bool-cases, inl, inr,
}
use lapinbeam.Messages.{Error}
use lapinbeam.Node.State.{Node}
use lapinbeam.Supervisor.{Supervisor, allow_restart, discard_child, remove_first}
use lapinbeam.Supervisor.Lifecycle.{
  System, Ended, crash_step, exhausted, give_up, give_up_one, give_up_all, shutdown_except,
}
use lapinbeam.Supervisor.Lifecycle.GiveUp.{is_group, is_empty}
use lapinbeam.Supervisor.Nested.{Nest, gave_up, failed, nested_crash, end_round}

-- A list holds nothing besides one child.
abbrev pub alone : ℕ → List ℕ → Bool
alone ident [] = true
alone ident (c ∷ cs) = c == ident && is_empty cs

-- What a supervisor gives up with where its budget refuses a crash.
abbrev pub gives_up : ℕ → Error → Supervisor → Option Error
gives_up ident e s = if is_group s.strategy || alone ident s.children then some e else none

-- A decision of the budget changes neither the strategy nor the children, and gives nothing up.
given_up-allow_restart : (now : ℕ) (s : Supervisor) → (allow_restart now s).1.given_up ≡ s.given_up
unfolding allow_restart
given_up-allow_restart now s = ground arith

is_empty-discard_child :
    (ident : ℕ) (s : Supervisor)
    → is_empty (discard_child ident s).children ≡ alone ident s.children
unfolding discard_child remove_first
is_empty-discard_child ident s = by_list s.children
  where
    by_list : (cs : List ℕ) → is_empty (remove_first ident cs) ≡ alone ident cs
    by_list [] = refl
    by_list (c ∷ cs) = ground arith

gives_up-allow_restart :
    (now ident : ℕ) (e : Error) (s : Supervisor)
    → gives_up ident e (allow_restart now s).1 ≡ gives_up ident e s
unfolding allow_restart discard_child
gives_up-allow_restart now ident e s = ground arith

gave_up-none : (s : Supervisor) → s.given_up ≡ false → gave_up s ≡ none
unfolding gave_up
gave_up-none s h = rw h refl

module _ (overlapping : ℕ → Node → Node) where
  gave_up-exhausted :
      (ident : ℕ) (name : String) (e : Error) (sys : System)
      → sys.supervisor.given_up ≡ false
      → gave_up (exhausted overlapping ident name e sys).supervisor
        ≡ gives_up ident e sys.supervisor
  unfolding exhausted give_up_one give_up_all give_up shutdown_except discard_child gave_up
  gave_up-exhausted ident name e sys h = ground (arith, is_empty-discard_child ident sys.supervisor)

  -- A supervisor that has not given up gives up at a crash exactly if its budget refuses a restart
  -- and it restarts its children as a group or has no other child left; what it gives up with is
  -- the error of the crash.
  pub gave_up-crash_step :
      (ident now : ℕ) (name : String) (e : Error) (ended : Ended) (s : Supervisor)
      → s.given_up ≡ false
      → gave_up (crash_step overlapping ident name e now ended s).supervisor
        ≡ (if (allow_restart now s).0 then none else gives_up ident e s)
  unfolding crash_step
  gave_up-crash_step ident now name e ended s h =
      let s' = (allow_restart now s).1 in
      let same = given_up-allow_restart now s ∙ h in
      elim (Bool-cases (allow_restart now s).0) [
        | inl allowed ↦ rw (allowed, crash_step) (gave_up-none s' same)
        | inr refused ↦
            rw (refused, crash_step)
              (gave_up-exhausted ident name e (record { node = ended.node; supervisor = s' }) same
                ∙ gives_up-allow_restart now ident e s)
      ]

  -- Where a nested supervisor's round fails with an error, its parent, if it has not given up,
  -- gives up exactly if its own budget refuses a restart and it restarts its children as a group
  -- or lists no child besides the nested supervisor; what it gives up with is that same error.
  pub gave_up-end_round :
      (ident now : ℕ) (e : Error) (nest : Nest)
      → nest.parent.supervisor.given_up ≡ false
      → gave_up (end_round overlapping ident (failed e) now nest).parent.supervisor ≡ (
          if (allow_restart now nest.parent.supervisor).0
          then none
          else gives_up ident e nest.parent.supervisor)
  unfolding end_round nested_crash
  gave_up-end_round ident now e nest h =
      let s = nest.parent.supervisor in
      let s' = (allow_restart now s).1 in
      let same = given_up-allow_restart now s ∙ h in
      elim (Bool-cases (allow_restart now s).0) [
        | inl allowed ↦ rw (allowed, end_round) (gave_up-none s' same)
        | inr refused ↦
            rw (refused, end_round)
              (gave_up-exhausted ident nest.child.name e (record nest.parent { supervisor = s' })
                  same
                ∙ gives_up-allow_restart now ident e s)
      ]
