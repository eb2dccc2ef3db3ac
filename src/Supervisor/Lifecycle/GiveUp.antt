-- ===== src/Supervisor/Lifecycle/GiveUp.antt =====
-- A crash that the budget does not let restart (lapinbeam/supervisor.py, the first half of
-- `_handle_child_crash`).
use lapinbeam.Prelude.{
  ℕ, String, List, [], ◌∷◌, Bool, true, false, ◌||◌, ◌==◌, ==_iff, ◌≡◌, ◌≢◌, refl, sym, ◌∙◌, ap,
  if◌then◌else◌, elem, elem-keep, not, ◌&&◌, string_eq, nat_eq, pair_eq, option_eq, arith,
  Option-cases, Bool-cases, inl, inr,
}
use lapinbeam.Dict
use lapinbeam.Dict.{get-put}
use lapinbeam.Messages.{Error, crash, supervisor_gave_up}
use lapinbeam.Node.State.{Node, TaskState, over}
use lapinbeam.Node.Events.{on_core_event}
use lapinbeam.Node.Events.Quiet.{on_core_event_quiet}
use lapinbeam.Supervisor.{
  Supervisor, Strategy, one_for_one, one_for_all, rest_for_one, allow_restart, discard_child,
}
use lapinbeam.Supervisor.Lifecycle.{
  System, Ended, tell_ended, set_child, set_task, crash_step, exhausted, give_up, give_up_one,
  give_up_all, shutdown_except, cancel_children, others,
}
use lapinbeam.Supervisor.Lifecycle.Shutdown.{
  IsCalm, stop_some, get-cancel_children, children-tell_ended,
}

abbrev pub is_group : Strategy → Bool
is_group one_for_one = false
is_group one_for_all = true
is_group rest_for_one = true

abbrev pub is_empty : List ℕ → Bool
is_empty [] = true
is_empty (c ∷ cs) = false

given_up-give_up_one :
    (overlapping : ℕ → Node → Node) (ident : ℕ) (e : Error) (sys : System)
    → sys.supervisor.given_up ≡ false
    → (give_up_one overlapping ident e sys).supervisor.given_up
      ≡ is_empty (discard_child ident sys.supervisor).children
unfolding give_up_one give_up discard_child
given_up-give_up_one overlapping ident e sys h = ground arith

module _ (overlapping : ℕ → Node → Node) (ident now : ℕ) (name : String) (why : Error)
    (ended : Ended) (s : Supervisor) (refused : (allow_restart now s).0 ≡ false) where
  spent : System
  spent =
      exhausted overlapping ident name why
        (record { node = ended.node; supervisor = (allow_restart now s).1 })

  supervisor-crash_step :
      (crash_step overlapping ident name why now ended s).supervisor ≡ spent.supervisor
  unfolding crash_step spent
  supervisor-crash_step = rw (refused, crash_step) refl

  -- A supervisor that has not given up and whose budget is spent gives up at a crash exactly if it
  -- restarts its children as a group or has no other child left.
  pub given_up-crash_step :
      s.given_up ≡ false
      → (crash_step overlapping ident name why now ended s).supervisor.given_up
        ≡ (is_group s.strategy || is_empty (discard_child ident s).children)
  unfolding spent exhausted give_up_all give_up_one give_up allow_restart discard_child
      shutdown_except
  given_up-crash_step h = ap (λ k. k.given_up) supervisor-crash_step ∙ ground arith

  node-crash_step :
      (crash_step overlapping ident name why now ended s).node
      ≡ set_task overlapping ident over
          (tell_ended name (record ended { node = spent.node }) (crash why))
  unfolding crash_step spent
  node-crash_step = rw (refused, crash_step) refl

  told : Node
  told = on_core_event (supervisor_gave_up name why) ended.node

  children-told : told.children ≡ ended.node.children
  unfolding told
  children-told =
      ap (λ k. k.children) (on_core_event_quiet (supervisor_gave_up name why) ended.node refl)

  node-spent : spent.node ≡ (
      if is_group s.strategy
      then cancel_children overlapping (others ident s.children) told
      else told)
  unfolding spent told exhausted give_up_all give_up_one give_up allow_restart discard_child
      shutdown_except
  node-spent = ground arith

get-set_task-other :
    (overlapping : ℕ → Node → Node) (ident other : ℕ) (state : TaskState) (n : Node)
    → other ≢ ident
    → Dict.get (set_task overlapping ident state n).children other ≡ Dict.get n.children other
unfolding set_task set_child
get-set_task-other overlapping ident other state n ne =
    elim (Option-cases (Dict.get n.children ident)) [
      | inl e ↦ ground arith
      | inr (child, e) ↦ ground (
        arith,
        get-put n.children ident other (record child { task = state }),
        ==_iff ident other,
      )
    ]

elem-others : (ident c : ℕ) (cs : List ℕ) → c ≢ ident → elem c (others ident cs) ≡ elem c cs
unfolding others
elem-others ident c cs ne = ground (arith, elem-keep (λ k. not (k == ident)) c cs, ==_iff c ident)

-- Where the budget refuses a restart and no exit is pending: a supervisor that restarts its
-- children as a group stops each of its other children; under `one_for_one` every other child is
-- left as it was.
pub get-crash_step_refused :
    (overlapping : ℕ → Node → Node) (ident now other : ℕ) (name : String) (why : Error)
    (ended : Ended) (s : Supervisor)
    → (allow_restart now s).0 ≡ false
    → other ≢ ident
    → IsCalm ended.node
    → Dict.get (crash_step overlapping ident name why now ended s).node.children other
      ≡ stop_some
          (is_group s.strategy && elem other s.children)
          (Dict.get ended.node.children other)
unfolding told
get-crash_step_refused overlapping ident now other name why ended s refused ne calm =
    let node = told overlapping ident now name why ended s refused in
    let same =
      ap (λ d. Dict.get d other) (children-told overlapping ident now name why ended s refused) in
    let spent_node = (spent overlapping ident now name why ended s refused).node in
    ap (λ k. Dict.get k.children other)
      (node-crash_step overlapping ident now name why ended s refused)
    ∙ get-set_task-other overlapping ident other over
        (tell_ended name (record ended { node = spent_node }) (crash why)) ne
    ∙ ap (λ d. Dict.get d other)
        (children-tell_ended name (record ended { node = spent_node }) (crash why))
    ∙ ap (λ k. Dict.get k.children other)
        (node-spent overlapping ident now name why ended s refused)
    ∙ elim (Bool-cases (is_group s.strategy)) [
      | inl g ↦ ground (
        arith,
        same,
        elem-others ident other s.children ne,
        get-cancel_children overlapping (others ident s.children) other node (λ i child e.
            calm i child (
              sym (
                ap (λ d. Dict.get d i)
                  (children-told overlapping ident now name why ended s refused))
              ∙ e)),
      )
      | inr g ↦ ground (arith, same)
    ]
