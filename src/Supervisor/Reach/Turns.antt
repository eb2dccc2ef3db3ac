-- ===== src/Supervisor/Reach/Turns.antt =====
-- The states that a supervisor comes to with all that changes it (lapinbeam/supervisor.py): besides the
-- pieces of its actors' lives, crash handlers that run while another task waits, the stops of pools
-- and the lives of nested supervisors.
use lapinbeam.Prelude.{
  ℕ, String, Option, none, some, List, [], ◌∷◌, ◌≡◌, refl, string_eq, nat_eq, arith, Bool-cases,
  inl, inr,
}
use lapinbeam.Messages.{Error}
use lapinbeam.Node.State.{Node, Core, Result, return, raise}
use lapinbeam.Supervisor.{Supervisor, Strategy, new_supervisor, allow_restart, affected_children}
use lapinbeam.Supervisor.Lifecycle.{System, Ended, crash_step}
use lapinbeam.Supervisor.Spawning.{PoolRef, stop_pool, discard_children}
use lapinbeam.Supervisor.Nested.{
  NestedChild, Round, stopped, failed, spawn_supervisor, shutdown_inner, nested_crash, end_round,
  resume_nested,
}
use lapinbeam.Supervisor.Reach.{Step, initial}
use lapinbeam.Supervisor.Reach.Ledger.{
  IsSound, IsSound-allow_restart, IsSound-discard_child, IsSound-exhausted, IsSound-crash_step,
  Step-IsSound,
}

-- A piece of an actor's life; `_handle_child_crash` of a child, on whatever node it finds, as it runs
-- where a task that is cancelled has an exit pending; `PoolRef.stop`; `spawn_supervisor`; the end of
-- a round of a nested supervisor; and the end of its backoff.
pub data Turn (overlapping : ℕ → Node → Node) (sys : System) : System → Type 0 where
  stepped : {t : System} → Step overlapping sys t → Turn overlapping sys t
  handled :
      (ident now : ℕ) (name : String) (why : Error) (last : Ended)
      → Turn overlapping sys (crash_step overlapping ident name why now last sys.supervisor)
  pool_stopped : (pool : PoolRef) → Turn overlapping sys (stop_pool overlapping pool sys)
  nested_spawned :
      (ident : ℕ) (name : String) (strategy : Strategy) (max_restarts restart_window : ℕ)
      → Turn overlapping sys
          (spawn_supervisor ident name strategy max_restarts restart_window sys).parent
  nested_ended :
      (ident now : ℕ) (round : Round) (child : NestedChild)
      → Turn overlapping sys
          (end_round overlapping ident round now (record { parent = sys; child = child })).parent
  nested_resumed :
      (ident : ℕ) (child : NestedChild)
      → Turn overlapping sys
          (resume_nested overlapping ident (record { parent = sys; child = child })).parent

pub data Turns (overlapping : ℕ → Node → Node) (first : System) : System → Type 0 where
  at_first : Turns overlapping first first
  after :
      {s t : System} → Turns overlapping first s → Turn overlapping s t → Turns overlapping first t

discard_children-IsSound :
    (idents : List ℕ) (s : Supervisor) → IsSound s → IsSound (discard_children idents s)
unfolding discard_children
discard_children-IsSound [] s sound = sound
discard_children-IsSound (ident ∷ idents) s sound =
    discard_children-IsSound idents _ (IsSound-discard_child ident s sound)

module _ (overlapping : ℕ → Node → Node) where
  end_round-IsSound :
      (ident now : ℕ) (round : Round) (child : NestedChild) (sys : System)
      → IsSound sys.supervisor
      → IsSound
          (end_round overlapping ident round now
            (record { parent = sys; child = child })).parent.supervisor
  unfolding end_round nested_crash shutdown_inner
  end_round-IsSound ident now stopped child sys sound = by_inner child.inner refl
    where
      by_inner :
          (inner : Option Supervisor)
          → child.inner ≡ inner
          → IsSound
              (end_round overlapping ident stopped now
                (record { parent = sys; child = child })).parent.supervisor
      by_inner none e = rw (shutdown_inner, e) sound
      by_inner (some inner) e = rw (shutdown_inner, e) sound
  end_round-IsSound ident now (failed why) child sys sound =
      let sound' = IsSound-allow_restart now sys.supervisor sound in
      elim (Bool-cases (allow_restart now sys.supervisor).0) [
        | inl granted ↦ rw (granted, nested_crash) sound'
        | inr refused ↦
            rw (refused, nested_crash) (IsSound-exhausted overlapping ident child.name why _ sound')
      ]

  resume_nested-IsSound :
      (ident : ℕ) (child : NestedChild) (sys : System)
      → IsSound sys.supervisor
      → IsSound
          (resume_nested overlapping ident
            (record { parent = sys; child = child })).parent.supervisor
  unfolding resume_nested
  resume_nested-IsSound ident child sys sound =
      by_affected (affected_children ident sys.supervisor) refl
    where
      by_affected :
          (result : Result (List ℕ))
          → affected_children ident sys.supervisor ≡ result
          → IsSound
              (resume_nested overlapping ident
                (record { parent = sys; child = child })).parent.supervisor
      by_affected (raise e) h = rw (resume_nested, h) sound
      by_affected (return affected) h = rw (resume_nested, h) sound

  Turn-IsSound : {s t : System} → Turn overlapping s t → IsSound s.supervisor → IsSound t.supervisor
  unfolding stop_pool spawn_supervisor
  Turn-IsSound (stepped st) sound = Step-IsSound overlapping st sound
  Turn-IsSound {s} (handled ident now name why last) sound =
      IsSound-crash_step overlapping ident name why now last s.supervisor sound
  Turn-IsSound {s} (pool_stopped pool) sound =
      discard_children-IsSound (pool.dispatcher ∷ pool.workers) s.supervisor sound
  Turn-IsSound (nested_spawned ident name strategy max_restarts restart_window) sound = record {
    within = sound.within;
    explained = sound.explained;
  }
  Turn-IsSound {s} (nested_ended ident now round child) sound =
      end_round-IsSound ident now round child s sound
  Turn-IsSound {s} (nested_resumed ident child) sound = resume_nested-IsSound ident child s sound

  -- In every state that a new supervisor on a node that has just started comes to, by the steps of
  -- its actors, crash handlers of its children at any time and on any node, stops of pools, and
  -- spawns, failed or stopped rounds and restarts of nested supervisors, in any order: it has no
  -- more restarts on record than its maximum, and has an error to give up with exactly where it
  -- has given up.
  pub reached-IsSound :
      (node_id : String) (core : Core) (strategy : Strategy) (max_restarts restart_window : ℕ)
      (sys : System)
      → Turns overlapping (initial node_id core strategy max_restarts restart_window) sys
      → IsSound sys.supervisor
  unfolding initial new_supervisor
  reached-IsSound node_id core strategy max_restarts restart_window _ at_first = record {
    within = omega arith;
    explained = refl;
  }
  reached-IsSound node_id core strategy max_restarts restart_window _ (after r st) =
      Turn-IsSound st (reached-IsSound node_id core strategy max_restarts restart_window _ r)
