-- ===== src/Tests/Nesting.antt =====
-- Examples of what is proved of nested supervisors (lapinbeam/supervisor.py).
use lapinbeam.Dict
use lapinbeam.Prelude.{
  ℕ, none, some, ◌≡◌, ◌≢◌, refl, if◌then◌else◌, string_eq, nat_eq, pair_eq, option_eq, arith,
}
use lapinbeam.Messages.{raised, name_taken}
use lapinbeam.Node.State.{return, raise}
use lapinbeam.Supervisor.{one_for_one, new_supervisor, allow_restart}
use lapinbeam.Supervisor.Nested.{
  Nest, new_nested, spawn_supervisor, begin_round, spawn_inner, gave_up, failed, end_round,
  resume_nested,
}
use lapinbeam.Supervisor.Nested.Retried.{fresh_child, retried_build_taken}
use lapinbeam.Supervisor.Nested.Rounds.{gives_up, gave_up-end_round}
use lapinbeam.Tests.Samples.{alpha, core, tired, nothing_overlaps}

abbrev nest : Nest
nest = spawn_supervisor 7 "tree" one_for_one 2 1000 (record { node = alpha; supervisor = tired })

gave_up-end_round_example :
    gave_up (end_round nothing_overlaps 7 (failed (raised 3)) 100 nest).parent.supervisor ≡ (
      if (allow_restart 100 nest.parent.supervisor).0
      then none
      else gives_up 7 (raised 3) nest.parent.supervisor)
unfolding spawn_supervisor new_nested new_supervisor
gave_up-end_round_example = gave_up-end_round nothing_overlaps 7 100 (raised 3) nest refl

abbrev calm_nest : Nest
calm_nest =
    spawn_supervisor 7 "tree" one_for_one 2 1000
      (record { node = alpha; supervisor = new_supervisor one_for_one 2 1000 })

-- The same, in its first round.
abbrev populated : Nest
populated = record calm_nest { child = begin_round calm_nest.child }

apart : ◌≢◌ {A = ℕ} 5 6
apart = λ e. omega arith

retried_build_taken_example :
    ((spawn_inner 10 "fresh" 9 5 populated).0 ≡ return tt)
    × (Dict.get
          (resume_nested nothing_overlaps 7 (
            end_round nothing_overlaps 7
              (failed (raised 3))
              100
              (spawn_inner 10 "fresh" 9 5 populated).1)).parent.node.children
          9
        ≡ some (fresh_child "fresh" 5))
    × ((resume_nested nothing_overlaps 7 (
          end_round nothing_overlaps 7
            (failed (raised 3))
            100
            (spawn_inner 10 "fresh" 9 5 populated).1)).child.inner
        ≡ some (new_supervisor one_for_one 2 1000))
    × ((spawn_inner 10 "fresh" 11 6 (
          resume_nested nothing_overlaps 7 (
            end_round nothing_overlaps 7
              (failed (raised 3))
              100
              (spawn_inner 10 "fresh" 9 5 populated).1))).0
        ≡ raise (name_taken "fresh"))
unfolding spawn_supervisor new_nested begin_round allow_restart new_supervisor Dict.get Dict.put
    Dict.empty
retried_build_taken_example =
    retried_build_taken nothing_overlaps 7 100 10 "fresh" 9 5 11 6 (raised 3) core
      (new_supervisor one_for_one 2 1000) populated refl refl refl refl refl apart
