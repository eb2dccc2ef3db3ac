-- ===== src/Tests/Cluster.antt =====
-- Examples of what is proved of lapinbeam/groups.py and lapinbeam/registry.py.
use lapinbeam.Prelude.{
  false, ◌==◌, ==_iff, ◌≡◌, ◌≢◌, refl, ◌||◌, inl, inr, string_eq, nat_eq, pair_eq, option_eq, arith,
}
use lapinbeam.Dict
use lapinbeam.Dict.{get-put, get-empty, contains-no_elements}
use lapinbeam.Messages.{Member, claim, join, leave, registry_conflict, RegistryOp, GroupOp}
use lapinbeam.Node.Events.Quiet.{observe, heard}
use lapinbeam.Node.Tasks.{group_lists}
use lapinbeam.Groups
use lapinbeam.Groups.Membership.{is_member}
use lapinbeam.Groups.Convergence.{SameMembers, receive_comm, receive_snapshot-union}
use lapinbeam.Registry.Actor
use lapinbeam.Registry.Ownership.{owner_of}
use lapinbeam.Registry.Actor.Merge.{or_else, receive_conflict, owner_of-receive_snapshot}
use lapinbeam.Tests.Samples.{alpha, local_worker, remote}

apart : (p q : Member) → (p == q) ≡ false → p ≢ q
apart p q h e = ground (arith, ==_iff p q)

worker-remote : local_worker ≢ remote
worker-remote = apart local_worker remote refl

receive_conflict_example :
    Actor.receive (RegistryOp.delta "db" remote claim) alpha
    ≡ observe (heard (registry_conflict "db" local_worker remote) alpha.listeners) alpha
unfolding Dict.get Dict.put Dict.empty
receive_conflict_example = receive_conflict "db" remote local_worker alpha refl worker-remote

receive_comm_example :
    SameMembers
      (Groups.receive
        (GroupOp.delta "team" local_worker leave)
        (Groups.receive (GroupOp.delta "team" remote join) alpha))
      (Groups.receive
        (GroupOp.delta "team" remote join)
        (Groups.receive (GroupOp.delta "team" local_worker leave) alpha))
receive_comm_example =
    receive_comm "team" "team" local_worker remote leave join alpha (inr (inl worker-remote))

receive_snapshot-union_example :
    is_member
      (Groups.receive (GroupOp.snapshot (group_lists (Dict.items alpha.groups))) alpha)
      "team"
      local_worker
    ≡ (is_member alpha "team" local_worker || is_member alpha "team" local_worker)
receive_snapshot-union_example = receive_snapshot-union alpha alpha "team" local_worker

owner_of-receive_snapshot_example :
    owner_of (Actor.receive (RegistryOp.snapshot (Dict.items alpha.registry)) alpha) "db"
    ≡ or_else (owner_of alpha "db") (owner_of alpha "db")
owner_of-receive_snapshot_example = owner_of-receive_snapshot alpha alpha "db"
