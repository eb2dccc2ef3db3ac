-- ===== src/Tests/Samples.antt =====
-- A node, `alpha`, that the examples run on: two actors, one of which is supervised, linked to each
-- other, to an actor on the node `beta`, in a group and with a registered name.
use lapinbeam.Prelude.{
  ℕ, String, none, some, List, [], ◌∷◌, true, false, ◌==◌, string_eq, nat_eq, pair_eq, option_eq,
}
use lapinbeam.Dict
use lapinbeam.Dict.{Dict, Set}
use lapinbeam.Messages.{Member, Target, raised, MessageMeta}
use lapinbeam.Node.State.{
  Node, Core, ActorChild, running, live, groups_listener, registry_listener, application,
}
use lapinbeam.Supervisor.{Supervisor, one_for_one, one_for_all, new_supervisor}
use lapinbeam.Supervisor.Lifecycle.{System}

abbrev pub core : Core
core = record {
  resolved_id = "alpha";
  parses = λ peer. true;
  accepts = λ peer. peer == "beta";
  connected_to = λ peer. peer == "beta";
  peer_total = 1;
}

abbrev pub worker : ActorChild
worker = record {
  name = "worker";
  mailbox = 0;
  driver = running false;
  pending_exit = none;
  task = live;
}

abbrev one_of : {V : Type 0} → String → V → Dict String V
one_of k v = Dict.put Dict.empty k v

abbrev pub alpha : Node
alpha = record {
  node_id = "alpha";
  started = true;
  stopped = some false;
  is_current = true;
  core = some core;
  mailboxes = Dict.put (one_of "worker" 0) "boss" 1;
  queues = Dict.put Dict.empty 0 (record { maxsize = 1; waiting = [] });
  peer_waiters = Dict.empty;
  futures = Dict.empty;
  links =
      Dict.put
        (one_of "worker"
          (Dict.add (Dict.add Dict.no_elements (none, "boss")) (some "beta", "remote")))
        "boss" (Dict.add Dict.no_elements (none, "worker"));
  trap_exit = one_of "boss" true;
  live_children = one_of "worker" 7;
  children = Dict.put Dict.empty 7 worker;
  groups =
      one_of "team" (Dict.add (Dict.add Dict.no_elements ("alpha", "worker")) ("beta", "remote"));
  group_leave_hook = true;
  group_peers = some (Dict.add Dict.no_elements "beta");
  monitors = one_of "m" ("boss", none, "worker");
  monitor_watchers = one_of "worker" (one_of "m" (none, "boss"));
  registry = Dict.put (one_of "db" ("alpha", "worker")) "cache" ("beta", "remote");
  registry_release_hook = true;
  registry_peers = some (Dict.add Dict.no_elements "beta");
  known = Dict.no_elements;
  listeners = groups_listener ∷ registry_listener ∷ application 0 ∷ [];
  observed = [];
  tasks = [];
  calls = [];
}

abbrev pub some_meta : MessageMeta
some_meta = record { src = some "beta"; reply_to = none; correlation_id = some 4; msg_id = none }

abbrev pub supervisor : Supervisor
supervisor = record (new_supervisor one_for_one 2 1000) { children = 7 ∷ 8 ∷ [] }

abbrev pub system : System
system = record { node = alpha; supervisor = supervisor }

-- No cancellation of the examples meets a child that has an exit pending.
abbrev pub nothing_overlaps : ℕ → Node → Node
nothing_overlaps ident n = n

abbrev pub killed_worker : ActorChild
killed_worker = record worker { driver = running true; pending_exit = some (raised 3) }

abbrev pub crash_times : List ℕ
crash_times = 10 ∷ 20 ∷ 30 ∷ []

-- A supervisor whose budget is spent.
abbrev pub tired : Supervisor
tired = record (new_supervisor one_for_all 1 1000) {
  restart_times = 90 ∷ [];
  children = 7 ∷ 8 ∷ [];
}

abbrev pub worker_targets : Set Target
worker_targets = Dict.add (Dict.add Dict.no_elements (none, "boss")) (some "beta", "remote")

abbrev pub local_worker : Member
local_worker = ("alpha", "worker")

abbrev pub remote : Member
remote = ("beta", "remote")

abbrev pub unlinked : Node
unlinked = record alpha { links = Dict.empty }

abbrev pub boss : Target
boss = (none, "boss")

abbrev pub db : String
db = "db"

abbrev pub cache : String
cache = "cache"

abbrev pub worker_ident : ℕ
worker_ident = 7
