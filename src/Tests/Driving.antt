-- ===== src/Tests/Driving.antt =====
-- Examples of what is proved of `_drive` and of a name that was taken (lapinbeam/supervisor.py).
use lapinbeam.Prelude.{
  ℕ, String, none, some, List, [], ◌∷◌, true, false, ◌==◌, ◌≡◌, ◌≢◌, refl, string_eq, nat_eq,
  pair_eq, option_eq, arith,
}
use lapinbeam.Dict
use lapinbeam.Messages.{Message, MessageMeta, user, raised}
use lapinbeam.Node.State.{ActorChild, done, backing_off, Result, return, raise}
use lapinbeam.Node.Mailboxes.Delivery.{mailbox_of}
use lapinbeam.Actors.{Handler}
use lapinbeam.Supervisor.{allow_restart, recent, new_supervisor}
use lapinbeam.Supervisor.Lifecycle.{System, attempt}
use lapinbeam.Supervisor.Lifecycle.Taken.{attempt_taken}
use lapinbeam.Supervisor.Driving.{Context}
use lapinbeam.Tests.Samples.{alpha, core, system, worker, some_meta, nothing_overlaps}

-- Another actor has registered the name of a child that sleeps out its backoff.
abbrev sleeper : ActorChild
sleeper = record worker { driver = done; task = backing_off }

abbrev taken_system : System
taken_system = record system {
  node = record alpha {
    mailboxes = Dict.put alpha.mailboxes "worker" 5;
    children = Dict.put Dict.empty 7 sleeper;
  };
}

five_zero : ◌≢◌ {A = ℕ} 5 0
five_zero h = omega arith

attempt_taken_example :
    (mailbox_of (attempt nothing_overlaps 7 none 100 taken_system).node "worker" ≡ none)
    × (Dict.get (attempt nothing_overlaps 7 none 100 taken_system).node.children 7
        ≡ some (record sleeper { driver = done; task = backing_off }))
unfolding Dict.get Dict.put Dict.empty allow_restart recent new_supervisor
attempt_taken_example =
    attempt_taken nothing_overlaps 7 100 5 sleeper core taken_system refl refl refl five_zero refl

-- An actor that raises at the message 2.
abbrev outcome : Message → Result (Unit {0})
outcome (user n) = elim (n == 2) [ true ↦ raise (raised 9) | false ↦ return tt ]
outcome msg = return tt

abbrev picky : Handler → Message → Context → Result (Unit {0}) × Context
picky handler msg c = (outcome msg, c)

abbrev any_type : Message → String
any_type msg = "int"

abbrev item : ℕ → Message × MessageMeta
item n = (user n, some_meta)

abbrev three_wait : Context
three_wait = record {
  node = record alpha {
    queues =
        Dict.put Dict.empty 0 (record { maxsize = 0; waiting = item 1 ∷ item 2 ∷ item 3 ∷ [] });
  };
  vars = record { current = none; current_actor = none };
}
