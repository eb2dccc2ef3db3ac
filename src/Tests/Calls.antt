-- ===== src/Tests/Calls.antt =====
-- Examples of what is proved of lapinbeam/refs.py and of lapinbeam/discovery.py.
use lapinbeam.Prelude.{
  ℕ, String, none, some, List, [], ◌∷◌, ◌++◌, true, false, ◌≡◌, ◌≢◌, ◌↔◌, refl, elem, length, ◌<◌,
  string_eq, nat_eq, pair_eq, option_eq, arith,
}
use lapinbeam.Dict
use lapinbeam.Dict.{get-put, get-empty}
use lapinbeam.Messages.{Error, no_local_actor, Message, user, stream, MessageMeta}
use lapinbeam.Node.State.{Node, Result, return, local_id, call_core}
use lapinbeam.Node.Refs.{Ref, actor_ref}
use lapinbeam.Node.Mailboxes.{queue_at, register_actor, send_local}
use lapinbeam.Node.Mailboxes.Delivery.{mailbox_of, waiting_in}
use lapinbeam.Context.{send, reply, reply_final}
use lapinbeam.Asks.{begin_ask, end_ask, stream_loop}
use lapinbeam.Asks.Cleaning.{begin_ask-raised}
use lapinbeam.Asks.Reply.{ask_answered}
use lapinbeam.Asks.Streams.{reading, messages, Closed, stream_loop_reads}
use lapinbeam.Asks.Delivering.{Open, stream_meta, stream_all, stream_delivers}
use lapinbeam.Dict.{Set}
use lapinbeam.Discovery.{Answer, replied, join_via_seeds}
use lapinbeam.Discovery.Rounds.{IsClosed, join_via_seeds_ends}
use lapinbeam.Discovery.Joined.{Joined, join_via_seeds_joins}
use lapinbeam.Tests.Samples.{alpha, core, some_meta}

zero_two : ◌≢◌ {A = ℕ} 0 2
zero_two h = omega arith

abbrev nobody : Ref
nobody = actor_ref "nobody"

abbrev no_such_actor : Error
no_such_actor = no_local_actor "nobody"

abbrev waiting : List (Message × MessageMeta)
waiting = (stream false (user 1), some_meta) ∷ (stream true (user 2), some_meta) ∷ []

-- The node with the hidden mailbox of a call, empty, and with two replies in it.
abbrev listening : Node
listening = record alpha {
  mailboxes = Dict.put alpha.mailboxes "ask_1" 2;
  queues = Dict.put alpha.queues 2 (record { maxsize = 0; waiting = [] });
}

abbrev streaming : Node
streaming = record listening {
  queues = Dict.put alpha.queues 2 (record { maxsize = 0; waiting = waiting });
}

two_wait : length (waiting_in streaming 2) < 5
unfolding queue_at Dict.get Dict.put Dict.empty
two_wait = omega arith

listening-Open : Open "ask_1" 2 "alpha" listening
unfolding queue_at local_id Dict.get Dict.put Dict.empty
listening-Open = record { registered = refl; unbounded = refl; here = refl }

abbrev two_values : List Message
two_values = user 1 ∷ user 2 ∷ []

-- A cluster in which every node knows the same two.
abbrev two_ids : List String
two_ids = "b" ∷ "c" ∷ []

abbrev seeds_of : List String
seeds_of = "b" ∷ []

abbrev two_known : String → Answer
two_known peer = replied two_ids

abbrev found_peers : Set String
found_peers = Dict.add (Dict.add Dict.no_elements "b") "c"

two_closed : IsClosed two_known two_ids
two_closed peer p known a h = ground arith

seeds_inside : (p : String) → elem p seeds_of ≡ true → elem p two_ids ≡ true
unfolding elem
seeds_inside p h = ground arith

ask_answered_example :
    (asked replied : Node) × (meta : MessageMeta) × (begin_ask 1
        (actor_ref "worker")
        (user 5)
        "ask_1"
        1
        2
        alpha
      ≡ (return tt, asked))
    × (waiting_in asked 0 ≡ waiting_in alpha 0 ++ ((user 5), meta) ∷ [])
    × (reply meta (user 6) asked ≡ (return tt, replied))
    × ((end_ask "ask_1" 2 replied).0 ≡ return (user 6))
unfolding Dict.get Dict.put Dict.empty queue_at
ask_answered_example =
    ask_answered "worker" (user 5) (user 6) "ask_1" 1 2 0 alpha core refl refl refl zero_two refl

stream_delivers_example :
    let meta = stream_meta "alpha" "ask_1" 1 in
    (n' : Node) × (stream_loop 5 "ask_1" 2 []
        (reply_final meta (user 3) (stream_all meta two_values listening)).1
      ≡ some (record { yielded = two_values ++ (user 3) ∷ []; ended = return tt }, n'))
    × (mailbox_of n' "ask_1" ≡ none)
unfolding queue_at Dict.get Dict.put Dict.empty
stream_delivers_example =
    stream_delivers 5 "ask_1" 2 "alpha" 1 two_values (user 3) listening listening-Open refl
      (omega arith)

join_via_seeds_joins_example :
    (Dict.contains found_peers "c" ≡ true) ↔ Joined two_known "a" seeds_of "c"
unfolding join_via_seeds Dict.add Dict.put Dict.no_elements Dict.empty Dict.contains
join_via_seeds_joins_example = join_via_seeds_joins two_known seeds_of "a" 4 found_peers refl "c"

join_via_seeds_ends_example :
    (r : Result (Set String)) × (join_via_seeds two_known 3 "a" seeds_of ≡ some r)
join_via_seeds_ends_example =
    join_via_seeds_ends two_known two_ids seeds_of "a" 3 two_closed seeds_inside (omega arith)

stream_loop_reads_example :
    (n' : Node) × (stream_loop 5 "ask_1" 2 [] streaming
      ≡ some (reading (messages (waiting_in streaming 2)), n'))
    × Closed "ask_1" streaming n'
stream_loop_reads_example = stream_loop_reads 5 "ask_1" 2 streaming two_wait

begin_ask-raised_example :
    mailbox_of (begin_ask 1 nobody (user 5) "ask_1" 1 2 alpha).1 "worker"
    ≡ mailbox_of alpha "worker"
unfolding Dict.get Dict.put Dict.empty begin_ask register_actor send send_local call_core
begin_ask-raised_example =
    begin_ask-raised 1 nobody (user 5) "ask_1" "worker" 1 2 no_such_actor alpha refl refl
