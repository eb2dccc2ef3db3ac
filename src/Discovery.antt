-- ===== src/Discovery.antt =====
-- lapinbeam/discovery.py: the actor that answers what peers its node knows, and the search of
-- `join_via_seeds`. A peer is connected to and asked at most once, so what the network answers is a
-- function of the peer; the number of rounds is bounded by fuel.
pub mod Visits
pub mod Rounds
pub mod Joined
use lapinbeam.Prelude.{
  ℕ, zero, suc, String, Option, none, some, List, [], ◌∷◌, ◌++◌, Bool, not, keep, if◌then◌else◌,
  string_eq,
}
use lapinbeam.Dict
use lapinbeam.Dict.{Set}
use lapinbeam.Messages.{Error, Message, MessageMeta, who_do_you_know, peers}
use lapinbeam.Node.State.{Node, Result, return, raise}
use lapinbeam.Context.{reply}

-- `_DiscoveryActor.receive`, with Python's `sorted` for texts; it ignores what is not the question.
unfoldable pub answer_known :
    (sorted : List String → List String) → Message → MessageMeta → Node → Result (Unit {0}) × Node
answer_known sorted who_do_you_know meta n = reply meta (peers (sorted (Dict.to_list n.known))) n
answer_known sorted msg meta n = (return tt, n)

-- What `connect_peer` and the question to a peer come to: `ConnectionError` or `TimeoutError`,
-- another exception, or a reply.
pub data Answer : Type 0 where
  unreachable : Answer
  failed : Error → Answer
  replied : (known : List String) → Answer

pub record Search : Type 0 where
  pub visited : Set String
  pub connected : Set String
  pub next_frontier : List String

-- `if candidate not in visited`
unfoldable pub unseen : Set String → List String → List String
unfolding keep
unseen visited = keep (λ peer. not (Dict.contains visited peer))

module _ (answers : String → Answer) where
  -- What is done with a peer that was not visited before.
  unfoldable pub ask_peer : String → Search → Result Search
  unfolding unseen
  ask_peer peer s =
      let visited = Dict.add s.visited peer in
      elim (answers peer) [
        | unreachable ↦ return (record s { visited = visited })
        | failed e ↦ raise e
        | replied known ↦ return (record {
          visited = visited;
          connected = Dict.add s.connected peer;
          next_frontier = s.next_frontier ++ unseen visited known;
        })
      ]

  unfoldable pub visit : String → Search → Result Search
  unfolding ask_peer
  visit peer s = if Dict.contains s.visited peer then return s else ask_peer peer s

  -- `for peer in frontier`
  unfoldable pub scan : List String → Search → Result Search
  unfolding visit
  scan [] s = return s
  scan (peer ∷ frontier) s = elim (visit peer s) [
    | raise e ↦ raise e
    | return s' ↦ scan frontier s'
  ]

  -- `while frontier`; `none` stands for fuel that has run out.
  unfoldable pub rounds : (fuel : ℕ) → List String → Search → Option (Result (Set String))
  unfolding scan
  rounds fuel [] s = some (return s.connected)
  rounds zero (peer ∷ frontier) s = none
  rounds (suc fuel) (peer ∷ frontier) s =
      elim (scan (peer ∷ frontier) (record s { next_frontier = [] })) [
        | raise e ↦ some (raise e)
        | return s' ↦ rounds fuel s'.next_frontier s'
      ]

  unfoldable pub join_via_seeds :
      (fuel : ℕ) → (local : String) → List String → Option (Result (Set String))
  unfolding rounds
  join_via_seeds fuel local seeds =
      let visited = Dict.add Dict.no_elements local in
      rounds fuel (unseen visited seeds)
        (record { visited = visited; connected = Dict.no_elements; next_frontier = [] })
