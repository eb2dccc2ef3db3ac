-- ===== src/Pool.antt =====
-- `Supervisor.spawn_pool` of lapinbeam/supervisor.py: the dispatcher and the workers of a pool, cut
-- where they wait. The queues of a pool belong to it alone, so they stand beside the node: one for
-- each worker in a sharded pool, and else one for all, with the number 0.
pub mod Order
pub mod Failures
use lapinbeam.Prelude.{
  ℕ, zero, suc, String, Option, none, some, List, [], ◌∷◌, Bool, true, false, ◌==◌, if◌then◌else◌,
  ◌-◌, ◌%◌, nat_eq, string_eq,
}
use lapinbeam.Dict
use lapinbeam.Dict.{Dict}
use lapinbeam.Messages.{
  Error, division_by_zero, Message, MessageMeta, pool_worker_error, pool_queue_full,
}
use lapinbeam.Node.State.{Node, Queue, Result, return, raise, put_nowait}
use lapinbeam.Node.Events.{on_core_event}
use lapinbeam.Context.{reply}

-- Integers, as `hash` gives them, and Python's `%` by a positive number.
pub data ℤ : Type 0 where
  pos negsuc : ℕ → ℤ

unfoldable pub floor_mod : ℤ → ℕ → ℕ
floor_mod (pos n) w = n % w
floor_mod (negsuc n) w = (w - 1) - n % w

abbrev pub Item : Type 0
Item = Message × MessageMeta

-- What a pool is spawned with. `hash_of` is `hash(key(msg))`, where a key is given.
pub record Config : Type 0 where
  pub name : String
  pub n_workers : ℕ
  pub capacity : ℕ
  pub hash_of : Option (Message → Result ℤ)
  pub has_executor : Bool

-- The node, the queues, and what each busy worker works on.
pub record Pool : Type 0 where
  pub node : Node
  pub queues : Dict ℕ Queue
  pub busy : Dict ℕ Item

-- The queues and the workers of a pool that has just been spawned.
abbrev pub new_pool : Node → Pool
new_pool n = record { node = n; queues = Dict.empty; busy = Dict.empty }

-- What can happen next in a pool.
pub data Move : Type 0 where
  dispatches : Item → Move
  takes : (worker : ℕ) → Move
  finishes : (worker : ℕ) → (outcome : Result Message) → Move

module _ (config : Config) where
  -- A queue, which is empty before its first use.
  unfoldable pub queue_of : Pool → ℕ → Queue
  queue_of pool place = elim (Dict.get pool.queues place) [
    | none ↦ record { maxsize = config.capacity; waiting = [] }
    | some q ↦ q
  ]

  -- `queues[hash(key(msg)) % n_workers]`, or the queue that all share
  unfoldable pub target_of : Message → Result ℕ
  unfolding floor_mod
  target_of msg = elim config.hash_of [
    | none ↦ return 0
    | some hash_of ↦ elim (hash_of msg) [
      | raise e ↦ raise e
      | return h ↦ elim config.n_workers [
        | zero ↦ raise division_by_zero
        | suc w ↦ return (floor_mod h (suc w))
      ]
    ]
  ]

  -- `target.put_nowait((msg, meta))`, with the event of a full queue
  unfoldable pub put_at : ℕ → Item → Pool → Pool
  unfolding queue_of put_nowait
  put_at place item pool = elim (put_nowait (queue_of pool place) item) [
    | none ↦ record pool { node = on_core_event (pool_queue_full config.name) pool.node }
    | some q ↦ record pool { queues = Dict.put pool.queues place q }
  ]

  unfoldable pub report : Error → Pool → Pool
  report e pool = record pool { node = on_core_event (pool_worker_error config.name e) pool.node }

  -- `_Dispatcher.receive`
  unfoldable pub dispatch : Item → Pool → Pool
  unfolding target_of put_at report
  dispatch item pool = elim (target_of item.0) [
    | raise e ↦ report e pool
    | return place ↦ put_at place item pool
  ]

  -- The queue that a worker takes from.
  unfoldable pub place_of : (worker : ℕ) → ℕ
  place_of worker = elim config.hash_of [ none ↦ 0 | some hash_of ↦ worker ]

  unfoldable pub take_from : (worker place : ℕ) → List Item → Pool → Pool
  unfolding queue_of
  take_from worker place [] pool = pool
  take_from worker place (item ∷ rest) pool = record pool {
    queues =
        Dict.put pool.queues place
          (record { maxsize = (queue_of pool place).maxsize; waiting = rest });
    busy = Dict.put pool.busy worker item;
  }

  -- `await worker_queue.get()` of a worker that is free; a worker that is not does not get here.
  unfoldable pub take : (worker : ℕ) → Pool → Pool
  unfolding take_from place_of
  take worker pool = elim (Dict.get pool.busy worker) [
    | some item ↦ pool
    | none ↦
        let place = place_of worker in take_from worker place (queue_of pool place).waiting pool
  ]

  -- A reply of a worker with an executor; what it raises is reported.
  unfoldable pub answer : MessageMeta → Message → Pool → Pool
  unfolding report
  answer meta result pool =
      let (sent, n) = reply meta result pool.node in
      let replied = record pool { node = n } in
      elim sent [ return _ ↦ replied | raise e ↦ report e replied ]

  -- What follows the handler: with an executor its result is the reply, if one is wanted.
  unfoldable pub settle_item : Item → (outcome : Result Message) → Pool → Pool
  unfolding answer report
  settle_item (msg, meta) (raise e) pool = report e pool
  settle_item (msg, meta) (return result) pool =
      if config.has_executor
      then (elim meta.reply_to [ none ↦ pool | some name ↦ answer meta result pool ])
      else pool

  -- A busy worker's handler has ended.
  unfoldable pub finish : (worker : ℕ) → (outcome : Result Message) → Pool → Pool
  unfolding settle_item
  finish worker outcome pool = elim (Dict.get pool.busy worker) [
    | none ↦ pool
    | some item ↦
        let settled = settle_item item outcome pool in
        record settled { busy = Dict.remove settled.busy worker }
  ]

  unfoldable pub perform : Move → Pool → Pool
  unfolding dispatch take finish
  perform (dispatches item) pool = dispatch item pool
  perform (takes worker) pool = take worker pool
  perform (finishes worker outcome) pool = finish worker outcome pool

  unfoldable pub run : List Move → Pool → Pool
  unfolding perform
  run [] pool = pool
  run (move ∷ moves) pool = run moves (perform move pool)
