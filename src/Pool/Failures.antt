-- ===== src/Pool/Failures.antt =====
-- What the failures of a pool change: a full queue, a key or a handler that raises
-- (lapinbeam/supervisor.py).
use native.Mathlib.Nat.{mod-lt, zero-lt-suc}
use lapinbeam.Prelude.{
  ℕ, zero, suc, none, some, List, [], ◌∷◌, ◌++◌, ◌==◌, ==_iff, ==_self, ◌≡◌, ◌⊎◌, ◌∙◌, ap, refl,
  if◌then◌else◌, ◌<◌, ◌≤◌, length, length-append, nat_eq, string_eq, arith, Option-cases,
  Bool-cases, inl, inr,
}
use lapinbeam.Dict
use lapinbeam.Dict.{get-put, get-remove, get-empty}
use lapinbeam.Messages.{Error, division_by_zero, Message, pool_worker_error}
use lapinbeam.Node.State.{Node, Queue, Result, return, raise}
use lapinbeam.Node.Events.Quiet.{observe, heard, on_core_event_quiet}
use lapinbeam.Node.Mailboxes.Delivery.{is_full}
use lapinbeam.Node.Mailboxes.Capacity.{Fits}
use lapinbeam.Pool.{
  ℤ, pos, negsuc, floor_mod, Item, Config, Pool, new_pool, queue_of, target_of, put_at, report,
  dispatch, place_of, take_from, take, answer, settle_item, finish, Move, dispatches, takes,
  finishes, perform, run,
}
use lapinbeam.Pool.Order.{
  put_at_room, put_at_full, queue_of-put, queues-report, queues-finish, target-cases,
}

floor_mod-lt : (h : ℤ) (w : ℕ) → floor_mod h (suc w) < suc w
unfolding floor_mod
floor_mod-lt (pos n) w = mod-lt n (zero-lt-suc w)
floor_mod-lt (negsuc n) w = omega arith

sharded-lt :
    (n_workers : ℕ) (r : Result ℤ) (place : ℕ)
    → (elim r as (λ _. Result ℕ) [
      | raise e ↦ raise e
      | return h ↦ elim n_workers as (λ _. Result ℕ) [
        | zero ↦ raise division_by_zero
        | suc w ↦ return (floor_mod h (suc w))
      ]
    ])
      ≡ return place
    → place < n_workers
sharded-lt n_workers (raise e) place h = cc
sharded-lt zero (return i) place h = cc
sharded-lt (suc w) (return i) place h = ground (arith, floor_mod-lt i w)

module _ (config : Config) where
  -- A handler that raises does not end its worker: the listeners observe one `pool_worker_error`
  -- event, the queues stay as they are, and the worker is free for its next message.
  pub finish_raised :
      (worker : ℕ) (e : Error) (item : Item) (pool : Pool)
      → Dict.get pool.busy worker ≡ some item
      → let pool' = finish config worker (raise e) pool in
        (pool'.node
          ≡ observe (heard (pool_worker_error config.name e) pool.node.listeners) pool.node)
        × (pool'.queues ≡ pool.queues)
        × (Dict.get pool'.busy worker ≡ none)
  unfolding finish settle_item report
  finish_raised worker e item pool busy =
      rw (busy, finish, settle_item)
        (
          on_core_event_quiet (pool_worker_error config.name e) pool.node refl,
          refl,
          get-remove pool.busy worker worker
              ∙ ap (λ b. if b then none else Dict.get pool.busy worker) (==_self worker),
        )

  -- Whatever a handler comes to, its worker is free afterwards, and no other worker is disturbed.
  pub finish_frees :
      (worker other : ℕ) (outcome : Result Message) (pool : Pool)
      → Dict.get (finish config worker outcome pool).busy other
        ≡ (if worker == other then none else Dict.get pool.busy other)
  unfolding finish settle_item answer report
  finish_frees worker other outcome pool =
      ground (arith, get-remove pool.busy worker other, ==_iff worker other)

  -- Every queue of the pool has the pool's capacity, and holds no more.
  abbrev IsWithin : Pool → Type 0
  IsWithin pool =
      (place : ℕ)
      → ((queue_of config pool place).maxsize ≡ config.capacity) × Fits (queue_of config pool place)

  queues-IsWithin :
      (pool pool' : Pool) → pool'.queues ≡ pool.queues → IsWithin pool → IsWithin pool'
  unfolding queue_of
  queues-IsWithin pool pool' e within place = rw e (within place)

  put_at-IsWithin :
      (place : ℕ) (item : Item) (pool : Pool)
      → IsWithin pool
      → IsWithin (put_at config place item pool)
  put_at-IsWithin place item pool within =
      let q = queue_of config pool place in
      let more : Queue = record q { waiting = q.waiting ++ item ∷ [] } in
      elim (Bool-cases (is_full q)) [
        | inl full ↦
            queues-IsWithin pool (put_at config place item pool)
              (put_at_full config place item pool full) within
        | inr room ↦ rw (put_at_room config place item pool room) (λ other. ground (
          arith,
          room,
          within place,
          within other,
          length-append q.waiting (item ∷ []),
          queue_of-put config pool place other more,
        ))
      ]

  take_from-IsWithin :
      (worker place : ℕ) (items : List Item) (pool : Pool)
      → (queue_of config pool place).waiting ≡ items
      → IsWithin pool
      → IsWithin (take_from config worker place items pool)
  unfolding take_from
  take_from-IsWithin worker place [] pool e within = within
  take_from-IsWithin worker place (item ∷ rest) pool e within =
      let q : Queue = record { maxsize = (queue_of config pool place).maxsize; waiting = rest } in
      λ other. ground (arith, e, within place, within other, queue_of-put config pool place other q)

  perform-IsWithin :
      (move : Move) (pool : Pool) → IsWithin pool → IsWithin (perform config move pool)
  unfolding perform dispatch take
  perform-IsWithin (dispatches item) pool within = elim (target-cases (target_of config item.0)) [
    | inl (e, h) ↦
        rw (dispatch, h)
          (queues-IsWithin pool (report config e pool) (queues-report config e pool) within)
    | inr (target, h) ↦ rw (dispatch, h) (put_at-IsWithin target item pool within)
  ]
  perform-IsWithin (takes worker) pool within = elim (Option-cases (Dict.get pool.busy worker)) [
    | inl e ↦
        rw (take, e)
          (take_from-IsWithin worker (place_of config worker)
            (queue_of config pool (place_of config worker)).waiting pool refl within)
    | inr (item, e) ↦ rw (take, e) within
  ]
  perform-IsWithin (finishes worker outcome) pool within =
      queues-IsWithin pool (finish config worker outcome pool)
        (queues-finish config worker outcome pool) within

  run-IsWithin :
      (moves : List Move) (pool : Pool) → IsWithin pool → IsWithin (run config moves pool)
  unfolding run
  run-IsWithin [] pool within = within
  run-IsWithin (move ∷ moves) pool within =
      run-IsWithin moves (perform config move pool) (perform-IsWithin move pool within)

  new_pool-IsWithin : (n : Node) → IsWithin (new_pool n)
  unfolding queue_of
  new_pool-IsWithin n place = ground (arith, get-empty {V = Queue} place)

  -- Whatever happens in a pool that has just been spawned with a capacity other than zero, no
  -- queue of it ever holds more than that capacity.
  pub run_bounded :
      (moves : List Move) (n : Node) (place : ℕ)
      → (config.capacity ≡ 0)
        ⊎ (length (queue_of config (run config moves (new_pool n)) place).waiting ≤ config.capacity)
  run_bounded moves n place =
      let within = run-IsWithin moves (new_pool n) (new_pool-IsWithin n) place in
      ground (arith, within)

-- The worker that a message is routed to is one of the pool's.
pub target_of-lt :
    (config : Config) (msg : Message) (place : ℕ)
    → target_of config msg ≡ return place
    → (config.hash_of ≡ none) ⊎ (place < config.n_workers)
unfolding target_of
target_of-lt config msg place h = elim (Option-cases config.hash_of) [
  | inl e ↦ inl e
  | inr (hash_of, e) ↦ inr (sharded-lt config.n_workers (hash_of msg) place (rw e at h))
]
