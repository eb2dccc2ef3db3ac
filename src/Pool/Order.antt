-- ===== src/Pool/Order.antt =====
-- The order in which the workers of a pool get its messages (lapinbeam/supervisor.py).
use mathlib.Core.List.{append_assoc, append-nil}
use lapinbeam.Prelude.{
  ℕ, Option, none, some, List, [], ◌∷◌, ◌++◌, true, false, not, ◌&&◌, ◌==◌, ==_iff, ==_self, ◌≡◌,
  ◌⊎◌, ◌∙◌, sym, ap, refl, if◌then◌else◌, nat_eq, string_eq, arith, Option-cases, Bool-cases, inl,
  inr, subst,
}
use lapinbeam.Dict
use lapinbeam.Dict.{get-put}
use lapinbeam.Messages.{Error, Message}
use lapinbeam.Node.State.{Queue, Result, return, raise, put_nowait}
use lapinbeam.Node.Mailboxes.Delivery.{is_full}
use lapinbeam.Pool.{
  Item, Config, Pool, queue_of, target_of, put_at, report, dispatch, place_of, take_from, take,
  answer, settle_item, finish, Move, dispatches, takes, finishes, perform, run,
}

pub target-cases :
    (r : Result ℕ) → ((e : Error) × (r ≡ raise e)) ⊎ ((place : ℕ) × (r ≡ return place))
target-cases (raise e) = inl (e, refl)
target-cases (return place) = inr (place, refl)

module _ (config : Config) where
  abbrev pub waiting_at : Pool → ℕ → List Item
  waiting_at pool place = (queue_of config pool place).waiting

  -- What a move puts last on a queue: the message that is dispatched there, unless the queue is full.
  unfoldable pub put_by : Move → ℕ → Pool → List Item
  put_by (dispatches item) place pool = elim (target_of config item.0) [
    | raise e ↦ []
    | return target ↦
        if target == place && not (is_full (queue_of config pool place)) then item ∷ [] else []
  ]
  put_by (takes worker) place pool = []
  put_by (finishes worker outcome) place pool = []

  held : Option Item → List Item
  held none = []
  held (some item) = item ∷ []

  -- What a move gives a worker from a queue: what a free worker of that queue works on afterwards.
  unfoldable pub taken_by : Move → ℕ → Pool → List Item
  unfolding held
  taken_by (dispatches item) place pool = []
  taken_by (takes worker) place pool = elim (Dict.get pool.busy worker) [
    | some item ↦ []
    | none ↦
        if place_of config worker == place
        then held (Dict.get (take config worker pool).busy worker)
        else []
  ]
  taken_by (finishes worker outcome) place pool = []

  unfoldable pub all_put : List Move → ℕ → Pool → List Item
  all_put [] place pool = []
  all_put (move ∷ moves) place pool =
      put_by move place pool ++ all_put moves place (perform config move pool)

  unfoldable pub all_taken : List Move → ℕ → Pool → List Item
  all_taken [] place pool = []
  all_taken (move ∷ moves) place pool =
      taken_by move place pool ++ all_taken moves place (perform config move pool)

  pub queue_of-put :
      (pool : Pool) (place other : ℕ) (q : Queue)
      → queue_of config (record pool { queues = Dict.put pool.queues place q }) other
        ≡ (if place == other then q else queue_of config pool other)
  unfolding queue_of
  queue_of-put pool place other q = ground (arith, get-put pool.queues place other q)

  pub queues-report : (e : Error) (pool : Pool) → (report config e pool).queues ≡ pool.queues
  unfolding report
  queues-report e pool = refl

  -- A pool with one more message on a queue.
  abbrev pub with_item : ℕ → Item → Pool → Pool
  with_item place item pool = record pool {
    queues =
        Dict.put pool.queues place
          (record (queue_of config pool place) { waiting = waiting_at pool place ++ item ∷ [] });
  }

  pub put_at_room :
      (place : ℕ) (item : Item) (pool : Pool)
      → is_full (queue_of config pool place) ≡ false
      → put_at config place item pool ≡ with_item place item pool
  unfolding put_at put_nowait
  put_at_room place item pool room = rw (room, put_at, put_nowait) refl

  pub put_at_full :
      (place : ℕ) (item : Item) (pool : Pool)
      → is_full (queue_of config pool place) ≡ true
      → (put_at config place item pool).queues ≡ pool.queues
  unfolding put_at put_nowait
  put_at_full place item pool full = rw (full, put_at, put_nowait) refl

  waiting_at-queues :
      (place : ℕ) (pool pool' : Pool)
      → pool'.queues ≡ pool.queues
      → waiting_at pool' place ≡ waiting_at pool place
  unfolding queue_of
  waiting_at-queues place pool pool' e = rw e refl

  waiting_at-put_at :
      (target place : ℕ) (item : Item) (pool : Pool)
      → waiting_at (put_at config target item pool) place
        ≡ waiting_at pool place
          ++ (if target == place && not (is_full (queue_of config pool place))
              then item ∷ []
              else [])
  waiting_at-put_at target place item pool =
      let q : Queue = record (queue_of config pool target) {
        waiting = waiting_at pool target ++ item ∷ [];
      } in
      elim (Bool-cases (is_full (queue_of config pool target))) [
        | inl full ↦ ground (
          arith,
          full,
          ==_iff target place,
          append-nil (waiting_at pool place),
          waiting_at-queues place pool (put_at config target item pool)
              (put_at_full target item pool full),
        )
        | inr room ↦ rw (put_at_room target item pool room) (
            ground (
              arith,
              room,
              ==_iff target place,
              append-nil (waiting_at pool place),
              queue_of-put pool target place q,
            ))
      ]

  waiting_at-take_from :
      (worker place other : ℕ) (items : List Item) (pool : Pool)
      → waiting_at pool place ≡ items
      → Dict.get pool.busy worker ≡ none
      → (if place == other
            then held (Dict.get (take_from config worker place items pool).busy worker)
            else [])
          ++ waiting_at (take_from config worker place items pool) other
        ≡ waiting_at pool other
  unfolding take_from held
  waiting_at-take_from worker place other [] pool e free = ground (arith, ==_iff place other)
  waiting_at-take_from worker place other (item ∷ rest) pool e free =
      let q : Queue = record { maxsize = (queue_of config pool place).maxsize; waiting = rest } in
      ground (
        arith,
        e,
        ==_iff place other,
        queue_of-put pool place other q,
        get-put pool.busy worker worker item,
        ==_self worker,
      )

  pub queues-finish :
      (worker : ℕ) (outcome : Result Message) (pool : Pool)
      → (finish config worker outcome pool).queues ≡ pool.queues
  unfolding finish settle_item answer report
  queues-finish worker outcome pool = ground arith

  taken_from_queue :
      (worker place : ℕ) (pool : Pool)
      → Dict.get pool.busy worker ≡ none
      → taken_by (takes worker) place pool ++ waiting_at (take config worker pool) place
        ≡ waiting_at pool place
  unfolding taken_by take take_from
  taken_from_queue worker place pool e =
      let from = place_of config worker in
      let takes_it : take config worker pool
          ≡ take_from config worker from (waiting_at pool from) pool =
        rw (take, e) refl in
      rw (taken_by, e)
        (subst
          (λ p.
            (if from == place then held (Dict.get p.busy worker) else []) ++ waiting_at p place
            ≡ waiting_at pool place)
          (sym takes_it)
          (waiting_at-take_from worker from place (waiting_at pool from) pool refl e))

  move_order :
      (move : Move) (place : ℕ) (pool : Pool)
      → waiting_at pool place ++ put_by move place pool
        ≡ taken_by move place pool ++ waiting_at (perform config move pool) place
  unfolding put_by taken_by perform
  move_order (dispatches item) place pool = elim (target-cases (target_of config item.0)) [
    | inl (e, h) ↦ rw (put_by, dispatch, h) (append-nil (waiting_at pool place))
    | inr (target, h) ↦ rw (put_by, dispatch, h) (sym (waiting_at-put_at target place item pool))
  ]
  move_order (takes worker) place pool = elim (Option-cases (Dict.get pool.busy worker)) [
    | inl e ↦ append-nil (waiting_at pool place) ∙ sym (taken_from_queue worker place pool e)
    | inr (item, e) ↦ rw (taken_by, take, e) (append-nil (waiting_at pool place))
  ]
  move_order (finishes worker outcome) place pool =
      append-nil (waiting_at pool place)
      ∙ sym (
          waiting_at-queues place pool (finish config worker outcome pool)
            (queues-finish worker outcome pool))

  -- Whatever happens in a pool, the messages that a queue held at first, followed by those that
  -- the dispatcher put on it, are, in that order, the messages that free workers of that queue
  -- came to work on as they took from it, followed by those that it holds in the end: between the
  -- dispatcher and the workers none is lost, doubled or overtaken.
  pub pool_order :
      (moves : List Move) (place : ℕ) (pool : Pool)
      → waiting_at pool place ++ all_put moves place pool
        ≡ all_taken moves place pool ++ waiting_at (run config moves pool) place
  unfolding all_put all_taken run
  pool_order [] place pool = append-nil (waiting_at pool place)
  pool_order (move ∷ moves) place pool =
      let w = waiting_at pool place in
      let next = perform config move pool in
      let p = put_by move place pool in
      let t = taken_by move place pool in
      sym (append_assoc w p (all_put moves place next))
      ∙ ap (λ l. l ++ all_put moves place next) (move_order move place pool)
      ∙ append_assoc t (waiting_at next place) (all_put moves place next)
      ∙ ap (λ l. t ++ l) (pool_order moves place next)
      ∙ sym (append_assoc t (all_taken moves place next) (waiting_at (run config moves next) place))
