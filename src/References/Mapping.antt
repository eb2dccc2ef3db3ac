-- ===== src/References/Mapping.antt =====
-- The order of the results of `PoolRef.map` (lapinbeam/refs.py).
use lapinbeam.Prelude.{
  ℕ, String, none, some, List, [], ◌∷◌, Bool, true, false, ==_iff, ==_ne, All, elem, map, ◌≡◌, ◌≢◌,
  refl, sym, ◌∙◌, ap, nat_eq, string_eq, arith,
}
use lapinbeam.Dict
use lapinbeam.Dict.{find}
use lapinbeam.Messages.{Message, MessageMeta}
use lapinbeam.Node.State.{Node, Queue, Result, return, raise, call_core}
use lapinbeam.Node.Refs.{Ref}
use lapinbeam.Node.Mailboxes.{queue_at, unregister_actor}
use lapinbeam.Node.Mailboxes.Delivery.{waiting_in, queue_at-put}
use lapinbeam.Asks.{end_ask, take_first, closing}
use lapinbeam.References.{
  Call, Begun, begin_asks, end_begun, end_asks, first_raised, in_order, gathered, map_pool,
}
use lapinbeam.Supervisor.Spawning.Leaving.{distinct}

-- The mailbox of a call that has begun has its answer first.
abbrev pub HasAnswer : (ℕ → Message) → Node → Begun → Type 0
HasAnswer answer n (call, result) =
    (result ≡ return tt)
    × ((msg_meta : MessageMeta) × (rest : List (Message × MessageMeta)) × (waiting_in n call.box
          ≡ (answer call.number, msg_meta) ∷ rest))

waiting_in-unregister :
    (name : String) (box : ℕ) (n : Node)
    → waiting_in (unregister_actor name n) box ≡ waiting_in n box
unfolding unregister_actor call_core queue_at
waiting_in-unregister name box n = ground arith

end_ask_first :
    (name : String) (box : ℕ) (item : Message × MessageMeta) (rest : List (Message × MessageMeta))
    (n : Node)
    → waiting_in n box ≡ item ∷ rest
    → ((end_ask name box n).0 ≡ return item.0)
      × ((other : ℕ) → other ≢ box → waiting_in (end_ask name box n).1 other ≡ waiting_in n other)
unfolding end_ask take_first closing
end_ask_first name box item rest n e =
    let q : Queue = record { maxsize = (queue_at n box).maxsize; waiting = rest } in
    let n' : Node = record n { queues = Dict.put n.queues box q } in
    (
      ground (arith, e),
      λ other ne. ground (
        arith,
        e,
        waiting_in-unregister name other n',
        ap (λ r. r.waiting) (queue_at-put n box other q),
        ==_ne box other (λ p. ne (sym p)),
      ),
    )

abbrev numbers : List Begun → List ℕ
numbers begun = map (λ b. b.0.number) begun

abbrev boxes : List Begun → List ℕ
boxes begun = map (λ b. b.0.box) begun

abbrev answers : (ℕ → Message) → List Begun → List (ℕ × Result Message)
answers answer begun = map (λ b. (b.0.number, return (answer b.0.number))) begun

-- An answer that has come stays first in its mailbox while another call ends.
HasAnswer-kept :
    (answer : ℕ → Message) (n n' : Node) (box : ℕ) (begun : List Begun)
    → ((other : ℕ) → other ≢ box → waiting_in n' other ≡ waiting_in n other)
    → elem box (boxes begun) ≡ false
    → All (HasAnswer answer n) begun
    → All (HasAnswer answer n') begun
unfolding elem
HasAnswer-kept answer n n' box [] same away has = tt
HasAnswer-kept answer n n' box ((call, result) ∷ begun) same away ((ok, (m, rest, e)), has) =
    let apart : call.box ≢ box = λ p. ground (arith, away, (==_iff box call.box).1 (sym p)) in
    (
      (ok, (m, rest, same call.box apart ∙ e)),
      HasAnswer-kept answer n n' box begun same (ground (arith, away)) has,
    )

module _ (ask_name : ℕ → String) (answer : ℕ → Message) where
  -- Each call that completes has its own answer.
  end_asks-answers :
      (begun : List Begun) (n : Node)
      → distinct (boxes begun) ≡ true
      → All (HasAnswer answer n) begun
      → (end_asks ask_name begun n).0 ≡ answers answer begun
  unfolding end_asks end_begun distinct
  end_asks-answers [] n apart has = refl
  end_asks-answers ((call, raise e) ∷ begun) n apart ((ok, _), has) = cc
  end_asks-answers ((call, return _) ∷ begun) n apart ((ok, (m, rest, e)), has) =
      let name = ask_name call.number in
      let (first, same) = end_ask_first name call.box (answer call.number, m) rest n e in
      let n' = (end_ask name call.box n).1 in
      let ih =
        end_asks-answers begun n' (ground arith)
          (HasAnswer-kept answer n n' call.box begun same (ground arith) has) in
      ground (arith, first, ih)

  first_raised-answers : (begun : List Begun) → first_raised (answers answer begun) ≡ none
  unfolding first_raised
  first_raised-answers [] = refl
  first_raised-answers (b ∷ begun) = first_raised-answers begun

  find-answers :
      (number : ℕ) (begun : List Begun)
      → elem number (numbers begun) ≡ true
      → find number (answers answer begun) ≡ some (return (answer number))
  unfolding elem find
  find-answers number [] h = cc
  find-answers number (b ∷ begun) h =
      ground (arith, find-answers number begun, ==_iff b.0.number number, ==_iff number b.0.number)

  in_order-answers :
      (items : List (Message × Call)) (begun : List Begun)
      → All (λ item. elem item.1.number (numbers begun) ≡ true) items
      → in_order items (answers answer begun)
        ≡ some (map (λ item. return (answer item.1.number)) items)
  unfolding in_order
  in_order-answers [] begun all = refl
  in_order-answers ((msg, call) ∷ items) begun (h, all) =
      ground (arith, find-answers call.number begun h, in_order-answers items begun all)

  -- Where each call of a `PoolRef.map` has begun, no two of those that complete share a mailbox,
  -- all complete, and each has its answer first in its mailbox when they do, in whatever order:
  -- the result is the list of the answers in the order of the items, whether exceptions are to be
  -- returned or not.
  pub map_pool_in_order :
      (return_exceptions : Bool) (meanwhile : Node → Node) (order : List Begun → List Begun)
      (dispatcher : Ref) (items : List (Message × Call)) (n : Node)
      → (begun : List Begun) (n' : Node) → begin_asks ask_name dispatcher items n ≡ (begun, n')
      → distinct (boxes (order begun)) ≡ true
      → All (λ item. elem item.1.number (numbers (order begun)) ≡ true) items
      → All (HasAnswer answer (meanwhile n')) (order begun)
      → (map_pool ask_name return_exceptions meanwhile order dispatcher items n).0
        ≡ return (some (map (λ item. return (answer item.1.number)) items))
  unfolding map_pool gathered
  map_pool_in_order true meanwhile order dispatcher items n begun n' b apart all has =
      let ended = end_asks-answers (order begun) (meanwhile n') apart has in
      ground (arith, b, ended, in_order-answers items (order begun) all)
  map_pool_in_order false meanwhile order dispatcher items n begun n' b apart all has =
      let ended = end_asks-answers (order begun) (meanwhile n') apart has in
      ground (
        arith,
        b,
        ended,
        first_raised-answers (order begun),
        in_order-answers items (order begun) all,
      )
