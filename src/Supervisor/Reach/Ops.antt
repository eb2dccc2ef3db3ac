-- ===== src/Supervisor/Reach/Ops.antt =====
-- Which operations of a node keep the names of live children leading to them (lapinbeam/supervisor.py).
use lapinbeam.Prelude.{
  ℕ, String, Option, none, some, false, ◌==◌, ==_iff, ◌≡◌, ◌⊎◌, refl, sym, ◌∙◌, ap, string_eq,
  nat_eq, pair_eq, option_eq, arith, Option-cases, Bool-cases, inl, inr,
}
use mathlib.Core.Option.{some-injective}
use lapinbeam.Dict
use lapinbeam.Dict.{Set, get-put}
use lapinbeam.Messages.{Target, Error, not_started, name_taken, Reason}
use lapinbeam.Node.State.{
  Node, ActorChild, TaskState, live, running, call_core, create_tasks, register, return, raise,
}
use lapinbeam.Node.Mailboxes.{register_actor}
use lapinbeam.Node.Mailboxes.Delivery.{mailbox_of}
use lapinbeam.Node.Signals.{notify_links, notify_monitors}
use lapinbeam.Supervisor.Lifecycle.{Ended, tell_ended, set_child, set_task, begin_generation}
use lapinbeam.Supervisor.Reach.Led.{IsLed, IsUnled, IsLed-same, IsLed-set_child}

-- Telling that an actor is gone only schedules tasks.
tell_ended-tasks :
    (name : String) (ended : Ended) (reason : Reason)
    → (tell_ended name ended reason)
      ≡ record ended.node { tasks = (tell_ended name ended reason).tasks }
unfolding tell_ended notify_links notify_monitors create_tasks
tell_ended-tasks name ended reason = by_links ended.linked ended.monitored
  where
    by_links :
        (ls : Option (Set Target)) (ms : Option (Dict.Dict String (Option String × String)))
        → notify_monitors name ms reason (notify_links name ls reason ended.node)
          ≡ record ended.node {
            tasks = (notify_monitors name ms reason (notify_links name ls reason ended.node)).tasks;
          }
    by_links none none = refl
    by_links none (some ms) = refl
    by_links (some ls) none = refl
    by_links (some ls) (some ms) = refl

module _ (name : String) (ended : Ended) (reason : Reason) where
  pub IsLed-tell_ended : IsLed ended.node → IsLed (tell_ended name ended reason)
  IsLed-tell_ended =
      let e = tell_ended-tasks name ended reason in
      IsLed-same ended.node (tell_ended name ended reason) (ap (λ n. n.mailboxes) e)
        (ap (λ n. n.live_children) e) (ap (λ n. n.children) e)

  pub IsUnled-tell_ended :
      (ident : ℕ) → IsUnled ident ended.node → IsUnled ident (tell_ended name ended reason)
  IsUnled-tell_ended ident unled other h = unled other (
      ap (λ (n : Node). Dict.get n.live_children other) (sym (tell_ended-tasks name ended reason))
      ∙ h)

module _ (overlapping : ℕ → Node → Node) (ident : ℕ) (state : TaskState) (n : Node) where
  pub IsLed-set_task : IsLed n → IsUnled ident n → IsLed (set_task overlapping ident state n)
  unfolding set_task
  IsLed-set_task led unled = elim (Option-cases (Dict.get n.children ident)) [
    | inl e ↦ rw (e, set_task) led
    | inr (child, e) ↦
        rw (e, set_task) (IsLed-set_child ident (record child { task = state }) n led unled)
  ]

-- The node once a name has been registered.
abbrev pub registered : String → ℕ → Node → Node
registered name mailbox n =
    call_core (register name) (record n { mailboxes = Dict.put n.mailboxes name mailbox })

-- A registration raises and changes nothing, or gives a name that was not another actor's.
pub register_actor-cases :
    (name : String) (mailbox : ℕ) (n : Node)
    → ((e : Error) × (register_actor name mailbox n ≡ (raise e, n)))
      ⊎ ((register_actor name mailbox n ≡ (return tt, registered name mailbox n))
          × ((box : ℕ) → mailbox_of n name ≡ some box → box ≡ mailbox))
unfolding register_actor
register_actor-cases name mailbox n = elim (Option-cases n.core) [
  | inl e ↦ inl (not_started, ground arith)
  | inr (core, e) ↦ elim (Option-cases (Dict.get n.mailboxes name)) [
    | inl free ↦ inr (ground arith, λ box h. cc (sym free ∙ h))
    | inr (existing, taken) ↦ elim (Bool-cases (existing == mailbox)) [
      | inl same ↦ inr (
        ground arith,
        λ box h. some-injective _ _ (sym h ∙ taken) ∙ (==_iff existing mailbox).0 same,
      )
      | inr differs ↦ inl (name_taken name, ground arith)
    ]
  ]
]

module _ (name : String) (mailbox : ℕ) (n : Node)
    (own : (box : ℕ) → mailbox_of n name ≡ some box → box ≡ mailbox) where
  -- A name that leads to a mailbox still leads to it.
  mailbox_of-registered :
      (other : String) (box : ℕ)
      → mailbox_of n other ≡ some box
      → mailbox_of (registered name mailbox n) other ≡ some box
  unfolding call_core
  mailbox_of-registered other box e = elim (Bool-cases (name == other)) [
    | inl p ↦
        let same = own box (ap (Dict.get n.mailboxes) ((==_iff name other).0 p) ∙ e) in
        ground (arith, get-put n.mailboxes name other mailbox)
    | inr p ↦ ground (arith, get-put n.mailboxes name other mailbox)
  ]

  pub IsLed-registered : IsLed n → IsLed (registered name mailbox n)
  unfolding call_core
  IsLed-registered led other ident h =
      let (child, found, named, alive, boxed) = led other ident h in
      (child, found, named, alive, mailbox_of-registered other child.mailbox boxed)

-- The node once a generation has begun.
abbrev pub begun : ℕ → ActorChild → Node → Node
begun ident child n =
    let n' = registered child.name child.mailbox n in
    set_child ident (record child { driver = running false; task = live })
      (record n' { live_children = Dict.put n'.live_children child.name ident })

pub begin_generation-cases :
    (ident : ℕ) (child : ActorChild) (init : Option Error) (n : Node)
    → ((e : Error) × (begin_generation ident child init n ≡ (raise e, n)))
      ⊎ ((begin_generation ident child init n ≡ (return tt, begun ident child n))
          × ((box : ℕ) → mailbox_of n child.name ≡ some box → box ≡ child.mailbox))
unfolding begin_generation
begin_generation-cases ident child (some e) n = inl (e, refl)
begin_generation-cases ident child none n = elim (register_actor-cases child.name child.mailbox n) [
  | inl (e, h) ↦ inl (e, ground (arith, h))
  | inr (h, own) ↦ inr (ground (arith, h), own)
]

module _ (ident : ℕ) (child : ActorChild) (n : Node)
    (own : (box : ℕ) → mailbox_of n child.name ≡ some box → box ≡ child.mailbox)
    (found : Dict.get n.children ident ≡ some child) where
  -- The child that begins is led to, and what was led to before still is.
  pub IsLed-begun : IsLed n → IsLed (begun ident child n)
  unfolding set_child call_core
  IsLed-begun led name other h = elim (Bool-cases (child.name == name)) [
    | inl p ↦
        let named = (==_iff child.name name).0 p in
        let same : ident ≡ other =
          some-injective _ _ (ground (arith, get-put n.live_children child.name name ident)) in
        (
          record child { driver = running false; task = live },
          ground (
            arith,
            get-put n.children ident other (record child { driver = running false; task = live }),
            (==_iff ident other).1 same,
          ),
          named,
          refl,
          ground (arith, get-put n.mailboxes child.name name child.mailbox),
        )
    | inr p ↦
        let (child', found', named, alive, boxed) =
          led name other (ground (arith, get-put n.live_children child.name name ident)) in
        (
          child',
          elim (Bool-cases (ident == other)) [
            | inl q ↦ ground (
              arith,
              (==_iff ident other).0 q,
              ap (Dict.get n.children) ((==_iff ident other).0 q),
              (==_iff child.name name).1,
              ap (λ (c : ActorChild). c.name)
                  (some-injective _ _
                    (sym found ∙ ap (Dict.get n.children) ((==_iff ident other).0 q) ∙ found')),
            )
            | inr q ↦ ground (
              arith,
              get-put n.children ident other (record child { driver = running false; task = live }),
            )
          ],
          named,
          alive,
          ground (arith, get-put n.mailboxes child.name name child.mailbox),
        )
  ]
