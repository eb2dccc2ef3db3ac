-- ===== src/Supervisor/Lifecycle/Shutdown.antt =====
-- What the end of a supervisor leaves of its children (lapinbeam/supervisor.py).
use lapinbeam.Prelude.{
  ℕ, String, Option, none, some, List, [], ◌∷◌, Bool, true, false, ◌||◌, ◌==◌, ==_iff, ◌≡◌, refl,
  ◌∙◌, ap, if◌then◌else◌, elem, string_eq, nat_eq, pair_eq, option_eq, arith, Option-cases,
  Bool-cases, inl, inr,
}
use lapinbeam.Dict
use lapinbeam.Dict.{get-put}
use lapinbeam.Messages.{Target, Reason, shutdown}
use lapinbeam.Node.State.{
  Node, ActorChild, TaskState, unset, scheduled, live, backing_off, over, done, create_tasks,
}
use lapinbeam.Node.Signals.{notify_links, notify_monitors}
use lapinbeam.Supervisor.Lifecycle.{
  System, Ended, end_generation, tell_ended, set_child, end_cancelled, cancel_child,
  cancel_children, cancel_live, shutdown_all,
}
use lapinbeam.Supervisor.Lifecycle.Restart.{children-end_generation}

-- No exit is pending for any child.
abbrev pub IsCalm : Node → Type 0
IsCalm n =
    (ident : ℕ) (child : ActorChild)
    → Dict.get n.children ident ≡ some child
    → child.pending_exit ≡ none

-- A child whose task has been cancelled and has ended.
abbrev pub stopped : ActorChild → ActorChild
stopped child = elim child.task [
  | unset ↦ child
  | scheduled ↦ record child { task = over }
  | live ↦ record child { driver = done; task = over }
  | backing_off ↦ record child { task = over }
  | over ↦ child
]

pub children-tell_ended :
    (name : String) (ended : Ended) (reason : Reason)
    → (tell_ended name ended reason).children ≡ ended.node.children
unfolding tell_ended notify_links notify_monitors create_tasks
children-tell_ended name ended reason = by_links ended.linked ended.monitored
  where
    by_links :
        (ls : Option (Dict.Set Target)) (ms : Option (Dict.Dict String (Option String × String)))
        → (notify_monitors name ms reason (notify_links name ls reason ended.node)).children
          ≡ ended.node.children
    by_links none none = refl
    by_links none (some ms) = refl
    by_links (some ls) none = refl
    by_links (some ls) (some ms) = refl

children-end_cancelled :
    (ident : ℕ) (child : ActorChild) (n : Node)
    → (end_cancelled ident child n).children
      ≡ Dict.put n.children ident (record child { driver = done; task = over })
unfolding end_cancelled set_child
children-end_cancelled ident child n =
    let n' = set_child ident (record child { driver = done; task = over }) n in
    children-tell_ended child.name (end_generation child.name n') shutdown
    ∙ children-end_generation child.name n'

module _ (ident other : ℕ) (child : ActorChild) (n : Node)
    (e : Dict.get n.children ident ≡ some child) where
  get-put_self :
      (new : ActorChild)
      → Dict.get (Dict.put n.children ident new) other
        ≡ (if ident == other then some new else Dict.get n.children other)
  get-put_self new = get-put n.children ident other new

  get-same :
      Dict.get n.children other ≡ (if ident == other then some child else Dict.get n.children other)
  get-same = elim (Bool-cases (ident == other)) [
    | inl p ↦ ground (arith, e, ap (Dict.get n.children) ((==_iff ident other).0 p))
    | inr p ↦ ground arith
  ]

  get-cancel_live :
      (state : TaskState)
      → child.task ≡ state
      → Dict.get (cancel_live ident child n).children other
        ≡ (if ident == other then some (stopped child) else Dict.get n.children other)
  unfolding cancel_live set_child
  get-cancel_live unset h = ground (arith, get-same)
  get-cancel_live scheduled h = ground (arith, get-put_self (record child { task = over }))
  get-cancel_live live h = ground (
    arith,
    ap (λ d. Dict.get d other) (children-end_cancelled ident child n),
    get-put_self (record child { driver = done; task = over }),
  )
  get-cancel_live backing_off h = ground (arith, get-put_self (record child { task = over }))
  get-cancel_live over h = ground (arith, get-same)

-- The children after some of them were stopped.
abbrev pub stop_some : Bool → Option ActorChild → Option ActorChild
stop_some true (some child) = some (stopped child)
stop_some true none = none
stop_some false child = child

module _ (overlapping : ℕ → Node → Node) where
  get-cancel_child :
      (ident other : ℕ) (n : Node)
      → IsCalm n
      → Dict.get (cancel_child overlapping ident n).children other
        ≡ stop_some (ident == other) (Dict.get n.children other)
  unfolding cancel_child
  get-cancel_child ident other n calm = elim (Option-cases (Dict.get n.children ident)) [
    | inl e ↦ elim (Bool-cases (ident == other)) [
      | inl p ↦ ground (arith, ap (Dict.get n.children) ((==_iff ident other).0 p))
      | inr p ↦ ground arith
    ]
    | inr (child, e) ↦ elim (Bool-cases (ident == other)) [
      | inl p ↦ ground (
        arith,
        calm ident child e,
        get-cancel_live ident other child n e child.task refl,
        ap (Dict.get n.children) ((==_iff ident other).0 p),
      )
      | inr p ↦
          ground (arith, calm ident child e, get-cancel_live ident other child n e child.task refl)
    ]
  ]

  IsCalm-cancel_child :
      (ident : ℕ) (n : Node) → IsCalm n → IsCalm (cancel_child overlapping ident n)
  IsCalm-cancel_child ident n calm other child e = elim (Option-cases (Dict.get n.children other)) [
    | inl none_here ↦ ground (arith, get-cancel_child ident other n calm)
    | inr (old, here) ↦ ground (arith, get-cancel_child ident other n calm, calm other old here)
  ]

  -- Stopping a list of children stops those, and no other.
  pub get-cancel_children :
      (cs : List ℕ) (other : ℕ) (n : Node)
      → IsCalm n
      → Dict.get (cancel_children overlapping cs n).children other
        ≡ stop_some (elem other cs) (Dict.get n.children other)
  unfolding cancel_children elem
  get-cancel_children [] other n calm = refl
  get-cancel_children (c ∷ cs) other n calm =
      get-cancel_children cs other (cancel_child overlapping c n) (IsCalm-cancel_child c n calm)
      ∙ ap (stop_some (elem other cs)) (get-cancel_child c other n calm)
      ∙ stop_twice (elem other cs) (c == other) (Dict.get n.children other)
      ∙ ap (λ b. stop_some (b || elem other cs) (Dict.get n.children other)) (==_sym c other)
    where
      stop_twice :
          (later now : Bool) (child : Option ActorChild)
          → stop_some later (stop_some now child) ≡ stop_some (now || later) child
      stop_twice later now child = ground arith

      ==_sym : (a b : ℕ) → (a == b) ≡ (b == a)
      ==_sym a b = ground arith

  -- A shutdown, where no exit is pending, stops every child of the supervisor and no other child:
  -- a task that was scheduled, live or in its backoff is over, and nothing else of the other
  -- children changes.
  pub get-shutdown_all :
      (ident : ℕ) (sys : System)
      → IsCalm sys.node
      → Dict.get (shutdown_all overlapping sys).node.children ident
        ≡ stop_some (elem ident sys.supervisor.children) (Dict.get sys.node.children ident)
  unfolding shutdown_all
  get-shutdown_all ident sys calm = get-cancel_children sys.supervisor.children ident sys.node calm
