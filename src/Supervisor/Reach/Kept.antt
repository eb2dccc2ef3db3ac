-- ===== src/Supervisor/Reach/Kept.antt =====
-- Children keep their names and their mailboxes (lapinbeam/supervisor.py).
use lapinbeam.Prelude.{
  ℕ, String, none, some, List, [], ◌∷◌, ◌==◌, ==_iff, ◌≡◌, refl, sym, ◌∙◌, ap, subst, string_eq,
  nat_eq, arith, Option-cases, Bool-cases, inl, inr,
}
use mathlib.Core.Option.{some-injective}
use lapinbeam.Dict
use lapinbeam.Dict.{Dict, get-put}
use lapinbeam.Messages.{Error, shutdown}
use lapinbeam.Node.State.{Node, ActorChild, TaskState, scheduled, over, absent, done}
use lapinbeam.Supervisor.Lifecycle.{
  System, end_generation, set_child, set_task, others, exhausted, respawn, respawn_all,
  cancel_child, cancel_children, cancel_live, end_cancelled,
}
use lapinbeam.Supervisor.Lifecycle.Restart.{children-end_generation}
use lapinbeam.Supervisor.Lifecycle.Shutdown.{children-tell_ended}
use lapinbeam.Supervisor.Reach.Cancels.{cancel_live-cases, cancel_child-cases}
use lapinbeam.Supervisor.Reach.Steps.{told, told_frame, exhausted-cases}

-- Every child is still there, with its name and its mailbox.
abbrev pub Keeps : Dict ℕ ActorChild → Dict ℕ ActorChild → Type 0
Keeps before after =
    (ident : ℕ) (child : ActorChild)
    → Dict.get before ident ≡ some child
    → (child' : ActorChild) × (Dict.get after ident ≡ some child')
      × (child'.name ≡ child.name)
      × (child'.mailbox ≡ child.mailbox)

pub Keeps-refl : (d : Dict ℕ ActorChild) → Keeps d d
Keeps-refl d ident child e = (child, e, refl, refl)

pub Keeps-trans : (d d' d'' : Dict ℕ ActorChild) → Keeps d d' → Keeps d' d'' → Keeps d d''
Keeps-trans d d' d'' k k' ident child e =
    let (child', e', name, mailbox) = k ident child e in
    let (child'', e'', name', mailbox') = k' ident child' e' in
    (child'', e'', name' ∙ name, mailbox' ∙ mailbox)

-- A child may change otherwise.
pub Keeps-put :
    (d : Dict ℕ ActorChild) (ident : ℕ) (old new : ActorChild)
    → Dict.get d ident ≡ some old
    → (new.name ≡ old.name) × (new.mailbox ≡ old.mailbox)
    → Keeps d (Dict.put d ident new)
Keeps-put d ident old new found same other child e = elim (Bool-cases (ident == other)) [
  | inl p ↦
      let agree : old ≡ child =
        some-injective _ _ (sym found ∙ ap (Dict.get d) ((==_iff ident other).0 p) ∙ e) in
      (
        new,
        ground (arith, get-put d ident other new),
        same.0 ∙ ap (λ c. c.name) agree,
        same.1 ∙ ap (λ c. c.mailbox) agree,
      )
  | inr p ↦ (child, ground (arith, get-put d ident other new), refl, refl)
]

-- A new child displaces none.
pub Keeps-put_new :
    (d : Dict ℕ ActorChild) (ident : ℕ) (new : ActorChild)
    → Dict.get d ident ≡ none
    → Keeps d (Dict.put d ident new)
Keeps-put_new d ident new fresh other child e = elim (Bool-cases (ident == other)) [
  | inl p ↦ cc (sym fresh ∙ ap (Dict.get d) ((==_iff ident other).0 p) ∙ e)
  | inr p ↦ (child, ground (arith, get-put d ident other new), refl, refl)
]

module _ (ident : ℕ) (child : ActorChild) (n : Node)
    (found : Dict.get n.children ident ≡ some child) where
  pub Keeps-end_generation :
      (new : ActorChild)
      → (new.name ≡ child.name) × (new.mailbox ≡ child.mailbox)
      → Keeps n.children (end_generation child.name (set_child ident new n)).node.children
  unfolding set_child
  Keeps-end_generation new same =
      subst (Keeps n.children) (sym (children-end_generation child.name (set_child ident new n)))
        (Keeps-put n.children ident child new found same)

  Keeps-end_cancelled : Keeps n.children (end_cancelled ident child n).children
  unfolding end_cancelled
  Keeps-end_cancelled =
      let new = record child { driver = done; task = over } in
      subst (Keeps n.children)
        (sym (
          children-tell_ended child.name (end_generation child.name (set_child ident new n))
            shutdown))
        (Keeps-end_generation new (refl, refl))

  pub Keeps-cancel_live : Keeps n.children (cancel_live ident child n).children
  unfolding set_child
  Keeps-cancel_live = elim (cancel_live-cases ident child n found child.task refl) [
    | inl (idle, e) ↦ subst (λ k. Keeps n.children k.children) e (Keeps-refl n.children)
    | inr (inl (idle, e)) ↦
        subst (λ k. Keeps n.children k.children) e
          (Keeps-put n.children ident child _ found (refl, refl))
    | inr (inr e) ↦ subst (λ k. Keeps n.children k.children) e Keeps-end_cancelled
  ]

module _ (overlapping : ℕ → Node → Node) where
  pub Keeps-set_task :
      (ident : ℕ) (state : TaskState) (n : Node)
      → Keeps n.children (set_task overlapping ident state n).children
  unfolding set_task set_child
  Keeps-set_task ident state n = elim (Option-cases (Dict.get n.children ident)) [
    | inl e ↦ rw (e, set_task) (Keeps-refl n.children)
    | inr (child, e) ↦
        rw (e, set_task)
          (Keeps-put n.children ident child (record child { task = state }) e (refl, refl))
  ]

module _ (overlapping : ℕ → Node → Node)
    (keeps : (ident : ℕ) (n : Node) → Keeps n.children (overlapping ident n).children) where
  Keeps-cancel_child :
      (ident : ℕ) (n : Node) → Keeps n.children (cancel_child overlapping ident n).children
  unfolding cancel_child
  Keeps-cancel_child ident n = elim (Option-cases (Dict.get n.children ident)) [
    | inl e ↦
        let same : n ≡ cancel_child overlapping ident n = ground (arith, e) in
        subst (λ k. Keeps n.children k.children) same (Keeps-refl n.children)
    | inr (child, e) ↦ elim (cancel_child-cases ident child n e overlapping child.task refl) [
      | inl same ↦ subst (λ k. Keeps n.children k.children) same (Keeps-cancel_live ident child n e)
      | inr same ↦ subst (λ k. Keeps n.children k.children) same (keeps ident n)
    ]
  ]

  pub Keeps-cancel_children :
      (cs : List ℕ) (n : Node) → Keeps n.children (cancel_children overlapping cs n).children
  unfolding cancel_children
  Keeps-cancel_children [] n = Keeps-refl n.children
  Keeps-cancel_children (c ∷ cs) n =
      Keeps-trans _ _ _ (Keeps-cancel_child c n)
        (Keeps-cancel_children cs (cancel_child overlapping c n))

  pub Keeps-respawn_all : (cs : List ℕ) (n : Node) → Keeps n.children (respawn_all cs n).children
  unfolding respawn_all respawn set_child
  Keeps-respawn_all [] n = Keeps-refl n.children
  Keeps-respawn_all (c ∷ cs) n = Keeps-trans _ _ _ one (Keeps-respawn_all cs (respawn c n))
    where
      one : Keeps n.children (respawn c n).children
      one = elim (Option-cases (Dict.get n.children c)) [
        | inl e ↦ rw (e, respawn) (Keeps-refl n.children)
        | inr (child, e) ↦
            rw (e, respawn)
              (Keeps-put n.children c child (record child { driver = absent; task = scheduled }) e
                (refl, refl))
      ]

  pub Keeps-exhausted :
      (ident : ℕ) (name : String) (why : Error) (sys : System)
      → Keeps sys.node.children (exhausted overlapping ident name why sys).node.children
  Keeps-exhausted ident name why sys =
      let (_, _, c) = told_frame name why sys.node in
      let same = subst (Keeps sys.node.children) (sym c) (Keeps-refl sys.node.children) in
      elim (exhausted-cases overlapping ident name why sys sys.supervisor.strategy refl) [
        | inl e ↦ subst (λ k. Keeps sys.node.children k.children) e same
        | inr e ↦
            subst (λ k. Keeps sys.node.children k.children) e
              (Keeps-trans _ _ _ same (
                Keeps-cancel_children (others ident sys.supervisor.children)
                  (told name why sys.node)))
      ]
