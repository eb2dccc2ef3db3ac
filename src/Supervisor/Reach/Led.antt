-- ===== src/Supervisor/Reach/Led.antt =====
-- What the names of live children lead to (lapinbeam/supervisor.py, `_live_children` of
-- lapinbeam/node.py), and the changes of a node that keep it so.
use lapinbeam.Prelude.{
  ℕ, String, none, some, ◌==◌, ==_iff, ◌≡◌, ◌≢◌, sym, ◌∙◌, ap, if◌then◌else◌, string_eq, nat_eq,
  pair_eq, option_eq, arith, Bool-cases, inl, inr,
}
use mathlib.Core.Option.{some-injective}
use lapinbeam.Dict
use lapinbeam.Dict.{get-put}
use lapinbeam.Node.State.{Node, ActorChild, live}
use lapinbeam.Node.Mailboxes.Delivery.{mailbox_of}
use lapinbeam.Supervisor.Lifecycle.{end_generation, set_child}
use lapinbeam.Supervisor.Lifecycle.Clean.{end_generation-records}
use lapinbeam.Supervisor.Lifecycle.Restart.{children-end_generation}

-- A child that runs under the name, whose mailbox the name leads to.
abbrev pub LeadsTo : Node → (name : String) → (ident : ℕ) → Type 0
LeadsTo n name ident =
    (child : ActorChild) × (Dict.get n.children ident ≡ some child)
    × (child.name ≡ name)
    × (child.task ≡ live)
    × (mailbox_of n name ≡ some child.mailbox)

-- The name of every live child leads to it.
abbrev pub IsLed : Node → Type 0
IsLed n =
    (name : String) (ident : ℕ) → Dict.get n.live_children name ≡ some ident → LeadsTo n name ident

-- No name is that of this live child.
abbrev pub IsUnled : ℕ → Node → Type 0
IsUnled ident n = (name : String) → Dict.get n.live_children name ≢ some ident

pub IsLed-same :
    (n n' : Node)
    → n'.mailboxes ≡ n.mailboxes
    → n'.live_children ≡ n.live_children
    → n'.children ≡ n.children
    → IsLed n
    → IsLed n'
IsLed-same n n' m l c led name ident e =
    let (child, found, named, alive, boxed) =
      led name ident (ap (λ d. Dict.get d name) (sym l) ∙ e) in
    (child, ap (λ d. Dict.get d ident) c ∙ found, named, alive, ap (λ d. Dict.get d name) m ∙ boxed)

-- A child that does not run may change.
pub IsLed-set_child :
    (ident : ℕ) (new : ActorChild) (n : Node)
    → IsLed n
    → IsUnled ident n
    → IsLed (set_child ident new n)
unfolding set_child
IsLed-set_child ident new n led unled name other e =
    let (child, found, named, alive, boxed) = led name other e in
    elim (Bool-cases (ident == other)) [
      | inl p ↦ absurd (unled name (e ∙ ap (λ (k : ℕ). some k) (sym ((==_iff ident other).0 p))))
      | inr p ↦ (child, ground (arith, get-put n.children ident other new), named, alive, boxed)
    ]

-- A child may change but for its name, its mailbox and the state of its task.
pub IsLed-updated :
    (ident : ℕ) (old new : ActorChild) (n : Node)
    → Dict.get n.children ident ≡ some old
    → (new.name ≡ old.name) × (new.mailbox ≡ old.mailbox) × (new.task ≡ old.task)
    → IsLed n
    → IsLed (record n { children = Dict.put n.children ident new })
IsLed-updated ident old new n found same led name other e =
    let (child, found', named, alive, boxed) = led name other e in
    elim (Bool-cases (ident == other)) [
      | inl p ↦
          let agree : old ≡ child =
            some-injective _ _
              (sym found ∙ ap (Dict.get n.children) ((==_iff ident other).0 p) ∙ found') in
          (
            new,
            ground (arith, get-put n.children ident other new),
            same.0 ∙ ap (λ c. c.name) agree ∙ named,
            same.2 ∙ ap (λ c. c.task) agree ∙ alive,
            boxed ∙ ap (λ k. some k) (ap (λ c. c.mailbox) (sym agree) ∙ sym same.1),
          )
      | inr p ↦ (child, ground (arith, get-put n.children ident other new), named, alive, boxed)
    ]

-- A child whose name is not live does not run.
pub IsUnled-name :
    (ident : ℕ) (child : ActorChild) (n : Node)
    → IsLed n
    → Dict.get n.children ident ≡ some child
    → Dict.get n.live_children child.name ≡ none
    → IsUnled ident n
IsUnled-name ident child n led e gone name h =
    let (child', found, named, alive, boxed) = led name ident h in
    let same : child.name ≡ name =
      ap (λ (c : ActorChild). c.name) (some-injective _ _ (sym e ∙ found)) ∙ named in
    cc (sym h ∙ ap (Dict.get n.live_children) (sym same) ∙ gone)

-- The end of a generation, whatever has become of its child.
module _ (ident : ℕ) (child new : ActorChild) (n : Node)
    (found : Dict.get n.children ident ≡ some child) where
  ended : Node
  ended = (end_generation child.name (set_child ident new n)).node

  live-ended :
      (name : String)
      → Dict.get ended.live_children name
        ≡ (if child.name == name then none else Dict.get n.live_children name)
  unfolding ended set_child
  live-ended name = (end_generation-records child.name name (set_child ident new n)).1

  pub IsUnled-end_generation :
      (other : ℕ)
      → IsUnled other n
      → IsUnled other (end_generation child.name (set_child ident new n)).node
  unfolding ended
  IsUnled-end_generation other unled name h = elim (Bool-cases (child.name == name)) [
    | inl p ↦ ground (arith, live-ended name)
    | inr p ↦ unled name (ground (arith, live-ended name))
  ]

  pub IsUnled-ended :
      IsLed n → IsUnled ident (end_generation child.name (set_child ident new n)).node
  unfolding ended
  IsUnled-ended led name h = elim (Bool-cases (child.name == name)) [
    | inl p ↦ ground (arith, live-ended name)
    | inr p ↦
        let (child', found', named, _, _) = led name ident (ground (arith, live-ended name)) in
        ground (
          arith,
          (==_iff child.name name).1,
          ap (λ (c : ActorChild). c.name) (some-injective _ _ (sym found ∙ found')),
        )
  ]

  pub IsLed-end_generation :
      IsLed n → IsLed (end_generation child.name (set_child ident new n)).node
  unfolding ended set_child
  IsLed-end_generation led name other h = elim (Bool-cases (child.name == name)) [
    | inl p ↦ ground (arith, live-ended name)
    | inr p ↦
        let (child', found', named, alive, boxed) =
          led name other (ground (arith, live-ended name)) in
        elim (Bool-cases (ident == other)) [
          | inl q ↦
              absurd (
                IsUnled-ended led name
                  (h ∙ ap (λ (k : ℕ). some k) (sym ((==_iff ident other).0 q))))
          | inr q ↦ (
            child',
            ap (λ d. Dict.get d other) (children-end_generation child.name (set_child ident new n))
                ∙ ground (arith, get-put n.children ident other new),
            named,
            alive,
            ground (arith, (end_generation-records child.name name (set_child ident new n)).0),
          )
        ]
  ]
