-- ===== src/Supervisor/Reach/Cancels.antt =====
-- Cancelled children and the names of those that live (lapinbeam/supervisor.py).
use lapinbeam.Prelude.{
  ℕ, none, some, List, [], ◌∷◌, ◌≡◌, ◌≢◌, ◌⊎◌, All, refl, sym, ◌∙◌, ap, subst, string_eq, nat_eq,
  arith, Option-cases, inl, inr,
}
use mathlib.Core.Option.{some-injective}
use lapinbeam.Dict
use lapinbeam.Messages.{shutdown}
use lapinbeam.Node.State.{
  Node, ActorChild, TaskState, unset, scheduled, live, backing_off, over, absent, done,
}
use lapinbeam.Supervisor.Lifecycle.{
  end_generation, set_child, cancel_child, cancel_live, end_cancelled, cancel_children, respawn,
  respawn_all,
}
use lapinbeam.Supervisor.Reach.Led.{
  IsLed, IsUnled, IsLed-set_child, IsUnled-end_generation, IsUnled-ended, IsLed-end_generation,
}
use lapinbeam.Supervisor.Reach.Ops.{IsLed-tell_ended, IsUnled-tell_ended}

-- From the first node to the second the child ceases to run, and no other child begins to.
abbrev pub Retires : ℕ → Node → Node → Type 0
Retires ident n n' =
    IsLed n → IsLed n' × IsUnled ident n' × ((other : ℕ) → IsUnled other n → IsUnled other n')

-- A child whose task does not wait for a driver does not run.
pub IsUnled-task :
    (ident : ℕ) (child : ActorChild) (n : Node)
    → Dict.get n.children ident ≡ some child
    → child.task ≢ live
    → IsLed n
    → IsUnled ident n
IsUnled-task ident child n found idle led name h =
    let (child', found', _, alive, _) = led name ident h in
    idle (ap (λ (c : ActorChild). c.task) (some-injective _ _ (sym found ∙ found')) ∙ alive)

module _ (ident : ℕ) (child : ActorChild) (n : Node)
    (found : Dict.get n.children ident ≡ some child) where
  Retires-set_child :
      (new : ActorChild) → child.task ≢ live → Retires ident n (set_child ident new n)
  unfolding set_child
  Retires-set_child new idle led =
      let unled = IsUnled-task ident child n found idle led in
      (IsLed-set_child ident new n led unled, unled, λ other u. u)

  Retires-end_cancelled : Retires ident n (end_cancelled ident child n)
  unfolding end_cancelled
  Retires-end_cancelled led =
      let new = record child { driver = done; task = over } in
      let ended = end_generation child.name (set_child ident new n) in
      (
        IsLed-tell_ended child.name ended shutdown
            (IsLed-end_generation ident child new n found led),
        IsUnled-tell_ended child.name ended shutdown ident
            (IsUnled-ended ident child new n found led),
        λ other u.
            IsUnled-tell_ended child.name ended shutdown other
              (IsUnled-end_generation ident child new n found other u),
      )

  unmoved : child.task ≢ live → Retires ident n n
  unmoved idle led = (led, IsUnled-task ident child n found idle led, λ other u. u)

  -- The child is left alone, marked as over, or ended with the clean-up of its branch.
  pub cancel_live-cases :
      (state : TaskState)
      → child.task ≡ state
      → ((child.task ≢ live) × (n ≡ cancel_live ident child n))
        ⊎ ((child.task ≢ live)
            × (set_child ident (record child { task = over }) n ≡ cancel_live ident child n))
        ⊎ (end_cancelled ident child n ≡ cancel_live ident child n)
  unfolding cancel_live
  cancel_live-cases unset h = inl (λ e. cc (sym h ∙ e), ground (arith, h))
  cancel_live-cases scheduled h = inr (inl (λ e. cc (sym h ∙ e), ground (arith, h)))
  cancel_live-cases live h = inr (inr (ground (arith, h)))
  cancel_live-cases backing_off h = inr (inl (λ e. cc (sym h ∙ e), ground (arith, h)))
  cancel_live-cases over h = inl (λ e. cc (sym h ∙ e), ground (arith, h))

  pub Retires-cancel_live : Retires ident n (cancel_live ident child n)
  Retires-cancel_live = elim (cancel_live-cases child.task refl) [
    | inl (idle, e) ↦ subst (Retires ident n) e (unmoved idle)
    | inr (inl (idle, e)) ↦ subst (Retires ident n) e (Retires-set_child _ idle)
    | inr (inr e) ↦ subst (Retires ident n) e Retires-end_cancelled
  ]

  pub cancel_child-cases :
      (overlapping : ℕ → Node → Node) (state : TaskState)
      → child.task ≡ state
      → (cancel_live ident child n ≡ cancel_child overlapping ident n)
        ⊎ (overlapping ident n ≡ cancel_child overlapping ident n)
  unfolding cancel_child
  cancel_child-cases overlapping live h = elim (Option-cases child.pending_exit) [
    | inl quiet ↦ inl (ground (arith, found, quiet))
    | inr (why, pending) ↦ inr (ground (arith, found, pending, h))
  ]
  cancel_child-cases overlapping _ h = inl (ground (arith, found, h))

-- What the overlap does with a child that has an exit pending is taken to end its run as well.
module _ (overlapping : ℕ → Node → Node)
    (ends : (ident : ℕ) (n : Node) → Retires ident n (overlapping ident n)) where
  pub Retires-cancel_child :
      (ident : ℕ) (n : Node) → Retires ident n (cancel_child overlapping ident n)
  unfolding cancel_child
  Retires-cancel_child ident n = elim (Option-cases (Dict.get n.children ident)) [
    | inl e ↦
        let same : n ≡ cancel_child overlapping ident n = ground (arith, e) in
        subst (Retires ident n) same
          (λ led. (led, λ name h. cc (sym e ∙ (led name ident h).1), λ other u. u))
    | inr (child, e) ↦ elim (cancel_child-cases ident child n e overlapping child.task refl) [
      | inl same ↦ subst (Retires ident n) same (Retires-cancel_live ident child n e)
      | inr same ↦ subst (Retires ident n) same (ends ident n)
    ]
  ]

  -- Every child of the list ceases to run.
  pub Retires-cancel_children :
      (cs : List ℕ) (n : Node)
      → IsLed n
      → IsLed (cancel_children overlapping cs n)
        × All (λ c. IsUnled c (cancel_children overlapping cs n)) cs
        × ((other : ℕ) → IsUnled other n → IsUnled other (cancel_children overlapping cs n))
  unfolding cancel_children
  Retires-cancel_children [] n led = (led, tt, λ other u. u)
  Retires-cancel_children (c ∷ cs) n led =
      let (led', unled, others) = Retires-cancel_child c n led in
      let (led'', all, others') = Retires-cancel_children cs (cancel_child overlapping c n) led' in
      (led'', (others' c unled, all), λ other u. others' other (others other u))

-- Children that do not run are scheduled anew.
pub IsLed-respawn_all :
    (cs : List ℕ) (n : Node) → All (λ c. IsUnled c n) cs → IsLed n → IsLed (respawn_all cs n)
unfolding respawn_all
IsLed-respawn_all [] n unled led = led
IsLed-respawn_all (c ∷ cs) n (unled, more) led =
    IsLed-respawn_all cs (respawn c n) (still cs more) (again (Option-cases _))
  where
    again :
        (Dict.get n.children c ≡ none)
          ⊎ ((child : ActorChild) × (Dict.get n.children c ≡ some child))
        → IsLed (respawn c n)
    again (inl e) = let same : n ≡ respawn c n = ground (arith, e) in subst IsLed same led
    again (inr (child, e)) =
        let same : set_child c (record child { driver = absent; task = scheduled }) n
            ≡ respawn c n =
          ground (arith, e) in
        subst IsLed same (IsLed-set_child c _ n led unled)

    same_names : (respawn c n).live_children ≡ n.live_children
    same_names = elim (Option-cases (Dict.get n.children c)) [
      | inl e ↦ ground (arith, e)
      | inr (child, e) ↦ ground (arith, e)
    ]

    still :
        (others : List ℕ)
        → All (λ c. IsUnled c n) others
        → All (λ other. IsUnled other (respawn c n)) others
    still [] _ = tt
    still (o ∷ os) (u, us) =
        (λ name h. u name (ap (λ d. Dict.get d name) (sym same_names) ∙ h), still os us)
