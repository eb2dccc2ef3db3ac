-- ===== src/Supervisor/Strategies.antt =====
-- Which children a crash takes with it, for each strategy of lapinbeam/supervisor.py.
use lapinbeam.Prelude.{
  ℕ, List, [], ◌∷◌, ◌++◌, true, false, elem, ◌==◌, ==_iff, ==_self, ◌≡◌, refl, ap, sym, ◌∙◌, nat_eq,
  string_eq, arith, Bool-cases, inl, inr,
}
use lapinbeam.Node.State.{return}
use lapinbeam.Supervisor.{
  Supervisor, Strategy, one_for_one, one_for_all, rest_for_one, from_child, affected_children,
  affected_by, discard_child, remove_first,
}

-- The list of children, cut before the first that is `child`.
pub record Cut (child : ℕ) (children : List ℕ) : Type 0 where
  pub before : List ℕ
  pub since : List ℕ
  pub whole : children ≡ before ++ child ∷ since
  pub first : elem child before ≡ false

pub cut : (child : ℕ) (children : List ℕ) → elem child children ≡ true → Cut child children
unfolding elem
cut child [] h = cc
cut child (c ∷ cs) h = elim (Bool-cases (child == c)) [
  | inl e ↦ record {
    before = [];
    since = cs;
    whole = ap (λ k. k ∷ cs) (sym ((==_iff child c).0 e));
    first = refl;
  }
  | inr e ↦
      let rest = cut child cs (ground arith) in
      record {
        before = c ∷ rest.before;
        since = rest.since;
        whole = ap (λ k. c ∷ k) rest.whole;
        first = rw (e, rest.first) refl;
      }
]

from_child-cut :
    (child : ℕ) (before since : List ℕ)
    → elem child before ≡ false
    → from_child child (before ++ child ∷ since) ≡ return (child ∷ since)
unfolding from_child elem
from_child-cut child [] since h = rw (==_self child) refl
from_child-cut child (c ∷ cs) since h =
    ground (arith, from_child-cut child cs since, ==_iff child c, ==_iff c child)

affected_by-Cut :
    (strategy : Strategy) (child : ℕ) (children : List ℕ) (c : Cut child children)
    → affected_by strategy child children
      ≡ return (elim strategy [
        | one_for_one ↦ child ∷ []
        | one_for_all ↦ c.before ++ child ∷ c.since
        | rest_for_one ↦ child ∷ c.since
      ])
unfolding affected_by
affected_by-Cut one_for_one child children c = refl
affected_by-Cut one_for_all child children c = ap return c.whole
affected_by-Cut rest_for_one child children c =
    ap (from_child child) c.whole ∙ from_child-cut child c.before c.since c.first

-- For a child that stands in the list of children after `before`, and not in `before`, a crash
-- affects: the child alone (`one_for_one`); the whole list (`one_for_all`); the child and those
-- after it (`rest_for_one`).
pub affected_children-Cut :
    (child : ℕ) (s : Supervisor) (c : Cut child s.children)
    → affected_children child s
      ≡ return (elim s.strategy [
        | one_for_one ↦ child ∷ []
        | one_for_all ↦ c.before ++ child ∷ c.since
        | rest_for_one ↦ child ∷ c.since
      ])
unfolding affected_children
affected_children-Cut child s c = affected_by-Cut s.strategy child s.children c

remove_first-cut :
    (child : ℕ) (before since : List ℕ)
    → elem child before ≡ false
    → remove_first child (before ++ child ∷ since) ≡ before ++ since
unfolding remove_first elem
remove_first-cut child [] since h = rw (==_self child) refl
remove_first-cut child (c ∷ cs) since h =
    ground (arith, remove_first-cut child cs since, ==_iff child c, ==_iff c child)

-- A child that is gone for good leaves the list of children, and the others keep their order.
pub discard_child-Cut :
    (child : ℕ) (s : Supervisor) (c : Cut child s.children)
    → (discard_child child s).children ≡ c.before ++ c.since
unfolding discard_child
discard_child-Cut child s c =
    ap (remove_first child) c.whole ∙ remove_first-cut child c.before c.since c.first
