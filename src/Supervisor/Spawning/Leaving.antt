-- ===== src/Supervisor/Spawning/Leaving.antt =====
-- What the stop of a pool leaves of its supervisor's children (lapinbeam/refs.py).
use lapinbeam.Prelude.{
  ℕ, List, [], ◌∷◌, Bool, true, false, not, ◌&&◌, elem, ◌==◌, ==_iff, ◌≡◌, refl, if◌then◌else◌,
  nat_eq, arith,
}
use lapinbeam.Node.State.{Node}
use lapinbeam.Supervisor.{Supervisor, remove_first, discard_child}
use lapinbeam.Supervisor.Lifecycle.{System}
use lapinbeam.Supervisor.Spawning.{PoolRef, discard_children, stop_pool}

-- No number stands twice in a list.
unfoldable pub distinct : List ℕ → Bool
distinct [] = true
distinct (x ∷ xs) = not (elem x xs) && distinct xs

elem-remove_first :
    (child other : ℕ) (xs : List ℕ)
    → distinct xs ≡ true
    → elem other (remove_first child xs) ≡ (if child == other then false else elem other xs)
unfolding distinct remove_first elem
elem-remove_first child other [] h = ground arith
elem-remove_first child other (x ∷ xs) h =
    ground
      (arith, elem-remove_first child other xs, ==_iff x child, ==_iff other x, ==_iff child other)

distinct-remove_first :
    (child : ℕ) (xs : List ℕ) → distinct xs ≡ true → distinct (remove_first child xs) ≡ true
unfolding distinct remove_first elem
distinct-remove_first child [] h = refl
distinct-remove_first child (x ∷ xs) h =
    ground (arith, distinct-remove_first child xs, elem-remove_first child x xs)

elem-discard_children :
    (idents : List ℕ) (other : ℕ) (s : Supervisor)
    → distinct s.children ≡ true
    → elem other (discard_children idents s).children
      ≡ (elem other s.children && not (elem other idents))
unfolding discard_children discard_child elem
elem-discard_children [] other s h = ground arith
elem-discard_children (ident ∷ idents) other s h = ground (
  arith,
  elem-discard_children idents other (discard_child ident s),
  elem-remove_first ident other s.children,
  distinct-remove_first ident s.children,
  ==_iff ident other,
  ==_iff other ident,
)

-- The stop of a pool takes its dispatcher and its workers, and no other child, out of the list of
-- its supervisor, where no child is listed twice.
pub stop_pool-children :
    (overlapping : ℕ → Node → Node) (pool : PoolRef) (other : ℕ) (sys : System)
    → distinct sys.supervisor.children ≡ true
    → elem other (stop_pool overlapping pool sys).supervisor.children
      ≡ (elem other sys.supervisor.children && not (elem other (pool.dispatcher ∷ pool.workers)))
unfolding stop_pool
stop_pool-children overlapping pool other sys h =
    elem-discard_children (pool.dispatcher ∷ pool.workers) other sys.supervisor h
