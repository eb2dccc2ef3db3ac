-- ===== src/Supervisor/Spawning/Once.antt =====
-- `_PoolSpawn` of lapinbeam/supervisor.py: what `spawn_pool` gives before its pool is built.
use lapinbeam.Prelude.{
  ℕ, Option, none, some, ◌∷◌, elem, not, ◌&&◌, ◌≡◌, ◌∙◌, ap, nat_eq, true, arith, Option-cases, inl,
  inr,
}
use lapinbeam.Node.State.{Node, Result, return, raise}
use lapinbeam.Supervisor.Lifecycle.{System}
use lapinbeam.Supervisor.Spawning.{PoolRef, stop_pool}
use lapinbeam.Supervisor.Spawning.Leaving.{distinct, stop_pool-children}

-- `make` is `_spawn_pool` with the arguments that the object keeps.
pub record PoolSpawn : Type 0 where
  pub make : System → Result PoolRef × System
  pub pool : Option PoolRef

made : PoolSpawn → Result PoolRef × System → Result PoolRef × (PoolSpawn × System)
made s (raise e, sys) = (raise e, (s, sys))
made s (return pool, sys) = (return pool, (record s { pool = some pool }, sys))

-- `_build`, which `__await__` and `__aenter__` call
unfoldable pub build : PoolSpawn × System → Result PoolRef × (PoolSpawn × System)
unfolding made
build (s, sys) = elim s.pool [ some pool ↦ (return pool, (s, sys)) | none ↦ made s (s.make sys) ]

-- `__aexit__`
unfoldable pub leave : (overlapping : ℕ → Node → Node) → PoolSpawn × System → PoolSpawn × System
leave overlapping (s, sys) = elim s.pool [
  | none ↦ (s, sys)
  | some pool ↦ (s, stop_pool overlapping pool sys)
]

kept-made :
    (s : PoolSpawn) (r : Result PoolRef × System) (pool : PoolRef)
    → (made s r).0 ≡ return pool
    → (made s r).1.0.pool ≡ some pool
unfolding made
kept-made s (raise e, sys) pool h = ground arith
kept-made s (return p, sys) pool h = ground arith

-- The pool that a build returns is kept.
build_keeps :
    (s : PoolSpawn) (sys : System) (pool : PoolRef)
    → (build (s, sys)).0 ≡ return pool
    → (build (s, sys)).1.0.pool ≡ some pool
unfolding build
build_keeps s sys pool h = elim (Option-cases s.pool) [
  | inl e ↦ rw (e, build) (kept-made s (s.make sys) pool (rw (e, build) at h))
  | inr (p, e) ↦ ground (arith, e)
]

build_kept :
    (s : PoolSpawn) (sys : System) (pool : PoolRef)
    → s.pool ≡ some pool
    → build (s, sys) ≡ (return pool, (s, sys))
unfolding build
build_kept s sys pool e =
    ap
      (λ o. elim o as (λ _. Result PoolRef × (PoolSpawn × System)) [
        | some pool ↦ (return pool, (s, sys))
        | none ↦ made s (s.make sys)
      ])
      e

-- A second build returns the pool of the first and spawns nothing.
build_once :
    (s : PoolSpawn) (sys : System) (pool : PoolRef)
    → (build (s, sys)).0 ≡ return pool
    → build (build (s, sys)).1 ≡ (return pool, (build (s, sys)).1)
build_once s sys pool h =
    build_kept (build (s, sys)).1.0 (build (s, sys)).1.1 pool (build_keeps s sys pool h)

leave_kept :
    (overlapping : ℕ → Node → Node) (s : PoolSpawn) (sys : System) (pool : PoolRef)
    → s.pool ≡ some pool
    → (leave overlapping (s, sys)).1 ≡ stop_pool overlapping pool sys
unfolding leave
leave_kept overlapping s sys pool e =
    ap
      (λ o.
        (elim o as (λ _. PoolSpawn × System) [
          | none ↦ (s, sys)
          | some pool ↦ (s, stop_pool overlapping pool sys)
        ]).1)
      e

-- An `async with` over a pool takes the children of that pool, and no other, off the list again,
-- where no child is listed twice when it is left.
async_with :
    (overlapping : ℕ → Node → Node) (s : PoolSpawn) (sys : System) (pool : PoolRef) (other : ℕ)
    → (build (s, sys)).0 ≡ return pool
    → distinct (build (s, sys)).1.1.supervisor.children ≡ true
    → elem other (leave overlapping (build (s, sys)).1).1.supervisor.children ≡ (
        elem other (build (s, sys)).1.1.supervisor.children
        && not (elem other (pool.dispatcher ∷ pool.workers)))
async_with overlapping s sys pool other h unique =
    let (s', sys') = (build (s, sys)).1 in
    ap (λ k. elem other k.supervisor.children)
      (leave_kept overlapping s' sys' pool (build_keeps s sys pool h))
    ∙ stop_pool-children overlapping pool other sys' unique
