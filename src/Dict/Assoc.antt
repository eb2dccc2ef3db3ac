-- ===== src/Dict/Assoc.antt =====
-- Association lists with one entry for each key.
use mathlib.Core.List.{Mem, mem-cons_self, mem-cons_of_mem}
use mathlib.Core.Option.{some-injective}
use lapinbeam.Prelude.{
  All, Bool-cases, inl, inr, elem, Eq, ◌&&◌, ◌||◌, ◌==◌, ==_iff, Bool, false, Option, none, some,
  List, [], ◌∷◌, ◌≡◌, refl, ap, sym, arith, if◌then◌else◌,
}

module _ {ℓ} {K V : Type ℓ} ⦃e : Eq K⦄ where
  unfoldable pub lookup : K → List (K × V) → Option V
  lookup key [] = none
  lookup key ((k, v) ∷ rest) = if k == key then some v else lookup key rest

  unfoldable pub store : K → V → List (K × V) → List (K × V)
  store key v [] = (key, v) ∷ []
  store key v ((k, w) ∷ rest) = if k == key then (k, v) ∷ rest else (k, w) ∷ store key v rest

  unfoldable pub without : K → List (K × V) → List (K × V)
  without key [] = []
  without key ((k, v) ∷ rest) =
      let kept = without key rest in if k == key then kept else (k, v) ∷ kept

  abbrev pub Unique : List (K × V) → Type ℓ
  Unique [] = Unit
  Unique ((k, v) ∷ l) = (lookup k l ≡ none) × Unique l

  pub lookup-store :
      (k j : K) (v : V) (l : List (K × V))
      → lookup j (store k v l) ≡ (if k == j then some v else lookup j l)
  unfolding lookup store
  lookup-store k j v [] = ground arith
  lookup-store k j v ((i, w) ∷ l) =
      ground (arith, lookup-store k j v l, ==_iff i k, ==_iff i j, ==_iff k j)

  pub lookup-without :
      (k j : K) (l : List (K × V)) → lookup j (without k l) ≡ (if k == j then none else lookup j l)
  unfolding lookup without
  lookup-without k j [] = ground arith
  lookup-without k j ((first, v) ∷ rest) =
      ground (arith, ==_iff k j, ==_iff first k, ==_iff first j, lookup-without k j rest)

  pub Unique-store : (k : K) (v : V) (l : List (K × V)) → Unique l → Unique (store k v l)
  unfolding lookup store
  Unique-store k v [] u = ground arith
  Unique-store k v ((j, w) ∷ l) u =
      ground (arith, lookup-store k j v l, Unique-store k v l u.1, ==_iff j k, ==_iff k j)

  pub Unique-without : (k : K) (l : List (K × V)) → Unique l → Unique (without k l)
  unfolding lookup without
  Unique-without k [] u = u
  Unique-without k ((j, w) ∷ l) u = ground (arith, lookup-without k j l, Unique-without k l u.1)

  -- The keys of the entries whose value passes the test, in their order.
  unfoldable pub keys_where : (V → Bool) → List (K × V) → List K
  keys_where test [] = []
  keys_where test ((k, v) ∷ l) = let rest = keys_where test l in if test v then k ∷ rest else rest

  pub elem-keys_where :
      (test : V → Bool) (j : K) (l : List (K × V))
      → Unique l
      → elem j (keys_where test l) ≡ (elim (lookup j l) [ none ↦ false | some v ↦ test v ])
  unfolding lookup keys_where elem
  elem-keys_where test j [] u = refl
  elem-keys_where test j ((i, v) ∷ l) u =
      ground (arith, elem-keys_where test j l u.1, ==_iff i j, ==_iff j i)

  unfoldable pub map_values : (V → V) → List (K × V) → List (K × V)
  map_values f [] = []
  map_values f ((k, v) ∷ l) = (k, f v) ∷ map_values f l

  pub lookup-map_values :
      (f : V → V) (j : K) (l : List (K × V))
      → lookup j (map_values f l) ≡ (elim (lookup j l) [ none ↦ none | some v ↦ some (f v) ])
  unfolding lookup map_values
  lookup-map_values f j [] = refl
  lookup-map_values f j ((i, v) ∷ l) = ground (arith, lookup-map_values f j l)

  pub Unique-map_values : (f : V → V) (l : List (K × V)) → Unique l → Unique (map_values f l)
  unfolding map_values
  Unique-map_values f [] u = u
  Unique-map_values f ((i, v) ∷ l) u =
      ground (arith, lookup-map_values f i l, Unique-map_values f l u.1)

  unfoldable pub without_all : List K → List (K × V) → List (K × V)
  without_all [] l = l
  without_all (k ∷ ks) l = without_all ks (without k l)

  pub lookup-without_all :
      (ks : List K) (j : K) (l : List (K × V))
      → lookup j (without_all ks l) ≡ (if elem j ks then none else lookup j l)
  unfolding without_all elem
  lookup-without_all [] j l = refl
  lookup-without_all (k ∷ ks) j l =
      ground
        (arith, lookup-without_all ks j (without k l), lookup-without k j l, ==_iff k j, ==_iff j k)

  pub Unique-without_all : (ks : List K) (l : List (K × V)) → Unique l → Unique (without_all ks l)
  unfolding without_all
  Unique-without_all [] l u = u
  Unique-without_all (k ∷ ks) l u = Unique-without_all ks (without k l) (Unique-without k l u)

  -- Some entry with the key has a value that passes the test.
  unfoldable pub any_at : K → (V → Bool) → List (K × V) → Bool
  any_at k test [] = false
  any_at k test ((j, v) ∷ l) = (j == k && test v) || any_at k test l

  pub any_at_absent :
      (k : K) (test : V → Bool) (l : List (K × V)) → lookup k l ≡ none → any_at k test l ≡ false
  unfolding lookup any_at
  any_at_absent k test [] h = refl
  any_at_absent k test ((j, v) ∷ l) h = ground (arith, any_at_absent k test l)

  pub any_at-lookup :
      (k : K) (test : V → Bool) (l : List (K × V))
      → Unique l
      → any_at k test l ≡ (elim (lookup k l) [ none ↦ false | some v ↦ test v ])
  unfolding lookup any_at
  any_at-lookup k test [] u = refl
  any_at-lookup k test ((j, v) ∷ l) u =
      ground (arith, any_at-lookup k test l u.1, any_at_absent k test l, ==_iff j k)

  -- An entry is found under its key, and what is found is an entry.
  FoundUnder : List (K × V) → K × V → Type ℓ
  FoundUnder l p = lookup p.0 l ≡ some p.1

  found_later :
      (k : K) (v : V) (l xs : List (K × V))
      → lookup k l ≡ none
      → All (FoundUnder l) xs
      → All (FoundUnder ((k, v) ∷ l)) xs
  unfolding FoundUnder lookup
  found_later k v l [] free h = tt
  found_later k v l ((j, w) ∷ xs) free (e, h) = (
    elim (Bool-cases (k == j)) [
      | inl p ↦ cc (ap (λ i. lookup i l) ((==_iff k j).0 p), e, free)
      | inr p ↦ rw p e
    ],
    found_later k v l xs free h,
  )

  pub entries_found : (l : List (K × V)) → Unique l → All (λ p. lookup p.0 l ≡ some p.1) l
  unfolding FoundUnder lookup
  entries_found [] u = tt
  entries_found ((k, v) ∷ l) (free, u) =
      (ground (arith, ==_iff k k), found_later k v l l free (entries_found l u))

  pub mem-lookup : (k : K) (v : V) (l : List (K × V)) → lookup k l ≡ some v → Mem (k, v) l
  unfolding lookup
  mem-lookup k v [] h = cc
  mem-lookup k v ((j, w) ∷ l) h = elim (Bool-cases (j == k)) [
    | inl e ↦ rw (sym ((==_iff j k).0 e), some-injective _ _ (sym (rw e at h))) mem-cons_self
    | inr e ↦ mem-cons_of_mem (j, w) (mem-lookup k v l (rw e at h))
  ]
