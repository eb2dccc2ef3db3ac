-- ===== src/Dict.antt =====
-- Python's `dict` and `set` over keys with `==`. A dict keeps the order of insertion and has one
-- entry for each key; assigning to a key that is present keeps its place. A set is a dict of unit
-- values: the order in which Python walks a set is not specified, and this is one such order.
-- The representation is private: other modules have `dict_laws` and `set_laws`.
mod Assoc
unfoldable pub use Assoc.{lookup as find, any_at}
use Assoc.{
  lookup, store, without, Unique, Unique-store, Unique-without, lookup-store, lookup-without,
  keys_where, elem-keys_where, map_values, lookup-map_values, Unique-map_values, without_all,
  lookup-without_all, Unique-without_all, any_at-lookup, entries_found, mem-lookup,
}
use mathlib.Core.List.{Mem}
use lapinbeam.Prelude.{
  Eq, All, ◌==◌, Bool, true, false, Option, none, some, List, [], map, elem, is_some, ◌≡◌, refl,
  arith, if◌then◌else◌,
}

pub record Dict {ℓ} (K V : Type ℓ) ⦃e : Eq K⦄ : Type ℓ where
  entries : List (K × V)
  unique : Unique entries

abbrev pub check {ℓ} : {V : Type ℓ} → (V → Bool) → Option V → Bool
check test none = false
check test (some v) = test v

module _ {ℓ} {K V : Type ℓ} ⦃e : Eq K⦄ where
  unfoldable pub empty : Dict K V
  empty = record { entries = []; unique = tt }

  -- `d.get(k)`
  unfoldable pub get : Dict K V → K → Option V
  unfolding lookup
  get d k = lookup k d.entries

  -- `d[k] = v`
  unfoldable pub put : Dict K V → K → V → Dict K V
  unfolding store
  put d k v = record { entries = store k v d.entries; unique = Unique-store k v d.entries d.unique }

  -- `d.pop(k, None)`, `del d[k]`
  unfoldable pub remove : Dict K V → K → Dict K V
  unfolding without
  remove d k = record {
    entries = without k d.entries;
    unique = Unique-without k d.entries d.unique;
  }

  -- `k in d`
  unfoldable pub has : Dict K V → K → Bool
  unfolding get
  has d k = is_some (get d k)

  -- `d.items()`
  unfoldable pub items : Dict K V → List (K × V)
  items d = d.entries

  -- `[k for k, v in d.items() if test(v)]`
  unfoldable pub keys_of : (V → Bool) → Dict K V → List K
  unfolding keys_where
  keys_of test d = keys_where test d.entries

  -- `for k in ks: del d[k]`
  unfoldable pub remove_all : Dict K V → List K → Dict K V
  unfolding without_all
  remove_all d ks = record {
    entries = without_all ks d.entries;
    unique = Unique-without_all ks d.entries d.unique;
  }

  -- A change of each value in place.
  unfoldable pub update_values : (V → V) → Dict K V → Dict K V
  unfolding map_values
  update_values f d = record {
    entries = map_values f d.entries;
    unique = Unique-map_values f d.entries d.unique;
  }

  pub get-empty : (k : K) → get empty k ≡ none
  unfolding get empty lookup
  get-empty k = refl

  pub get-put :
      (d : Dict K V) (k j : K) (v : V) → get (put d k v) j ≡ (if k == j then some v else get d j)
  unfolding get put
  get-put d k j v = lookup-store k j v d.entries

  pub get-remove :
      (d : Dict K V) (gone j : K) → get (remove d gone) j ≡ (if gone == j then none else get d j)
  unfolding get remove
  get-remove d gone j = lookup-without gone j d.entries

  pub get-remove_all :
      (d : Dict K V) (ks : List K) (j : K)
      → get (remove_all d ks) j ≡ (if elem j ks then none else get d j)
  unfolding get remove_all
  get-remove_all d ks j = lookup-without_all ks j d.entries

  pub get-update_values :
      (f : V → V) (d : Dict K V) (j : K)
      → get (update_values f d) j ≡ (elim (get d j) [ none ↦ none | some v ↦ some (f v) ])
  unfolding get update_values
  get-update_values f d j = lookup-map_values f j d.entries

  pub elem-keys_of :
      (test : V → Bool) (d : Dict K V) (j : K) → elem j (keys_of test d) ≡ check test (get d j)
  unfolding get keys_of
  elem-keys_of test d j = elem-keys_where test j d.entries d.unique

  pub find-items : (d : Dict K V) (k : K) → find k (items d) ≡ get d k
  unfolding get items
  find-items d k = refl

  pub any_at-items :
      (d : Dict K V) (k : K) (test : V → Bool) → any_at k test (items d) ≡ check test (get d k)
  unfolding get items
  any_at-items d k test = any_at-lookup k test d.entries d.unique

  -- The entries are what is found under their keys.
  pub items_found : (d : Dict K V) → All (λ p. get d p.0 ≡ some p.1) (items d)
  unfolding get items
  items_found d = entries_found d.entries d.unique

  pub mem-items : (d : Dict K V) (k : K) (v : V) → get d k ≡ some v → Mem (k, v) (items d)
  unfolding get items
  mem-items d k v h = mem-lookup k v d.entries h

  pub has-get : (d : Dict K V) (k : K) → has d k ≡ is_some (get d k)
  unfolding has
  has-get d k = refl

pub ruleset dict_laws =
    (get-empty, get-put, get-remove, get-remove_all, get-update_values, elem-keys_of, has-get)

abbrev pub Set {ℓ} : (A : Type ℓ) → ⦃e : Eq A⦄ → Type ℓ
Set A = Dict A (Unit {_})

module _ {ℓ} {A : Type ℓ} ⦃e : Eq A⦄ where
  -- `set()`
  unfoldable pub no_elements : Set A
  unfolding empty
  no_elements = empty

  -- `s.add(a)`
  unfoldable pub add : Set A → A → Set A
  unfolding put
  add s a = put s a tt

  -- `s.discard(a)`
  unfoldable pub discard : Set A → A → Set A
  unfolding remove
  discard s a = remove s a

  -- `s.difference_update(xs)`
  unfoldable pub discard_all : Set A → List A → Set A
  unfolding remove_all
  discard_all s xs = remove_all s xs

  -- `a in s`
  unfoldable pub contains : Set A → A → Bool
  unfolding has
  contains s a = has s a

  -- `list(s)`
  unfoldable pub to_list : Set A → List A
  unfolding keys_of
  to_list s = keys_of (λ _. true) s

  pub contains-no_elements : (a : A) → contains no_elements a ≡ false
  unfolding contains no_elements lookup
  contains-no_elements a = refl

  pub contains-add :
      (s : Set A) (a b : A) → contains (add s a) b ≡ (if a == b then true else contains s b)
  unfolding contains add
  contains-add s a b = ground (arith, lookup-store a b tt s.entries)

  pub contains-discard :
      (s : Set A) (a b : A) → contains (discard s a) b ≡ (if a == b then false else contains s b)
  unfolding contains discard
  contains-discard s a b = ground (arith, lookup-without a b s.entries)

  pub contains-discard_all :
      (s : Set A) (xs : List A) (b : A)
      → contains (discard_all s xs) b ≡ (if elem b xs then false else contains s b)
  unfolding contains discard_all
  contains-discard_all s xs b = ground (arith, lookup-without_all xs b s.entries)

  pub elem-to_list : (s : Set A) (a : A) → elem a (to_list s) ≡ contains s a
  unfolding to_list contains
  elem-to_list s a = ground (arith, elem-keys_where (λ _. true) a s.entries s.unique)

pub ruleset set_laws =
    (contains-no_elements, contains-add, contains-discard, contains-discard_all, elem-to_list)
