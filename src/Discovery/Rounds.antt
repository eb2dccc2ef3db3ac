-- ===== src/Discovery/Rounds.antt =====
-- How many rounds the search of lapinbeam/discovery.py takes.
use lapinbeam.Prelude.{
  ℕ, zero, suc, ◌≤◌, ◌<◌, String, some, List, [], ◌∷◌, true, false, not, ==_iff, ==_self, ◌≡◌, ◌⊎◌,
  inl, inr, refl, ap, keep, elem, elem-keep, elem-append, length, length-keep-le, string_eq, arith,
}
use lapinbeam.Dict
use lapinbeam.Dict.{Set, contains-add}
use lapinbeam.Node.State.{Result, return, raise}
use lapinbeam.Discovery.Visits.{Visit, again, silent, told, Scanned, stop, step, scan-cases}
use lapinbeam.Discovery.{Answer, replied, Search, unseen, rounds, join_via_seeds}

-- The ids of a list that the search has not visited.
abbrev left_of : List String → Set String → ℕ
left_of ids visited = length (unseen visited ids)

left_of-add-le :
    (ids : List String) (visited : Set String) (peer : String)
    → left_of ids (Dict.add visited peer) ≤ left_of ids visited
unfolding unseen keep
left_of-add-le [] visited peer = omega arith
left_of-add-le (x ∷ ids) visited peer =
    ground (arith, left_of-add-le ids visited peer, contains-add visited peer x)

left_of-add-lt :
    (ids : List String) (visited : Set String) (peer : String)
    → elem peer ids ≡ true
    → Dict.contains visited peer ≡ false
    → left_of ids (Dict.add visited peer) < left_of ids visited
unfolding unseen keep elem
left_of-add-lt [] visited peer h new = cc
left_of-add-lt (x ∷ ids) visited peer h new = ground (
  arith,
  left_of-add-lt ids visited peer,
  left_of-add-le ids visited peer,
  contains-add visited peer x,
  ==_iff peer x,
  ==_self peer,
)

module _ (answers : String → Answer) (ids : List String) where
  -- All that the network can answer lies in the list.
  abbrev pub IsClosed : Type 0
  IsClosed =
      (peer p : String) (known : List String)
      → answers peer ≡ replied known
      → elem p known ≡ true
      → elem p ids ≡ true

  abbrev Within : List String → Type 0
  Within frontier = (p : String) → elem p frontier ≡ true → elem p ids ≡ true

  -- A search has gone on from `s` to `t`: it has visited a new id of the list, or found nothing.
  abbrev Advances : Search → Search → Type 0
  Advances s t =
      (left_of ids t.visited < left_of ids s.visited)
      ⊎ ((left_of ids t.visited ≡ left_of ids s.visited) × (t.next_frontier ≡ s.next_frontier))

  Within-visit :
      IsClosed
      → (peer : String) (s t : Search) → Visit answers peer s t
      → Within s.next_frontier
      → Within t.next_frontier
  unfolding unseen
  Within-visit closed peer s t (again seen e) w p h = w p (rw e at h)
  Within-visit closed peer s t (silent new a e) w p h = w p (rw e at h)
  Within-visit closed peer s t (told new known a e) w p h =
      let visited = Dict.add s.visited peer in
      ground (
        arith,
        closed peer p known a,
        w p,
        elem-append p s.next_frontier (unseen visited known),
        elem-keep (λ x. not (Dict.contains visited x)) p known,
        ap (λ k. elem p k.next_frontier) e,
      )

  Advances-visit :
      (peer : String) (s t : Search) → elem peer ids ≡ true → Visit answers peer s t → Advances s t
  Advances-visit peer s t h (again seen e) = rw e (inr (refl, refl))
  Advances-visit peer s t h (silent new a e) = rw e (inl (left_of-add-lt ids s.visited peer h new))
  Advances-visit peer s t h (told new known a e) =
      rw e (inl (left_of-add-lt ids s.visited peer h new))

  -- Over a whole frontier.
  Scanned-Within :
      {frontier : List String} {s t : Search}
      → IsClosed
      → Scanned answers frontier s t
      → Within s.next_frontier
      → Within t.next_frontier
  Scanned-Within closed stop w = w
  Scanned-Within closed (step {peer} {frontier} {s} {m} v rest) w =
      Scanned-Within closed rest (Within-visit closed peer s m v w)

  Scanned-Advances :
      {frontier : List String} {s t : Search}
      → Scanned answers frontier s t
      → Within frontier
      → Advances s t
  unfolding elem
  Scanned-Advances stop w = inr (refl, refl)
  Scanned-Advances (step {peer} {frontier} {s} {m} {t} v rest) w =
      let first = Advances-visit peer s m (w peer (ground (arith, ==_self peer))) v in
      let later = Scanned-Advances rest (λ p h. w p (ground arith)) in ground arith

  rounds_end :
      IsClosed
      → (fuel : ℕ) (frontier : List String) (s : Search) → Within frontier
      → left_of ids s.visited < fuel
      → (r : Result (Set String)) × (rounds answers fuel frontier s ≡ some r)
  unfolding rounds elem
  rounds_end closed fuel [] s w h = (return s.connected, refl)
  rounds_end closed zero (peer ∷ frontier) s w h = absurd (omega arith)
  rounds_end closed (suc fuel) (peer ∷ frontier) s w h =
      let s' = record s { next_frontier = [] } in
      elim (scan-cases answers (peer ∷ frontier) s') [
        | inl (why, e) ↦ (raise why, rw (e, rounds) refl)
        | inr (t, e, went) ↦ elim (Scanned-Advances went w) [
          | inl less ↦
              let (r, ends) =
                rounds_end closed fuel t.next_frontier t (Scanned-Within closed went (λ p g. cc))
                  (omega arith) in
              (r, rw (e, rounds) ends)
          | inr (same, stays) ↦ (return t.connected, rw (e, rounds, stays, rounds) refl)
        ]
      ]

-- A search whose seeds and answers name only ids of a finite list ends within one round more than
-- the list is long.
pub join_via_seeds_ends :
    (answers : String → Answer) (ids seeds : List String) (local : String) (fuel : ℕ)
    → IsClosed answers ids
    → ((p : String) → elem p seeds ≡ true → elem p ids ≡ true)
    → length ids < fuel
    → (r : Result (Set String)) × (join_via_seeds answers fuel local seeds ≡ some r)
unfolding join_via_seeds unseen
join_via_seeds_ends answers ids seeds local fuel closed inside h =
    let visited = Dict.add Dict.no_elements local in
    rounds_end answers ids closed fuel (unseen visited seeds)
      (record { visited = visited; connected = Dict.no_elements; next_frontier = [] })
      (λ p g. inside p (ground (arith, elem-keep (λ x. not (Dict.contains visited x)) p seeds)))
      (omega (arith, length-keep-le (λ x. not (Dict.contains visited x)) ids))
