-- ===== src/Discovery/Visits.antt =====
-- The ways in which a visit of lapinbeam/discovery.py can go.
use lapinbeam.Prelude.{
  String, List, [], ◌∷◌, ◌++◌, true, false, ◌≡◌, ◌⊎◌, inl, inr, refl, string_eq, Bool-cases,
}
use lapinbeam.Dict
use lapinbeam.Messages.{Error}
use lapinbeam.Node.State.{return, raise}
use lapinbeam.Discovery.{
  Answer, unreachable, failed, replied, Search, unseen, ask_peer, visit, scan,
}

module _ (answers : String → Answer) where
  pub data Visit (peer : String) (s t : Search) : Type 0 where
    again : Dict.contains s.visited peer ≡ true → t ≡ s → Visit peer s t
    silent :
        Dict.contains s.visited peer ≡ false
        → answers peer ≡ unreachable
        → t ≡ record s { visited = Dict.add s.visited peer }
        → Visit peer s t
    told :
        Dict.contains s.visited peer ≡ false
        → (known : List String) → answers peer ≡ replied known
        → t ≡ record {
          visited = Dict.add s.visited peer;
          connected = Dict.add s.connected peer;
          next_frontier = s.next_frontier ++ unseen (Dict.add s.visited peer) known;
        }
        → Visit peer s t

  by_answer :
      (peer : String) (s : Search) (a : Answer)
      → Dict.contains s.visited peer ≡ false
      → answers peer ≡ a
      → ((e : Error) × (visit answers peer s ≡ raise e))
        ⊎ ((t : Search) × (visit answers peer s ≡ return t) × Visit peer s t)
  unfolding visit ask_peer
  by_answer peer s unreachable new e = inr (_, rw (new, visit, e, ask_peer) refl, silent new e refl)
  by_answer peer s (failed why) new e = inl (why, rw (new, visit, e, ask_peer) refl)
  by_answer peer s (replied known) new e =
      inr (_, rw (new, visit, e, ask_peer) refl, told new known e refl)

  -- A visit raises, or goes in one of the three ways.
  pub visit-cases :
      (peer : String) (s : Search)
      → ((e : Error) × (visit answers peer s ≡ raise e))
        ⊎ ((t : Search) × (visit answers peer s ≡ return t) × Visit peer s t)
  unfolding visit
  visit-cases peer s = elim (Bool-cases (Dict.contains s.visited peer)) [
    | inl seen ↦ inr (s, rw (seen, visit) refl, again seen refl)
    | inr new ↦ by_answer peer s (answers peer) new refl
  ]

  -- The visits of one frontier.
  pub data Scanned : List String → Search → Search → Type 0 where
    stop : {s : Search} → Scanned [] s s
    step :
        {peer : String} {frontier : List String} {s m t : Search}
        → Visit peer s m
        → Scanned frontier m t
        → Scanned (peer ∷ frontier) s t

  pub scan-cases :
      (frontier : List String) (s : Search)
      → ((e : Error) × (scan answers frontier s ≡ raise e))
        ⊎ ((t : Search) × (scan answers frontier s ≡ return t) × Scanned frontier s t)
  unfolding scan
  scan-cases [] s = inr (s, refl, stop)
  scan-cases (peer ∷ frontier) s = elim (visit-cases peer s) [
    | inl (why, e) ↦ inl (why, rw (e, scan) refl)
    | inr (m, e, v) ↦ elim (scan-cases frontier m) [
      | inl (why, e') ↦ inl (why, rw (e, scan) e')
      | inr (t, e', rest) ↦ inr (t, rw (e, scan) e', step v rest)
    ]
  ]
