-- ===== src/Discovery/Joined.antt =====
-- Which peers the search of lapinbeam/discovery.py joins: those that a chain of answers leads to.
use lapinbeam.Prelude.{
  ℕ, zero, suc, String, some, List, [], ◌∷◌, ◌++◌, true, false, not, ◌||◌, ◌==◌, ==_iff, ==_self,
  ◌≡◌, ◌≢◌, ◌↔◌, inl, inr, refl, ap, elem, elem-keep, elem-append, string_eq, arith, Bool-cases,
}
use lapinbeam.Dict
use lapinbeam.Dict.{Set, contains-add, contains-no_elements}
use lapinbeam.Node.State.{return}
use lapinbeam.Discovery.{Answer, unreachable, replied, Search, unseen, rounds, join_via_seeds}
use lapinbeam.Discovery.Visits.{again, silent, told, Scanned, stop, step, scan-cases}

module _ (answers : String → Answer) (local : String) (seeds : List String) where
  -- A peer is offered if it is a seed or if a joined peer reports it. It is joined if it is offered,
  -- is not this node, and answers.
  mutual
    pub data Offered : String → Type 0 where
      seed : {p : String} → elem p seeds ≡ true → Offered p
      reported :
          {p q : String} {known : List String}
          → Joined q
          → answers q ≡ replied known
          → elem p known ≡ true
          → Offered p

    pub data Joined : String → Type 0 where
      joined :
          {p : String} {known : List String}
          → Offered p
          → p ≢ local
          → answers p ≡ replied known
          → Joined p

  -- What the search holds while `rest` of a frontier is still to be visited.
  record IsSearching (rest : List String) (s : Search) : Type 0 where
    here : Dict.contains s.visited local ≡ true
    sound : (p : String) → Dict.contains s.connected p ≡ true → Joined p
    waiting : (p : String) → elem p rest ≡ true → Offered p
    found : (p : String) → elem p s.next_frontier ≡ true → Offered p
    answered :
        (p : String) (known : List String)
        → Dict.contains s.visited p ≡ true
        → p ≢ local
        → answers p ≡ replied known
        → Dict.contains s.connected p ≡ true
    seeded :
        (p : String)
        → elem p seeds ≡ true
        → (Dict.contains s.visited p || (elem p rest || elem p s.next_frontier)) ≡ true
    followed :
        (q p : String) (known : List String)
        → Dict.contains s.connected q ≡ true
        → answers q ≡ replied known
        → elem p known ≡ true
        → (Dict.contains s.visited p || (elem p rest || elem p s.next_frontier)) ≡ true

  IsSearching-again :
      (peer : String) (rest : List String) (s : Search)
      → Dict.contains s.visited peer ≡ true
      → IsSearching (peer ∷ rest) s
      → IsSearching rest s
  unfolding elem
  IsSearching-again peer rest s seen i = record {
    here = i.here;
    sound = i.sound;
    waiting = λ p h. i.waiting p (ground arith);
    found = i.found;
    answered = i.answered;
    seeded = λ p h. ground (arith, i.seeded p h, ==_iff p peer);
    followed = λ q p known c a h. ground (arith, i.followed q p known c a h, ==_iff p peer);
  }

  IsSearching-silent :
      (peer : String) (rest : List String) (s : Search)
      → answers peer ≡ unreachable
      → IsSearching (peer ∷ rest) s
      → IsSearching rest (record s { visited = Dict.add s.visited peer })
  unfolding elem
  IsSearching-silent peer rest s a i = record {
    here = ground (arith, i.here, contains-add s.visited peer local);
    sound = i.sound;
    waiting = λ p h. i.waiting p (ground arith);
    found = i.found;
    answered = λ p known v ne r.
        ground
          (arith, i.answered p known, contains-add s.visited peer p, ==_iff peer p, ap answers);
    seeded = λ p h.
        ground (arith, i.seeded p h, ==_iff p peer, ==_iff peer p, contains-add s.visited peer p);
    followed = λ q p known c a h. ground (
      arith,
      i.followed q p known c a h,
      ==_iff p peer,
      ==_iff peer p,
      contains-add s.visited peer p,
    );
  }

  IsSearching-told :
      (peer : String) (known rest : List String) (s : Search)
      → Dict.contains s.visited peer ≡ false
      → answers peer ≡ replied known
      → IsSearching (peer ∷ rest) s
      → IsSearching rest (record {
        visited = Dict.add s.visited peer;
        connected = Dict.add s.connected peer;
        next_frontier = s.next_frontier ++ unseen (Dict.add s.visited peer) known;
      })
  unfolding elem unseen
  IsSearching-told peer known rest s new a i =
      let visited = Dict.add s.visited peer in
      let away : peer ≢ local = λ e. cc (ap (Dict.contains s.visited) e, i.here, new) in
      let this : Joined peer = joined (i.waiting peer (ground (arith, ==_self peer))) away a in
      let was = λ (p : String). contains-add s.visited peer p in
      let now = λ (p : String). contains-add s.connected peer p in
      let next = λ (p : String). elem-append p s.next_frontier (unseen visited known) in
      let fresh = λ (p : String). elem-keep (λ x. not (Dict.contains visited x)) p known in
      record {
        here = ground (arith, i.here, was local);
        sound = λ p h. elim (Bool-cases (peer == p)) [
          | inl e ↦ rw (← (==_iff peer p).0 e) this
          | inr e ↦ i.sound p (ground (arith, now p))
        ];
        waiting = λ p h. i.waiting p (ground arith);
        found = λ p h. elim (Bool-cases (elem p s.next_frontier)) [
          | inl e ↦ i.found p e
          | inr e ↦ reported this a (ground (arith, next p, fresh p))
        ];
        answered =
            λ p other v ne r. ground (arith, i.answered p other, was p, now p, ==_iff peer p);
        seeded = λ p h. ground (arith, i.seeded p h, ==_iff p peer, ==_iff peer p, was p, next p);
        followed = λ q p other c r h. elim (Bool-cases (peer == q)) [
          | inl e ↦
              let same : elem p known ≡ true = cc (ap answers ((==_iff peer q).0 e), a, r, h) in
              ground (arith, next p, fresh p, same)
          | inr e ↦
              ground
                (arith, i.followed q p other, ==_iff p peer, ==_iff peer p, was p, next p, now q)
        ];
      }

  IsSearching-scan :
      {frontier : List String} {s t : Search}
      → Scanned answers frontier s t
      → IsSearching frontier s
      → IsSearching [] t
  IsSearching-scan stop i = i
  IsSearching-scan (step {peer} {frontier} {s} {m} (again seen e) more) i =
      IsSearching-scan more (rw e (IsSearching-again peer frontier s seen i))
  IsSearching-scan (step {peer} {frontier} {s} {m} (silent new a e) more) i =
      IsSearching-scan more (rw e (IsSearching-silent peer frontier s a i))
  IsSearching-scan (step {peer} {frontier} {s} {m} (told new known a e) more) i =
      IsSearching-scan more (rw e (IsSearching-told peer known frontier s new a i))

  -- The frontier that was found is the next to be visited.
  IsSearching-next :
      (s : Search)
      → IsSearching [] s
      → IsSearching s.next_frontier (record s { next_frontier = [] })
  unfolding elem
  IsSearching-next s i = record {
    here = i.here;
    sound = i.sound;
    waiting = i.found;
    found = λ p h. cc;
    answered = i.answered;
    seeded = λ p h. ground (arith, i.seeded p h);
    followed = λ q p known c a h. ground (arith, i.followed q p known c a h);
  }

  -- With nothing left to visit, whoever is joined was connected to.
  mutual
    unfolding elem

    offered-visited :
        (s : Search)
        → IsSearching [] s
        → s.next_frontier ≡ []
        → (p : String) → Offered p
        → Dict.contains s.visited p ≡ true
    offered-visited s i e p (seed h) = ground (arith, i.seeded p h, ap (elem p) e)
    offered-visited s i e p (reported {q} {known} j a h) =
        ground (arith, i.followed q p known (Joined-connected s i e q j) a h, ap (elem p) e)

    Joined-connected :
        (s : Search)
        → IsSearching [] s
        → s.next_frontier ≡ []
        → (p : String) → Joined p
        → Dict.contains s.connected p ≡ true
    Joined-connected s i e p (joined {known} o ne a) =
        i.answered p known (offered-visited s i e p o) ne a

  abbrev IsAnswer : Set String → Type 0
  IsAnswer connected = (p : String) → (Dict.contains connected p ≡ true) ↔ Joined p

  IsAnswer-rounds :
      (fuel : ℕ) (frontier : List String) (s : Search) (connected : Set String)
      → IsSearching frontier (record s { next_frontier = [] })
      → rounds answers fuel frontier s ≡ some (return connected)
      → IsAnswer connected
  unfolding rounds
  IsAnswer-rounds fuel [] s connected i e p =
      let last = record s { next_frontier = [] } in
      let same : s.connected ≡ connected = cc in
      rw (← same) (i.sound p, Joined-connected last i refl p)
  IsAnswer-rounds zero (peer ∷ frontier) s connected i e p = cc
  IsAnswer-rounds (suc fuel) (peer ∷ frontier) s connected i e p =
      let s' = record s { next_frontier = [] } in
      elim (scan-cases answers (peer ∷ frontier) s') [
        | inl (why, raised) ↦ cc (rw (raised, rounds) at e)
        | inr (t, went, v) ↦
            IsAnswer-rounds fuel t.next_frontier t connected
              (IsSearching-next t (IsSearching-scan v i)) (rw (went, rounds) at e) p
      ]

  start : Search
  start = record {
    visited = Dict.add Dict.no_elements local;
    connected = Dict.no_elements;
    next_frontier = [];
  }

  IsSearching-start : IsSearching (unseen start.visited seeds) start
  unfolding start unseen elem
  IsSearching-start =
      let visited = start.visited in
      let was = λ (p : String). contains-add Dict.no_elements local p in
      let none_yet = λ (p : String). contains-no_elements p in
      let left = λ (p : String). elem-keep (λ x. not (Dict.contains visited x)) p seeds in
      record {
        here = ground (arith, was local, ==_self local);
        sound = λ p h. absurd (ground (arith, none_yet p));
        waiting = λ p h. seed (ground (arith, left p));
        found = λ p h. cc;
        answered = λ p known v ne a. ground (arith, was p, none_yet p, ==_iff local p);
        seeded = λ p h. ground (arith, left p);
        followed = λ q p known c a h. absurd (ground (arith, none_yet q));
      }

-- What a search from the seeds returns as connected is exactly the peers that can be reached: a
-- peer that is not the node itself, is a seed or is named in the answer of a peer that was
-- reached, and answers.
pub join_via_seeds_joins :
    (answers : String → Answer) (seeds : List String) (local : String) (fuel : ℕ)
    (connected : Set String)
    → join_via_seeds answers fuel local seeds ≡ some (return connected)
    → (p : String) → (Dict.contains connected p ≡ true) ↔ Joined answers local seeds p
unfolding join_via_seeds start
join_via_seeds_joins answers seeds local fuel connected e =
    IsAnswer-rounds answers local seeds fuel (unseen (start answers local seeds).visited seeds)
      (start answers local seeds) connected (IsSearching-start answers local seeds) e
