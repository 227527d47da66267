-- ===== src/Routing/Dijkstra/Chains.antt =====
-- The parents of a node lead back to the source, over visited nodes, along a walk of the distance.
use study_in_tezpur_universi.Common.{
  ℕ, zero, suc, ◌+◌, ◌-◌, ◌≤◌, ◌<◌, ◌≡◌, refl, ap, sym, ◌∙◌, List, [], ◌∷◌, Option, none, some,
  true, false, ◌==◌, if◌then◌else◌, get_or, set, length, length-set, get_or-set, length-replicate,
  get_or-replicate, replicate, arith, Bool-cases, inl, inr,
}
use study_in_tezpur_universi.Routing.Dijkstra.{
  inf, Table, dist_at, is_visited, cost_at, initial, improves, relax, relax_from, select_from,
  visit, rounds, dijkstra,
}
use study_in_tezpur_universi.Routing.Dijkstra.Select.{Nearest, select_from-Nearest}
use study_in_tezpur_universi.Routing.Dijkstra.Fresh.{
  fresh_count, fresh_count-set, fresh_count-replicate,
}

abbrev pub parent_at : Table → ℕ → Option ℕ
parent_at s v = get_or s.parent v none

module _ (n : ℕ) (cost : List (List ℕ)) (src : ℕ) where
  -- The parents of `v`, up to the source.
  abbrev pub Chain : Table → List ℕ → ℕ → Type 0
  Chain s [] v = (parent_at s v ≡ none) × (v ≡ src) × (dist_at s v ≡ 0)
  Chain s (u ∷ p) v =
      (parent_at s v ≡ some u)
      × (is_visited s u ≡ true)
      × (v < n)
      × ¬ (cost_at n cost u v ≡ inf)
      × (dist_at s v ≡ dist_at s u + cost_at n cost u v)
      × Chain s p u

  -- Each distance has a chain, which together with `spare` more nodes is no longer than the number of
  -- the visited nodes.
  pub record IsChained (spare : ℕ) (s : Table) : Type 0 where
    pub dist_size : length s.dist ≡ n
    pub parent_size : length s.parent ≡ n
    pub visited_size : length s.visited ≡ n
    pub source : parent_at s src ≡ none
    pub origin : dist_at s src ≡ 0
    pub chains :
        (v : ℕ)
        → dist_at s v < inf
        → (p : List ℕ) × Chain s p v × (length p + spare + fresh_count s.visited ≤ n)

  -- A table that agrees on `v` and on all visited nodes has the same chain.
  Chain-moves :
      (s s' : Table)
      → ((x : ℕ)
          → is_visited s x ≡ true
          → (is_visited s' x ≡ true)
            × (parent_at s' x ≡ parent_at s x)
            × (dist_at s' x ≡ dist_at s x))
      → (p : List ℕ) (v : ℕ) → parent_at s' v ≡ parent_at s v
      → dist_at s' v ≡ dist_at s v
      → Chain s p v
      → Chain s' p v
  Chain-moves s s' same [] v parent dist (a, b, c) = (parent ∙ a, b, dist ∙ c)
  Chain-moves s s' same (u ∷ p) v parent dist (a, seen, inside, real, sum, rest) =
      let (seen', parent', dist') = same u seen in
      (
        parent ∙ a,
        seen',
        inside,
        real,
        omega (arith, dist, sum, dist'),
        Chain-moves s s' same p u parent' dist' rest,
      )

  abbrev mark : ℕ → Table → Table
  mark u s = record s { visited = set s.visited u true }

  mark-IsChained :
      (u : ℕ) (s : Table)
      → IsChained 0 s
      → u < n
      → is_visited s u ≡ false
      → IsChained 1 (mark u s) × (is_visited (mark u s) u ≡ true)
  mark-IsChained u s h inside fresh =
      let value : (x : ℕ) → is_visited (mark u s) x ≡ (if u == x then true else is_visited s x) =
        λ x. get_or-set s.visited u x true true (omega (arith, h.visited_size)) in
      (
        record {
          dist_size = h.dist_size;
          parent_size = h.parent_size;
          visited_size = length-set s.visited u true ∙ h.visited_size;
          source = h.source;
          origin = h.origin;
          chains = λ v near.
              let (p, chain, short) = h.chains v near in
              (
                p,
                Chain-moves s (mark u s) (λ x seen. (ground (arith, value x, seen), refl, refl)) p v
                    refl refl chain,
                omega (
                  arith,
                  short,
                  fresh_count-set s.visited u (omega (arith, h.visited_size)) fresh,
                ),
              );
        },
        ground (arith, value u),
      )

  -- A visited node keeps what it has, and with it its chain.
  record Ready (u : ℕ) (s : Table) : Type 0 where
    chained : IsChained 0 s
    inside : u < n
    seen : is_visited s u ≡ true
    path : List ℕ
    chain : Chain s path u
    short : length path + 1 + fresh_count s.visited ≤ n

  module _ (u v : ℕ) (s : Table) (r : Ready u s) (v_inside : v < n)
      (better : improves n cost u v s ≡ true) where
    abbrev after : Table
    after = record s {
      dist = set s.dist v (dist_at s u + cost_at n cost u v);
      parent = set s.parent v (some u);
    }

    dist-after :
        (x : ℕ)
        → dist_at after x ≡ (if v == x then dist_at s u + cost_at n cost u v else dist_at s x)
    dist-after x = get_or-set s.dist v x _ inf (omega (arith, r.chained.dist_size))

    parent-after : (x : ℕ) → parent_at after x ≡ (if v == x then some u else parent_at s x)
    parent-after x = get_or-set s.parent v x (some u) none (omega (arith, r.chained.parent_size))

    other_kept :
        (x : ℕ)
        → (v == x) ≡ false
        → (parent_at after x ≡ parent_at s x) × (dist_at after x ≡ dist_at s x)
    other_kept x other =
        let a = parent-after x in let b = dist-after x in (rw other at a, rw other at b)

    fresh_v : is_visited s v ≡ false
    fresh_v = ground (arith, better)

    visited_kept :
        (x : ℕ)
        → is_visited s x ≡ true
        → (is_visited after x ≡ true)
          × (parent_at after x ≡ parent_at s x)
          × (dist_at after x ≡ dist_at s x)
    visited_kept x seen =
        let other : (v == x) ≡ false = elim (Bool-cases (v == x)) [
          | inl here ↦
              let e : v ≡ x = ground arith in
              let clash : true ≡ false = sym seen ∙ (rw e at fresh_v) in absurd (ground arith)
          | inr apart ↦ apart
        ] in
        let (a, b) = other_kept x other in (seen, a, b)

    kept-Chain :
        (p : List ℕ) (x : ℕ)
        → parent_at after x ≡ parent_at s x
        → dist_at after x ≡ dist_at s x
        → Chain s p x
        → Chain after p x
    kept-Chain p x a b chain = Chain-moves s after visited_kept p x a b chain

    own-Chain : Chain after r.path u
    own-Chain = let (_, a, b) = visited_kept u r.seen in kept-Chain r.path u a b r.chain

    not_source : (v == src) ≡ false
    not_source = elim (Bool-cases (v == src)) [
      | inl here ↦
          let e : v ≡ src = ground arith in
          let far : dist_at s v ≡ 0 = rw e r.chained.origin in absurd (ground (arith, far, better))
      | inr other ↦ other
    ]

    Chain-after :
        (x : ℕ)
        → dist_at after x < inf
        → (p : List ℕ) × Chain after p x × (length p + 0 + fresh_count after.visited ≤ n)
    Chain-after x near = elim (Bool-cases (v == x)) [
      | inl here ↦
          let e : v ≡ x = ground arith in
          let a = parent-after x in
          let b = dist-after x in
          let (seen, _, own) = visited_kept u r.seen in
          (
            u ∷ r.path,
            (
              rw here at a,
              seen,
              omega (arith, e),
              λ infinite. ground (arith, better, rw (← e) at infinite),
              rw here at b ∙ omega (arith, own, ap (cost_at n cost u) e),
              own-Chain,
            ),
            omega (arith, r.short),
          )
      | inr other ↦
          let (a, b) = other_kept x other in
          let (p, chain, short) = r.chained.chains x (omega (arith, b)) in
          (p, kept-Chain p x a b chain, short)
    ]

    after-Ready : Ready u after
    after-Ready =
        let (source_parent, source_dist) = other_kept src not_source in
        record {
          chained = record {
            dist_size = length-set s.dist v _ ∙ r.chained.dist_size;
            parent_size = length-set s.parent v _ ∙ r.chained.parent_size;
            visited_size = r.chained.visited_size;
            source = source_parent ∙ r.chained.source;
            origin = source_dist ∙ r.chained.origin;
            chains = Chain-after;
          };
          inside = r.inside;
          seen = r.seen;
          path = r.path;
          chain = own-Chain;
          short = r.short;
        }

  relax-Ready : (u v : ℕ) (s : Table) → Ready u s → v < n → Ready u (relax n cost u v s)
  unfolding relax
  relax-Ready u v s r inside = elim (Bool-cases (improves n cost u v s)) [
    | inl better ↦ rw better (after-Ready u v s r inside better)
    | inr worse ↦ rw worse r
  ]

  relax_from-Ready :
      (left v u : ℕ) (s : Table) → Ready u s → v + left ≤ n → Ready u (relax_from n cost left v u s)
  unfolding relax_from
  relax_from-Ready zero v u s r range = r
  relax_from-Ready (suc left) v u s r range =
      relax_from-Ready left (v + 1) u (relax n cost u v s) (relax-Ready u v s r (omega arith))
        (omega arith)

  weaken : (spare : ℕ) (s : Table) → IsChained spare s → IsChained 0 s
  weaken spare s h = record {
    dist_size = h.dist_size;
    parent_size = h.parent_size;
    visited_size = h.visited_size;
    source = h.source;
    origin = h.origin;
    chains = λ v near. let (p, chain, short) = h.chains v near in (p, chain, omega (arith, short));
  }

  visit-IsChained :
      (u : ℕ) (s : Table)
      → IsChained 0 s
      → u < n
      → is_visited s u ≡ false
      → dist_at s u < inf
      → IsChained 0 (visit n cost u s)
  unfolding visit
  visit-IsChained u s h inside fresh near =
      let (marked, seen) = mark-IsChained u s h inside fresh in
      let (p, chain, short) = marked.chains u near in
      (relax_from-Ready n 0 u (mark u s)
        (record {
          chained = weaken 1 (mark u s) marked;
          inside = inside;
          seen = seen;
          path = p;
          chain = chain;
          short = short;
        })
        (omega arith)).chained

  next_round-IsChained :
      (left : ℕ) (s : Table) (u : Option ℕ) (found : ℕ)
      → IsChained 0 s
      → Nearest s (0 + n) found u
      → ((s' : Table) → IsChained 0 s' → IsChained 0 (rounds n cost left s'))
      → IsChained 0 (elim u [ none ↦ s | some u ↦ rounds n cost left (visit n cost u s) ])
  next_round-IsChained left s none found h nearest later = h
  next_round-IsChained left s (some u) found h (below, fresh, e, near, least) later =
      later (visit n cost u s) (visit-IsChained u s h (omega arith) fresh (omega (arith, e)))

  rounds-IsChained : (left : ℕ) (s : Table) → IsChained 0 s → IsChained 0 (rounds n cost left s)
  unfolding rounds
  rounds-IsChained zero s h = h
  rounds-IsChained (suc left) s h =
      let (found, nearest) =
        select_from-Nearest n 0 s inf none (refl, λ w below fresh. absurd (omega arith)) in
      next_round-IsChained left s (select_from n 0 s inf none) found h nearest
        (λ s' h'. rounds-IsChained left s' h')

  initial-IsChained : src < n → IsChained 0 (initial n src)
  unfolding initial
  initial-IsChained inside =
      let value : (v : ℕ) → dist_at (initial n src) v ≡ (if src == v then 0 else inf) = λ v.
        get_or-set (replicate n inf) src v 0 inf (omega (arith, length-replicate n inf))
        ∙ rw (get_or-replicate n v inf) refl in
      let orphan : (v : ℕ) → parent_at (initial n src) v ≡ none = λ v. get_or-replicate n v none in
      record {
        dist_size = length-set (replicate n inf) src 0 ∙ length-replicate n inf;
        parent_size = length-replicate n none;
        visited_size = length-replicate n false;
        source = orphan src;
        origin = let e = value src in ground (arith, e);
        chains = λ v near.
            let e = value v in
            let same : v ≡ src = ground (arith, e, near) in
            let zero_dist : dist_at (initial n src) v ≡ 0 = ground (arith, e, near) in
            ([], (orphan v, same, zero_dist), omega (arith, fresh_count-replicate n));
      }

  pub dijkstra-IsChained : src < n → IsChained 0 (dijkstra n cost src)
  unfolding dijkstra
  dijkstra-IsChained inside = rounds-IsChained (n - 1) (initial n src) (initial-IsChained inside)
