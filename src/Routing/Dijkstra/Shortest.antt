-- ===== src/Routing/Dijkstra/Shortest.antt =====
-- The distances are lengths of walks from the source, and no walk is shorter.
use study_in_tezpur_universi.Common.{
  ℕ, zero, suc, ◌+◌, ◌-◌, ◌≤◌, ◌<◌, ◌≡◌, refl, ap, sym, ◌∙◌, List, [], ◌∷◌, Option, none, some,
  true, false, ◌==◌, if◌then◌else◌, set, replicate, length-set, length-replicate, get_or-set,
  get_or-replicate, arith, Bool-cases, inl, inr,
}
use study_in_tezpur_universi.Routing.Dijkstra.{
  inf, Table, dist_at, is_visited, cost_at, initial, select_from, visit, rounds, dijkstra,
}
use study_in_tezpur_universi.Routing.Dijkstra.Select.{Nearest, select_from-Nearest}
use study_in_tezpur_universi.Routing.Dijkstra.Relax.{visit-Visit}
use study_in_tezpur_universi.Routing.Dijkstra.Fresh.{
  fresh_count, fresh_count-set, fresh_count_two, fresh_count-replicate, get_or-replicate_inside,
}
use study_in_tezpur_universi.Routing.Dijkstra.Kept.{Walk, Invariant, visit-Invariant}

module _ (n : ℕ) (cost : List (List ℕ)) (src : ℕ) where
  -- What holds in the end.
  record Settled (s : Table) : Type 0 where
    small : (v : ℕ) → dist_at s v ≤ inf
    source : dist_at s src ≡ 0
    edges :
        (u v : ℕ)
        → u < n
        → v < n
        → ¬ (cost_at n cost u v ≡ inf)
        → dist_at s v ≤ dist_at s u + cost_at n cost u v
    walks : (v : ℕ) → dist_at s v < inf → (p : List ℕ) × Walk n cost src p v (dist_at s v)

  -- Where at most one node is fresh, or no fresh node can be reached.
  Invariant-Settled :
      (s : Table)
      → Invariant n cost src s
      → ((u v : ℕ)
          → u < n
          → v < n
          → is_visited s u ≡ false
          → is_visited s v ≡ false
          → dist_at s v ≤ dist_at s u)
      → Settled s
  Invariant-Settled s h both = record {
    small = h.small;
    source = h.source;
    edges = λ u v u_inside v_inside real. elim (Bool-cases (is_visited s u)) [
      | inl seen ↦ h.edges u v u_inside v_inside seen real
      | inr fresh ↦ elim (Bool-cases (is_visited s v)) [
        | inl seen_v ↦ omega (arith, h.order v u v_inside u_inside seen_v fresh)
        | inr fresh_v ↦ omega (arith, both u v u_inside v_inside fresh fresh_v)
      ]
    ];
    walks = h.walks;
  }

  one_fresh :
      (s : Table)
      → Invariant n cost src s
      → fresh_count s.visited ≤ 1
      → (u v : ℕ) → u < n
      → v < n
      → is_visited s u ≡ false
      → is_visited s v ≡ false
      → dist_at s v ≤ dist_at s u
  one_fresh s h few u v u_inside v_inside fresh_u fresh_v = elim (Bool-cases (u == v)) [
    | inl here ↦ let e : u ≡ v = ground arith in rw e (omega arith)
    | inr other ↦
        let two =
          fresh_count_two s.visited u v (omega (arith, h.visited_size))
            (omega (arith, h.visited_size)) (ground arith) fresh_u fresh_v in
        absurd (omega arith)
  ]

  next_round :
      (left : ℕ) (s : Table)
      → Invariant n cost src s
      → fresh_count s.visited ≤ suc left + 1
      → (u : Option ℕ) (found : ℕ) → Nearest s (0 + n) found u
      → ((s' : Table)
          → Invariant n cost src s'
          → fresh_count s'.visited ≤ left + 1
          → Settled (rounds n cost left s'))
      → Settled (elim u [ none ↦ s | some u ↦ rounds n cost left (visit n cost u s) ])
  next_round left s h few none found (e, far) later =
      Invariant-Settled s h (λ u v u_inside v_inside fresh_u fresh_v.
        omega (arith, far u (omega arith) fresh_u, h.small v))
  next_round left s h few (some u) found (below, fresh_u, e, near, least) later =
      let t = visit-Visit n cost u s (omega (arith, h.visited_size)) h.size in
      let s' = visit n cost u s in
      let count : fresh_count s'.visited ≡ fresh_count (set s.visited u true) =
        ap fresh_count t.visited_e in
      let fewer = fresh_count-set s.visited u (omega (arith, h.visited_size)) fresh_u in
      later s'
        (visit-Invariant n cost src u s s' h t (omega arith) fresh_u (omega (arith, e))
          (λ w inside fresh. omega (arith, e, least w (omega arith) fresh)))
        (omega (arith, count, fewer))

  rounds-Settled :
      (left : ℕ) (s : Table)
      → Invariant n cost src s
      → fresh_count s.visited ≤ left + 1
      → Settled (rounds n cost left s)
  unfolding rounds
  rounds-Settled zero s h few = Invariant-Settled s h (one_fresh s h (omega arith))
  rounds-Settled (suc left) s h few =
      let (found, near) =
        select_from-Nearest n 0 s inf none (refl, λ w below fresh. absurd (omega arith)) in
      next_round left s h few (select_from n 0 s inf none) found near
        (λ s' h' few'. rounds-Settled left s' h' few')

  all_fresh : (u : ℕ) → u < n → ¬ (is_visited (initial n src) u ≡ true)
  unfolding initial
  all_fresh u inside seen =
      let clash : true ≡ false = sym seen ∙ get_or-replicate_inside n u inside in
      absurd (ground arith)

  fresh_count-initial : fresh_count (initial n src).visited ≡ n
  unfolding initial
  fresh_count-initial = fresh_count-replicate n

  initial-Invariant : src < n → Invariant n cost src (initial n src)
  unfolding initial
  initial-Invariant inside =
      let value : (v : ℕ) → dist_at (initial n src) v ≡ (if src == v then 0 else inf) = λ v.
        get_or-set (replicate n inf) src v 0 inf (omega (arith, length-replicate n inf))
        ∙ rw (get_or-replicate n v inf) refl in
      record {
        size = length-set (replicate n inf) src 0 ∙ length-replicate n inf;
        visited_size = length-replicate n false;
        small = λ v. let e = value v in ground (arith, e);
        source = let e = value src in ground (arith, e);
        edges = λ u v u_inside v_inside seen real. absurd (all_fresh u u_inside seen);
        order = λ u v u_inside v_inside seen fresh. absurd (all_fresh u u_inside seen);
        walks = λ v near.
            let e = value v in
            elim (Bool-cases (src == v)) [
              | inl here ↦ let same : v ≡ src = ground arith in ([], (same, e ∙ rw here refl))
              | inr other ↦ absurd (ground (arith, e, other, near))
            ];
      }

  Walk-bound :
      (s : Table)
      → Settled s
      → src < n
      → (p : List ℕ) (v l : ℕ) → Walk n cost src p v l
      → (v < n) × (dist_at s v ≤ l)
  Walk-bound s h inside [] v l (e, z) = rw e (inside, omega (arith, h.source))
  Walk-bound s h inside (u ∷ p) v l (l', walk, v_inside, real, sum) =
      let (u_inside, bound) = Walk-bound s h inside p u l' walk in
      (v_inside, omega (arith, bound, h.edges u v u_inside v_inside real))

  -- For a source among the nodes: for every node the distance in the table is at most infinite and
  -- at most the length of any walk from the source; and where it is not infinite, it is the length of one.
  pub dijkstra_shortest :
      src < n
      → (v : ℕ)
      → (dist_at (dijkstra n cost src) v ≤ inf)
        × ((p : List ℕ) (l : ℕ) → Walk n cost src p v l → dist_at (dijkstra n cost src) v ≤ l)
        × (dist_at (dijkstra n cost src) v < inf
            → (p : List ℕ) × Walk n cost src p v (dist_at (dijkstra n cost src) v))
  unfolding dijkstra
  dijkstra_shortest inside v =
      let h = initial-Invariant inside in
      let s = rounds-Settled (n - 1) (initial n src) h (omega (arith, fresh_count-initial)) in
      (
        s.small v,
        λ p l walk. (Walk-bound (rounds n cost (n - 1) (initial n src)) s inside p v l walk).1,
        s.walks v,
      )
