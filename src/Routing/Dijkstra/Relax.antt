-- ===== src/Routing/Dijkstra/Relax.antt =====
-- What a visit of a node does to the distances.
use study_in_tezpur_universi.Common.{
  ℕ, zero, suc, ◌+◌, ◌≤◌, ◌<◌, ◌≡◌, refl, ap, sym, ◌∙◌, ◌⊎◌, List, Bool, true, false, ◌&&◌, ltb,
  leb, ◌==◌, if◌then◌else◌, get_or, set, length, length-set, get_or-set, arith, Bool-cases, inl,
  inr,
}
use study_in_tezpur_universi.Routing.Dijkstra.{
  inf, Table, dist_at, is_visited, cost_at, improves, relax, relax_from, visit,
}

module _ (n : ℕ) (cost : List (List ℕ)) where
  -- The distance of `v` after the edge from `u`.
  abbrev pub relaxed : ℕ → ℕ → Table → ℕ
  relaxed u v s = if improves n cost u v s then dist_at s u + cost_at n cost u v else dist_at s v

  relax-dist :
      (u v w : ℕ) (s : Table)
      → v < length s.dist
      → dist_at (relax n cost u v s) w ≡ (if v == w then relaxed u v s else dist_at s w)
  unfolding relax
  relax-dist u v w s inside = elim (Bool-cases (improves n cost u v s)) [
    | inl better ↦ rw better (get_or-set s.dist v w (dist_at s u + cost_at n cost u v) inf inside)
    | inr worse ↦ elim (Bool-cases (v == w)) [
      | inl here ↦
          let same : v ≡ w = ground arith in
          rw (worse, here) (ap (λ (t : ℕ). dist_at s t) (sym same))
      | inr other ↦ rw (worse, other) refl
    ]
  ]

  relax-visited :
      (u v : ℕ) (s : Table)
      → ((relax n cost u v s).visited ≡ s.visited)
        × (length (relax n cost u v s).dist ≡ length s.dist)
  unfolding relax
  relax-visited u v s = elim (Bool-cases (improves n cost u v s)) [
    | inl better ↦ rw better (refl, length-set s.dist v (dist_at s u + cost_at n cost u v))
    | inr worse ↦ rw worse (refl, refl)
  ]

  -- The node itself stays as it is.
  relax-own :
      (u v : ℕ) (s : Table)
      → v < length s.dist
      → is_visited s u ≡ true
      → dist_at (relax n cost u v s) u ≡ dist_at s u
  relax-own u v s inside done = elim (Bool-cases (v == u)) [
    | inl here ↦
        let same : v ≡ u = ground arith in
        let e = relax-dist u v u s inside in
        let own : relaxed u u s ≡ dist_at s u = rw done refl in
        (rw here at e) ∙ ap (λ (t : ℕ). relaxed u t s) same ∙ own
    | inr other ↦ let e = relax-dist u v u s inside in rw other at e
  ]

  pub relax_from-visited :
      (left v u : ℕ) (s : Table)
      → ((relax_from n cost left v u s).visited ≡ s.visited)
        × (length (relax_from n cost left v u s).dist ≡ length s.dist)
  unfolding relax_from
  relax_from-visited zero v u s = (refl, refl)
  relax_from-visited (suc left) v u s =
      let (a, b) = relax_from-visited left (v + 1) u (relax n cost u v s) in
      let (c, e) = relax-visited u v s in (a ∙ c, b ∙ e)

  -- Each node from `v` on is relaxed once.
  pub relax_from-dist :
      (left v u w : ℕ) (s : Table)
      → is_visited s u ≡ true
      → v + left ≤ length s.dist
      → dist_at (relax_from n cost left v u s) w
        ≡ (if leb v w && ltb w (v + left) then relaxed u w s else dist_at s w)
  unfolding relax_from
  relax_from-dist zero v u w s done room =
      let out : (leb v w && ltb w (v + 0)) ≡ false = ground arith in rw out refl
  relax_from-dist (suc left) v u w s done room =
      let s' = relax n cost u v s in
      let (same_visited, size) = relax-visited u v s in
      let done' : is_visited s' u ≡ true =
        ap (λ (l : List Bool). get_or l u true) same_visited ∙ done in
      let rest = relax_from-dist left (v + 1) u w s' done' (omega (arith, size)) in
      let this = relax-dist u v w s (omega arith) in
      elim (Bool-cases (v == w)) [
        | inl here ↦
            let same : v ≡ w = ground arith in
            let in_range : (leb v w && ltb w (v + suc left)) ≡ true = ground arith in
            let beyond : (leb (v + 1) w && ltb w (v + 1 + left)) ≡ false = ground arith in
            let first : dist_at s' w ≡ relaxed u v s = rw here at this in
            let by : relaxed u v s ≡ relaxed u w s = ap (λ (t : ℕ). relaxed u t s) same in
            rw in_range ((rw beyond at rest) ∙ first ∙ by)
        | inr other ↦
            let kept : dist_at s' w ≡ dist_at s w = rw other at this in
            let own = relax-own u v s (omega arith) done in
            let see : is_visited s' w ≡ is_visited s w =
              ap (λ (l : List Bool). get_or l w true) same_visited in
            let range : (leb (v + 1) w && ltb w (v + 1 + left))
                ≡ (leb v w && ltb w (v + suc left)) =
              ground arith in
            rest ∙ rw (see, own, kept, range) refl
      ]

  -- A visit of `u`: what is visited, and how a distance changes.
  pub record Visit (u : ℕ) (s s' : Table) : Type 0 where
    pub size : length s'.dist ≡ length s.dist
    pub visited_e : s'.visited ≡ set s.visited u true
    pub seen : (w : ℕ) → is_visited s' w ≡ (if u == w then true else is_visited s w)
    pub done : (w : ℕ) → is_visited s' w ≡ true → dist_at s' w ≡ dist_at s w
    pub lower : (w : ℕ) → dist_at s' w ≤ dist_at s w
    pub edge :
        (w : ℕ)
        → w < n
        → is_visited s' w ≡ false
        → ¬ (cost_at n cost u w ≡ inf)
        → dist_at s' w ≤ dist_at s u + cost_at n cost u w
    pub origin :
        (w : ℕ)
        → (dist_at s' w ≡ dist_at s w)
          ⊎ ((dist_at s' w ≡ dist_at s u + cost_at n cost u w)
              × (w < n)
              × ¬ (cost_at n cost u w ≡ inf))

  pub visit-Visit :
      (u : ℕ) (s : Table) → u < length s.visited → length s.dist ≡ n → Visit u s (visit n cost u s)
  unfolding visit
  visit-Visit u s inside size =
      let s₁ : Table = record s { visited = set s.visited u true } in
      let (same, kept) = relax_from-visited n 0 u s₁ in
      let own : is_visited s₁ u ≡ true =
        let self : (u == u) ≡ true = ground arith in
        rw self at (get_or-set s.visited u u true true inside) in
      let value : (w : ℕ)
          → dist_at (visit n cost u s) w
            ≡ (if leb 0 w && ltb w (0 + n) then relaxed u w s₁ else dist_at s w) =
        λ w. relax_from-dist n 0 u w s₁ own (omega (arith, size)) in
      let see : (w : ℕ) → is_visited (visit n cost u s) w ≡ is_visited s₁ w =
        λ w. ap (λ (l : List Bool). get_or l w true) same in
      record {
        size = kept;
        visited_e = same;
        seen = λ w. see w ∙ get_or-set s.visited u w true true inside;
        done = λ w h.
            let fin : is_visited s₁ w ≡ true = sym (see w) ∙ h in
            let e = value w in ground (arith, e, fin);
        lower = λ w. let e = value w in ground (arith, e);
        edge = λ w in_range h real.
            let fresh : is_visited s₁ w ≡ false = sym (see w) ∙ h in
            let e = value w in ground (arith, e, fresh, real);
        origin = λ w.
            let e = value w in
            elim (Bool-cases (leb 0 w && ltb w (0 + n))) [
              | inr out ↦ inl (e ∙ rw out refl)
              | inl in_range ↦ elim (Bool-cases (improves n cost u w s₁)) [
                | inr worse ↦ inl (e ∙ rw (in_range, worse) refl)
                | inl better ↦
                    inr
                      (e ∙ rw (in_range, better) refl, ground arith, λ h. ground (arith, better, h))
              ]
            ];
      }
