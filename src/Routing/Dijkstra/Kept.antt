-- ===== src/Routing/Dijkstra/Kept.antt =====
-- What holds of the tables between two visits, and that a visit keeps it.
use mathlib.Core.Path.{subst}
use study_in_tezpur_universi.Common.{
  ℕ, ◌+◌, ◌≤◌, ◌<◌, ◌≡◌, refl, ap, sym, ◌∙◌, List, [], ◌∷◌, Bool, true, false, ◌==◌, length,
  length-set, arith, Bool-cases, inl, inr,
}
use study_in_tezpur_universi.Routing.Dijkstra.{inf, Table, dist_at, is_visited, cost_at}
use study_in_tezpur_universi.Routing.Dijkstra.Relax.{Visit}

module _ (n : ℕ) (cost : List (List ℕ)) (src : ℕ) where
  -- A walk from the source to `v` of a length: the nodes on it before `v`, the last first.
  abbrev pub Walk : List ℕ → ℕ → ℕ → Type 0
  Walk [] v l = (v ≡ src) × (l ≡ 0)
  Walk (u ∷ before) v l =
      (l' : ℕ) × Walk before u l'
      × (v < n)
      × ¬ (cost_at n cost u v ≡ inf)
      × (l ≡ l' + cost_at n cost u v)

  pub record Invariant (s : Table) : Type 0 where
    pub size : length s.dist ≡ n
    pub visited_size : length s.visited ≡ n
    pub small : (v : ℕ) → dist_at s v ≤ inf
    pub source : dist_at s src ≡ 0
    pub edges :
        (u v : ℕ)
        → u < n
        → v < n
        → is_visited s u ≡ true
        → ¬ (cost_at n cost u v ≡ inf)
        → dist_at s v ≤ dist_at s u + cost_at n cost u v
    pub order :
        (u v : ℕ)
        → u < n
        → v < n
        → is_visited s u ≡ true
        → is_visited s v ≡ false
        → dist_at s u ≤ dist_at s v
    pub walks : (v : ℕ) → dist_at s v < inf → (p : List ℕ) × Walk p v (dist_at s v)

  -- The table behind the visit of a nearest node.
  module _ (u : ℕ) (s s' : Table) (h : Invariant s) (t : Visit n cost u s s') (inside : u < n)
      (fresh_u : is_visited s u ≡ false) (near : dist_at s u < inf)
      (least : (w : ℕ) → w < n → is_visited s w ≡ false → dist_at s u ≤ dist_at s w) where
    own : is_visited s' u ≡ true
    own = let self : (u == u) ≡ true = ground arith in t.seen u ∙ rw self refl

    seen_before : (x : ℕ) → (u == x) ≡ false → is_visited s' x ≡ true → is_visited s x ≡ true
    seen_before x other seen = let e = t.seen x in sym (rw other at e) ∙ seen

    fresh_before : (v : ℕ) → is_visited s' v ≡ false → is_visited s v ≡ false
    fresh_before v fresh = elim (Bool-cases (u == v)) [
      | inl here ↦
          let e = t.seen v in
          let clash : true ≡ false = sym (rw here at e) ∙ fresh in absurd (ground arith)
      | inr other ↦ let e = t.seen v in sym (rw other at e) ∙ fresh
    ]

    own_edges :
        (v : ℕ)
        → v < n
        → ¬ (cost_at n cost u v ≡ inf)
        → dist_at s' v ≤ dist_at s u + cost_at n cost u v
    own_edges v v_inside real = elim (Bool-cases (is_visited s' v)) [
      | inr fresh ↦ t.edge v v_inside fresh real
      | inl seen ↦ elim (Bool-cases (u == v)) [
        | inl here ↦ let e : u ≡ v = ground arith in rw (← e) (omega (arith, t.lower u))
        | inr other ↦
            let before = h.order v u v_inside inside (seen_before v other seen) fresh_u in
            omega (arith, t.lower v, before)
      ]
    ]

    visit-edges :
        (x v : ℕ)
        → x < n
        → v < n
        → is_visited s' x ≡ true
        → ¬ (cost_at n cost x v ≡ inf)
        → dist_at s' v ≤ dist_at s' x + cost_at n cost x v
    visit-edges x v x_inside v_inside seen_x real = elim (Bool-cases (u == x)) [
      | inl here ↦
          let e : x ≡ u = ground arith in
          rw e (omega (arith, t.done u own, own_edges v v_inside (rw e at real)))
      | inr other ↦ omega (
        arith,
        t.done x seen_x,
        t.lower v,
        h.edges x v x_inside v_inside (seen_before x other seen_x) real,
      )
    ]

    nearest_fresh : (v : ℕ) → v < n → is_visited s' v ≡ false → dist_at s u ≤ dist_at s' v
    nearest_fresh v v_inside fresh = elim (t.origin v) [
      | inl same ↦ omega (arith, same, least v v_inside (fresh_before v fresh))
      | inr (sum, _, _) ↦ omega (arith, sum)
    ]

    visit-order :
        (x v : ℕ)
        → x < n
        → v < n
        → is_visited s' x ≡ true
        → is_visited s' v ≡ false
        → dist_at s' x ≤ dist_at s' v
    visit-order x v x_inside v_inside seen_x fresh_v = elim (Bool-cases (u == x)) [
      | inl here ↦
          let e : x ≡ u = ground arith in
          rw e (omega (arith, t.done u own, nearest_fresh v v_inside fresh_v))
      | inr other ↦ omega (
        arith,
        t.done x seen_x,
        nearest_fresh v v_inside fresh_v,
        h.order x u x_inside inside (seen_before x other seen_x) fresh_u,
      )
    ]

    visit-walks : (v : ℕ) → dist_at s' v < inf → (p : List ℕ) × Walk p v (dist_at s' v)
    visit-walks v reached = elim (t.origin v) [
      | inl same ↦
          let (p, w) = h.walks v (omega (arith, same)) in (p, subst (Walk p v) (sym same) w)
      | inr (sum, v_inside, real) ↦
          let (p, w) = h.walks u near in (u ∷ p, (dist_at s u, w, v_inside, real, sum))
    ]

    pub visit-Invariant : Invariant s'
    visit-Invariant = record {
      size = t.size ∙ h.size;
      visited_size =
          ap (λ (l : List Bool). length l) t.visited_e
          ∙ length-set s.visited u true
          ∙ h.visited_size;
      small = λ v. omega (arith, t.lower v, h.small v);
      source = omega (arith, t.lower src, h.source);
      edges = visit-edges;
      order = visit-order;
      walks = visit-walks;
    }
