-- ===== src/Routing/Dijkstra/Select.antt =====
-- The search for the nearest node.
use study_in_tezpur_universi.Common.{
  ℕ, zero, suc, ◌+◌, ◌≤◌, ◌<◌, ◌≡◌, refl, Option, none, some, false, ◌&&◌, not, ltb, ◌==◌, arith,
  Bool-cases, inl, inr,
}
use study_in_tezpur_universi.Routing.Dijkstra.{inf, Table, dist_at, is_visited, select_from}

-- `min_dist` and `u` as they should be where the nodes below `v` are searched.
abbrev pub Nearest : Table → ℕ → ℕ → Option ℕ → Type 0
Nearest s v min_dist none =
    (min_dist ≡ inf) × ((w : ℕ) → w < v → is_visited s w ≡ false → inf ≤ dist_at s w)
Nearest s v min_dist (some u) =
    (u < v)
    × (is_visited s u ≡ false)
    × (dist_at s u ≡ min_dist)
    × (min_dist < inf)
    × ((w : ℕ) → w < v → is_visited s w ≡ false → min_dist ≤ dist_at s w)

Nearest-small :
    (s : Table) (v min_dist : ℕ) (u : Option ℕ) → Nearest s v min_dist u → min_dist ≤ inf
Nearest-small s v min_dist none h = omega (arith, h.0)
Nearest-small s v min_dist (some u) (_, _, _, small, _) = omega arith

Nearest-least :
    (s : Table) (v min_dist : ℕ) (u : Option ℕ)
    → Nearest s v min_dist u
    → (w : ℕ) → w < v
    → is_visited s w ≡ false
    → min_dist ≤ dist_at s w
Nearest-least s v min_dist none (e, far) w below fresh = omega (arith, e, far w below fresh)
Nearest-least s v min_dist (some u) (_, _, _, _, least) w below fresh = least w below fresh

-- One more node, which does not come closer.
Nearest-kept :
    (s : Table) (v min_dist : ℕ) (u : Option ℕ)
    → (is_visited s v ≡ false → min_dist ≤ dist_at s v)
    → Nearest s v min_dist u
    → Nearest s (v + 1) min_dist u
Nearest-kept s v min_dist none new (e, far) = (
  e,
  λ w below fresh. elim (Bool-cases (w == v)) [
    | inl here ↦
        let same : w ≡ v = ground arith in rw same (omega (arith, e, new (rw same at fresh)))
    | inr other ↦ far w (ground arith) fresh
  ],
)
Nearest-kept s v min_dist (some u) new (below_u, fresh_u, e, small, least) = (
  omega arith,
  fresh_u,
  e,
  small,
  λ w below fresh. elim (Bool-cases (w == v)) [
    | inl here ↦ let same : w ≡ v = ground arith in rw same (new (rw same at fresh))
    | inr other ↦ least w (ground arith) fresh
  ],
)

Nearest-nearer :
    (s : Table) (v min_dist : ℕ) (u : Option ℕ)
    → is_visited s v ≡ false
    → dist_at s v < min_dist
    → Nearest s v min_dist u
    → Nearest s (v + 1) (dist_at s v) (some v)
Nearest-nearer s v min_dist u fresh nearer h = (
  omega arith,
  fresh,
  refl,
  omega (arith, Nearest-small s v min_dist u h),
  λ w below fresh_w. elim (Bool-cases (w == v)) [
    | inl here ↦ let same : w ≡ v = ground arith in rw same (omega arith)
    | inr other ↦ let l = Nearest-least s v min_dist u h w (ground arith) fresh_w in omega arith
  ],
)

-- What the search returns, with the distance that it found.
pub select_from-Nearest :
    (left v : ℕ) (s : Table) (min_dist : ℕ) (u : Option ℕ)
    → Nearest s v min_dist u
    → (found : ℕ) × Nearest s (v + left) found (select_from left v s min_dist u)
unfolding select_from
select_from-Nearest zero v s min_dist u h = let e : v + 0 ≡ v = omega arith in (min_dist, rw e h)
select_from-Nearest (suc left) v s min_dist u h =
    let e : v + suc left ≡ v + 1 + left = omega arith in
    rw e (elim (Bool-cases (not (is_visited s v) && ltb (dist_at s v) min_dist)) [
      | inl nearer ↦ rw nearer (
          select_from-Nearest left (v + 1) s (dist_at s v) (some v)
            (Nearest-nearer s v min_dist u (ground arith) (ground arith) h))
      | inr kept ↦ rw kept (
          select_from-Nearest left (v + 1) s min_dist u
            (Nearest-kept s v min_dist u (λ fresh. ground arith) h))
    ])
