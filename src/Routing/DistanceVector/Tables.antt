-- ===== src/Routing/DistanceVector/Tables.antt =====
-- The entries of the tables behind a store, and the sum of their costs.
use study_in_tezpur_universi.Common.{
  ℕ, zero, suc, ◌+◌, ◌≤◌, ◌<◌, ◌≡◌, refl, ap, ◌∙◌, [], ◌&&◌, ◌==◌, if◌then◌else◌, length, get_or,
  set, length-set, get_or-set, arith, Bool-cases, inl, inr, none,
}
use study_in_tezpur_universi.Routing.DistanceVector.{
  inf, RoutingEntry, Routers, entry_at, cost_of, put, tabulate, row_total, table_total,
}

pub length-tabulate : {A : Type 0} (left i : ℕ) (f : ℕ → A) → length (tabulate left i f) ≡ left
unfolding tabulate
length-tabulate zero i f = refl
length-tabulate (suc left) i f = ap suc (length-tabulate left (suc i) f)

pub get_or-tabulate :
    {A : Type 0} (left i j : ℕ) (f : ℕ → A) (d : A)
    → j < left
    → get_or (tabulate left i f) j d ≡ f (i + j)
unfolding tabulate
get_or-tabulate zero i j f d inside = absurd (omega arith)
get_or-tabulate (suc left) i zero f d inside = ap f (omega arith)
get_or-tabulate (suc left) i (suc j) f d inside =
    get_or-tabulate left (suc i) j f d (omega arith) ∙ ap f (omega arith)

-- `n` tables of `n` entries.
pub record IsSquare (n : ℕ) (routers : Routers) : Type 0 where
  pub rows : length routers ≡ n
  pub columns : (i : ℕ) → i < n → length (get_or routers i []) ≡ n

module _ (n : ℕ) (routers : Routers) (i j : ℕ) (entry : RoutingEntry) (square : IsSquare n routers)
    (i_inside : i < n) (j_inside : j < n) where
  row-put :
      (i' : ℕ)
      → get_or (put routers i j entry) i' []
        ≡ (if i == i' then set (get_or routers i []) j entry else get_or routers i' [])
  unfolding put
  row-put i' =
      get_or-set routers i i' (set (get_or routers i []) j entry) [] (omega (arith, square.rows))

  pub entry_at-put :
      (i' j' : ℕ)
      → entry_at (put routers i j entry) i' j'
        ≡ (if i == i' && j == j' then entry else entry_at routers i' j')
  entry_at-put i' j' = elim (Bool-cases (i == i')) [
    | inl here ↦
        let e : i ≡ i' = ground arith in
        let row = row-put i' in
        rw (rw here at row, here)
          (get_or-set (get_or routers i []) j j' entry (record { cost = inf; next_hop = none })
              (omega (arith, square.columns i i_inside))
            ∙ ap (λ (x : ℕ). if j == j' then entry else entry_at routers x j') e)
    | inr other ↦ let row = row-put i' in rw (rw other at row, other) refl
  ]

  pub put-IsSquare : IsSquare n (put routers i j entry)
  unfolding put
  put-IsSquare = record {
    rows = length-set routers i (set (get_or routers i []) j entry) ∙ square.rows;
    columns = λ i' inside. elim (Bool-cases (i == i')) [
      | inl here ↦
          let row = row-put i' in
          rw (rw here at row) (length-set (get_or routers i []) j entry ∙ square.columns i i_inside)
      | inr other ↦ let row = row-put i' in rw (rw other at row) (square.columns i' inside)
    ];
  }

module _ (n : ℕ) (routers routers' : Routers)
    (lower : (i j : ℕ) → cost_of routers' i j ≤ cost_of routers i j) where
  row_total_le : (m i : ℕ) → row_total m i routers' ≤ row_total m i routers
  unfolding row_total
  row_total_le zero i = omega arith
  row_total_le (suc m) i = omega (arith, row_total_le m i, lower i m)

  row_total_lt :
      (m i j : ℕ)
      → j < m
      → cost_of routers' i j < cost_of routers i j
      → row_total m i routers' < row_total m i routers
  unfolding row_total
  row_total_lt zero i j inside strict = absurd (omega arith)
  row_total_lt (suc m) i j inside strict = elim (Bool-cases (j == m)) [
    | inl last ↦ let e : j ≡ m = ground arith in omega (arith, row_total_le m i, rw e at strict)
    | inr earlier ↦ omega (arith, row_total_lt m i j (ground arith) strict, lower i m)
  ]

  table_total_le : (m : ℕ) → table_total n m routers' ≤ table_total n m routers
  unfolding table_total
  table_total_le zero = omega arith
  table_total_le (suc m) = omega (arith, table_total_le m, row_total_le n m)

  -- The sum falls when no cost rises and one falls.
  pub table_total_lt :
      (m i j : ℕ)
      → i < m
      → j < n
      → cost_of routers' i j < cost_of routers i j
      → table_total n m routers' < table_total n m routers
  unfolding table_total
  table_total_lt zero i j i_inside j_inside strict = absurd (omega arith)
  table_total_lt (suc m) i j i_inside j_inside strict = elim (Bool-cases (i == m)) [
    | inl last ↦
        let e : i ≡ m = ground arith in
        omega (arith, table_total_le m, row_total_lt n m j j_inside (rw e at strict))
    | inr earlier ↦
        omega (arith, table_total_lt m i j (ground arith) j_inside strict, row_total_le n m)
  ]
