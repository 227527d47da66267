-- ===== src/Rainfall/Search/Bounds.antt =====
-- The bounds on a sorted array, and the records between them.
use study_in_tezpur_universi.Common.{
  ℕ, zero, suc, ◌+◌, ◌-◌, ◌/◌, ◌≤◌, ◌<◌, ◌≡◌, refl, ap, ◌∙◌, List, [], ◌∷◌, Bool, true, false, ◌&&◌,
  ltb, if◌then◌else◌, length, get_or, take, drop, arith, Bool-cases, inl, inr,
}
use study_in_tezpur_universi.Rainfall.Doubles.{Doubles}
use study_in_tezpur_universi.Rainfall.Record.{RainfallRecord, blank}
use study_in_tezpur_universi.Rainfall.Sorted.{IsSorted, IsSorted-le}
use study_in_tezpur_universi.Rainfall.Search.{bound_loop, lower_bound, upper_bound}

module _ {V : Type 0} ⦃d : Doubles V⦄ where
  -- `p` splits the first `n` indices: the test holds before it, and fails from it on.
  pub record Splits (before : V → Bool) (arr : List (RainfallRecord V)) (n p : ℕ) : Type 0 where
    pub within : p ≤ n
    pub left : (i : ℕ) → i < p → before (get_or arr i blank).annual ≡ true
    pub right : (i : ℕ) → p ≤ i → i < n → before (get_or arr i blank).annual ≡ false

  module _ (before : V → Bool) (arr : List (RainfallRecord V))
      (down : (i j : ℕ)
        → i ≤ j
        → j < length arr
        → before (get_or arr j blank).annual ≡ true
        → before (get_or arr i blank).annual ≡ true) where
    bound_loop-Splits :
        (fuel l r n : ℕ)
        → l ≤ r
        → r ≤ n
        → n ≤ length arr
        → r ≤ l + fuel
        → ((i : ℕ) → i < l → before (get_or arr i blank).annual ≡ true)
        → ((i : ℕ) → r ≤ i → i < n → before (get_or arr i blank).annual ≡ false)
        → Splits before arr n (bound_loop fuel before arr l r)
    unfolding bound_loop
    bound_loop-Splits zero l r n ordered stop fits short below above = record {
      within = omega arith;
      left = below;
      right = λ i p q. above i (omega arith) q;
    }
    bound_loop-Splits (suc fuel) l r n ordered stop fits short below above =
        elim (Bool-cases (ltb l r)) [
          | inr empty ↦ rw empty (record {
            within = omega arith;
            left = below;
            right = λ i p q. above i (ground arith) q;
          })
          | inl more ↦
              let mid = (l + r) / 2 in
              let within : l < r = ground arith in
              rw more (elim (Bool-cases (before (get_or arr mid blank).annual)) [
                | inl yes_mid ↦ rw yes_mid (
                    bound_loop-Splits fuel (mid + 1) r n (omega arith) stop fits (omega arith)
                      (λ i p. down i mid (omega arith) (omega arith) yes_mid) above)
                | inr no_mid ↦ rw no_mid (
                    bound_loop-Splits fuel l mid n (omega arith) (omega arith) fits (omega arith)
                      below
                      (λ i p q. elim (Bool-cases (before (get_or arr i blank).annual)) [
                        | inr fails ↦ fails
                        | inl holds ↦ let h = down mid i (omega arith) (omega arith) holds in cc
                      ]))
              ])
        ]

  module _ (arr : List (RainfallRecord V)) (val : V) (sorted : IsSorted arr) where
    pub lower_bound-Splits :
        Splits (λ annual. d.lt annual val) arr (length arr) (lower_bound arr (length arr) val)
    unfolding lower_bound
    lower_bound-Splits =
        bound_loop-Splits (λ annual. d.lt annual val) arr down (length arr) 0 (length arr)
          (length arr) (omega arith) (omega arith) (omega arith) (omega arith)
          (λ i p. absurd (omega arith)) (λ i p q. absurd (omega arith))
      where
        down :
            (i j : ℕ)
            → i ≤ j
            → j < length arr
            → d.lt (get_or arr j blank).annual val ≡ true
            → d.lt (get_or arr i blank).annual val ≡ true
        down i j p q h =
            let a = (get_or arr i blank).annual in
            let b = (get_or arr j blank).annual in
            let up = IsSorted-le arr i j sorted p q in
            let ea = d.lt_lem a val in
            let eb = d.lt_lem b val in
            elim (Bool-cases (d.le val a)) [
              | inr under ↦ ea ∙ rw under
              | inl over ↦ let t = d.trans val a b over up in absurd (ground arith)
            ]

    pub upper_bound-Splits :
        Splits (λ annual. d.le annual val) arr (length arr) (upper_bound arr (length arr) val)
    unfolding upper_bound
    upper_bound-Splits =
        bound_loop-Splits (λ annual. d.le annual val) arr
          (λ i j p q h.
            d.trans (get_or arr i blank).annual (get_or arr j blank).annual val
              (IsSorted-le arr i j sorted p q) h)
          (length arr) 0 (length arr) (length arr) (omega arith) (omega arith) (omega arith)
          (omega arith) (λ i p. absurd (omega arith)) (λ i p q. absurd (omega arith))

  -- The records of a range, as a user asks for them.
  pub in_range : V → V → List (RainfallRecord V) → List (RainfallRecord V)
  in_range low high [] = []
  in_range low high (r ∷ rs) =
      if d.le low r.annual && d.le r.annual high
      then r ∷ in_range low high rs
      else in_range low high rs

  -- Between the indices at which the range begins and ends stand its records.
  slice-in_range :
      (arr : List (RainfallRecord V)) (low high : V) (l r : ℕ)
      → ((i : ℕ) → i < l → i < length arr → d.le low (get_or arr i blank).annual ≡ false)
      → ((i : ℕ) → l ≤ i → i < length arr → d.le low (get_or arr i blank).annual ≡ true)
      → ((i : ℕ) → i < r → i < length arr → d.le (get_or arr i blank).annual high ≡ true)
      → ((i : ℕ) → r ≤ i → i < length arr → d.le (get_or arr i blank).annual high ≡ false)
      → take (r - l) (drop l arr) ≡ in_range low high arr
  unfolding in_range
  slice-in_range [] low high l r a b c e = nothing (r - l) l
    where
      nothing : (n m : ℕ) → take {A = RainfallRecord V} n (drop m []) ≡ []
      nothing zero zero = refl
      nothing zero (suc m) = refl
      nothing (suc n) zero = refl
      nothing (suc n) (suc m) = refl
  slice-in_range (x ∷ arr) low high (suc l) zero a b c e =
      let none_left : 0 - suc l ≡ 0 - l = omega arith in
      rw (a 0 (omega arith) (omega arith), none_left)
        (slice-in_range arr low high l 0 (λ i p q. a (suc i) (omega arith) (omega arith))
          (λ i p q. b (suc i) (omega arith) (omega arith)) (λ i p q. absurd (omega arith))
          (λ i p q. e (suc i) (omega arith) (omega arith)))
  slice-in_range (x ∷ arr) low high (suc l) (suc r) a b c e =
      let shift : suc r - suc l ≡ r - l = omega arith in
      rw (a 0 (omega arith) (omega arith), shift)
        (slice-in_range arr low high l r (λ i p q. a (suc i) (omega arith) (omega arith))
          (λ i p q. b (suc i) (omega arith) (omega arith))
          (λ i p q. c (suc i) (omega arith) (omega arith))
          (λ i p q. e (suc i) (omega arith) (omega arith)))
  slice-in_range (x ∷ arr) low high zero zero a b c e =
      rw (b 0 (omega arith) (omega arith), e 0 (omega arith) (omega arith))
        (slice-in_range arr low high 0 0 (λ i p q. absurd (omega arith))
          (λ i p q. b (suc i) (omega arith) (omega arith)) (λ i p q. absurd (omega arith))
          (λ i p q. e (suc i) (omega arith) (omega arith)))
  slice-in_range (x ∷ arr) low high zero (suc r) a b c e =
      let whole : suc r - 0 ≡ suc r = omega arith in
      let rest : r - 0 ≡ r = omega arith in
      rw (b 0 (omega arith) (omega arith), c 0 (omega arith) (omega arith), whole)
        (ap (◌∷◌ x) (
          rw rest at (
            slice-in_range arr low high 0 r (λ i p q. absurd (omega arith))
              (λ i p q. b (suc i) (omega arith) (omega arith))
              (λ i p q. c (suc i) (omega arith) (omega arith))
              (λ i p q. e (suc i) (omega arith) (omega arith)))))

  -- On a sorted array the two bounds enclose the records of the range.
  pub bounds-in_range :
      (arr : List (RainfallRecord V)) (low high : V)
      → IsSorted arr
      → take
          (upper_bound arr (length arr) high - lower_bound arr (length arr) low)
          (drop (lower_bound arr (length arr) low) arr)
        ≡ in_range low high arr
  bounds-in_range arr low high sorted =
      let l = lower_bound-Splits arr low sorted in
      let u = upper_bound-Splits arr high sorted in
      slice-in_range arr low high (lower_bound arr (length arr) low)
        (upper_bound arr (length arr) high)
        (λ i p q.
          let h = l.left i p in let e = d.lt_lem (get_or arr i blank).annual low in ground arith)
        (λ i p q.
          let h = l.right i p q in let e = d.lt_lem (get_or arr i blank).annual low in ground arith)
        (λ i p q. u.left i p) u.right
