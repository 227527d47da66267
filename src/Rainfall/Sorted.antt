-- ===== src/Rainfall/Sorted.antt =====
-- Ascending annual rainfall.
use study_in_tezpur_universi.Common.{
  ℕ, zero, suc, ◌≤◌, ◌<◌, ◌≡◌, refl, List, [], ◌∷◌, ◌++◌, true, if◌then◌else◌, length, get_or,
  arith, Bool-cases, inl, inr,
}
use study_in_tezpur_universi.Rainfall.Doubles.{Doubles, le_refl}
use study_in_tezpur_universi.Rainfall.Record.{RainfallRecord, blank}
use study_in_tezpur_universi.Rainfall.Segment.{weigh, SameItems}

module _ {V : Type 0} ⦃d : Doubles V⦄ where
  -- No record of the list has less rain than `v`.
  abbrev pub AllAbove : V → List (RainfallRecord V) → Type 0
  AllAbove v [] = Unit
  AllAbove v (r ∷ rs) = (d.le v r.annual ≡ true) × AllAbove v rs

  abbrev pub IsSorted : List (RainfallRecord V) → Type 0
  IsSorted [] = Unit
  IsSorted (r ∷ rs) = AllAbove r.annual rs × IsSorted rs

  -- The records with less rain than `v`, as a weight.
  abbrev below : V → RainfallRecord V → ℕ
  below v r = if d.le v r.annual then 0 else 1

  AllAbove-weigh : (v : V) (rs : List (RainfallRecord V)) → AllAbove v rs → weigh (below v) rs ≡ 0
  AllAbove-weigh v [] h = refl
  AllAbove-weigh v (r ∷ rs) h = rw h.0 (omega (arith, AllAbove-weigh v rs h.1))

  weigh-AllAbove : (v : V) (rs : List (RainfallRecord V)) → weigh (below v) rs ≡ 0 → AllAbove v rs
  weigh-AllAbove v [] h = tt
  weigh-AllAbove v (r ∷ rs) h = elim (Bool-cases (d.le v r.annual)) [
    | inl above ↦ (above, let h' = rw above at h in weigh-AllAbove v rs (omega arith))
    | inr under ↦ let h' = rw under at h in absurd (omega arith)
  ]

  pub AllAbove-same :
      (v : V) (rs ss : List (RainfallRecord V)) → SameItems rs ss → AllAbove v rs → AllAbove v ss
  AllAbove-same v rs ss same h =
      weigh-AllAbove v ss (omega (arith, same (below v), AllAbove-weigh v rs h))

  pub AllAbove-trans :
      (u v : V) (rs : List (RainfallRecord V)) → d.le u v ≡ true → AllAbove v rs → AllAbove u rs
  AllAbove-trans u v [] h all = tt
  AllAbove-trans u v (r ∷ rs) h all = (d.trans u v r.annual h all.0, AllAbove-trans u v rs h all.1)

  pub AllAbove-append :
      (v : V) (rs ss : List (RainfallRecord V))
      → AllAbove v rs
      → AllAbove v ss
      → AllAbove v (rs ++ ss)
  AllAbove-append v [] ss p q = q
  AllAbove-append v (r ∷ rs) ss p q = (p.0, AllAbove-append v rs ss p.1 q)

  -- Ascending indices have ascending rainfall.
  AllAbove-get_or :
      (v : V) (rs : List (RainfallRecord V)) (i : ℕ)
      → AllAbove v rs
      → i < length rs
      → d.le v (get_or rs i blank).annual ≡ true
  AllAbove-get_or v [] i h p = absurd (omega arith)
  AllAbove-get_or v (r ∷ rs) zero h p = h.0
  AllAbove-get_or v (r ∷ rs) (suc i) h p = AllAbove-get_or v rs i h.1 (omega arith)

  pub IsSorted-le :
      (rs : List (RainfallRecord V)) (i j : ℕ)
      → IsSorted rs
      → i ≤ j
      → j < length rs
      → d.le (get_or rs i blank).annual (get_or rs j blank).annual ≡ true
  IsSorted-le [] i j h p q = absurd (omega arith)
  IsSorted-le (r ∷ rs) zero zero h p q = le_refl r.annual
  IsSorted-le (r ∷ rs) zero (suc j) h p q = AllAbove-get_or r.annual rs j h.0 (omega arith)
  IsSorted-le (r ∷ rs) (suc i) zero h p q = absurd (omega arith)
  IsSorted-le (r ∷ rs) (suc i) (suc j) h p q = IsSorted-le rs i j h.1 (omega arith) (omega arith)

  -- And the other way round.
  AllAbove-each :
      (v : V) (rs : List (RainfallRecord V))
      → ((i : ℕ) → i < length rs → d.le v (get_or rs i blank).annual ≡ true)
      → AllAbove v rs
  AllAbove-each v [] h = tt
  AllAbove-each v (r ∷ rs) h =
      (h 0 (omega arith), AllAbove-each v rs (λ i p. h (suc i) (omega arith)))

  pub IsSorted-each :
      (rs : List (RainfallRecord V))
      → ((i j : ℕ)
          → i ≤ j
          → j < length rs
          → d.le (get_or rs i blank).annual (get_or rs j blank).annual ≡ true)
      → IsSorted rs
  IsSorted-each [] h = tt
  IsSorted-each (r ∷ rs) h = (
    AllAbove-each r.annual rs (λ j p. h 0 (suc j) (omega arith) (omega arith)),
    IsSorted-each rs (λ i j p q. h (suc i) (suc j) (omega arith) (omega arith)),
  )
