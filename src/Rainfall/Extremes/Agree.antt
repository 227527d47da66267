-- ===== src/Rainfall/Extremes/Agree.antt =====
-- What the two searches find, as places in the array.
use study_in_tezpur_universi.Common.{
  ℕ, zero, suc, ◌+◌, ◌-◌, ◌/◌, ◌≤◌, ◌<◌, ◌≡◌, refl, List, [], ◌∷◌, some, true, ◌==◌, length, get_or,
  arith, Bool-cases, inl, inr,
}
use study_in_tezpur_universi.Common.Int.{ℤ}
use study_in_tezpur_universi.Rainfall.Doubles.{Doubles, dual}
use study_in_tezpur_universi.Rainfall.Record.{RainfallRecord, blank}
use study_in_tezpur_universi.Rainfall.Segment.{At, At-self}
use study_in_tezpur_universi.Rainfall.Extremes.{
  MinMax, rain, only, linear_round, linear_from, find_min_max_linear, dc_fuel, find_min_max_dc,
}
use study_in_tezpur_universi.Rainfall.Extremes.Least.{
  FirstLeast, LastLeast, FirstLeast-next, LastLeast-join, LastLeast-single, FirstLeast-single,
  first_lower, least-least,
}

module _ {V : Type 0} ⦃d : Doubles V⦄ where
  pub value_at : List (RainfallRecord V) → ℕ → ℕ → V
  value_at records month k = rain month (get_or records k blank)

  pub year_at : List (RainfallRecord V) → ℕ → ℤ
  year_at records k = (get_or records k blank).year

  dc_fuel_lem :
      (fuel : ℕ) (records : List (RainfallRecord V)) (left right month : ℕ)
      → left ≤ right
      → right ≤ left + fuel
      → LastLeast d
          (value_at records month)
          (year_at records)
          left
          right
          (dc_fuel fuel records left right month).min
          (dc_fuel fuel records left right month).min_year
        × LastLeast
            (dual d)
            (value_at records month)
            (year_at records)
            left
            right
            (dc_fuel fuel records left right month).max
            (dc_fuel fuel records left right month).max_year
  unfolding dc_fuel value_at year_at
  dc_fuel_lem zero records left right month ordered short =
      let e : right ≡ left = omega arith in
      rw e (
        LastLeast-single d (value_at records month) (year_at records) left,
        LastLeast-single (dual d) (value_at records month) (year_at records) left,
      )
  dc_fuel_lem (suc fuel) records left right month ordered short =
      elim (Bool-cases (left == right)) [
        | inl single ↦
            let e : right ≡ left = ground arith in
            let b : (left == left) ≡ true = ground arith in
            rw (e, b)
              (
                LastLeast-single d (value_at records month) (year_at records) left,
                LastLeast-single (dual d) (value_at records month) (year_at records) left,
              )
        | inr more ↦
            let mid = (left + right) / 2 in
            let apart : left < right = ground arith in
            let l = dc_fuel_lem fuel records left mid month (omega arith) (omega arith) in
            let r = dc_fuel_lem fuel records (mid + 1) right month (omega arith) (omega arith) in
            rw more (
              LastLeast-join d (value_at records month) (year_at records) left mid right _ _ _ _ l.0
                  r.0,
              LastLeast-join (dual d) (value_at records month) (year_at records) left mid right _ _
                  _ _ l.1 r.1,
            )
      ]

  -- The least and the greatest of the first records, and the records behind them.
  abbrev pub FirstExtremes : List (RainfallRecord V) → ℕ → ℕ → MinMax V → Type 0
  FirstExtremes records month right m =
      FirstLeast d (value_at records month) (year_at records) 0 right m.min m.min_year
      × FirstLeast (dual d) (value_at records month) (year_at records) 0 right m.max m.max_year

  linear_round_lem :
      (records : List (RainfallRecord V)) (month right : ℕ) (m : MinMax V) (r : RainfallRecord V)
      → get_or records (suc right) blank ≡ r
      → FirstExtremes records month right m
      → FirstExtremes records month (suc right) (linear_round month m r)
  unfolding linear_round value_at year_at
  linear_round_lem records month right m r e (least, greatest) = rw (← e) (
    FirstLeast-next d (value_at records month) (year_at records) 0 right m.min m.min_year least,
    FirstLeast-next (dual d) (value_at records month) (year_at records) 0 right m.max m.max_year
        greatest,
  )

  linear_from_lem :
      (records : List (RainfallRecord V)) (month right : ℕ) (m : MinMax V)
      (rest : List (RainfallRecord V))
      → At blank records (suc right) rest
      → FirstExtremes records month right m
      → FirstExtremes records month (right + length rest) (linear_from month m rest)
  unfolding linear_from
  linear_from_lem records month right m [] at f = let e : right + 0 ≡ right = omega arith in rw e f
  linear_from_lem records month right m (r ∷ rest) at f =
      let e : right + suc (length rest) ≡ suc right + length rest = omega arith in
      let next : suc right + 1 ≡ suc (suc right) = omega arith in
      rw e (
        linear_from_lem records month (suc right) (linear_round month m r) rest (rw next at at.1)
          (linear_round_lem records month right m r at.0 f))

  linear-FirstExtremes :
      (r : RainfallRecord V) (rest : List (RainfallRecord V)) (month : ℕ)
      → FirstExtremes (r ∷ rest) month (length rest) (linear_from month (only month r) rest)
  unfolding value_at year_at only
  linear-FirstExtremes r rest month =
      let e : 0 + length rest ≡ length rest = omega arith in
      let start : 0 + 1 ≡ 1 = refl in
      rw e at (
        linear_from_lem (r ∷ rest) month 0 (only month r) rest (At-self blank (r ∷ rest)).1 (
          FirstLeast-single d (value_at (r ∷ rest) month) (year_at (r ∷ rest)) 0,
          FirstLeast-single (dual d) (value_at (r ∷ rest) month) (year_at (r ∷ rest)) 0,
        ))

  -- On an array that is not empty the linear search and divide and conquer find the same least and the same
  -- greatest rainfall of a month.
  pub find_min_max_linear-dc :
      (records : List (RainfallRecord V)) (month : ℕ)
      → 0 < length records
      → (m : MinMax V) × (find_min_max_linear records month ≡ some m)
        × (d.le m.min (find_min_max_dc records 0 (length records - 1) month).min ≡ true)
        × (d.le (find_min_max_dc records 0 (length records - 1) month).min m.min ≡ true)
        × (d.le m.max (find_min_max_dc records 0 (length records - 1) month).max ≡ true)
        × (d.le (find_min_max_dc records 0 (length records - 1) month).max m.max ≡ true)
  unfolding find_min_max_linear find_min_max_dc
  find_min_max_linear-dc [] month some_records = absurd (omega arith)
  find_min_max_linear-dc (r ∷ rest) month some_records =
      let last : length (r ∷ rest) - 1 ≡ length rest = omega arith in
      let n : length rest - 0 ≡ length rest = omega arith in
      let f = linear-FirstExtremes r rest month in
      let l =
        dc_fuel_lem (length rest) (r ∷ rest) 0 (length rest) month (omega arith) (omega arith) in
      let least =
        least-least d (value_at (r ∷ rest) month) (year_at (r ∷ rest)) 0 (length rest) _ _ _ _ f.0
          l.0 in
      let greatest =
        least-least (dual d) (value_at (r ∷ rest) month) (year_at (r ∷ rest)) 0 (length rest) _ _ _
          _ f.1 l.1 in
      rw (last, n)
        (linear_from month (only month r) rest, refl, least.0, least.1, greatest.1, greatest.0)

  -- The two values that the linear search finds enclose the month's rainfall in every record.
  pub find_min_max_linear_bounds :
      (records : List (RainfallRecord V)) (month k : ℕ)
      → k < length records
      → (m : MinMax V) × (find_min_max_linear records month ≡ some m)
        × (d.le m.min (rain month (get_or records k blank)) ≡ true)
        × (d.le (rain month (get_or records k blank)) m.max ≡ true)
  unfolding find_min_max_linear value_at
  find_min_max_linear_bounds [] month k below = absurd (omega arith)
  find_min_max_linear_bounds (r ∷ rest) month k below =
      let f = linear-FirstExtremes r rest month in
      let least =
        first_lower d (value_at (r ∷ rest) month) (year_at (r ∷ rest)) 0 (length rest) _ _ f.0 k
          (omega arith) (omega arith) in
      let greatest =
        first_lower (dual d) (value_at (r ∷ rest) month) (year_at (r ∷ rest)) 0 (length rest) _ _
          f.1 k (omega arith) (omega arith) in
      (linear_from month (only month r) rest, refl, least, greatest)
