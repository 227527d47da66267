-- ===== src/Rainfall/Extremes.antt =====
-- The two searches for the least and the greatest rainfall of a month, and `doPartA`.
pub mod Agree
pub mod Least
use study_in_tezpur_universi.Common.{
  ℕ, zero, suc, ◌+◌, ◌-◌, ◌/◌, List, [], ◌∷◌, Option, none, some, ◌||◌, ◌==◌, ltb, if◌then◌else◌,
  get_or, length,
}
use study_in_tezpur_universi.Common.Int.{ℤ, pos, negsuc}
use study_in_tezpur_universi.Rainfall.Doubles.{Doubles}
use study_in_tezpur_universi.Rainfall.Record.{RainfallRecord, blank}

pub record MinMax (V : Type 0) : Type 0 where
  pub min : V
  pub max : V
  pub min_year : ℤ
  pub max_year : ℤ

-- `month < 1 || month > 12`, and the index of a valid month.
pub month_index : ℤ → Option ℕ
month_index (pos month) = if ltb month 1 || ltb 12 month then none else some (month - 1)
month_index (negsuc month) = none

module _ {V : Type 0} ⦃d : Doubles V⦄ where
  abbrev pub rain : ℕ → RainfallRecord V → V
  rain month r = get_or r.monthly month d.zero_value

  pub only : ℕ → RainfallRecord V → MinMax V
  only month r = record {
    min = rain month r;
    max = rain month r;
    min_year = r.year;
    max_year = r.year;
  }

  pub linear_round : ℕ → MinMax V → RainfallRecord V → MinMax V
  linear_round month m r =
      let least = d.lt (rain month r) m.min in
      let greatest = d.lt m.max (rain month r) in
      record {
        min = if least then rain month r else m.min;
        min_year = if least then r.year else m.min_year;
        max = if greatest then rain month r else m.max;
        max_year = if greatest then r.year else m.max_year;
      }

  -- The loop over the records behind the first.
  pub linear_from : ℕ → MinMax V → List (RainfallRecord V) → MinMax V
  unfolding linear_round
  linear_from month m [] = m
  linear_from month m (r ∷ records) = linear_from month (linear_round month m r) records

  -- `none`: without records the results are not set.
  pub find_min_max_linear : List (RainfallRecord V) → ℕ → Option (MinMax V)
  unfolding only linear_from
  find_min_max_linear [] month = none
  find_min_max_linear (r ∷ records) month = some (linear_from month (only month r) records)

  pub combine : MinMax V → MinMax V → MinMax V
  combine left_res right_res =
      let least = d.lt left_res.min right_res.min in
      let greatest = d.lt right_res.max left_res.max in
      record {
        min = if least then left_res.min else right_res.min;
        min_year = if least then left_res.min_year else right_res.min_year;
        max = if greatest then left_res.max else right_res.max;
        max_year = if greatest then left_res.max_year else right_res.max_year;
      }

  -- Both halves are shorter, so that `right - left` calls deep is enough.
  pub dc_fuel : ℕ → List (RainfallRecord V) → ℕ → ℕ → ℕ → MinMax V
  unfolding only combine
  dc_fuel zero records left right month = only month (get_or records left blank)
  dc_fuel (suc fuel) records left right month =
      let mid = (left + right) / 2 in
      let halves =
        combine (dc_fuel fuel records left mid month)
          (dc_fuel fuel records (mid + 1) right month) in
      if left == right then only month (get_or records left blank) else halves

  pub find_min_max_dc : List (RainfallRecord V) → ℕ → ℕ → ℕ → MinMax V
  unfolding dc_fuel
  find_min_max_dc records left right month = dc_fuel (right - left) records left right month

  -- What `doPartA` prints, or `none` for an invalid month. The program has records when it is called.
  pub do_part_a : List (RainfallRecord V) → ℤ → Option (Option (MinMax V) × MinMax V)
  unfolding find_min_max_linear find_min_max_dc month_index
  do_part_a records month = elim (month_index month) [
    | none ↦ none
    | some month_idx ↦ some (
      find_min_max_linear records month_idx,
      find_min_max_dc records 0 (length records - 1) month_idx,
    )
  ]
