-- ===== src/Rainfall/Quick.antt =====
-- `swapRecords`, `partition` and `quickSortRec`. `rand n` is what the call of `rand()` number `n`
-- returns. No counter reaches the bound of `long long`.
pub mod Rearranges
pub mod Partition
pub mod Sort
use study_in_tezpur_universi.Common.{
  ℕ, zero, suc, ◌+◌, ◌-◌, ◌%◌, List, Bool, ◌==◌, not, ltb, if◌then◌else◌, get_or, set,
}
use study_in_tezpur_universi.Rainfall.Doubles.{Doubles}
use study_in_tezpur_universi.Rainfall.Record.{RainfallRecord, Counters, blank}

-- The array, the counters, and how often `rand` was called.
pub record Sorting (V : Type 0) : Type 0 where
  pub arr : List (RainfallRecord V)
  pub counters : Counters
  pub draws : ℕ

module _ {V : Type 0} ⦃d : Doubles V⦄ where
  unfoldable pub swapped : List (RainfallRecord V) → ℕ → ℕ → List (RainfallRecord V)
  swapped arr a b = set (set arr a (get_or arr b blank)) b (get_or arr a blank)

  pub swap_records : Sorting V → ℕ → ℕ → Sorting V
  unfolding swapped
  swap_records s a b = record s {
    arr = swapped s.arr a b;
    counters = record s.counters { swaps = s.counters.swaps + 1 };
  }

  -- A round of the loop at index `j`. `next` is `i + 1`, since `i` starts out at `low - 1`.
  pub partition_round : V → ℕ → ℕ × Sorting V → ℕ × Sorting V
  unfolding swap_records
  partition_round pivot j (next, s) =
      let counted : Sorting V = record s {
        counters = record s.counters { comparisons = s.counters.comparisons + 1 };
      } in
      if d.le (get_or s.arr j blank).annual pivot
      then (next + 1, if not (next == j) then swap_records counted next j else counted)
      else (next, counted)

  -- The loop from index `j` on, with the rounds that are left.
  pub partition_loop : ℕ → V → ℕ → ℕ × Sorting V → ℕ × Sorting V
  unfolding partition_round
  partition_loop zero pivot j state = state
  partition_loop (suc left) pivot j state =
      partition_loop left pivot (j + 1) (partition_round pivot j state)

  -- The pivot goes to its place.
  pub place_pivot : ℕ → ℕ × Sorting V → ℕ × Sorting V
  unfolding swap_records
  place_pivot high (next, s) = (next, if not (next == high) then swap_records s next high else s)

  module _ (rand : ℕ → ℕ) where
    pub partition : Sorting V → ℕ → ℕ → ℕ × Sorting V
    unfolding partition_loop place_pivot swap_records
    partition s low high =
        let rand_idx = low + rand s.draws % (high - low + 1) in
        let chosen = swap_records (record s { draws = s.draws + 1 }) rand_idx high in
        place_pivot high
          (partition_loop (high - low) (get_or chosen.arr high blank).annual low (low, chosen))

    -- Both parts are shorter, so that `high - low` calls deep is enough. At `pi = low` the source
    -- calls with `low - 1`, and here the call is with 0 if `low` is 0: both do nothing.
    pub quick_sort_fuel : ℕ → Sorting V → ℕ → ℕ → Sorting V
    unfolding partition
    quick_sort_fuel zero s low high = s
    quick_sort_fuel (suc fuel) s low high =
        let p = partition s low high in
        let at_left = quick_sort_fuel fuel p.1 low (p.0 - 1) in
        let at_right = quick_sort_fuel fuel at_left (p.0 + 1) high in
        if ltb low high then at_right else s

    pub quick_sort_rec : Sorting V → ℕ → ℕ → Sorting V
    unfolding quick_sort_fuel
    quick_sort_rec s low high = quick_sort_fuel (high - low) s low high
