-- ===== src/Rainfall/Merge.antt =====
-- `merge` and `mergeSortRec`. The array `temp` is the list of the records written to it, from index
-- `left` on. No counter reaches the bound of `long long`.
pub mod Interleave
pub mod Sort
use study_in_tezpur_universi.Common.{
  ℕ, zero, suc, ◌+◌, ◌-◌, ◌/◌, List, [], ◌∷◌, ◌++◌, Bool, ◌&&◌, ltb, leb, if◌then◌else◌, length,
  get_or, set,
}
use study_in_tezpur_universi.Rainfall.Doubles.{Doubles}
use study_in_tezpur_universi.Rainfall.Record.{RainfallRecord, Counters, blank}

-- The state of the first loop.
pub record Merging (V : Type 0) : Type 0 where
  pub i : ℕ
  pub j : ℕ
  pub temp : List (RainfallRecord V)
  pub counters : Counters

module _ {V : Type 0} ⦃d : Doubles V⦄ where
  pub merge_round : List (RainfallRecord V) → Merging V → Merging V
  merge_round arr s =
      let a = get_or arr s.i blank in
      let b = get_or arr s.j blank in
      let counted : Counters = record {
        comparisons = s.counters.comparisons + 1;
        swaps = s.counters.swaps + 1;
      } in
      if d.le a.annual b.annual
      then record s { i = s.i + 1; temp = s.temp ++ a ∷ []; counters = counted }
      else record s { j = s.j + 1; temp = s.temp ++ b ∷ []; counters = counted }

  -- `while (i <= mid && j <= right)`; a round takes one of the records that are left.
  pub merge_loop : ℕ → List (RainfallRecord V) → ℕ → ℕ → Merging V → Merging V
  unfolding merge_round
  merge_loop zero arr mid right s = s
  merge_loop (suc fuel) arr mid right s =
      let rest = merge_loop fuel arr mid right (merge_round arr s) in
      if leb s.i mid && leb s.j right then rest else s

  -- The loops that copy what is left of a run: `count` records from index `i` on.
  pub copy_run : ℕ → List (RainfallRecord V) → ℕ → List (RainfallRecord V)
  copy_run zero arr i = []
  copy_run (suc count) arr i = get_or arr i blank ∷ copy_run count arr (i + 1)

  -- The loop that copies `temp` back.
  pub write_back : List (RainfallRecord V) → ℕ → List (RainfallRecord V) → List (RainfallRecord V)
  write_back arr i [] = arr
  write_back arr i (r ∷ temp) = write_back (set arr i r) (i + 1) temp

  -- `temp` behind the three loops that fill it.
  pub merged : List (RainfallRecord V) → ℕ → ℕ → Merging V → List (RainfallRecord V)
  unfolding copy_run
  merged arr mid right s =
      s.temp ++ (copy_run (mid + 1 - s.i) arr s.i ++ copy_run (right + 1 - s.j) arr s.j)

  pub merge : List (RainfallRecord V) × Counters → ℕ → ℕ → ℕ → List (RainfallRecord V) × Counters
  unfolding merge_loop merged write_back
  merge (arr, counters) left mid right =
      let start : Merging V = record { i = left; j = mid + 1; temp = []; counters = counters } in
      let s = merge_loop (right + 1 - left) arr mid right start in
      (
        write_back arr left (merged arr mid right s),
        record s.counters {
          swaps =
              s.counters.swaps
              + (mid + 1 - s.i)
              + (right + 1 - s.j)
              + length (merged arr mid right s);
        },
      )

  -- Each half is shorter, so that `right - left` calls deep is enough.
  pub merge_sort_fuel :
      ℕ → List (RainfallRecord V) × Counters → ℕ → ℕ → List (RainfallRecord V) × Counters
  unfolding merge
  merge_sort_fuel zero state left right = state
  merge_sort_fuel (suc fuel) state left right =
      let mid = (left + right) / 2 in
      let at_left = merge_sort_fuel fuel state left mid in
      let at_right = merge_sort_fuel fuel at_left (mid + 1) right in
      if ltb left right then merge at_right left mid right else state

  pub merge_sort_rec :
      List (RainfallRecord V) × Counters → ℕ → ℕ → List (RainfallRecord V) × Counters
  unfolding merge_sort_fuel
  merge_sort_rec state left right = merge_sort_fuel (right - left) state left right
