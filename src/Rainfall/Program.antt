-- ===== src/Rainfall/Program.antt =====
-- The menu of `main` with `doPartB` and `doPartC`, on the global variables of the program.
pub mod Queries
use study_in_tezpur_universi.Common.{
  ℕ, zero, suc, ◌+◌, ◌-◌, List, [], ◌∷◌, Option, none, some, Bool, true, false, leb, ◌==◌, not,
  if◌then◌else◌, length, take, drop,
}
use study_in_tezpur_universi.Common.Int.{ℤ}
use study_in_tezpur_universi.Rainfall.Doubles.{Doubles}
use study_in_tezpur_universi.Rainfall.Record.{RainfallRecord, Counters}
use study_in_tezpur_universi.Rainfall.Merge.{merge_sort_rec}
use study_in_tezpur_universi.Rainfall.Quick.{Sorting, quick_sort_rec}
use study_in_tezpur_universi.Rainfall.Search.{lower_bound, upper_bound}
use study_in_tezpur_universi.Rainfall.Extremes.{MinMax, do_part_a}
use study_in_tezpur_universi.Rainfall.Csv.{read_csv}

-- `recordCount` and `sortedCount` are the lengths of the two arrays.
pub record Globals (V : Type 0) : Type 0 where
  pub records : List (RainfallRecord V)
  pub sorted_records : List (RainfallRecord V)
  pub merge_counters : Counters
  pub quick_counters : Counters

-- A choice of the menu, with what is entered or drawn behind it. `allocated` says whether `malloc`
-- succeeds.
pub data Choice (V : Type 0) : Type 0 where
  display : Choice V
  extremes : ℤ → Choice V
  sort_all : (allocated : Bool) → (rand : ℕ → ℕ) → Choice V
  search_range : (allocated : Bool) → V → V → Choice V
  leave : Choice V
  invalid : Choice V

-- What a choice shows or writes.
pub data Shown (V : Type 0) : Type 0 where
  all_records : List (RainfallRecord V) → Shown V
  invalid_month : Shown V
  both_extremes : Option (MinMax V) → MinMax V → Shown V
  no_data memory_error none_found exiting invalid_choice : Shown V
  sorted_files : List (RainfallRecord V) → List (RainfallRecord V) → Counters → Counters → Shown V
  found : List (RainfallRecord V) → Shown V

abbrev pub no_counts : Counters
no_counts = record { comparisons = 0; swaps = 0 }

module _ {V : Type 0} ⦃d : Doubles V⦄ where
  pub show_extremes : Option (Option (MinMax V) × MinMax V) → Shown V
  show_extremes none = invalid_month
  show_extremes (some (linear, dc)) = both_extremes linear dc

  pub do_part_b : Bool → (ℕ → ℕ) → Globals V → Shown V × Globals V
  do_part_b allocated rand g =
      let last = length g.records - 1 in
      let merge_arr = merge_sort_rec (g.records, no_counts) 0 last in
      let start : Sorting V = record { arr = g.records; counters = no_counts; draws = 0 } in
      let quick = quick_sort_rec rand start 0 last in
      if length g.records == 0 then (no_data, g) else if not allocated then (memory_error, g) else (
        sorted_files merge_arr.0 quick.arr merge_arr.1 quick.counters,
        record g { merge_counters = merge_arr.1; quick_counters = quick.counters },
      )

  -- The sorted copy is made once, and only when a search asks for it.
  pub fill_sorted : Globals V → Globals V
  fill_sorted g =
      let temp_arr = merge_sort_rec (g.records, g.merge_counters) 0 (length g.records - 1) in
      record g { sorted_records = temp_arr.0; merge_counters = temp_arr.1 }

  pub query : V → V → Globals V → Shown V
  query low high g =
      let n = length g.sorted_records in
      let l = lower_bound g.sorted_records n low in
      let r = upper_bound g.sorted_records n high in
      if leb r l then none_found else found (take (r - l) (drop l g.sorted_records))

  pub do_part_c : Bool → V → V → Globals V → Shown V × Globals V
  unfolding fill_sorted query
  do_part_c allocated low high g =
      if not (length g.sorted_records == 0)
      then (query low high g, g)
      else if not allocated
      then (memory_error, g)
      else (query low high (fill_sorted g), fill_sorted g)

  -- One round of the menu.
  pub choose : Choice V → Globals V → Shown V × Globals V
  unfolding show_extremes do_part_b do_part_c
  choose display g = (all_records g.records, g)
  choose (extremes month) g = (show_extremes (do_part_a g.records month), g)
  choose (sort_all allocated rand) g = do_part_b allocated rand g
  choose (search_range allocated low high) g = do_part_c allocated low high g
  choose leave g = (exiting, g)
  choose invalid g = (invalid_choice, g)

  abbrev pub leaves_menu : Choice V → Bool
  leaves_menu leave = true
  leaves_menu _ = false

  -- The `do … while (choice != 0)` loop, on the choices that are made.
  pub menu : List (Choice V) → Globals V → List (Shown V) × Globals V
  unfolding choose
  menu [] g = ([], g)
  menu (choice ∷ choices) g =
      let (shown, g') = choose choice g in
      let (later, g'') = menu choices g' in
      if leaves_menu choice then (shown ∷ [], g') else (shown ∷ later, g'')

  -- `none`: no record was read, and `main` returns 1.
  pub main :
      (List ℕ → ℤ)
      → (List ℕ → V)
      → (ℕ → List V)
      → Option (List (List ℕ))
      → List (Choice V)
      → Option (List (Shown V))
  unfolding menu
  main atoi atof unset file choices = elim (read_csv atoi atof unset file) [
    | none ↦ none
    | some [] ↦ none
    | some (r ∷ records) ↦
        some
          (menu choices (record {
            records = r ∷ records;
            sorted_records = [];
            merge_counters = no_counts;
            quick_counters = no_counts;
          })).0
  ]
