-- ===== src/Rainfall/Tests.antt =====
-- The theorems on the rainfall records with numbers for the values, and sample runs.
use study_in_tezpur_universi.Common.{
  ℕ, ◌+◌, ◌-◌, ◌%◌, ◌≡◌, refl, List, [], ◌∷◌, ◌++◌, map, true, false, ltb, leb, not, some, length,
  take, drop, replicate, arith, inl,
}
use study_in_tezpur_universi.Common.Int.{ℤ, pos}
use study_in_tezpur_universi.Rainfall.Doubles.{Doubles}
use study_in_tezpur_universi.Rainfall.Record.{RainfallRecord, months}
use study_in_tezpur_universi.Rainfall.Segment.{SameItems}
use study_in_tezpur_universi.Rainfall.Sorted.{IsSorted}
use study_in_tezpur_universi.Rainfall.Merge.{merge_sort_rec}
use study_in_tezpur_universi.Rainfall.Merge.Sort.{merge_sort_rec-IsSorted}
use study_in_tezpur_universi.Rainfall.Quick.{Sorting, quick_sort_rec}
use study_in_tezpur_universi.Rainfall.Quick.Sort.{quick_sort_rec-IsSorted}
use study_in_tezpur_universi.Rainfall.Search.{lower_bound, upper_bound}
use study_in_tezpur_universi.Rainfall.Search.Bounds.{in_range, bounds-in_range}
use study_in_tezpur_universi.Rainfall.Extremes.{MinMax, find_min_max_linear, find_min_max_dc}
use study_in_tezpur_universi.Rainfall.Extremes.Agree.{find_min_max_linear-dc}
use study_in_tezpur_universi.Rainfall.Csv.{tokens, read_record}
use study_in_tezpur_universi.Rainfall.Csv.Fields.{joined, read_record-tokens}
use study_in_tezpur_universi.Rainfall.Program.{Globals, search_range, no_counts, do_part_c, choose}
use study_in_tezpur_universi.Rainfall.Program.Queries.{
  IsValid, choose-IsValid, answer, do_part_c-answer,
}

ltb_lem : (a b : ℕ) → ltb a b ≡ not (leb b a)
ltb_lem a b = ground arith

leb_total : (a b : ℕ) → leb a b ≡ false → leb b a ≡ true
leb_total a b h = ground arith

leb_trans : (a b c : ℕ) → leb a b ≡ true → leb b c ≡ true → leb a c ≡ true
leb_trans a b c p q = ground arith

-- Millimetres of rain as numbers.
instance abbrev nat_doubles : Doubles ℕ
nat_doubles = record {
  le = leb;
  lt = ltb;
  zero_value = 0;
  lt_lem = ltb_lem;
  total = leb_total;
  trans = leb_trans;
}

abbrev year_of : ℕ → ℕ → RainfallRecord ℕ
year_of year annual = record {
  year = pos year;
  monthly = replicate months (annual % 7);
  annual = annual;
}

abbrev sample : List (RainfallRecord ℕ)
sample = year_of 2001 900 ∷ year_of 2002 700 ∷ year_of 2003 1200 ∷ year_of 2004 700 ∷ []

abbrev ordered : List (RainfallRecord ℕ)
ordered = year_of 2002 700 ∷ year_of 2004 700 ∷ year_of 2001 900 ∷ year_of 2003 1200 ∷ []

abbrev draws : ℕ → ℕ
draws n = n + 1

abbrev start : Sorting ℕ
start = record { arr = sample; counters = no_counts; draws = 0 }

abbrev globals : Globals ℕ
globals = record {
  records = sample;
  sorted_records = [];
  merge_counters = no_counts;
  quick_counters = no_counts;
}

globals-IsValid : IsValid globals
globals-IsValid = record { some_records = omega arith; order = tt; copy = inl refl }

merge_sort_rec-IsSorted_example :
    (length (merge_sort_rec (sample, no_counts) 0 (length sample - 1)).0 ≡ length sample)
    × IsSorted (merge_sort_rec (sample, no_counts) 0 (length sample - 1)).0
    × SameItems sample (merge_sort_rec (sample, no_counts) 0 (length sample - 1)).0
merge_sort_rec-IsSorted_example = merge_sort_rec-IsSorted sample no_counts (omega arith)

quick_sort_rec-IsSorted_example :
    (length (quick_sort_rec draws start 0 (length start.arr - 1)).arr ≡ length start.arr)
    × IsSorted (quick_sort_rec draws start 0 (length start.arr - 1)).arr
    × SameItems start.arr (quick_sort_rec draws start 0 (length start.arr - 1)).arr
quick_sort_rec-IsSorted_example = quick_sort_rec-IsSorted draws start (omega arith)

find_min_max_linear-dc_example :
    (m : MinMax ℕ) × (find_min_max_linear sample 3 ≡ some m)
    × (leb m.min (find_min_max_dc sample 0 (length sample - 1) 3).min ≡ true)
    × (leb (find_min_max_dc sample 0 (length sample - 1) 3).min m.min ≡ true)
    × (leb m.max (find_min_max_dc sample 0 (length sample - 1) 3).max ≡ true)
    × (leb (find_min_max_dc sample 0 (length sample - 1) 3).max m.max ≡ true)
find_min_max_linear-dc_example = find_min_max_linear-dc sample 3 (omega arith)

bounds-in_range_example :
    take
      (upper_bound ordered (length ordered) 1000 - lower_bound ordered (length ordered) 700)
      (drop (lower_bound ordered (length ordered) 700) ordered)
    ≡ in_range 700 1000 ordered
bounds-in_range_example =
    bounds-in_range ordered 700 1000
      ((refl, (refl, (refl, tt))), ((refl, (refl, tt)), ((refl, tt), (tt, tt))))

choose-IsValid_example : IsValid (choose (search_range true 700 1000) globals).1
choose-IsValid_example = choose-IsValid (search_range true 700 1000) globals globals-IsValid

do_part_c-answer_example :
    (sorted : List (RainfallRecord ℕ)) × IsSorted sorted
    × SameItems globals.records sorted
    × ((do_part_c true 700 1000 globals).0 ≡ answer (in_range 700 1000 sorted))
do_part_c-answer_example = do_part_c-answer 700 1000 globals globals-IsValid

-- A field stands for the number of its characters.
abbrev to_year : List ℕ → ℤ
to_year text = pos (length text)

abbrev to_value : List ℕ → ℕ
to_value text = length text

abbrev fields : List (List ℕ)
fields = replicate months (b'1' ∷ [])

read_record-tokens_example :
    read_record to_year to_value
      (replicate months 5)
      (tokens (joined ((b'2' ∷ b'0' ∷ []) ∷ (fields ++ (b'9' ∷ []) ∷ []))))
    ≡ some (record {
      year = to_year (b'2' ∷ b'0' ∷ []);
      monthly = map to_value fields;
      annual = to_value (b'9' ∷ []);
    })
read_record-tokens_example =
    read_record-tokens to_year to_value (replicate months 5) (b'2' ∷ b'0' ∷ []) (b'9' ∷ []) fields
      (grind arith) refl (omega arith)
