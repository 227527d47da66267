-- ===== src/Rainfall/Quick/Sort.antt =====
-- `quickSortRec` on a segment and on a whole array, whatever `rand` returns.
use study_in_tezpur_universi.Common.{
  ℕ, zero, suc, ◌+◌, ◌-◌, ◌≤◌, ◌<◌, ◌≡◌, refl, ◌∙◌, List, Bool, true, false, ◌==◌, ltb, length,
  get_or, arith, Bool-cases, inl, inr,
}
use study_in_tezpur_universi.Rainfall.Doubles.{Doubles, le_refl}
use study_in_tezpur_universi.Rainfall.Record.{RainfallRecord, blank}
use study_in_tezpur_universi.Rainfall.Segment.{SameItems}
use study_in_tezpur_universi.Rainfall.Sorted.{IsSorted, IsSorted-each}
use study_in_tezpur_universi.Rainfall.Quick.{Sorting, partition, quick_sort_fuel, quick_sort_rec}
use study_in_tezpur_universi.Rainfall.Quick.Rearranges.{
  Rearranges, Rearranges-refl, Rearranges-trans, Rearranges-wider,
}
use study_in_tezpur_universi.Rainfall.Quick.Partition.{Partitioned, partition-Partitioned}

module _ {V : Type 0} ⦃d : Doubles V⦄ where
  -- The segment from `low` to `high` in ascending order.
  abbrev SortedOn : List (RainfallRecord V) → ℕ → ℕ → Type 0
  SortedOn arr low high =
      (i j : ℕ)
      → low ≤ i
      → i ≤ j
      → j ≤ high
      → d.le (get_or arr i blank).annual (get_or arr j blank).annual ≡ true

  record SortedPart (low high : ℕ) (arr arr' : List (RainfallRecord V)) : Type 0 where
    moved : Rearranges low high arr arr'
    sorted : SortedOn arr' low high

  SortedPart-single :
      (low high : ℕ) (arr : List (RainfallRecord V)) → high ≤ low → SortedPart low high arr arr
  SortedPart-single low high arr h = record {
    moved = Rearranges-refl low high arr;
    sorted = λ i j a b c. let e : i ≡ j = omega arith in rw e (le_refl (get_or arr j blank).annual);
  }

  -- What a call on `low`, …, `pi - 1` does, also for `pi` at `low`, where it does nothing.
  record LeftPart (low pi high : ℕ) (arr arr' : List (RainfallRecord V)) : Type 0 where
    moved : Rearranges low high arr arr'
    behind : (k : ℕ) → pi ≤ k → get_or arr' k blank ≡ get_or arr k blank
    keeps :
        (test : RainfallRecord V → Bool)
        → ((k : ℕ) → low ≤ k → k < pi → test (get_or arr k blank) ≡ true)
        → (k : ℕ) → low ≤ k
        → k < pi
        → test (get_or arr' k blank) ≡ true
    sorted :
        (i j : ℕ)
        → low ≤ i
        → i ≤ j
        → j < pi
        → d.le (get_or arr' i blank).annual (get_or arr' j blank).annual ≡ true

  SortedPart-LeftPart :
      (low pi high : ℕ) (arr arr' : List (RainfallRecord V))
      → low < pi
      → pi ≤ high
      → SortedPart low (pi - 1) arr arr'
      → LeftPart low pi high arr arr'
  SortedPart-LeftPart low pi high arr arr' a b s = record {
    moved = Rearranges-wider (omega arith) (omega arith) s.moved;
    behind = λ k h. s.moved.outside k (inr (omega arith));
    keeps =
        λ test all k p q. s.moved.keeps test (λ j p' q'. all j p' (omega arith)) k p (omega arith);
    sorted = λ i j p q r. s.sorted i j p q (omega arith);
  }

  LeftPart-none : (low high : ℕ) (arr : List (RainfallRecord V)) → LeftPart low low high arr arr
  LeftPart-none low high arr = record {
    moved = Rearranges-refl low high arr;
    behind = λ k h. refl;
    keeps = λ test all. all;
    sorted = λ i j p q r. absurd (omega arith);
  }

  -- The two sorted parts around the pivot.
  module _ (low pi high : ℕ) (arr arr₁ arr₂ arr₃ : List (RainfallRecord V))
      (p : Partitioned low high arr pi arr₁) (l : LeftPart low pi high arr₁ arr₂)
      (r : SortedPart (pi + 1) high arr₂ arr₃) where
    pivot_kept : get_or arr₃ pi blank ≡ get_or arr₁ pi blank
    pivot_kept = r.moved.outside pi (inl (omega arith)) ∙ l.behind pi (omega arith)

    left_small :
        (k : ℕ)
        → low ≤ k
        → k < pi
        → d.le (get_or arr₃ k blank).annual (get_or arr₃ pi blank).annual ≡ true
    left_small k a b =
        rw (pivot_kept, r.moved.outside k (inl (omega arith)))
          (l.keeps (λ (x : RainfallRecord V). d.le x.annual (get_or arr₁ pi blank).annual) p.small k
            a b)

    right_large :
        (k : ℕ)
        → pi < k
        → k ≤ high
        → d.le (get_or arr₃ pi blank).annual (get_or arr₃ k blank).annual ≡ true
    right_large k a b = rw pivot_kept (
        r.moved.keeps (λ (x : RainfallRecord V). d.le (get_or arr₁ pi blank).annual x.annual)
          (λ j a' b'. rw (l.behind j (omega arith)) (p.large j (omega arith) b')) k (omega arith) b)

    left_sorted :
        (i j : ℕ)
        → low ≤ i
        → i ≤ j
        → j < pi
        → d.le (get_or arr₃ i blank).annual (get_or arr₃ j blank).annual ≡ true
    left_sorted i j a b c =
        rw (r.moved.outside i (inl (omega arith)), r.moved.outside j (inl (omega arith)))
          (l.sorted i j a b c)

    -- Records up to the pivot, and records from it on.
    up_to_pivot :
        (k : ℕ)
        → low ≤ k
        → k ≤ pi
        → d.le (get_or arr₃ k blank).annual (get_or arr₃ pi blank).annual ≡ true
    up_to_pivot k a b = elim (Bool-cases (k == pi)) [
      | inl here ↦ let e : k ≡ pi = ground arith in rw e (le_refl (get_or arr₃ pi blank).annual)
      | inr before ↦ left_small k a (ground arith)
    ]

    from_pivot :
        (k : ℕ)
        → pi ≤ k
        → k ≤ high
        → d.le (get_or arr₃ pi blank).annual (get_or arr₃ k blank).annual ≡ true
    from_pivot k a b = elim (Bool-cases (k == pi)) [
      | inl here ↦ let e : k ≡ pi = ground arith in rw e (le_refl (get_or arr₃ pi blank).annual)
      | inr behind ↦ right_large k (ground arith) b
    ]

    around_pivot : SortedPart low high arr arr₃
    around_pivot = record {
      moved = Rearranges-trans p.moved (
          Rearranges-trans l.moved
            (Rearranges-wider (omega (arith, p.from)) (omega arith) r.moved));
      sorted = λ i j a b c. elim (Bool-cases (ltb j pi)) [
        | inl left ↦ left_sorted i j a b (ground arith)
        | inr not_left ↦ elim (Bool-cases (ltb pi i)) [
          | inl right ↦ r.sorted i j (ground arith) b c
          | inr across ↦
              d.trans (get_or arr₃ i blank).annual (get_or arr₃ pi blank).annual
                (get_or arr₃ j blank).annual (up_to_pivot i a (ground arith))
                (from_pivot j (ground arith) c)
        ]
      ];
    }

  -- A sort of segments that end at most `span` behind their start, and its idle calls.
  abbrev Sorts : ℕ → (Sorting V → ℕ → ℕ → Sorting V) → Type 0
  Sorts span sort =
      (s : Sorting V) (low high : ℕ)
      → high < length s.arr
      → high ≤ low + span
      → SortedPart low high s.arr (sort s low high).arr

  module _ (rand : ℕ → ℕ) where
    quick_sort-single :
        (fuel : ℕ) (s : Sorting V) (low high : ℕ)
        → high ≤ low
        → quick_sort_fuel rand fuel s low high ≡ s
    unfolding quick_sort_fuel
    quick_sort-single zero s low high h = refl
    quick_sort-single (suc fuel) s low high h = let e : ltb low high ≡ false = ground arith in rw e

    quick_sort-more :
        (fuel : ℕ) (s : Sorting V) (low high : ℕ)
        → low < high
        → quick_sort_fuel rand (suc fuel) s low high
          ≡ quick_sort_fuel rand fuel
              (quick_sort_fuel rand fuel
                (partition rand s low high).1
                low
                ((partition rand s low high).0 - 1))
              ((partition rand s low high).0 + 1)
              high
    unfolding quick_sort_fuel
    quick_sort-more fuel s low high h = let e : ltb low high ≡ true = ground arith in rw e

    -- A call on the left part.
    quick_sort-LeftPart :
        (fuel : ℕ) (s : Sorting V) (low pi high : ℕ)
        → Sorts fuel (quick_sort_fuel rand fuel)
        → low ≤ pi
        → pi ≤ high
        → high < length s.arr
        → high ≤ low + suc fuel
        → LeftPart low pi high s.arr (quick_sort_fuel rand fuel s low (pi - 1)).arr
    quick_sort-LeftPart fuel s low pi high ih a b fits short = elim (Bool-cases (low == pi)) [
      | inl same ↦
          let e : low ≡ pi = ground arith in
          rw (quick_sort-single fuel s low (pi - 1) (omega arith), ← e)
            (LeftPart-none low high s.arr)
      | inr apart ↦
          SortedPart-LeftPart low pi high s.arr _ (ground arith) b
            (ih s low (pi - 1) (omega arith) (omega arith))
    ]

    quick_sort-Sorts : (fuel : ℕ) → Sorts fuel (quick_sort_fuel rand fuel)
    quick_sort-Sorts zero s low high fits short =
        rw (quick_sort-single 0 s low high (omega arith))
          (SortedPart-single low high s.arr (omega arith))
    quick_sort-Sorts (suc fuel) s low high fits short = elim (Bool-cases (ltb low high)) [
      | inr single ↦
          rw (quick_sort-single (suc fuel) s low high (ground arith))
            (SortedPart-single low high s.arr (ground arith))
      | inl more ↦
          let p = partition rand s low high in
          let parted = partition-Partitioned rand s low high (ground arith) fits in
          let left =
            quick_sort-LeftPart fuel p.1 low p.0 high (quick_sort-Sorts fuel) parted.from parted.to
              (omega (arith, parted.moved.size)) short in
          let s₂ = quick_sort_fuel rand fuel p.1 low (p.0 - 1) in
          let right =
            quick_sort-Sorts fuel s₂ (p.0 + 1) high
              (omega (arith, parted.moved.size, left.moved.size)) (omega (arith, parted.from)) in
          rw (quick_sort-more fuel s low high (ground arith))
            (around_pivot low p.0 high s.arr p.1.arr s₂.arr _ parted left right)
    ]

    -- Whatever `rand` returns, sorting a whole array that is not empty leaves its records in ascending order of annual
    -- rainfall, each as often as before.
    pub quick_sort_rec-IsSorted :
        (s : Sorting V)
        → 0 < length s.arr
        → (length (quick_sort_rec rand s 0 (length s.arr - 1)).arr ≡ length s.arr)
          × IsSorted (quick_sort_rec rand s 0 (length s.arr - 1)).arr
          × SameItems s.arr (quick_sort_rec rand s 0 (length s.arr - 1)).arr
    unfolding quick_sort_rec
    quick_sort_rec-IsSorted s some_records =
        let q =
          quick_sort-Sorts (length s.arr - 1 - 0) s 0 (length s.arr - 1) (omega arith)
            (omega arith) in
        (
          q.moved.size,
          IsSorted-each _ (λ i j a b. q.sorted i j (omega arith) a (omega (arith, q.moved.size))),
          q.moved.same,
        )
