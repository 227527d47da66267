-- ===== src/Rainfall/Merge/Sort.antt =====
-- `mergeSortRec` on a segment and on a whole array.
use study_in_tezpur_universi.Common.{
  ℕ, zero, suc, ◌+◌, ◌-◌, ◌/◌, ◌≤◌, ◌<◌, ◌≡◌, ◌⊎◌, refl, ◌∙◌, List, [], ◌∷◌, ◌++◌, true, false, ltb,
  length, length-append, take, drop, take-append-drop, length-drop, length-take, get_or, arith,
  Bool-cases, inl, inr,
}
use study_in_tezpur_universi.Rainfall.Doubles.{Doubles}
use study_in_tezpur_universi.Rainfall.Record.{RainfallRecord, Counters, blank}
use study_in_tezpur_universi.Rainfall.Segment.{
  weigh, weigh-append, SameItems, At, At-self, At-whole, At-append, At-kept,
}
use study_in_tezpur_universi.Rainfall.Sorted.{
  AllAbove, IsSorted, AllAbove-same, AllAbove-trans, AllAbove-append,
}
use study_in_tezpur_universi.Rainfall.Merge.{merge, merge_sort_fuel, merge_sort_rec}
use study_in_tezpur_universi.Rainfall.Merge.Interleave.{interleave, length-interleave, merge-Merged}

module _ {V : Type 0} ⦃d : Doubles V⦄ where
  weigh-interleave :
      (weight : RainfallRecord V → ℕ) (xs ys : List (RainfallRecord V))
      → weigh weight (interleave xs ys) ≡ weigh weight xs + weigh weight ys
  unfolding interleave
  weigh-interleave weight [] ys = omega arith
  weigh-interleave weight (x ∷ xs) [] = omega arith
  weigh-interleave weight (x ∷ xs) (y ∷ ys) =
      ground (arith, weigh-interleave weight xs (y ∷ ys), weigh-interleave weight (x ∷ xs) ys)

  AllAbove-interleave :
      (v : V) (xs ys : List (RainfallRecord V))
      → AllAbove v xs
      → AllAbove v ys
      → AllAbove v (interleave xs ys)
  AllAbove-interleave v xs ys p q =
      AllAbove-same v (xs ++ ys) (interleave xs ys)
        (λ weight. omega (arith, weigh-interleave weight xs ys, weigh-append weight xs ys))
        (AllAbove-append v xs ys p q)

  interleave-IsSorted :
      (xs ys : List (RainfallRecord V)) → IsSorted xs → IsSorted ys → IsSorted (interleave xs ys)
  unfolding interleave
  interleave-IsSorted [] ys p q = q
  interleave-IsSorted (x ∷ xs) [] p q = p
  interleave-IsSorted (x ∷ xs) (y ∷ ys) p q = elim (Bool-cases (d.le x.annual y.annual)) [
    | inl first ↦ rw first (
      AllAbove-interleave x.annual xs (y ∷ ys) p.0
          (first, AllAbove-trans x.annual y.annual ys first q.0),
      interleave-IsSorted xs (y ∷ ys) p.1 q,
    )
    | inr second ↦
        let under = d.total x.annual y.annual second in
        rw second (
          AllAbove-interleave y.annual (x ∷ xs) ys
              (under, AllAbove-trans y.annual x.annual xs under p.0) q.0,
          interleave-IsSorted (x ∷ xs) ys p q.1,
        )
  ]

  -- A segment that held `xs` is sorted, and the rest of the array is as before.
  record SortedSegment (arr arr' : List (RainfallRecord V)) (left : ℕ)
      (xs : List (RainfallRecord V)) : Type 0 where
    result : List (RainfallRecord V)
    size : length arr' ≡ length arr
    length_result : length result ≡ length xs
    within : At blank arr' left result
    outside : (k : ℕ) → k < left ⊎ (left + length xs ≤ k) → get_or arr' k blank ≡ get_or arr k blank
    sorted : IsSorted result
    same : SameItems xs result

  unsorted_single :
      (arr : List (RainfallRecord V)) (left : ℕ) (xs : List (RainfallRecord V))
      → At blank arr left xs
      → length xs ≤ 1
      → SortedSegment arr arr left xs
  unsorted_single arr left [] at short = record {
    result = [];
    size = refl;
    length_result = refl;
    within = tt;
    outside = λ k out. refl;
    sorted = tt;
    same = λ weight. refl;
  }
  unsorted_single arr left (x ∷ []) at short = record {
    result = x ∷ [];
    size = refl;
    length_result = refl;
    within = at;
    outside = λ k out. refl;
    sorted = (tt, tt);
    same = λ weight. refl;
  }
  unsorted_single arr left (x ∷ y ∷ xs) at short = absurd (omega arith)

  -- Two sorted halves, one behind the other, are merged.
  halves :
      (arr arr₁ arr₂ : List (RainfallRecord V)) (counters : Counters) (left mid right : ℕ)
      (xs ys : List (RainfallRecord V))
      → SortedSegment arr arr₁ left xs
      → SortedSegment arr₁ arr₂ (mid + 1) ys
      → mid + 1 ≡ left + length xs
      → right + 1 ≡ mid + 1 + length ys
      → right < length arr
      → SortedSegment arr (merge (arr₂, counters) left mid right).0 left (xs ++ ys)
  halves arr arr₁ arr₂ counters left mid right xs ys l r split stop fits =
      let at_left =
        At-kept blank arr₁ arr₂ left l.result l.within
          λ k p q. r.outside k (inl (omega (arith, l.length_result))) in
      let m =
        merge-Merged arr₂ counters left mid right l.result r.result at_left r.within
          (omega (arith, l.length_result)) (omega (arith, r.length_result))
          (omega (arith, l.size, r.size)) in
      let both = length-append xs ys in
      record {
        result = interleave l.result r.result;
        size = omega (arith, m.size, l.size, r.size);
        length_result =
            omega (arith, length-interleave l.result r.result, l.length_result, r.length_result);
        within = m.within;
        outside = λ k out. elim out [
          | inl before ↦
              m.outside k (inl before) ∙ r.outside k (inl (omega arith)) ∙ l.outside k (inl before)
          | inr behind ↦
              m.outside k (inr (omega (arith, l.length_result, r.length_result)))
              ∙ r.outside k (inr (omega arith))
              ∙ l.outside k (inr (omega arith))
        ];
        sorted = interleave-IsSorted l.result r.result l.sorted r.sorted;
        same = λ weight. omega (
          arith,
          weigh-interleave weight l.result r.result,
          weigh-append weight xs ys,
          l.same weight,
          r.same weight,
        );
      }

  -- A sort of segments that end at most `span` behind their start.
  abbrev Sorts :
      ℕ → (List (RainfallRecord V) × Counters → ℕ → ℕ → List (RainfallRecord V) × Counters) → Type 0
  Sorts span sort =
      (arr : List (RainfallRecord V)) (counters : Counters) (left right : ℕ)
      (xs : List (RainfallRecord V))
      → At blank arr left xs
      → right + 1 ≡ left + length xs
      → right < length arr
      → right ≤ left + span
      → SortedSegment arr (sort (arr, counters) left right).0 left xs

  -- Sorting both halves and merging them sorts a longer segment.
  module _ (span : ℕ)
      (sort : List (RainfallRecord V) × Counters → ℕ → ℕ → List (RainfallRecord V) × Counters)
      (ih : Sorts span sort) where
    sort_halves :
        (arr : List (RainfallRecord V)) (counters : Counters) (left mid right : ℕ)
        (xs ys : List (RainfallRecord V))
        → At blank arr left (xs ++ ys)
        → mid + 1 ≡ left + length xs
        → right + 1 ≡ mid + 1 + length ys
        → right < length arr
        → mid ≤ left + span
        → right ≤ mid + 1 + span
        → mid < right
        → SortedSegment arr
            (merge (sort (sort (arr, counters) left mid) (mid + 1) right) left mid right).0
            left
            (xs ++ ys)
    sort_halves arr counters left mid right xs ys at split stop fits short short' two =
        let (at_l, at_r) = At-append blank arr left xs ys at in
        let once = sort (arr, counters) left mid in
        let l = ih arr counters left mid xs at_l split (omega arith) short in
        let kept =
          At-kept blank arr once.0 (mid + 1) ys (rw split at_r)
            (λ k p q. l.outside k (inr (omega arith))) in
        let r = ih once.0 once.1 (mid + 1) right ys kept stop (omega (arith, l.size)) short' in
        let twice = sort once (mid + 1) right in
        halves arr once.0 twice.0 twice.1 left mid right xs ys l r split stop fits

    sort_middle :
        (arr : List (RainfallRecord V)) (counters : Counters) (left right : ℕ)
        (xs : List (RainfallRecord V))
        → At blank arr left xs
        → right + 1 ≡ left + length xs
        → right < length arr
        → right ≤ left + suc span
        → left < right
        → SortedSegment arr
            (merge
              (sort (sort (arr, counters) left ((left + right) / 2)) ((left + right) / 2 + 1) right)
              left
              ((left + right) / 2)
              right).0
            left
            xs
    sort_middle arr counters left right xs at stop fits short two =
        let mid = (left + right) / 2 in
        let m = mid + 1 - left in
        let parts = take-append-drop m xs in
        let size_l = length-take m xs (omega arith) in
        let size_r = length-drop m xs in
        let whole =
          sort_halves arr counters left mid right (take m xs) (drop m xs) (rw parts at)
            (omega arith) (omega arith) fits (omega arith) (omega arith) (omega arith) in
        rw parts at whole

  merge_sort-more :
      (fuel : ℕ) (state : List (RainfallRecord V) × Counters) (left right : ℕ)
      → ltb left right ≡ true
      → merge_sort_fuel (suc fuel) state left right
        ≡ merge
            (merge_sort_fuel fuel
              (merge_sort_fuel fuel state left ((left + right) / 2))
              ((left + right) / 2 + 1)
              right)
            left
            ((left + right) / 2)
            right
  unfolding merge_sort_fuel
  merge_sort-more fuel state left right more = rw more

  merge_sort-single :
      (fuel : ℕ) (state : List (RainfallRecord V) × Counters) (left right : ℕ)
      → ltb left right ≡ false
      → merge_sort_fuel fuel state left right ≡ state
  unfolding merge_sort_fuel
  merge_sort-single zero state left right single = refl
  merge_sort-single (suc fuel) state left right single = rw single

  merge_sort-Sorts : (fuel : ℕ) → Sorts fuel (merge_sort_fuel fuel)
  merge_sort-Sorts zero arr counters left right xs at stop fits short =
      let single : ltb left right ≡ false = ground arith in
      rw (merge_sort-single 0 (arr, counters) left right single)
        (unsorted_single arr left xs at (omega arith))
  merge_sort-Sorts (suc fuel) arr counters left right xs at stop fits short =
      elim (Bool-cases (ltb left right)) [
        | inr single ↦
            rw (merge_sort-single (suc fuel) (arr, counters) left right single)
              (unsorted_single arr left xs at (ground arith))
        | inl more ↦ rw (merge_sort-more fuel (arr, counters) left right more) (
            sort_middle fuel (merge_sort_fuel fuel) (merge_sort-Sorts fuel) arr counters left right
              xs at stop fits short (ground arith))
      ]

  -- Sorting a whole array that is not empty leaves its records in ascending order of annual rainfall, each as often as
  -- before.
  pub merge_sort_rec-IsSorted :
      (arr : List (RainfallRecord V)) (counters : Counters)
      → 0 < length arr
      → (length (merge_sort_rec (arr, counters) 0 (length arr - 1)).0 ≡ length arr)
        × IsSorted (merge_sort_rec (arr, counters) 0 (length arr - 1)).0
        × SameItems arr (merge_sort_rec (arr, counters) 0 (length arr - 1)).0
  unfolding merge_sort_rec
  merge_sort_rec-IsSorted arr counters some_records =
      let s =
        merge_sort-Sorts (length arr - 1 - 0) arr counters 0 (length arr - 1) arr
          (At-self blank arr) (omega arith) (omega arith) (omega arith) in
      let arr' = (merge_sort_fuel (length arr - 1 - 0) (arr, counters) 0 (length arr - 1)).0 in
      let whole : arr' ≡ s.result =
        At-whole blank arr' s.result (omega (arith, s.size, s.length_result)) s.within in
      (s.size, rw whole s.sorted, rw whole s.same)
