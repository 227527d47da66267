-- ===== src/Rainfall/Program/Queries.antt =====
-- The global variables across the menu, and what a search shows.
use study_in_tezpur_universi.Common.{
  ℕ, ◌-◌, ◌<◌, ◌≡◌, ◌⊎◌, refl, ap, List, [], ◌∷◌, Bool, true, false, leb, ◌==◌, length, take, drop,
  length-take, length-drop, arith, Bool-cases, inl, inr,
}
use study_in_tezpur_universi.Rainfall.Doubles.{Doubles}
use study_in_tezpur_universi.Rainfall.Record.{RainfallRecord}
use study_in_tezpur_universi.Rainfall.Segment.{SameItems}
use study_in_tezpur_universi.Rainfall.Sorted.{IsSorted}
use study_in_tezpur_universi.Rainfall.Merge.Sort.{merge_sort_rec-IsSorted}
use study_in_tezpur_universi.Rainfall.Search.{lower_bound, upper_bound}
use study_in_tezpur_universi.Rainfall.Search.Bounds.{in_range, upper_bound-Splits, bounds-in_range}
use study_in_tezpur_universi.Rainfall.Program.{
  Globals, Choice, display, extremes, sort_all, search_range, leave, invalid, Shown, none_found,
  found, fill_sorted, query, do_part_b, do_part_c, choose,
}

module _ {V : Type 0} ⦃d : Doubles V⦄ where
  -- There are records, and the sorted copy is empty or holds just these, in order.
  pub record IsValid (g : Globals V) : Type 0 where
    pub some_records : 0 < length g.records
    pub order : IsSorted g.sorted_records
    pub copy :
        g.sorted_records ≡ []
        ⊎ (SameItems g.records g.sorted_records × (length g.sorted_records ≡ length g.records))

  pub fill_sorted-IsValid : (g : Globals V) → IsValid g → IsValid (fill_sorted g)
  unfolding fill_sorted
  fill_sorted-IsValid g v =
      let (size, sorted, same) =
        merge_sort_rec-IsSorted g.records g.merge_counters v.some_records in
      record { some_records = v.some_records; order = sorted; copy = inr (same, size) }

  do_part_b-globals :
      (allocated : Bool) (rand : ℕ → ℕ) (g : Globals V)
      → ((do_part_b allocated rand g).1.records ≡ g.records)
        × ((do_part_b allocated rand g).1.sorted_records ≡ g.sorted_records)
  unfolding do_part_b
  do_part_b-globals true rand g = elim (Bool-cases (length g.records == 0)) [
    | inl none_left ↦ rw none_left (refl, refl)
    | inr some_left ↦ rw some_left (refl, refl)
  ]
  do_part_b-globals false rand g = elim (Bool-cases (length g.records == 0)) [
    | inl none_left ↦ rw none_left (refl, refl)
    | inr some_left ↦ rw some_left (refl, refl)
  ]

  do_part_b-IsValid :
      (allocated : Bool) (rand : ℕ → ℕ) (g : Globals V)
      → IsValid g
      → IsValid (do_part_b allocated rand g).1
  do_part_b-IsValid allocated rand g v =
      let (r, s) = do_part_b-globals allocated rand g in
      record { some_records = rw r v.some_records; order = rw s v.order; copy = rw (r, s) v.copy }

  do_part_c-IsValid :
      (allocated : Bool) (low high : V) (g : Globals V)
      → IsValid g
      → IsValid (do_part_c allocated low high g).1
  unfolding do_part_c
  do_part_c-IsValid allocated low high g v = elim (Bool-cases (length g.sorted_records == 0)) [
    | inr ready ↦ rw ready v
    | inl missing ↦ elim (Bool-cases allocated) [
      | inl granted ↦ rw (missing, granted) (fill_sorted-IsValid g v)
      | inr refused ↦ rw (missing, refused) v
    ]
  ]

  -- Every choice of the menu, whatever is entered with it, keeps valid globals valid: there are
  -- records, and the sorted copy is empty or holds just these, in order.
  pub choose-IsValid : (choice : Choice V) (g : Globals V) → IsValid g → IsValid (choose choice g).1
  unfolding choose
  choose-IsValid display g v = v
  choose-IsValid (extremes month) g v = v
  choose-IsValid (sort_all allocated rand) g v = do_part_b-IsValid allocated rand g v
  choose-IsValid (search_range allocated low high) g v = do_part_c-IsValid allocated low high g v
  choose-IsValid leave g v = v
  choose-IsValid invalid g v = v

  -- What a search should show of the records in its range.
  pub answer : List (RainfallRecord V) → Shown V
  answer [] = none_found
  answer (r ∷ records) = found (r ∷ records)

  answer_found :
      (records : List (RainfallRecord V)) → 0 < length records → found records ≡ answer records
  unfolding answer
  answer_found [] h = absurd (omega arith)
  answer_found (r ∷ records) h = refl

  query-answer :
      (low high : V) (g : Globals V)
      → IsSorted g.sorted_records
      → query low high g ≡ answer (in_range low high g.sorted_records)
  unfolding query
  query-answer low high g sorted =
      let s = g.sorted_records in
      let n = length s in
      let l = lower_bound s n low in
      let r = upper_bound s n high in
      let u = upper_bound-Splits s high sorted in
      let slice = bounds-in_range s low high sorted in
      rw (← slice) (elim (Bool-cases (leb r l)) [
        | inl empty ↦
            let none_left : r - l ≡ 0 = ground arith in
            rw (empty, none_left) (unfold answer in refl)
        | inr more ↦
            let size : length (take (r - l) (drop l s)) ≡ r - l =
              length-take (r - l) (drop l s) (ground (arith, u.within, length-drop l s)) in
            rw more (answer_found (take (r - l) (drop l s)) (ground (arith, size)))
      ])

  -- With valid globals and enough memory a search shows the records of the range in ascending order, out of a sorted
  -- rearrangement of all records.
  pub do_part_c-answer :
      (low high : V) (g : Globals V)
      → IsValid g
      → (sorted : List (RainfallRecord V)) × IsSorted sorted
        × SameItems g.records sorted
        × ((do_part_c true low high g).0 ≡ answer (in_range low high sorted))
  unfolding do_part_c
  do_part_c-answer low high g v = elim (Bool-cases (length g.sorted_records == 0)) [
    | inl missing ↦
        let v' = fill_sorted-IsValid g v in
        let (size, sorted, same) =
          merge_sort_rec-IsSorted g.records g.merge_counters v.some_records in
        (
          (fill_sorted g).sorted_records,
          v'.order,
          unfold fill_sorted in same,
          rw missing (query-answer low high (fill_sorted g) v'.order),
        )
    | inr ready ↦ elim v.copy [
      | inl empty ↦
          let e = ap (λ (l : List (RainfallRecord V)). length l) empty in absurd (ground arith)
      | inr (same, size) ↦
          (g.sorted_records, v.order, same, rw ready (query-answer low high g v.order))
    ]
  ]
