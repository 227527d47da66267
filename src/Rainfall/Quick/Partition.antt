-- ===== src/Rainfall/Quick/Partition.antt =====
-- `partition`: where the pivot comes to stand, and what is on its two sides.
use study_in_tezpur_universi.Common.{
  ℕ, zero, suc, ◌+◌, ◌-◌, ◌%◌, ◌≤◌, ◌<◌, ◌≡◌, refl, ◌∙◌, List, true, false, ◌==◌, if◌then◌else◌,
  length, get_or, arith, Bool-cases, inl, inr,
}
use study_in_tezpur_universi.Rainfall.Doubles.{Doubles}
use study_in_tezpur_universi.Rainfall.Record.{RainfallRecord, blank}
use study_in_tezpur_universi.Rainfall.Quick.{
  Sorting, swapped, swap_records, partition_round, partition_loop, place_pivot, partition,
}
use study_in_tezpur_universi.Rainfall.Quick.Rearranges.{
  Rearranges, Rearranges-trans, get_or-swapped, swapped-Rearranges,
}

module _ {V : Type 0} ⦃d : Doubles V⦄ where
  -- The array after a round.
  round_arr :
      (pivot : V) (j next : ℕ) (s : Sorting V)
      → ((partition_round pivot j (next, s)).0
          ≡ (if d.le (get_or s.arr j blank).annual pivot then next + 1 else next))
        × ((partition_round pivot j (next, s)).1.arr ≡ (
            if d.le (get_or s.arr j blank).annual pivot
            then (if next == j then s.arr else swapped s.arr next j)
            else s.arr))
  unfolding partition_round swap_records
  round_arr pivot j next s = elim (Bool-cases (d.le (get_or s.arr j blank).annual pivot)) [
    | inr large ↦ rw large (refl, refl)
    | inl small ↦ elim (Bool-cases (next == j)) [
      | inl same ↦ rw (small, same) (refl, refl)
      | inr apart ↦ rw (small, apart) (refl, refl)
    ]
  ]

  -- The segment in the loop at index `j`: small records before `next`, large ones from there on.
  record Parted (low high : ℕ) (pivot : RainfallRecord V) (arr₀ : List (RainfallRecord V))
      (j next : ℕ) (arr : List (RainfallRecord V)) : Type 0 where
    moved : Rearranges low high arr₀ arr
    from : low ≤ next
    to : next ≤ j
    last : get_or arr high blank ≡ pivot
    small : (k : ℕ) → low ≤ k → k < next → d.le (get_or arr k blank).annual pivot.annual ≡ true
    large : (k : ℕ) → next ≤ k → k < j → d.le pivot.annual (get_or arr k blank).annual ≡ true

  -- A small record at `j` goes behind the small ones.
  Parted-small :
      (low high j next : ℕ) (pivot : RainfallRecord V) (arr₀ arr : List (RainfallRecord V))
      → high < length arr
      → j < high
      → Parted low high pivot arr₀ j next arr
      → d.le (get_or arr j blank).annual pivot.annual ≡ true
      → Parted low high pivot arr₀
          (j + 1)
          (next + 1)
          (if next == j then arr else swapped arr next j)
  Parted-small low high j next pivot arr₀ arr fits before p is_small =
      elim (Bool-cases (next == j)) [
        | inl same ↦
            let e : next ≡ j = ground arith in
            rw same (record {
              moved = p.moved;
              from = omega (arith, p.from);
              to = omega (arith, p.to);
              last = p.last;
              small = λ k a b. elim (Bool-cases (k == j)) [
                | inl here ↦ let e' : k ≡ j = ground arith in rw e' is_small
                | inr other ↦ p.small k a (ground arith)
              ];
              large = λ k a b. absurd (omega arith);
            })
        | inr apart ↦
            let at = λ (k : ℕ). get_or-swapped arr next j k (omega (arith, p.to)) (omega arith) in
            rw apart (record {
              moved = Rearranges-trans p.moved (
                  swapped-Rearranges arr low high next j fits p.from (omega (arith, p.to))
                    (omega (arith, p.from, p.to)) (omega arith));
              from = omega (arith, p.from);
              to = omega (arith, p.to);
              last = at high ∙ ground (arith, p.last, p.to);
              small = λ k a b. rw (at k) (ground (arith, p.small k a, p.to));
              large = λ k a b. rw (at k) (ground (arith, p.large k, p.large next, p.to));
            })
      ]

  -- A large one stays.
  Parted-large :
      (low high j next : ℕ) (pivot : RainfallRecord V) (arr₀ arr : List (RainfallRecord V))
      → Parted low high pivot arr₀ j next arr
      → d.le (get_or arr j blank).annual pivot.annual ≡ false
      → Parted low high pivot arr₀ (j + 1) next arr
  Parted-large low high j next pivot arr₀ arr p is_large = record {
    moved = p.moved;
    from = p.from;
    to = omega (arith, p.to);
    last = p.last;
    small = p.small;
    large = λ k a b. elim (Bool-cases (k == j)) [
      | inl here ↦
          let e : k ≡ j = ground arith in
          rw e (d.total (get_or arr j blank).annual pivot.annual is_large)
      | inr other ↦ p.large k a (ground arith)
    ];
  }

  round-Parted :
      (low high j next : ℕ) (pivot : RainfallRecord V) (arr₀ : List (RainfallRecord V))
      (s : Sorting V)
      → high < length s.arr
      → j < high
      → Parted low high pivot arr₀ j next s.arr
      → Parted low high pivot arr₀
          (j + 1)
          (partition_round pivot.annual j (next, s)).0
          (partition_round pivot.annual j (next, s)).1.arr
  round-Parted low high j next pivot arr₀ s fits before p =
      let (next_e, arr_e) = round_arr pivot.annual j next s in
      rw (next_e, arr_e)
        (elim (Bool-cases (d.le (get_or s.arr j blank).annual pivot.annual)) [
          | inl small ↦ rw small (Parted-small low high j next pivot arr₀ s.arr fits before p small)
          | inr large ↦ rw large (Parted-large low high j next pivot arr₀ s.arr p large)
        ])

  loop-Parted :
      (n low high j : ℕ) (pivot : RainfallRecord V) (arr₀ : List (RainfallRecord V))
      (state : ℕ × Sorting V)
      → high < length arr₀
      → j + n ≡ high
      → Parted low high pivot arr₀ j state.0 state.1.arr
      → Parted low high pivot arr₀ high
          (partition_loop n pivot.annual j state).0
          (partition_loop n pivot.annual j state).1.arr
  unfolding partition_loop
  loop-Parted zero low high j pivot arr₀ state fits stop p =
      let e : j ≡ high = omega arith in rw e at p
  loop-Parted (suc n) low high j pivot arr₀ state fits stop p =
      loop-Parted n low high (j + 1) pivot arr₀ (partition_round pivot.annual j state) fits
        (omega arith)
        (round-Parted low high j state.0 pivot arr₀ state.1 (omega (arith, p.moved.size))
          (omega arith) p)

  -- The pivot at its place `pi`: small records before it in the segment, large ones behind it.
  pub record Partitioned (low high : ℕ) (arr₀ : List (RainfallRecord V)) (pi : ℕ)
      (arr : List (RainfallRecord V)) : Type 0 where
    pub moved : Rearranges low high arr₀ arr
    pub from : low ≤ pi
    pub to : pi ≤ high
    pub small :
        (k : ℕ)
        → low ≤ k
        → k < pi
        → d.le (get_or arr k blank).annual (get_or arr pi blank).annual ≡ true
    pub large :
        (k : ℕ)
        → pi < k
        → k ≤ high
        → d.le (get_or arr pi blank).annual (get_or arr k blank).annual ≡ true

  place_pivot_arr :
      (high next : ℕ) (s : Sorting V)
      → ((place_pivot high (next, s)).0 ≡ next)
        × ((place_pivot high (next, s)).1.arr
            ≡ (if next == high then s.arr else swapped s.arr next high))
  unfolding place_pivot swap_records
  place_pivot_arr high next s = elim (Bool-cases (next == high)) [
    | inl same ↦ rw same (refl, refl)
    | inr apart ↦ rw apart (refl, refl)
  ]

  place-Partitioned :
      (low high next : ℕ) (pivot : RainfallRecord V) (arr₀ arr : List (RainfallRecord V))
      → high < length arr
      → Parted low high pivot arr₀ high next arr
      → Partitioned low high arr₀ next (if next == high then arr else swapped arr next high)
  place-Partitioned low high next pivot arr₀ arr fits p = elim (Bool-cases (next == high)) [
    | inl same ↦
        let e : next ≡ high = ground arith in
        rw same (record {
          moved = p.moved;
          from = p.from;
          to = p.to;
          small = λ k a b. rw (e, p.last) (p.small k a b);
          large = λ k a b. absurd (omega arith);
        })
    | inr apart ↦
        let at = λ (k : ℕ). get_or-swapped arr next high k (omega (arith, p.to)) fits in
        let here : get_or (swapped arr next high) next blank ≡ pivot =
          at next ∙ ground (arith, p.last) in
        rw apart (record {
          moved = Rearranges-trans p.moved (
              swapped-Rearranges arr low high next high fits p.from p.to
                (omega (arith, p.from, p.to)) (omega arith));
          from = p.from;
          to = p.to;
          small = λ k a b. rw (here, at k) (ground (arith, p.small k a b, p.to));
          large = λ k a b. rw (here, at k) (ground (arith, p.large k, p.large next));
        })
  ]

  partition_start :
      (low high rand_idx : ℕ) (arr : List (RainfallRecord V))
      → high < length arr
      → low ≤ rand_idx
      → rand_idx ≤ high
      → Parted low high
          (get_or (swapped arr rand_idx high) high blank)
          arr
          low
          low
          (swapped arr rand_idx high)
  partition_start low high rand_idx arr fits p q = record {
    moved = swapped-Rearranges arr low high rand_idx high fits p q (omega arith) (omega arith);
    from = omega arith;
    to = omega arith;
    last = refl;
    small = λ k a b. absurd (omega arith);
    large = λ k a b. absurd (omega arith);
  }

  swap_records-arr :
      (s : Sorting V) (a b n : ℕ)
      → (swap_records (record s { draws = n }) a b).arr ≡ swapped s.arr a b
  unfolding swap_records
  swap_records-arr s a b n = refl

  pub partition-Partitioned :
      (rand : ℕ → ℕ) (s : Sorting V) (low high : ℕ)
      → low ≤ high
      → high < length s.arr
      → Partitioned low high s.arr (partition rand s low high).0 (partition rand s low high).1.arr
  unfolding partition
  partition-Partitioned rand s low high ordered fits =
      let r = low + rand s.draws % (high - low + 1) in
      let below : rand s.draws % (high - low + 1) < high - low + 1 = grind arith in
      let chosen = swap_records (record s { draws = s.draws + 1 }) r high in
      let e = swap_records-arr s r high (s.draws + 1) in
      let pivot = get_or chosen.arr high blank in
      let start : Parted low high pivot s.arr low low chosen.arr =
        rw e (partition_start low high r s.arr fits (omega arith) (omega arith)) in
      let state = partition_loop (high - low) pivot.annual low (low, chosen) in
      let parted =
        loop-Parted (high - low) low high low pivot s.arr (low, chosen) fits (omega arith) start in
      let (pi_e, arr_e) = place_pivot_arr high state.0 state.1 in
      rw (pi_e, arr_e)
        (place-Partitioned low high state.0 pivot s.arr state.1.arr
          (omega (arith, parted.moved.size)) parted)
