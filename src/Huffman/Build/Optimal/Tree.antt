-- ===== src/Huffman/Build/Optimal/Tree.antt =====
-- `buildHuffmanTree` against any other tree for the same text.
use study_in_tezpur_universi.Common.{
  ℕ, suc, ◌+◌, ◌^◌, ◌≤◌, ◌<◌, ◌≡◌, refl, sym, ap, ◌∙◌, List, [], ◌∷◌, false, ltb, ◌==◌,
  if◌then◌else◌, arith, Bool-cases, inl, inr, length, get_or,
}
use study_in_tezpur_universi.Huffman.Node.{HuffmanNode, create_node, IsFull, count_leaves}
use study_in_tezpur_universi.Huffman.Heap.{MinHeap, create_min_heap, insert_min_heap}
use study_in_tezpur_universi.Huffman.Heap.Sums.{IsWithin, total}
use study_in_tezpur_universi.Huffman.Heap.Conserve.{
  create_min_heap-IsWithin, insert_min_heap-Inserted,
}
use study_in_tezpur_universi.Huffman.Heap.Order.{IsHeap, insert_min_heap-IsHeap}
use study_in_tezpur_universi.Huffman.Build.{
  count_distinct, fill_heap, merge_fuel, build_from_heap, build_huffman_tree,
}
use study_in_tezpur_universi.Huffman.Build.Shape.{defect, leaves}
use study_in_tezpur_universi.Huffman.Build.Merge.{merge_fuel-Finished, root_weight}
use study_in_tezpur_universi.Huffman.Build.Fill.{
  leaf_sum, fill_heap-Filled, leaf_sum-defect, leaf_sum-leaves,
}
use study_in_tezpur_universi.Huffman.Build.Optimal.Slots.{is_label}
use study_in_tezpur_universi.Huffman.Build.Optimal.Cost.{
  weigh, encoded_bits, weigh-IsAdditive, misfit,
}
use study_in_tezpur_universi.Huffman.Build.Optimal.Greedy.{has_key, IsReady, merge_fuel_best}
use study_in_tezpur_universi.Huffman.Build.Optimal.Labels.{outline, weigh-leaf_sum, leaf_sum-agree}

-- The length of a text with these frequencies.
unfoldable pub text_length : List ℕ → ℕ
text_length [] = 0
text_length (f ∷ freqs) = f + text_length freqs

leaf_sum-nothing : (i : ℕ) (freqs : List ℕ) → leaf_sum (λ (n : HuffmanNode). 0) i freqs ≡ 0
unfolding leaf_sum
leaf_sum-nothing i [] = refl
leaf_sum-nothing i (f ∷ freqs) = ground (arith, leaf_sum-nothing (suc i) freqs)

fill_heap-IsHeap :
    (i : ℕ) (freqs : List ℕ) (h : MinHeap)
    → IsWithin h
    → h.size + count_distinct freqs ≤ h.capacity
    → IsHeap h.array h.size
    → IsHeap (fill_heap i freqs h).array (fill_heap i freqs h).size
unfolding fill_heap count_distinct
fill_heap-IsHeap i [] h w room ordered = ordered
fill_heap-IsHeap i (f ∷ freqs) h w room ordered = elim (Bool-cases (ltb 0 f)) [
  | inl occurs ↦
      let step = insert_min_heap-Inserted defect h (create_node i f) w (ground arith) in
      rw (occurs, fill_heap)
        (fill_heap-IsHeap (suc i) freqs (insert_min_heap h (create_node i f)) step.within
          (ground (arith, step.size, step.capacity))
          (insert_min_heap-IsHeap h (create_node i f) w (ground arith) ordered))
  | inr absent ↦ rw (absent, fill_heap) (fill_heap-IsHeap (suc i) freqs h w (ground arith) ordered)
]

module _ (freqs : List ℕ) where
  -- How often a symbol occurs.
  abbrev pub amount : ℕ → ℕ
  amount c = get_or freqs c 0

  -- The heap that the greedy loop starts from.
  abbrev filled : MinHeap
  filled = fill_heap 0 freqs (create_min_heap (count_distinct freqs))

  filled_weighs :
      (weight : HuffmanNode → ℕ)
      → IsWithin filled
        × (filled.size ≡ count_distinct freqs)
        × (total weight filled ≡ leaf_sum weight 0 freqs)
  unfolding create_min_heap
  filled_weighs weight =
      let (within, nothing) = create_min_heap-IsWithin weight (count_distinct freqs) in
      let f =
        fill_heap-Filled weight 0 freqs (create_min_heap (count_distinct freqs)) within
          (omega arith) in
      (f.within, omega (arith, f.size), omega (arith, f.weighs, nothing))

  filled-IsHeap : IsHeap filled.array filled.size
  unfolding create_min_heap
  filled-IsHeap =
      fill_heap-IsHeap 0 freqs (create_min_heap (count_distinct freqs))
        (create_min_heap-IsWithin defect (count_distinct freqs)).0 (omega arith)
        (λ c some_c inside. absurd (omega arith))

  weigh-text_length :
      (i : ℕ) (rest : List ℕ)
      → ((j : ℕ) → amount (i + j) ≡ get_or rest j 0)
      → leaf_sum (weigh amount) i rest ≡ text_length rest
  unfolding leaf_sum text_length weigh
  weigh-text_length i [] same = refl
  weigh-text_length i (f ∷ rest) same =
      let first : amount i ≡ f = let e : i + 0 ≡ i = omega arith in rw e at (same 0) in
      let others =
        weigh-text_length (suc i) rest
          (λ j. let e : i + suc j ≡ suc i + j = omega arith in rw e at (same (suc j))) in
      ground (arith, first, others)

  amount_zero : (j : ℕ) → amount (0 + j) ≡ get_or freqs j 0
  amount_zero j = ap amount (omega arith)

  right_sum : leaf_sum (misfit amount) 0 freqs ≡ 0
  unfolding misfit weigh
  right_sum =
      leaf_sum-agree (misfit amount) (λ (n : HuffmanNode). 0) 0 freqs
        (λ j. ground (arith, amount_zero j))
      ∙ leaf_sum-nothing 0 freqs

  no_bits : leaf_sum (encoded_bits amount 0) 0 freqs ≡ 0
  unfolding encoded_bits
  no_bits =
      leaf_sum-agree (encoded_bits amount 0) (λ (n : HuffmanNode). 0) 0 freqs (λ j. omega arith)
      ∙ leaf_sum-nothing 0 freqs

  keys_sum :
      (w : ℕ)
      → leaf_sum (has_key w) 0 freqs ≡ leaf_sum (weigh (λ (c : ℕ). is_label w (amount c))) 0 freqs
  unfolding has_key weigh
  keys_sum w =
      leaf_sum-agree (has_key w) (weigh (λ (c : ℕ). is_label w (amount c))) 0 freqs
        (λ j. ap (is_label w) (sym (amount_zero j)))

  ones_sum : leaf_sum (weigh (λ (c : ℕ). 1)) 0 freqs ≡ count_distinct freqs
  unfolding weigh leaves
  ones_sum =
      leaf_sum-agree (weigh (λ (c : ℕ). 1)) leaves 0 freqs (λ j. refl) ∙ leaf_sum-leaves 0 freqs

  filled-IsReady : length freqs ≡ 256 → text_length freqs < 2 ^ 64 → IsReady amount filled
  filled-IsReady size short =
      let (within, many, defects) = filled_weighs defect in
      let (_, _, misfits) = filled_weighs (misfit amount) in
      let (_, _, weighs) = filled_weighs (weigh amount) in
      record {
        forest = record {
          within = within;
          full = omega (arith, defects, leaf_sum-defect 0 freqs (omega arith));
        };
        ordered = filled-IsHeap;
        right = omega (arith, misfits, right_sum);
        bounded = omega (arith, weighs, weigh-text_length 0 freqs amount_zero);
      }

  build_from_heap_optimal :
      (t : HuffmanNode)
      → length freqs ≡ 256
      → 1 < count_distinct freqs
      → text_length freqs < 2 ^ 64
      → IsFull t
      → ((c : ℕ) → count_leaves c t ≡ (if ltb 0 (amount c) then 1 else 0))
      → encoded_bits amount 0 (build_from_heap freqs (count_distinct freqs))
        ≤ encoded_bits amount 0 t
  unfolding build_from_heap
  build_from_heap_optimal t size two short full own =
      let ready = filled-IsReady size short in
      let (_, many, no_cost) = filled_weighs (encoded_bits amount 0) in
      let o = outline amount 0 t full in
      let own_leaves : (g : ℕ → ℕ) → weigh g t ≡ leaf_sum (weigh g) 0 freqs =
        λ g. weigh-leaf_sum g t freqs size full own in
      let m =
        merge_fuel-Finished (weigh amount) filled.size filled (weigh-IsAdditive amount) ready.forest
          (omega (arith, many)) (omega arith) in
      let (_, root) =
        root_weight (encoded_bits amount 0) (merge_fuel filled.size filled) m.forest m.size in
      let best =
        merge_fuel_best amount filled.size filled o.layout o.labels ready (omega (arith, many))
          (omega arith) o.fits (omega (arith, o.size, own_leaves (λ (c : ℕ). 1), ones_sum, many))
          (λ w.
            let (_, _, keys) = filled_weighs (has_key w) in
            omega (
              arith,
              o.count w,
              own_leaves (λ (c : ℕ). is_label w (amount c)),
              keys_sum w,
              keys,
            )) in
      omega (arith, root, best, no_cost, no_bits, o.cost)

-- For 256 frequencies of which two or more are above 0 and whose sum fits into 64 bits: no full tree
-- with exactly one leaf for each symbol that occurs and none for the others spells the text with
-- fewer bits than the tree that is built.
pub build_huffman_tree_optimal :
    (freqs : List ℕ) (t : HuffmanNode)
    → length freqs ≡ 256
    → 1 < count_distinct freqs
    → text_length freqs < 2 ^ 64
    → IsFull t
    → ((c : ℕ) → count_leaves c t ≡ (if ltb 0 (get_or freqs c 0) then 1 else 0))
    → encoded_bits (amount freqs) 0 (build_huffman_tree freqs).0 ≤ encoded_bits (amount freqs) 0 t
unfolding build_huffman_tree
build_huffman_tree_optimal freqs t size two short full own =
    let busy : (count_distinct freqs == 0) ≡ false = ground arith in
    let more : (count_distinct freqs == 1) ≡ false = ground arith in
    rw (busy, more) (build_from_heap_optimal freqs t size two short full own)
