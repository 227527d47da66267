-- ===== src/Huffman/Build/Optimal/Greedy.antt =====
-- The greedy loop leaves a tree that costs at most what the heap's trees and any tree above them cost.
use study_in_tezpur_universi.Common.{
  ℕ, zero, suc, ◌+◌, ◌%◌, ◌^◌, ◌≤◌, ◌<◌, ◌≡◌, ap, List, ltb, ◌==◌, arith, Bool-cases, inl, inr,
  length,
}
use study_in_tezpur_universi.Huffman.Node.{HuffmanNode, node, freq_of, IsFull-node}
use study_in_tezpur_universi.Huffman.Heap.{MinHeap, key, extract_min}
use study_in_tezpur_universi.Huffman.Heap.Sums.{sum_below, total}
use study_in_tezpur_universi.Huffman.Heap.Conserve.{
  Extracted, extract_min-Extracted, insert_min_heap-Inserted,
}
use study_in_tezpur_universi.Huffman.Heap.Order.{IsHeap, extract_min-least, insert_min_heap-IsHeap}
use study_in_tezpur_universi.Huffman.Build.{merge_two, merge_fuel}
use study_in_tezpur_universi.Huffman.Build.Shape.{defect, defect-IsFull}
use study_in_tezpur_universi.Huffman.Build.Merge.{IsForest, merge_two-Merged}
use study_in_tezpur_universi.Huffman.Build.Optimal.Slots.{dot, is_label, occurrences}
use study_in_tezpur_universi.Huffman.Build.Optimal.Deepest.{Shape, depths}
use study_in_tezpur_universi.Huffman.Build.Optimal.Contract.{Least, contract}
use study_in_tezpur_universi.Huffman.Build.Optimal.Cost.{
  weigh, encoded_bits, weigh-IsAdditive, encoded_bits-fork, encoded_bits_deeper, misfit, misfit_lem,
}

-- 1 for a node of frequency `w`.
unfoldable pub has_key : ℕ → HuffmanNode → ℕ
unfolding is_label
has_key w t = is_label w (freq_of t)

slot_below :
    (w : ℕ) (array : List HuffmanNode) (n : ℕ)
    → 0 < sum_below (has_key w) array n
    → (i : ℕ) × (i < n) × (key array i ≡ w)
unfolding sum_below has_key
slot_below w array zero some_w = absurd (omega arith)
slot_below w array (suc n) some_w = elim (Bool-cases (key array n == w)) [
  | inl last ↦ (n, omega arith, ground arith)
  | inr other ↦
      let (i, inside, found) = slot_below w array n (ground arith) in
      (i, omega (arith, inside), found)
]

slot_of :
    (w : ℕ) (h : MinHeap) → 0 < total (has_key w) h → (i : ℕ) × (i < h.size) × (key h.array i ≡ w)
unfolding total
slot_of w h some_w = slot_below w h.array h.size some_w

-- The tree of the two nodes that a round merges.
abbrev merged_node : MinHeap → HuffmanNode
merged_node h =
    let a = extract_min h in
    let b = extract_min a.1 in node b'$' ((freq_of a.0 + freq_of b.0) % 2 ^ 64) a.0 b.0

-- Any weight of nodes changes by that of the merged node and of the two in it.
merge_two_weighs :
    (weight : HuffmanNode → ℕ) (h : MinHeap)
    → IsForest h
    → 1 < h.size
    → weight (extract_min h).0
        + weight (extract_min (extract_min h).1).0
        + total weight (merge_two h)
      ≡ total weight h + weight (merged_node h)
unfolding merge_two
merge_two_weighs weight h forest two =
    let a = extract_min h in
    let da = extract_min-Extracted weight h forest.within (omega arith) in
    let b = extract_min a.1 in
    let db = extract_min-Extracted weight a.1 da.within (omega (arith, da.size)) in
    let di =
      insert_min_heap-Inserted weight b.1 (merged_node h) db.within
        (omega (arith, da.size, db.size, da.capacity, db.capacity, forest.within.fits)) in
    omega (arith, da.weighs, db.weighs, di.weighs)

merge_two_keys :
    (w : ℕ) (h : MinHeap)
    → IsForest h
    → 1 < h.size
    → is_label w (freq_of (extract_min h).0)
        + is_label w (freq_of (extract_min (extract_min h).1).0)
        + total (has_key w) (merge_two h)
      ≡ total (has_key w) h + is_label w (freq_of (merged_node h))
unfolding has_key
merge_two_keys w h forest two = merge_two_weighs (has_key w) h forest two

merge_two-IsHeap :
    (h : MinHeap)
    → IsForest h
    → 1 < h.size
    → IsHeap h.array h.size
    → IsHeap (merge_two h).array (merge_two h).size
unfolding merge_two
merge_two-IsHeap h forest two ordered =
    let a = extract_min h in
    let da = extract_min-Extracted defect h forest.within (omega arith) in
    let b = extract_min a.1 in
    let db = extract_min-Extracted defect a.1 da.within (omega (arith, da.size)) in
    let la = extract_min-least h forest.within (omega arith) ordered in
    let lb = extract_min-least a.1 da.within (omega (arith, da.size)) la.0 in
    insert_min_heap-IsHeap b.1 (merged_node h) db.within
      (omega (arith, da.size, db.size, da.capacity, db.capacity, forest.within.fits)) lb.0

-- The two nodes of a round have the least labels of the heap.
merge_two-Least :
    (h : MinHeap) (labels : List ℕ)
    → IsForest h
    → 1 < h.size
    → IsHeap h.array h.size
    → ((w : ℕ) → occurrences w labels ≡ total (has_key w) h)
    → Least labels (freq_of (extract_min h).0) (freq_of (extract_min (extract_min h).1).0)
unfolding has_key is_label
merge_two-Least h labels forest two ordered same =
    let a = extract_min h in
    let da : (w : ℕ) → Extracted (has_key w) h a =
      λ w. extract_min-Extracted (has_key w) h forest.within (omega arith) in
    let b = extract_min a.1 in
    let within = (da 0).within in
    let some_nodes : 0 < a.1.size = omega (arith, (da 0).size) in
    let db : (w : ℕ) → Extracted (has_key w) a.1 b =
      λ w. extract_min-Extracted (has_key w) a.1 within some_nodes in
    let la = extract_min-least h forest.within (omega arith) ordered in
    let lb = extract_min-least a.1 within some_nodes la.0 in
    record {
      a_occurs = ground (arith, same (freq_of a.0), (da (freq_of a.0)).weighs);
      b_occurs =
          ground (arith, same (freq_of b.0), (da (freq_of b.0)).weighs, (db (freq_of b.0)).weighs);
      a_least = λ w some_w.
          let (i, inside, found) = slot_of w h (omega (arith, same w)) in
          omega (arith, found, la.1 i inside);
      b_least = λ w more.
          let (i, inside, found) = slot_of w a.1 (ground (arith, same w, (da w).weighs)) in
          omega (arith, found, lb.1 i inside);
    }

module _ (amount : ℕ → ℕ) where
  -- An ordered heap of full trees whose frequencies are right and do not overflow.
  pub record IsReady (h : MinHeap) : Type 0 where
    pub forest : IsForest h
    pub ordered : IsHeap h.array h.size
    pub right : total (misfit amount) h ≡ 0
    pub bounded : total (weigh amount) h < 2 ^ 64

  -- What a round does to the two nodes.
  record Round (h : MinHeap) : Type 0 where
    sum :
        freq_of (merged_node h)
        ≡ freq_of (extract_min h).0 + freq_of (extract_min (extract_min h).1).0
    right : misfit amount (merged_node h) ≡ 0
    cost :
        encoded_bits amount 0 (merged_node h)
        ≡ encoded_bits amount 0 (extract_min h).0
          + encoded_bits amount 0 (extract_min (extract_min h).1).0
          + freq_of (merged_node h)

  merged_node-Round : (h : MinHeap) → IsReady h → 1 < h.size → Round h
  merged_node-Round h ready two =
      let a = extract_min h in
      let b = extract_min a.1 in
      let w = merge_two_weighs (weigh amount) h ready.forest two in
      let m = extract_min-Extracted (misfit amount) h ready.forest.within (omega arith) in
      let m' = extract_min-Extracted (misfit amount) a.1 m.within (omega (arith, m.size)) in
      let d = extract_min-Extracted defect h ready.forest.within (omega arith) in
      let d' = extract_min-Extracted defect a.1 d.within (omega (arith, d.size)) in
      let v = extract_min-Extracted (weigh amount) h ready.forest.within (omega arith) in
      let v' = extract_min-Extracted (weigh amount) a.1 v.within (omega (arith, v.size)) in
      let fa = misfit_lem amount a.0 (omega (arith, m.weighs, ready.right)) in
      let fb = misfit_lem amount b.0 (omega (arith, m.weighs, m'.weighs, ready.right)) in
      let full_a = defect-IsFull a.0 (omega (arith, d.weighs, ready.forest.full)) in
      let full_b = defect-IsFull b.0 (omega (arith, d.weighs, d'.weighs, ready.forest.full)) in
      let small : (freq_of a.0 + freq_of b.0) % 2 ^ 64 ≡ freq_of a.0 + freq_of b.0 =
        omega (arith, fa, fb, v.weighs, v'.weighs, ready.bounded) in
      let additive =
        weigh-IsAdditive amount b'$' ((freq_of a.0 + freq_of b.0) % 2 ^ 64) a.0 b.0
          (IsFull-node full_a) in
      record {
        sum = small;
        right = unfold misfit in ground (arith, small, fa, fb, additive);
        cost = omega (
          arith,
          encoded_bits-fork amount 0 b'$' ((freq_of a.0 + freq_of b.0) % 2 ^ 64) a.0 b.0
              (IsFull-node full_a),
          encoded_bits_deeper amount 0 a.0 full_a,
          encoded_bits_deeper amount 0 b.0 full_b,
          small,
          fa,
          fb,
        );
      }

  merge_two-IsReady : (h : MinHeap) → IsReady h → 1 < h.size → IsReady (merge_two h)
  merge_two-IsReady h ready two =
      let m = merge_two-Merged (weigh amount) h (weigh-IsAdditive amount) ready.forest two in
      let r = merged_node-Round h ready two in
      record {
        forest = m.forest;
        ordered = merge_two-IsHeap h ready.forest two ready.ordered;
        right =
            omega
              (arith, merge_two_weighs (misfit amount) h ready.forest two, r.right, ready.right);
        bounded = omega (arith, m.weighs, ready.bounded);
      }

  -- No tree above those of the heap, given by its shape and the frequencies in its leaves, costs less
  -- than the tree that the loop leaves.
  pub merge_fuel_best :
      (fuel : ℕ) (h : MinHeap) (s : Shape) (labels : List ℕ)
      → IsReady h
      → 0 < h.size
      → h.size ≤ suc fuel
      → length (depths 0 s) ≡ length labels
      → length labels ≡ h.size
      → ((w : ℕ) → occurrences w labels ≡ total (has_key w) h)
      → total (encoded_bits amount 0) (merge_fuel fuel h)
        ≤ total (encoded_bits amount 0) h + dot (depths 0 s) labels
  unfolding merge_fuel
  merge_fuel_best zero h s labels ready some_nodes enough fits size same = omega arith
  merge_fuel_best (suc fuel) h s labels ready some_nodes enough fits size same =
      elim (Bool-cases (ltb 1 h.size)) [
        | inl more ↦
            let two : 1 < h.size = ground arith in
            let a = extract_min h in
            let b = extract_min a.1 in
            let m = merge_two-Merged (weigh amount) h (weigh-IsAdditive amount) ready.forest two in
            let r = merged_node-Round h ready two in
            let c =
              contract s labels (freq_of a.0) (freq_of b.0) fits (omega (arith, size))
                (merge_two-Least h labels ready.forest two ready.ordered same) in
            let rest =
              merge_fuel_best fuel (merge_two h) c.layout c.rest (merge_two-IsReady h ready two)
                (omega (arith, m.size)) (omega (arith, m.size)) c.fits
                (omega (arith, m.size, c.size, size))
                (λ w. omega (
                  arith,
                  merge_two_keys w h ready.forest two,
                  ap (is_label w) r.sum,
                  c.count w,
                  same w,
                )) in
            let costs = merge_two_weighs (encoded_bits amount 0) h ready.forest two in
            rw more (omega (arith, rest, costs, r.cost, r.sum, c.cost))
        | inr single ↦ rw single (omega arith)
      ]
