-- ===== src/Huffman/Build/Merge.antt =====
-- The greedy loop leaves one full tree, whose additive weights are those of the heap's nodes.
use study_in_tezpur_universi.Common.{
  ℕ, zero, suc, ◌+◌, ◌%◌, ◌^◌, ◌≤◌, ◌<◌, ◌≡◌, refl, ◌∙◌, ltb, arith, Bool-cases, inl, inr,
}
use study_in_tezpur_universi.Huffman.Node.{HuffmanNode, node, freq_of, IsFull, IsFull-node}
use study_in_tezpur_universi.Huffman.Heap.{MinHeap, extract_min}
use study_in_tezpur_universi.Huffman.Heap.Sums.{IsWithin, total, total-empty}
use study_in_tezpur_universi.Huffman.Heap.Conserve.{extract_min-Extracted, insert_min_heap-Inserted}
use study_in_tezpur_universi.Huffman.Build.{merge_two, merge_fuel}
use study_in_tezpur_universi.Huffman.Build.Shape.{defect, defect-IsFull, defect-fork, IsAdditive}

-- A heap of full trees.
pub record IsForest (h : MinHeap) : Type 0 where
  pub within : IsWithin h
  pub full : total defect h ≡ 0

-- A forest with one tree less and the same weight.
pub record Merged (weight : HuffmanNode → ℕ) (h h' : MinHeap) : Type 0 where
  pub forest : IsForest h'
  pub size : suc h'.size ≡ h.size
  pub weighs : total weight h' ≡ total weight h

pub merge_two-Merged :
    (weight : HuffmanNode → ℕ) (h : MinHeap)
    → IsAdditive weight
    → IsForest h
    → 1 < h.size
    → Merged weight h (merge_two h)
unfolding merge_two
merge_two-Merged weight h additive forest two =
    let a = extract_min h in
    let b = extract_min a.1 in
    let top = node b'$' ((freq_of a.0 + freq_of b.0) % 2 ^ 64) a.0 b.0 in
    let da = extract_min-Extracted defect h forest.within (omega arith) in
    let db = extract_min-Extracted defect a.1 da.within (omega (arith, da.size)) in
    let wa = extract_min-Extracted weight h forest.within (omega arith) in
    let wb = extract_min-Extracted weight a.1 da.within (omega (arith, da.size)) in
    let left_full : defect a.0 ≡ 0 = omega (arith, da.weighs, forest.full) in
    let right_full : defect b.0 ≡ 0 = omega (arith, da.weighs, db.weighs, forest.full) in
    let room : b.1.size < b.1.capacity =
      omega (arith, da.size, db.size, da.capacity, db.capacity, forest.within.fits) in
    let di = insert_min_heap-Inserted defect b.1 top db.within room in
    let wi = insert_min_heap-Inserted weight b.1 top db.within room in
    record {
      forest = record {
        within = di.within;
        full = omega (
          arith,
          di.weighs,
          db.weighs,
          da.weighs,
          forest.full,
          defect-fork b'$' ((freq_of a.0 + freq_of b.0) % 2 ^ 64) a.0 b.0 left_full right_full,
        );
      };
      size = omega (arith, di.size, db.size, da.size);
      weighs = omega (
        arith,
        wi.weighs,
        wb.weighs,
        wa.weighs,
        additive b'$' ((freq_of a.0 + freq_of b.0) % 2 ^ 64) a.0 b.0
            (IsFull-node (defect-IsFull a.0 left_full)),
      );
    }

-- The loop ends with one tree.
pub record Finished (weight : HuffmanNode → ℕ) (h h' : MinHeap) : Type 0 where
  pub forest : IsForest h'
  pub size : h'.size ≡ 1
  pub weighs : total weight h' ≡ total weight h

pub merge_fuel-Finished :
    (weight : HuffmanNode → ℕ) (fuel : ℕ) (h : MinHeap)
    → IsAdditive weight
    → IsForest h
    → 0 < h.size
    → h.size ≤ suc fuel
    → Finished weight h (merge_fuel fuel h)
unfolding merge_fuel
merge_fuel-Finished weight zero h additive forest some_trees enough = record {
  forest = forest;
  size = omega arith;
  weighs = refl;
}
merge_fuel-Finished weight (suc fuel) h additive forest some_trees enough =
    elim (Bool-cases (ltb 1 h.size)) [
      | inl more ↦
          let step = merge_two-Merged weight h additive forest (ground arith) in
          let rest =
            merge_fuel-Finished weight fuel (merge_two h) additive step.forest
              (ground (arith, step.size)) (omega (arith, step.size)) in
          rw more
            (record { forest = rest.forest; size = rest.size; weighs = rest.weighs ∙ step.weighs })
      | inr single ↦ rw single (record { forest = forest; size = ground arith; weighs = refl })
    ]

-- The tree that is left in a heap of one.
pub root_weight :
    (weight : HuffmanNode → ℕ) (h : MinHeap)
    → IsForest h
    → h.size ≡ 1
    → IsFull (extract_min h).0 × (weight (extract_min h).0 ≡ total weight h)
root_weight weight h forest one =
    let d = extract_min-Extracted defect h forest.within (omega arith) in
    let w = extract_min-Extracted weight h forest.within (omega arith) in
    (
      defect-IsFull _ (omega (arith, d.weighs, forest.full)),
      omega (arith, w.weighs, w.size, total-empty weight (extract_min h).1 (omega (arith, w.size))),
    )
