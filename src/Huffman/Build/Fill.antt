-- ===== src/Huffman/Build/Fill.antt =====
-- The heap that the greedy loop starts from: one leaf for each symbol that occurs.
use study_in_tezpur_universi.Common.{
  ℕ, suc, ◌+◌, ◌-◌, ◌≤◌, ◌≡◌, refl, List, [], ◌∷◌, ltb, leb, if◌then◌else◌, arith, Bool-cases, inl,
  inr, length, get_or,
}
use study_in_tezpur_universi.Huffman.Node.{HuffmanNode, create_node, count_leaves}
use study_in_tezpur_universi.Huffman.Heap.{MinHeap, insert_min_heap}
use study_in_tezpur_universi.Huffman.Heap.Sums.{IsWithin, total}
use study_in_tezpur_universi.Huffman.Heap.Conserve.{insert_min_heap-Inserted}
use study_in_tezpur_universi.Huffman.Build.{count_distinct, fill_heap}
use study_in_tezpur_universi.Huffman.Build.Shape.{defect, leaves}

-- The weight of the leaves for the frequencies from index `i` on.
unfoldable pub leaf_sum : (HuffmanNode → ℕ) → ℕ → List ℕ → ℕ
leaf_sum weight i [] = 0
leaf_sum weight i (f ∷ freqs) =
    (if ltb 0 f then weight (create_node i f) else 0) + leaf_sum weight (suc i) freqs

pub record Filled (weight : HuffmanNode → ℕ) (h : MinHeap) (i : ℕ) (freqs : List ℕ) (h' : MinHeap)
    : Type 0 where
  pub within : IsWithin h'
  pub size : h'.size ≡ h.size + count_distinct freqs
  pub weighs : total weight h' ≡ total weight h + leaf_sum weight i freqs

pub fill_heap-Filled :
    (weight : HuffmanNode → ℕ) (i : ℕ) (freqs : List ℕ) (h : MinHeap)
    → IsWithin h
    → h.size + count_distinct freqs ≤ h.capacity
    → Filled weight h i freqs (fill_heap i freqs h)
unfolding fill_heap count_distinct leaf_sum
fill_heap-Filled weight i [] h w room = record {
  within = w;
  size = omega arith;
  weighs = omega arith;
}
fill_heap-Filled weight i (f ∷ freqs) h w room = elim (Bool-cases (ltb 0 f)) [
  | inl occurs ↦
      let step = insert_min_heap-Inserted weight h (create_node i f) w (ground arith) in
      let rest =
        fill_heap-Filled weight (suc i) freqs (insert_min_heap h (create_node i f)) step.within
          (ground (arith, step.size, step.capacity)) in
      rw occurs (record {
        within = rest.within;
        size = rw occurs (omega (arith, rest.size, step.size));
        weighs = rw occurs (omega (arith, rest.weighs, step.weighs));
      })
  | inr absent ↦
      let rest = fill_heap-Filled weight (suc i) freqs h w (ground arith) in
      rw absent (record {
        within = rest.within;
        size = rw absent (omega (arith, rest.size));
        weighs = rw absent (omega (arith, rest.weighs));
      })
]

-- Each leaf is full, and the leaves are as many as the distinct symbols.
pub leaf_sum-defect :
    (i : ℕ) (freqs : List ℕ) → i + length freqs ≤ 256 → leaf_sum defect i freqs ≡ 0
unfolding leaf_sum defect
leaf_sum-defect i [] h = refl
leaf_sum-defect i (f ∷ freqs) h = ground (arith, leaf_sum-defect (suc i) freqs)

pub leaf_sum-leaves : (i : ℕ) (freqs : List ℕ) → leaf_sum leaves i freqs ≡ count_distinct freqs
unfolding leaf_sum leaves count_distinct
leaf_sum-leaves i [] = refl
leaf_sum-leaves i (f ∷ freqs) = omega (arith, leaf_sum-leaves (suc i) freqs)

-- A symbol has one leaf if it occurs, and none otherwise.
pub leaf_sum-count_leaves :
    (c i : ℕ) (freqs : List ℕ)
    → leaf_sum (count_leaves c) i freqs
      ≡ (if leb i c then (if ltb 0 (get_or freqs (c - i) 0) then 1 else 0) else 0)
unfolding leaf_sum count_leaves
leaf_sum-count_leaves c i [] = ground arith
leaf_sum-count_leaves c i (f ∷ freqs) = elim (Bool-cases (leb (suc i) c)) [
  | inl later ↦
      let e : c - i ≡ suc (c - suc i) = ground arith in
      rw e (ground (arith, leaf_sum-count_leaves c (suc i) freqs))
  | inr now ↦
      let e : c - i ≡ 0 = ground arith in
      rw e (ground (arith, leaf_sum-count_leaves c (suc i) freqs))
]

pub count_distinct-le-length : (freqs : List ℕ) → count_distinct freqs ≤ length freqs
unfolding count_distinct
count_distinct-le-length [] = omega arith
count_distinct-le-length (f ∷ freqs) = ground (arith, count_distinct-le-length freqs)
