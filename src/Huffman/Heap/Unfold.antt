-- ===== src/Huffman/Heap/Unfold.antt =====
-- The heap's recursions have enough fuel: they satisfy the equations of the source.
use study_in_tezpur_universi.Common.{
  ℕ, zero, suc, ◌+◌, ◌-◌, ◌*◌, ◌/◌, ◌≤◌, ◌<◌, ◌≡◌, refl, ◌∙◌, List, false, ◌==◌, ltb, ◌&&◌,
  if◌then◌else◌, arith, Bool-cases, inl, inr, set,
}
use study_in_tezpur_universi.Huffman.Node.{HuffmanNode, freq_of}
use study_in_tezpur_universi.Huffman.Heap.{
  MinHeap, slot, key, swap_nodes, smaller_left, smallest, heapify_fuel, min_heapify, sift_up,
}

-- `smallest` is `idx` or a child within the heap.
pub smallest_range :
    (h : MinHeap) (idx : ℕ)
    → (smallest h idx == idx) ≡ false
    → (idx < smallest h idx) × (smallest h idx < h.size) × (smallest h idx ≤ 2 * idx + 2)
unfolding smallest smaller_left
smallest_range h idx moved = ground arith

heapify_spare :
    (fuel more : ℕ) (h : MinHeap) (idx : ℕ)
    → h.size ≤ idx + fuel
    → h.size ≤ idx + more
    → heapify_fuel fuel h idx ≡ heapify_fuel more h idx
unfolding heapify_fuel
heapify_spare zero zero h idx p q = refl
heapify_spare zero (suc more) h idx p q = elim (Bool-cases (smallest h idx == idx)) [
  | inl same ↦ rw same
  | inr moved ↦ absurd (omega (arith, smallest_range h idx moved))
]
heapify_spare (suc fuel) zero h idx p q = elim (Bool-cases (smallest h idx == idx)) [
  | inl same ↦ rw same
  | inr moved ↦ absurd (omega (arith, smallest_range h idx moved))
]
heapify_spare (suc fuel) (suc more) h idx p q = elim (Bool-cases (smallest h idx == idx)) [
  | inl same ↦ rw same
  | inr moved ↦
      let r = smallest_range h idx moved in
      rw moved (
        heapify_spare fuel more (record h { array = swap_nodes h.array (smallest h idx) idx })
          (smallest h idx) (omega arith) (omega arith))
]

-- `minHeapify` meets its recursive equation at every heap and index.
pub min_heapify_lem :
    (h : MinHeap) (idx : ℕ)
    → min_heapify h idx ≡ (
        if smallest h idx == idx
        then h
        else min_heapify
            (record h { array = swap_nodes h.array (smallest h idx) idx })
            (smallest h idx))
unfolding min_heapify
min_heapify_lem h idx =
    heapify_spare (h.size - idx) (suc h.size) h idx (omega arith) (omega arith)
    ∙ (elim (Bool-cases (smallest h idx == idx)) [
      | inl same ↦ unfold heapify_fuel in rw same
      | inr moved ↦
          unfold heapify_fuel in
          rw moved (
            heapify_spare h.size (h.size - smallest h idx)
              (record h { array = swap_nodes h.array (smallest h idx) idx }) (smallest h idx)
              (omega arith) (omega arith))
    ])

sift_up-spare :
    (fuel more : ℕ) (array : List HuffmanNode) (i : ℕ) (n : HuffmanNode)
    → i ≤ fuel
    → i ≤ more
    → sift_up fuel array i n ≡ sift_up more array i n
unfolding sift_up
sift_up-spare zero zero array i n p q = refl
sift_up-spare zero (suc more) array i n p q = ground arith
sift_up-spare (suc fuel) zero array i n p q = ground arith
sift_up-spare (suc fuel) (suc more) array i n p q =
    elim (Bool-cases (ltb 0 i && ltb (freq_of n) (key array ((i - 1) / 2)))) [
      | inl up ↦ rw up (
          sift_up-spare fuel more (set array i (slot array ((i - 1) / 2))) ((i - 1) / 2) n
            (omega arith) (omega arith))
      | inr stop ↦ rw stop
    ]

-- The loop of `insertMinHeap` meets its equation: a round and the rest of the loop.
pub sift_up_lem :
    (array : List HuffmanNode) (i : ℕ) (n : HuffmanNode)
    → sift_up i array i n ≡ (
        if ltb 0 i && ltb (freq_of n) (key array ((i - 1) / 2))
        then sift_up ((i - 1) / 2) (set array i (slot array ((i - 1) / 2))) ((i - 1) / 2) n
        else set array i n)
sift_up_lem array zero n = unfold sift_up in ground arith
sift_up_lem array (suc i) n =
    unfold sift_up in
    rw (
      sift_up-spare i ((suc i - 1) / 2) (set array (suc i) (slot array ((suc i - 1) / 2)))
        ((suc i - 1) / 2) n (omega arith) (omega arith))
