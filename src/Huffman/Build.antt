-- ===== src/Huffman/Build.antt =====
-- `buildHuffmanTree`: the greedy construction.
pub mod Shape
pub mod Merge
pub mod Fill
pub mod Tree
pub mod Optimal
use study_in_tezpur_universi.Common.{
  ℕ, zero, suc, ◌+◌, ◌%◌, ◌^◌, List, [], ◌∷◌, Option, none, some, ltb, ◌==◌, if◌then◌else◌, get_or,
}
use study_in_tezpur_universi.Huffman.Node.{HuffmanNode, null, node, create_node, freq_of}
use study_in_tezpur_universi.Huffman.Heap.{MinHeap, create_min_heap, extract_min, insert_min_heap}

-- The symbols of a frequency above 0. `freqs` has an entry for each symbol, as an array of 256.
unfoldable pub count_distinct : List ℕ → ℕ
count_distinct [] = 0
count_distinct (f ∷ freqs) = (if ltb 0 f then 1 else 0) + count_distinct freqs

-- The tree of the only symbol, whose right child is the dummy leaf. `i` is the first index.
pub single_tree : ℕ → List ℕ → Option HuffmanNode
single_tree i [] = none
single_tree i (f ∷ freqs) =
    let later = single_tree (suc i) freqs in
    if ltb 0 f then some (node b'$' f (create_node i f) (create_node 0 0)) else later

-- The loop that inserts a leaf for each symbol.
pub fill_heap : ℕ → List ℕ → MinHeap → MinHeap
fill_heap i [] h = h
fill_heap i (f ∷ freqs) h =
    fill_heap (suc i) freqs (if ltb 0 f then insert_min_heap h (create_node i f) else h)

-- One round of the greedy loop.
pub merge_two : MinHeap → MinHeap
merge_two h =
    let (left, h') = extract_min h in
    let (right, h'') = extract_min h' in
    insert_min_heap h'' (node b'$' ((freq_of left + freq_of right) % 2 ^ 64) left right)

-- Each round leaves one node less, so that `size` rounds are enough.
pub merge_fuel : ℕ → MinHeap → MinHeap
unfolding merge_two
merge_fuel zero h = h
merge_fuel (suc fuel) h =
    let rest = merge_fuel fuel (merge_two h) in if ltb 1 h.size then rest else h

pub build_from_heap : List ℕ → ℕ → HuffmanNode
unfolding fill_heap merge_fuel
build_from_heap freqs distinct =
    let filled = fill_heap 0 freqs (create_min_heap distinct) in
    (extract_min (merge_fuel filled.size filled)).0

pub build_single : List ℕ → ℕ → HuffmanNode
unfolding single_tree build_from_heap
build_single freqs distinct = elim (single_tree 0 freqs) [
  | some root ↦ root
  | none ↦ build_from_heap freqs distinct
]

-- The tree, or NULL, and `*distinctCount`.
pub build_huffman_tree : List ℕ → HuffmanNode × ℕ
unfolding count_distinct build_single build_from_heap
build_huffman_tree freqs =
    let distinct = count_distinct freqs in
    (
      if distinct == 0
          then null
          else if distinct == 1
          then build_single freqs distinct
          else build_from_heap freqs distinct,
      distinct,
    )
