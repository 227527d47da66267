-- ===== src/Huffman/Heap.antt =====
-- The min-heap of nodes. `array` holds `capacity` slots, of which the first `size` are in use; a
-- slot that was never written reads as NULL.
pub mod Sums
pub mod Conserve
pub mod Unfold
pub mod Order
use study_in_tezpur_universi.Common.{
  ℕ, zero, suc, ◌+◌, ◌-◌, ◌*◌, ◌/◌, List, Bool, ◌&&◌, ltb, if◌then◌else◌, get_or, set, replicate,
  ◌==◌,
}
use study_in_tezpur_universi.Huffman.Node.{HuffmanNode, null, freq_of}

pub record MinHeap : Type 0 where
  pub size : ℕ
  pub capacity : ℕ
  pub array : List HuffmanNode

unfoldable pub create_min_heap : ℕ → MinHeap
create_min_heap capacity = record { size = 0; capacity = capacity; array = replicate capacity null }

abbrev pub slot : List HuffmanNode → ℕ → HuffmanNode
slot array i = get_or array i null

abbrev pub key : List HuffmanNode → ℕ → ℕ
key array i = freq_of (slot array i)

-- `swapNodes` on two slots.
unfoldable pub swap_nodes : List HuffmanNode → ℕ → ℕ → List HuffmanNode
swap_nodes array i j = set (set array i (slot array j)) j (slot array i)

-- `smallest` behind the two tests of `minHeapify`.
pub smaller_left : MinHeap → ℕ → ℕ
smaller_left h idx =
    let left = 2 * idx + 1 in
    if ltb left h.size && ltb (key h.array left) (key h.array idx) then left else idx

pub smallest : MinHeap → ℕ → ℕ
unfolding smaller_left
smallest h idx =
    let right = 2 * idx + 2 in
    let best = smaller_left h idx in
    if ltb right h.size && ltb (key h.array right) (key h.array best) then right else best

-- The recursion goes down the heap: it gets as much fuel as there are slots from `idx` on, and
-- `Unfold` shows that it never runs out.
pub heapify_fuel : ℕ → MinHeap → ℕ → MinHeap
heapify_fuel zero h idx = h
heapify_fuel (suc fuel) h idx =
    let best = smallest h idx in
    let below = heapify_fuel fuel (record h { array = swap_nodes h.array best idx }) best in
    if best == idx then h else below

pub min_heapify : MinHeap → ℕ → MinHeap
unfolding heapify_fuel smallest
min_heapify h idx = heapify_fuel (h.size - idx) h idx

-- `null` for an empty heap.
pub extract_min : MinHeap → HuffmanNode × MinHeap
unfolding min_heapify
extract_min h =
    let last = h.size - 1 in
    let moved = record h { array = set h.array 0 (slot h.array last); size = last } in
    if h.size == 0 then (null, h) else (slot h.array 0, min_heapify moved 0)

-- The loop of `insertMinHeap` and the store behind it. `i` falls to `(i - 1) / 2`, so that `i`
-- rounds are enough.
pub sift_up : ℕ → List HuffmanNode → ℕ → HuffmanNode → List HuffmanNode
sift_up zero array i new_node = set array i new_node
sift_up (suc fuel) array i new_node =
    let parent = (i - 1) / 2 in
    let above = sift_up fuel (set array i (slot array parent)) parent new_node in
    if ltb 0 i && ltb (freq_of new_node) (key array parent) then above else set array i new_node

pub insert_min_heap : MinHeap → HuffmanNode → MinHeap
unfolding sift_up
insert_min_heap h new_node = record h {
  size = h.size + 1;
  array = sift_up h.size h.array h.size new_node;
}
