-- ===== src/Huffman/Heap/Order.antt =====
-- The heap order: no node has a greater frequency than its children.
use study_in_tezpur_universi.Common.{
  ℕ, zero, suc, ◌+◌, ◌-◌, ◌*◌, ◌/◌, ◌≤◌, ◌<◌, ◌≡◌, ◌≢◌, refl, ◌∙◌, List, false, ◌==◌, ltb, ◌&&◌,
  if◌then◌else◌, arith, Bool-cases, inl, inr, set, length, length-set, get_or-set,
}
use study_in_tezpur_universi.Huffman.Node.{HuffmanNode, null, freq_of}
use study_in_tezpur_universi.Huffman.Heap.{
  MinHeap, slot, key, swap_nodes, smaller_left, smallest, heapify_fuel, min_heapify, extract_min,
  sift_up, insert_min_heap,
}
use study_in_tezpur_universi.Huffman.Heap.Unfold.{smallest_range}
use study_in_tezpur_universi.Huffman.Heap.Sums.{IsWithin}
use study_in_tezpur_universi.Huffman.Heap.Conserve.{length-swap_nodes, heapify_fuel-Same}

-- The first `n` slots are in order.
abbrev pub IsHeap : List HuffmanNode → ℕ → Type 0
IsHeap array n = (c : ℕ) → 0 < c → c < n → key array ((c - 1) / 2) ≤ key array c

root_least_below :
    (k : ℕ) (array : List HuffmanNode) (n i : ℕ)
    → IsHeap array n
    → i < k
    → i < n
    → key array 0 ≤ key array i
root_least_below zero array n i h below inside = absurd (omega arith)
root_least_below (suc k) array n zero h below inside = omega arith
root_least_below (suc k) array n (suc i) h below inside = omega (
  arith,
  h (suc i) (omega arith) inside,
  root_least_below k array n ((suc i - 1) / 2) h (omega arith) (omega arith),
)

-- The root is a least node.
pub root_least :
    (array : List HuffmanNode) (n i : ℕ) → IsHeap array n → i < n → key array 0 ≤ key array i
root_least array n i h inside = root_least_below (suc i) array n i h (omega arith) inside

key-set :
    (array : List HuffmanNode) (i c : ℕ) (v : HuffmanNode)
    → i < length array
    → key (set array i v) c ≡ (if i == c then freq_of v else key array c)
key-set array i c v inside = elim (Bool-cases (i == c)) [
  | inl here ↦ rw (get_or-set array i c v null inside, here) refl
  | inr other ↦ rw (get_or-set array i c v null inside, other) refl
]

key-swap :
    (array : List HuffmanNode) (i j c : ℕ)
    → i < length array
    → j < length array
    → i ≢ j
    → key (swap_nodes array i j) c
      ≡ (if j == c then key array i else if i == c then key array j else key array c)
unfolding swap_nodes
key-swap array i j c i_inside j_inside apart = ground (
  arith,
  length-set array i (slot array j),
  key-set (set array i (slot array j)) j c (slot array i),
  key-set array i c (slot array j),
)

-- No edge is out of order but those below `i`, and the node above `i` is in order with those.
record BelowOpen (array : List HuffmanNode) (n i : ℕ) : Type 0 where
  edges : (c : ℕ) → 0 < c → c < n → (c - 1) / 2 ≢ i → key array ((c - 1) / 2) ≤ key array c
  bridged :
      (c : ℕ) → 0 < c → c < n → (c - 1) / 2 ≡ i → 0 < i → key array ((i - 1) / 2) ≤ key array c

smallest_least :
    (h : MinHeap) (idx c : ℕ)
    → 0 < c
    → c < h.size
    → (c - 1) / 2 ≡ idx
    → key h.array (smallest h idx) ≤ key h.array c
unfolding smallest smaller_left
smallest_least h idx c some_c inside child = elim (Bool-cases (c == 2 * idx + 1)) [
  | inl left ↦ let e : c ≡ 2 * idx + 1 = ground arith in rw e (ground (arith, e))
  | inr right ↦ let e : c ≡ 2 * idx + 2 = ground arith in rw e (ground (arith, e))
]

smallest_child :
    (h : MinHeap) (idx : ℕ)
    → (smallest h idx == idx) ≡ false
    → ((smallest h idx - 1) / 2 ≡ idx) × (key h.array (smallest h idx) < key h.array idx)
unfolding smallest smaller_left
smallest_child h idx moved = ground arith

heapify_fuel-IsHeap :
    (fuel : ℕ) (h : MinHeap) (idx : ℕ)
    → h.size ≤ idx + fuel
    → h.size ≤ length h.array
    → BelowOpen h.array h.size idx
    → IsHeap (heapify_fuel fuel h idx).array h.size
unfolding heapify_fuel
heapify_fuel-IsHeap zero h idx enough room o =
    λ c some_c inside. o.edges c some_c inside (λ e. omega (arith, e))
heapify_fuel-IsHeap (suc fuel) h idx enough room o = elim (Bool-cases (smallest h idx == idx)) [
  | inl same ↦
      let e : smallest h idx ≡ idx = ground arith in
      rw same (λ c some_c inside. elim (Bool-cases ((c - 1) / 2 == idx)) [
        | inl child ↦
            let p : (c - 1) / 2 ≡ idx = ground arith in
            let l = smallest_least h idx c some_c inside p in rw p (rw e at l)
        | inr other ↦ o.edges c some_c inside (ground arith)
      ])
  | inr moved ↦
      let best = smallest h idx in
      let r = smallest_range h idx moved in
      let s = smallest_child h idx moved in
      let array' = swap_nodes h.array best idx in
      let value : (c : ℕ)
          → key array' c ≡ (
              if idx == c
              then key h.array best
              else if best == c
              then key h.array idx
              else key h.array c) =
        λ c.
          key-swap h.array best idx c (omega (arith, r)) (omega (arith, r))
            (λ e. omega (arith, e, r)) in
      let next : BelowOpen array' h.size best = record {
        edges = λ c some_c inside apart. ground (
          arith,
          value c,
          value ((c - 1) / 2),
          o.edges c,
          o.bridged best,
          smallest_least h idx c,
          s,
          r,
        );
        bridged = λ c some_c inside child some_best.
            ground (arith, value c, value ((best - 1) / 2), o.edges c, s, r);
      } in
      rw moved (
        heapify_fuel-IsHeap fuel (record h { array = array' }) best (omega (arith, r))
          (omega (arith, room, length-swap_nodes h.array best idx)) next)
]

-- Taking a node from an ordered heap that is not empty and lies within its array leaves an ordered
-- heap, and no node of the heap has a smaller frequency than the one taken.
pub extract_min-least :
    (h : MinHeap)
    → IsWithin h
    → 0 < h.size
    → IsHeap h.array h.size
    → IsHeap (extract_min h).1.array (extract_min h).1.size
      × ((i : ℕ) → i < h.size → freq_of (extract_min h).0 ≤ key h.array i)
unfolding extract_min min_heapify
extract_min-least h w some_nodes ordered =
    let last = h.size - 1 in
    let moved = record h { array = set h.array 0 (slot h.array last); size = last } in
    let busy : (h.size == 0) ≡ false = ground arith in
    let value : (c : ℕ) → key moved.array c ≡ (if 0 == c then key h.array last else key h.array c) =
      λ c. key-set h.array 0 c (slot h.array last) (omega (arith, w.fits, w.allocated)) in
    let below : BelowOpen moved.array last 0 = record {
      edges = λ c some_c inside apart. ground (arith, value c, value ((c - 1) / 2), ordered c);
      bridged = λ c some_c inside child some_root. absurd (omega arith);
    } in
    let rest =
      heapify_fuel-IsHeap (last - 0) moved 0 (omega arith)
        (omega (arith, w.fits, w.allocated, length-set h.array 0 (slot h.array last))) below in
    let within : IsWithin moved = record {
      fits = omega (arith, w.fits);
      allocated = length-set h.array 0 (slot h.array last) ∙ w.allocated;
    } in
    let size = (heapify_fuel-Same (λ (n : HuffmanNode). 0) (last - 0) moved 0 within).size in
    rw busy (
      λ c some_c inside. rest c some_c (omega (arith, size)),
      λ i inside. root_least h.array h.size i ordered inside,
    )

-- With the new node in slot `i`, no edge is out of order but the one above it, and what is below `i`
-- is in order with what is above.
record AboveOpen (array : List HuffmanNode) (n i : ℕ) (v : HuffmanNode) : Type 0 where
  edges : (c : ℕ) → 0 < c → c < n → c ≢ i → (c - 1) / 2 ≢ i → key array ((c - 1) / 2) ≤ key array c
  below : (c : ℕ) → 0 < c → c < n → (c - 1) / 2 ≡ i → freq_of v ≤ key array c
  bridged :
      (c : ℕ) → 0 < c → c < n → (c - 1) / 2 ≡ i → 0 < i → key array ((i - 1) / 2) ≤ key array c

sift_up-IsHeap :
    (fuel : ℕ) (array : List HuffmanNode) (n i : ℕ) (v : HuffmanNode)
    → i ≤ fuel
    → i < n
    → n ≤ length array
    → AboveOpen array n i v
    → IsHeap (sift_up fuel array i v) n
unfolding sift_up
sift_up-IsHeap zero array n i v enough inside room o = λ c some_c c_inside.
    ground (arith, key-set array i c v, key-set array i ((c - 1) / 2) v, o.edges c, o.below c)
sift_up-IsHeap (suc fuel) array n i v enough inside room o =
    let parent = (i - 1) / 2 in
    elim (Bool-cases (ltb 0 i && ltb (freq_of v) (key array parent))) [
      | inl up ↦
          let array' = set array i (slot array parent) in
          let value : (c : ℕ) → key array' c ≡ (if i == c then key array parent else key array c) =
            λ c. key-set array i c (slot array parent) (omega arith) in
          let next : AboveOpen array' n parent v = record {
            edges = λ c some_c c_inside other apart.
                ground (arith, value c, value ((c - 1) / 2), o.edges c, o.bridged c);
            below = λ c some_c c_inside child. ground (arith, value c, o.edges c, child);
            bridged = λ c some_c c_inside child some_parent.
                ground (arith, value c, value ((parent - 1) / 2), o.edges c, o.edges parent, child);
          } in
          rw up (
            sift_up-IsHeap fuel array' n parent v (omega arith) (omega arith)
              (omega (arith, length-set array i (slot array parent))) next)
      | inr stop ↦ rw stop (λ c some_c c_inside.
          ground (
            arith,
            key-set array i c v,
            key-set array i ((c - 1) / 2) v,
            o.edges c,
            o.below c,
            stop,
          ))
    ]

-- Inserting a node into an ordered heap that lies within its array and has a slot free leaves an
-- ordered heap.
pub insert_min_heap-IsHeap :
    (h : MinHeap) (n : HuffmanNode)
    → IsWithin h
    → h.size < h.capacity
    → IsHeap h.array h.size
    → IsHeap (insert_min_heap h n).array (insert_min_heap h n).size
unfolding insert_min_heap
insert_min_heap-IsHeap h n w room ordered =
    sift_up-IsHeap h.size h.array (h.size + 1) h.size n (omega arith) (omega arith)
      (omega (arith, w.allocated))
      (record {
        edges = λ c some_c inside other apart. ordered c some_c (ground arith);
        below = λ c some_c inside child. absurd (omega arith);
        bridged = λ c some_c inside child some_size. absurd (omega arith);
      })
