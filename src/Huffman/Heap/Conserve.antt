-- ===== src/Huffman/Heap/Conserve.antt =====
-- The operations keep the heap within its array, change its size as they should, and conserve
-- every weight of the nodes in use.
use study_in_tezpur_universi.Common.{
  ℕ, zero, suc, ◌+◌, ◌-◌, ◌/◌, ◌≤◌, ◌<◌, ◌≡◌, refl, ap, ◌∙◌, List, false, ◌==◌, ltb, ◌&&◌, arith,
  Bool-cases, inl, inr, set, length, length-set, get_or-set, length-replicate,
}
use study_in_tezpur_universi.Huffman.Node.{HuffmanNode, null, freq_of}
use study_in_tezpur_universi.Huffman.Heap.{
  MinHeap, create_min_heap, slot, key, swap_nodes, smallest, heapify_fuel, min_heapify, extract_min,
  sift_up, insert_min_heap,
}
use study_in_tezpur_universi.Huffman.Heap.Unfold.{smallest_range}
use study_in_tezpur_universi.Huffman.Heap.Sums.{
  IsWithin, sum_below, total, sum_below-set, sum_below-swap,
}

pub length-swap_nodes :
    (array : List HuffmanNode) (i j : ℕ) → length (swap_nodes array i j) ≡ length array
unfolding swap_nodes
length-swap_nodes array i j = length-set _ j _ ∙ length-set array i (slot array j)

module _ (weight : HuffmanNode → ℕ) where
  -- A heap with the bounds, the size and the weight of `h`.
  pub record Same (h h' : MinHeap) : Type 0 where
    pub within : IsWithin h'
    pub size : h'.size ≡ h.size
    pub capacity : h'.capacity ≡ h.capacity
    pub weighs : total weight h' ≡ total weight h

  pub heapify_fuel-Same :
      (fuel : ℕ) (h : MinHeap) (idx : ℕ) → IsWithin h → Same h (heapify_fuel fuel h idx)
  unfolding heapify_fuel
  heapify_fuel-Same zero h idx w = record {
    within = w;
    size = refl;
    capacity = refl;
    weighs = refl;
  }
  heapify_fuel-Same (suc fuel) h idx w = elim (Bool-cases (smallest h idx == idx)) [
    | inl same ↦ rw same (record { within = w; size = refl; capacity = refl; weighs = refl })
    | inr moved ↦
        let best = smallest h idx in
        let r = smallest_range h idx moved in
        let h' = record h { array = swap_nodes h.array best idx } in
        let w' : IsWithin h' = record {
          fits = w.fits;
          allocated = length-swap_nodes h.array best idx ∙ w.allocated;
        } in
        let rest = heapify_fuel-Same fuel h' best w' in
        let swapped =
          sum_below-swap weight h.array best idx h.size r.1 (omega arith)
            (omega (arith, w.fits, w.allocated)) (λ e. omega (arith, e)) in
        rw moved (record {
          within = rest.within;
          size = rest.size;
          capacity = rest.capacity;
          weighs = rest.weighs ∙ unfold total in swapped;
        })
  ]

  sum_below-suc :
      (array : List HuffmanNode) (n : ℕ)
      → sum_below weight array (n + 1) ≡ sum_below weight array n + weight (slot array n)
  unfolding sum_below
  sum_below-suc array n = ground arith

  -- The root goes, and the last node moves into its slot.
  moved_sum :
      (array : List HuffmanNode) (last : ℕ)
      → last < length array
      → sum_below weight (set array 0 (slot array last)) last + weight (slot array 0)
        ≡ sum_below weight array (suc last)
  unfolding sum_below
  moved_sum array zero p = refl
  moved_sum array (suc last) p = omega (
    arith,
    sum_below-set weight array 0 (suc last) (slot array (suc last)) (omega arith) (omega arith),
  )

  -- `extractMin` on a heap that is not empty.
  pub record Extracted (h : MinHeap) (r : HuffmanNode × MinHeap) : Type 0 where
    pub within : IsWithin r.1
    pub size : suc r.1.size ≡ h.size
    pub capacity : r.1.capacity ≡ h.capacity
    pub weighs : weight r.0 + total weight r.1 ≡ total weight h

  -- Taking a node from a heap that is not empty and lies within its array leaves it within, with
  -- one node less; for any weight of nodes, the node and the rest weigh what the heap did.
  pub extract_min-Extracted : (h : MinHeap) → IsWithin h → 0 < h.size → Extracted h (extract_min h)
  unfolding extract_min min_heapify total
  extract_min-Extracted h w some_nodes =
      let last = h.size - 1 in
      let moved = record h { array = set h.array 0 (slot h.array last); size = last } in
      let w' : IsWithin moved = record {
        fits = omega (arith, w.fits);
        allocated = length-set h.array 0 _ ∙ w.allocated;
      } in
      let rest = heapify_fuel-Same (moved.size - 0) moved 0 w' in
      let full : h.size ≡ suc last = omega arith in
      let whole : total weight h ≡ sum_below weight h.array (suc last) =
        ap (λ (n : ℕ). sum_below weight h.array n) full in
      let busy : (h.size == 0) ≡ false = ground arith in
      rw busy (record {
        within = rest.within;
        size = omega (arith, rest.size);
        capacity = rest.capacity;
        weighs = omega (
          arith,
          rest.weighs,
          moved_sum h.array last (omega (arith, w.fits, w.allocated)),
          whole,
        );
      })

  -- `insertMinHeap` on a heap with room.
  pub record Inserted (h : MinHeap) (n : HuffmanNode) (h' : MinHeap) : Type 0 where
    pub within : IsWithin h'
    pub size : h'.size ≡ suc h.size
    pub capacity : h'.capacity ≡ h.capacity
    pub weighs : total weight h' ≡ total weight h + weight n

  length-sift_up :
      (fuel : ℕ) (array : List HuffmanNode) (i : ℕ) (n : HuffmanNode)
      → length (sift_up fuel array i n) ≡ length array
  unfolding sift_up
  length-sift_up zero array i n = length-set array i n
  length-sift_up (suc fuel) array i n =
      elim (Bool-cases (ltb 0 i && ltb (freq_of n) (key array ((i - 1) / 2)))) [
        | inl up ↦ rw up (length-sift_up fuel _ ((i - 1) / 2) n ∙ length-set array i _)
        | inr stop ↦ rw stop (length-set array i n)
      ]

  sift_up-sum :
      (fuel : ℕ) (array : List HuffmanNode) (i m : ℕ) (n : HuffmanNode)
      → i < m
      → m ≤ length array
      → sum_below weight (sift_up fuel array i n) m + weight (slot array i)
        ≡ sum_below weight array m + weight n
  unfolding sift_up
  sift_up-sum zero array i m n p q = sum_below-set weight array i m n p (omega arith)
  sift_up-sum (suc fuel) array i m n p q =
      elim (Bool-cases (ltb 0 i && ltb (freq_of n) (key array ((i - 1) / 2)))) [
        | inl up ↦
            let parent = (i - 1) / 2 in
            let array' = set array i (slot array parent) in
            let risen =
              sift_up-sum fuel array' parent m n (omega arith)
                (rw (length-set array i (slot array parent)) q) in
            let stored = sum_below-set weight array i m (slot array parent) p (omega arith) in
            let kept : slot array' parent ≡ slot array parent =
              ground (arith, get_or-set array i parent (slot array parent) null) in
            rw up (omega (arith, risen, stored, ap weight kept))
        | inr stop ↦ rw stop (sum_below-set weight array i m n p (omega arith))
      ]

  -- Inserting a node into a heap that lies within its array and has a slot free leaves it within,
  -- with one node more; for any weight of nodes, the heap grows by the node's.
  pub insert_min_heap-Inserted :
      (h : MinHeap) (n : HuffmanNode)
      → IsWithin h
      → h.size < h.capacity
      → Inserted h n (insert_min_heap h n)
  unfolding insert_min_heap total sum_below
  insert_min_heap-Inserted h n w room = record {
    within = record {
      fits = omega arith;
      allocated = length-sift_up h.size h.array h.size n ∙ w.allocated;
    };
    size = omega arith;
    capacity = refl;
    weighs = omega (
      arith,
      sum_below-suc h.array h.size,
      sum_below-suc (sift_up h.size h.array h.size n) h.size,
      sift_up-sum h.size h.array h.size (h.size + 1) n (omega arith) (omega (arith, w.allocated)),
    );
  }

  -- A fresh heap is empty.
  pub create_min_heap-IsWithin :
      (capacity : ℕ)
      → IsWithin (create_min_heap capacity) × (total weight (create_min_heap capacity) ≡ 0)
  unfolding create_min_heap total sum_below
  create_min_heap-IsWithin capacity =
      (record { fits = omega arith; allocated = length-replicate capacity null }, refl)
