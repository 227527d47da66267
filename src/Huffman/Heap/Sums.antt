-- ===== src/Huffman/Heap/Sums.antt =====
-- The heap's operations keep its nodes: any weight of the nodes in use is conserved.
use study_in_tezpur_universi.Common.{
  ℕ, zero, suc, ◌+◌, ◌≤◌, ◌<◌, ◌≡◌, ◌≢◌, refl, ap, List, ◌==◌, arith, Bool-cases, inl, inr, set,
  length, length-set, get_or-set,
}
use study_in_tezpur_universi.Huffman.Node.{HuffmanNode, null}
use study_in_tezpur_universi.Huffman.Heap.{MinHeap, slot, swap_nodes}

-- The slots in use lie within the allocated array.
pub record IsWithin (h : MinHeap) : Type 0 where
  pub fits : h.size ≤ h.capacity
  pub allocated : length h.array ≡ h.capacity

module _ (weight : HuffmanNode → ℕ) where
  unfoldable pub sum_below : List HuffmanNode → ℕ → ℕ
  sum_below array zero = 0
  sum_below array (suc n) = sum_below array n + weight (slot array n)

  -- The weight of the nodes in use.
  unfoldable pub total : MinHeap → ℕ
  unfolding sum_below
  total h = sum_below h.array h.size

  pub total-empty : (h : MinHeap) → h.size ≡ 0 → total h ≡ 0
  unfolding total sum_below
  total-empty h e = ap (λ (n : ℕ). sum_below h.array n) e

  sum_below-set_above :
      (array : List HuffmanNode) (i n : ℕ) (v : HuffmanNode)
      → n ≤ i
      → i < length array
      → sum_below (set array i v) n ≡ sum_below array n
  unfolding sum_below
  sum_below-set_above array i zero v p q = refl
  sum_below-set_above array i (suc n) v p q =
      ground (arith, sum_below-set_above array i n v, get_or-set array i n v null)

  pub sum_below-set :
      (array : List HuffmanNode) (i n : ℕ) (v : HuffmanNode)
      → i < n
      → i < length array
      → sum_below (set array i v) n + weight (slot array i) ≡ sum_below array n + weight v
  unfolding sum_below
  sum_below-set array i zero v p q = absurd (omega arith)
  sum_below-set array i (suc n) v p q = elim (Bool-cases (i == n)) [
    | inl last ↦
        let e : i ≡ n = ground arith in
        ground (
          arith,
          sum_below-set_above array i n v,
          get_or-set array i n v null,
          ap (λ (k : ℕ). weight (slot array k)) e,
        )
    | inr earlier ↦ ground (arith, sum_below-set array i n v, get_or-set array i n v null)
  ]

  pub sum_below-swap :
      (array : List HuffmanNode) (i j n : ℕ)
      → i < n
      → j < n
      → n ≤ length array
      → i ≢ j
      → sum_below (swap_nodes array i j) n ≡ sum_below array n
  unfolding swap_nodes
  sum_below-swap array i j n p q fits apart = ground (
    arith,
    sum_below-set array i n (slot array j),
    sum_below-set (set array i (slot array j)) j n (slot array i),
    get_or-set array i j (slot array j) null,
    length-set array i (slot array j),
  )
