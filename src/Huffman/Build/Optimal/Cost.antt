-- ===== src/Huffman/Build/Optimal/Cost.antt =====
-- The weight of the leaves of a tree, and what a text costs with the codes that the tree spells.
use study_in_tezpur_universi.Common.{ℕ, suc, ◌+◌, ◌*◌, ◌≡◌, refl, false, ◌==◌, if◌then◌else◌, arith}
use study_in_tezpur_universi.Huffman.Node.{
  HuffmanNode, null, node, freq_of, is_null, IsFull, IsFull-node,
}
use study_in_tezpur_universi.Huffman.Build.Shape.{IsAdditive}

module _ (amount : ℕ → ℕ) where
  -- The sum of the amounts of the leaves' symbols.
  unfoldable pub weigh : HuffmanNode → ℕ
  weigh null = 0
  weigh (node symbol freq null null) = amount symbol
  weigh (node symbol freq left right) = weigh left + weigh right

  -- The sum of the amounts times the depths, where the root has depth `d`: the number of bits of a
  -- text in which each symbol occurs so often.
  unfoldable pub encoded_bits : ℕ → HuffmanNode → ℕ
  encoded_bits d null = 0
  encoded_bits d (node symbol freq null null) = d * amount symbol
  encoded_bits d (node symbol freq left right) =
      encoded_bits (suc d) left + encoded_bits (suc d) right

  pub weigh-IsAdditive : IsAdditive weigh
  unfolding weigh
  weigh-IsAdditive symbol freq null right h = ground arith
  weigh-IsAdditive symbol freq (node s f l r) right h = refl

  pub encoded_bits-fork :
      (d symbol freq : ℕ) (left right : HuffmanNode)
      → is_null left ≡ false
      → encoded_bits d (node symbol freq left right)
        ≡ encoded_bits (suc d) left + encoded_bits (suc d) right
  unfolding encoded_bits
  encoded_bits-fork d symbol freq null right h = ground arith
  encoded_bits-fork d symbol freq (node s f l r) right h = refl

  -- One step further down each leaf costs its amount more.
  pub encoded_bits_deeper :
      (d : ℕ) (t : HuffmanNode) → IsFull t → encoded_bits (suc d) t ≡ encoded_bits d t + weigh t
  encoded_bits_deeper d t (IsFull.leaf symbol freq small) = unfold encoded_bits weigh in omega arith
  encoded_bits_deeper d t (IsFull.fork symbol freq {left} {right} l r) = omega (
    arith,
    encoded_bits-fork d symbol freq left right (IsFull-node l),
    encoded_bits-fork (suc d) symbol freq left right (IsFull-node l),
    weigh-IsAdditive symbol freq left right (IsFull-node l),
    encoded_bits_deeper (suc d) left l,
    encoded_bits_deeper (suc d) right r,
  )

  -- 0 for a node whose frequency is the weight of its leaves.
  unfoldable pub misfit : HuffmanNode → ℕ
  unfolding weigh
  misfit t = if freq_of t == weigh t then 0 else 1

  pub misfit_lem : (t : HuffmanNode) → misfit t ≡ 0 → freq_of t ≡ weigh t
  unfolding misfit
  misfit_lem t h = ground arith
