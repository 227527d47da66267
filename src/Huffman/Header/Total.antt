-- ===== src/Huffman/Header/Total.antt =====
-- Rebuilding a tree ends on every file, damaged ones included.
use study_in_tezpur_universi.Common.{
  ℕ, zero, suc, ◌≤◌, ◌<◌, ◌≡◌, ◌∙◌, ◌==◌, Option, none, some, arith, length, Bool-cases, inl, inr,
  Option-cases,
}
use study_in_tezpur_universi.Huffman.BitIo.{BitReader, read_bit}
use study_in_tezpur_universi.Huffman.BitIo.Reading.{stream}
use study_in_tezpur_universi.Huffman.BitIo.Consumed.{read_bit-shorter, read_bits-shorter}
use study_in_tezpur_universi.Huffman.Node.{HuffmanNode, null, node}
use study_in_tezpur_universi.Huffman.Header.{read_leaf, deserialize_tree_preorder}
use study_in_tezpur_universi.Huffman.Header.Steps.{deserialize-some, read_fork-both}

read_leaf-shorter : (br : BitReader) → length (stream (read_leaf br).1) ≤ length (stream br)
unfolding read_leaf
read_leaf-shorter br = read_bits-shorter 8 br

-- A call that ends, having read no more than there is.
abbrev pub Ends : BitReader → Option (HuffmanNode × BitReader) → Type 0
Ends br r =
    (t : HuffmanNode) × (br' : BitReader) × (r ≡ some (t, br'))
    × (length (stream br') ≤ length (stream br))

deserialize-none :
    (fuel : ℕ) (br : BitReader)
    → read_bit br ≡ none
    → deserialize_tree_preorder (suc fuel) br ≡ some (null, br)
unfolding deserialize_tree_preorder
deserialize-none fuel br h = rw (h, deserialize_tree_preorder)

-- With more fuel than there are bits to read, the tree's reconstruction ends on every input, and
-- reads no more than there is.
pub deserialize-Ends :
    (fuel : ℕ) (br : BitReader)
    → length (stream br) < fuel
    → Ends br (deserialize_tree_preorder fuel br)
deserialize-Ends zero br h = absurd (omega arith)
deserialize-Ends (suc fuel) br h = elim (Option-cases (read_bit br)) [
  | inl ended ↦ (null, br, deserialize-none fuel br ended, omega arith)
  | inr ((bit, br₁), got) ↦
      let shorter = read_bit-shorter br got in
      elim (Bool-cases (bit == 1)) [
        | inl one ↦ (
          (read_leaf br₁).0,
          (read_leaf br₁).1,
          deserialize-some fuel bit br br₁ got ∙ rw one,
          omega (arith, read_leaf-shorter br₁),
        )
        | inr other ↦
            let (left, br₂, at_left, e₂) = deserialize-Ends fuel br₁ (omega arith) in
            let (right, br₃, at_right, e₃) = deserialize-Ends fuel br₂ (omega arith) in
            (
              node b'$' 0 left right,
              br₃,
              deserialize-some fuel bit br br₁ got
                  ∙ rw other (read_fork-both _ left right br₁ br₂ br₃ at_left at_right),
              omega arith,
            )
      ]
]
