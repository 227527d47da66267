-- ===== src/Huffman/Header/Prefix.antt =====
-- The tree is written behind what the file held before.
use study_in_tezpur_universi.Common.{ℕ, ◌≡◌, refl, List, Bool-cases, inl, inr}
use study_in_tezpur_universi.Huffman.BitIo.{BitWriter, write_bit}
use study_in_tezpur_universi.Huffman.BitIo.Prefix.{behind, write_bit-behind, write_bits-behind}
use study_in_tezpur_universi.Huffman.Node.{HuffmanNode, null, node, is_leaf}
use study_in_tezpur_universi.Huffman.Header.{serialize_tree_preorder}

pub serialize-behind :
    (out : List ℕ) (t : HuffmanNode) (bw : BitWriter)
    → serialize_tree_preorder t (behind out bw) ≡ behind out (serialize_tree_preorder t bw)
unfolding serialize_tree_preorder
serialize-behind out null bw = refl
serialize-behind out (node symbol freq left right) bw =
    elim (Bool-cases (is_leaf (node symbol freq left right))) [
      | inl leaf ↦
          rw (leaf, write_bit-behind out bw 1) (write_bits-behind out (write_bit bw 1) symbol 8)
      | inr fork ↦
          let at_left = serialize_tree_preorder left (write_bit bw 0) in
          rw (fork, write_bit-behind out bw 0, serialize-behind out left (write_bit bw 0))
            (serialize-behind out right at_left)
    ]
