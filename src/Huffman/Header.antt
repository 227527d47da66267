-- ===== src/Huffman/Header.antt =====
-- The preorder form of the tree in the file's header.
pub mod Steps
pub mod RoundTrip
pub mod Total
pub mod Prefix
use study_in_tezpur_universi.Common.{ℕ, zero, suc, ◌%◌, ◌==◌, if◌then◌else◌, Option, none, some}
use study_in_tezpur_universi.Huffman.BitIo.{
  BitWriter, BitReader, write_bit, write_bits, read_bit, read_bits,
}
use study_in_tezpur_universi.Huffman.Node.{HuffmanNode, null, node, create_node, is_leaf}

pub serialize_tree_preorder : HuffmanNode → BitWriter → BitWriter
serialize_tree_preorder null bw = bw
serialize_tree_preorder (node symbol freq left right) bw =
    let as_leaf = write_bits (write_bit bw 1) symbol 8 in
    let as_fork = serialize_tree_preorder right (serialize_tree_preorder left (write_bit bw 0)) in
    if is_leaf (node symbol freq left right) then as_leaf else as_fork

-- The leaf that `readBits` read, or NULL.
pub leaf_of : Option ℕ → HuffmanNode
leaf_of none = null
leaf_of (some char_val) = create_node (char_val % 256) 0

pub read_leaf : BitReader → HuffmanNode × BitReader
unfolding leaf_of
read_leaf br = let (char_val, br') = read_bits br 8 in (leaf_of char_val, br')

-- The two recursive calls of an internal node, the left child first.
pub read_fork :
    (BitReader → Option (HuffmanNode × BitReader)) → BitReader → Option (HuffmanNode × BitReader)
read_fork call br = elim (call br) [
  | none ↦ none
  | some (left, br') ↦ elim (call br') [
    | none ↦ none
    | some (right, br'') ↦ some (node b'$' 0 left right, br'')
  ]
]

-- `none` is the model's fuel running out. The fuel bounds the depth of the calls.
pub deserialize_tree_preorder : ℕ → BitReader → Option (HuffmanNode × BitReader)
unfolding read_leaf read_fork
deserialize_tree_preorder zero br = none
deserialize_tree_preorder (suc fuel) br = elim (read_bit br) [
  | none ↦ some (null, br)
  | some (bit, br') ↦
      if bit == 1 then some (read_leaf br') else read_fork (deserialize_tree_preorder fuel) br'
]
