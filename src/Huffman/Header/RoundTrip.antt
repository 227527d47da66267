-- ===== src/Huffman/Header/RoundTrip.antt =====
-- The tree that the decompressor rebuilds has the shape and the symbols of the compressor's.
use Prim.Native.Nat.{max}
use study_in_tezpur_universi.Common.{
  ℕ, zero, suc, ◌%◌, ◌≤◌, ◌<◌, ◌≡◌, ap, ◌∙◌, List, [], ◌∷◌, ◌++◌, if◌then◌else◌, some, arith,
  length, length-append, append_assoc,
}
use study_in_tezpur_universi.Huffman.BitIo.{BitWriter, BitReader, write_bit}
use study_in_tezpur_universi.Huffman.BitIo.Stream.{low_bits}
use study_in_tezpur_universi.Huffman.BitIo.Writing.{written, IsReady, write_bit_lem, write_bits_lem}
use study_in_tezpur_universi.Huffman.BitIo.Reading.{stream, read_bit-next, read_bits-low_bits}
use study_in_tezpur_universi.Huffman.Node.{
  HuffmanNode, null, node, create_node, is_leaf, IsFull, IsFull-node, is_leaf-fork,
}
use study_in_tezpur_universi.Huffman.Header.{
  serialize_tree_preorder, leaf_of, read_leaf, deserialize_tree_preorder,
}
use study_in_tezpur_universi.Huffman.Header.Steps.{deserialize-some, read_fork-both}

-- The header's bits of a tree.
abbrev pub tree_bits : HuffmanNode → List ℕ
tree_bits null = []
tree_bits (node symbol freq left right) =
    if is_leaf (node symbol freq left right)
    then 1 ∷ low_bits 8 symbol
    else 0 ∷ (tree_bits left ++ tree_bits right)

-- What is kept of a tree: shape and leaf symbols.
abbrev pub stored : HuffmanNode → HuffmanNode
stored null = null
stored (node symbol freq left right) =
    if is_leaf (node symbol freq left right)
    then create_node symbol 0
    else node b'$' 0 (stored left) (stored right)

abbrev pub depth : HuffmanNode → ℕ
depth null = 0
depth (node symbol freq left right) = suc (max (depth left) (depth right))

-- Behind the bits that were written before, a full tree's header puts its preorder: 1 and eight
-- bits for a leaf, 0 and both children for a fork. The writer stays well formed.
pub serialize_tree_preorder_lem :
    (t : HuffmanNode) (bw : BitWriter)
    → IsFull t
    → IsReady bw
    → IsReady (serialize_tree_preorder t bw)
      × (written (serialize_tree_preorder t bw) ≡ written bw ++ tree_bits t)
unfolding serialize_tree_preorder
serialize_tree_preorder_lem t bw (IsFull.leaf symbol freq small) ready =
    let (ready', one) = write_bit_lem bw 1 ready (omega arith) in
    let (ready'', all) = write_bits_lem (write_bit bw 1) symbol 8 ready' in
    (ready'', all ∙ rw (one, append_assoc (written bw) (1 ∷ []) (low_bits 8 symbol)))
serialize_tree_preorder_lem t bw (IsFull.fork symbol freq {left} {right} l r) ready =
    let (ready₁, e₁) = write_bit_lem bw 0 ready (omega arith) in
    let (ready₂, e₂) = serialize_tree_preorder_lem left (write_bit bw 0) l ready₁ in
    let (ready₃, e₃) =
      serialize_tree_preorder_lem right (serialize_tree_preorder left (write_bit bw 0)) r ready₂ in
    rw (is_leaf-fork symbol freq left right (IsFull-node l))
      (ready₃, e₃ ∙ rw (e₂, e₁) (simp append_assoc))

read_leaf-low_bits :
    (symbol : ℕ) (br : BitReader) (rest : List ℕ)
    → symbol < 256
    → stream br ≡ low_bits 8 symbol ++ rest
    → (br' : BitReader) × (read_leaf br ≡ (create_node symbol 0, br')) × (stream br' ≡ rest)
unfolding read_leaf leaf_of
read_leaf-low_bits symbol br rest small e =
    let (br', all, after) = read_bits-low_bits 8 symbol br rest small (omega arith) e in
    let byte : symbol % 256 ≡ symbol = omega arith in (br', rw (all, byte), after)

-- From a reader whose bits begin with a full tree's header, with fuel for the tree's depth, the
-- tree is rebuilt in shape and symbols, and the bits behind the header are left to be read.
pub deserialize-tree_bits :
    (fuel : ℕ) (t : HuffmanNode) (br : BitReader) (rest : List ℕ)
    → IsFull t
    → depth t ≤ fuel
    → stream br ≡ tree_bits t ++ rest
    → (br' : BitReader) × (deserialize_tree_preorder fuel br ≡ some (stored t, br'))
      × (stream br' ≡ rest)
deserialize-tree_bits zero t br rest (IsFull.leaf symbol freq small) deep e = absurd (omega arith)
deserialize-tree_bits zero t br rest (IsFull.fork symbol freq l r) deep e = absurd (omega arith)
deserialize-tree_bits (suc fuel) t br rest (IsFull.leaf symbol freq small) deep e =
    let (br', one, more) = read_bit-next br 1 (low_bits 8 symbol ++ rest) e in
    let (br'', all, after) = read_leaf-low_bits symbol br' rest small more in
    (br'', deserialize-some fuel 1 br br' one ∙ ap some all, after)
deserialize-tree_bits (suc fuel) t br rest (IsFull.fork symbol freq {left} {right} l r) deep e =
    let shape = is_leaf-fork symbol freq left right (IsFull-node l) in
    let e' = rw shape at e in
    let (br₁, one, e₁) =
      read_bit-next br 0 (tree_bits left ++ (tree_bits right ++ rest))
        (e' ∙ ap (◌∷◌ 0) (append_assoc (tree_bits left) (tree_bits right) rest)) in
    let (br₂, at_left, e₂) =
      deserialize-tree_bits fuel left br₁ (tree_bits right ++ rest) l (omega arith) e₁ in
    let (br₃, at_right, e₃) = deserialize-tree_bits fuel right br₂ rest r (omega arith) e₂ in
    (
      br₃,
      deserialize-some fuel 0 br br₁ one
          ∙ rw shape (read_fork-both _ _ _ br₁ br₂ br₃ at_left at_right),
      e₃,
    )

-- The depth of a tree is bounded by the bits of its header.
pub depth-le-tree_bits : (t : HuffmanNode) → IsFull t → depth t ≤ length (tree_bits t)
depth-le-tree_bits t (IsFull.leaf symbol freq small) = omega arith
depth-le-tree_bits t (IsFull.fork symbol freq {left} {right} l r) =
    rw (is_leaf-fork symbol freq left right (IsFull-node l)) (
      omega (
        arith,
        length-append (tree_bits left) (tree_bits right),
        depth-le-tree_bits left l,
        depth-le-tree_bits right r,
      ))
