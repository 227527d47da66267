-- ===== src/Huffman/Header/Steps.antt =====
-- One call of the reconstruction, step by step.
use study_in_tezpur_universi.Common.{ℕ, suc, ◌≡◌, ◌==◌, if◌then◌else◌, Option, some}
use study_in_tezpur_universi.Huffman.BitIo.{BitReader, read_bit}
use study_in_tezpur_universi.Huffman.Node.{HuffmanNode, node}
use study_in_tezpur_universi.Huffman.Header.{read_leaf, read_fork, deserialize_tree_preorder}

pub deserialize-some :
    (fuel bit : ℕ) (br br' : BitReader)
    → read_bit br ≡ some (bit, br')
    → deserialize_tree_preorder (suc fuel) br
      ≡ (if bit == 1 then some (read_leaf br') else read_fork (deserialize_tree_preorder fuel) br')
unfolding deserialize_tree_preorder
deserialize-some fuel bit br br' h = rw (h, deserialize_tree_preorder)

pub read_fork-both :
    (call : BitReader → Option (HuffmanNode × BitReader)) (left right : HuffmanNode)
    (br br' br'' : BitReader)
    → call br ≡ some (left, br')
    → call br' ≡ some (right, br'')
    → read_fork call br ≡ some (node b'$' 0 left right, br'')
unfolding read_fork
read_fork-both call left right br br' br'' p q = rw (p, read_fork) (rw (q, read_fork))
