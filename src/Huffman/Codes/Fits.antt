-- ===== src/Huffman/Codes/Fits.antt =====
-- A code, with its NUL, fits the buffer of a code entry.
use study_in_tezpur_universi.Common.{ℕ, ◌≤◌, ◌<◌, ◌≡◌, List, false, arith, length}
use study_in_tezpur_universi.Huffman.Node.{HuffmanNode, is_leaf, IsFull, count_leaves}
use study_in_tezpur_universi.Huffman.Codes.{max_tree_ht, generate_codes, entry_of}
use study_in_tezpur_universi.Huffman.Codes.Entries.{Leads, generate_codes-Coded}
use study_in_tezpur_universi.Huffman.Header.RoundTrip.{depth}
use study_in_tezpur_universi.Huffman.Build.Shape.{leaves, depth-le-leaves}

-- A path to a leaf is shorter than the tree is deep.
length-lt-depth : (t : HuffmanNode) (c : ℕ) (path : List ℕ) → Leads t c path → length path < depth t
length-lt-depth t c path (Leads.arrived c' freq) = omega arith
length-lt-depth t c path (Leads.left_of l) = omega (arith, length-lt-depth _ c _ l)
length-lt-depth t c path (Leads.right_of l) = omega (arith, length-lt-depth _ c _ l)

-- In the table of a full tree that is no single leaf and has at most 256 leaves, the code of each
-- symbol of the tree fits, with its NUL, in `code[MAX_TREE_HT]`.
pub generate_codes_fit :
    (t : HuffmanNode) (c : ℕ)
    → IsFull t
    → is_leaf t ≡ false
    → leaves t ≤ 256
    → 0 < count_leaves c t
    → length (entry_of (generate_codes t) c).code < max_tree_ht
generate_codes_fit t c full inner few some_of =
    let k = generate_codes-Coded t c full inner some_of in
    rw k.spelled (omega (arith, length-lt-depth t c k.path k.leads, depth-le-leaves t full))
