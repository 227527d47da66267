-- ===== src/Huffman/Tests.antt =====
-- The theorems on Huffman compression at concrete values: a text "aab", its frequencies and tree.
use study_in_tezpur_universi.Common.{
  ℕ, zero, suc, ◌<◌, ◌≤◌, ◌≡◌, ◌≢◌, refl, List, [], ◌∷◌, ◌++◌, Bool, true, if◌then◌else◌, ltb, ◌==◌,
  Bool-cases, inl, inr, all_below, all_below_lem, some, arith, length, get_or, replicate,
}
use study_in_tezpur_universi.Huffman.BitIo.{BitReader, bit_reader_init}
use study_in_tezpur_universi.Huffman.BitIo.Stream.{file_bits}
use study_in_tezpur_universi.Huffman.BitIo.Reading.{stream, stream-bit_reader_init}
use study_in_tezpur_universi.Huffman.Node.{
  HuffmanNode, null, node, create_node, freq_of, IsFull, count_leaves,
}
use study_in_tezpur_universi.Huffman.Codes.{generate_codes, entry_of}
use study_in_tezpur_universi.Huffman.Codes.Entries.{Coded, generate_codes-Coded}
use study_in_tezpur_universi.Huffman.Codes.{max_tree_ht}
use study_in_tezpur_universi.Huffman.Codes.Fits.{generate_codes_fit}
use study_in_tezpur_universi.Huffman.Header.{deserialize_tree_preorder}
use study_in_tezpur_universi.Huffman.Header.RoundTrip.{tree_bits, stored, deserialize-tree_bits}
use study_in_tezpur_universi.Huffman.Header.Total.{Ends, deserialize-Ends}
use study_in_tezpur_universi.Huffman.Heap.{MinHeap, key, extract_min, insert_min_heap}
use study_in_tezpur_universi.Huffman.Heap.Sums.{IsWithin}
use study_in_tezpur_universi.Huffman.Heap.Order.{IsHeap, extract_min-least, insert_min_heap-IsHeap}
use study_in_tezpur_universi.Huffman.Build.{count_distinct, build_huffman_tree}
use study_in_tezpur_universi.Huffman.Build.Shape.{leaves}
use study_in_tezpur_universi.Huffman.Build.Tree.{build_huffman_tree-leaves}
use study_in_tezpur_universi.Huffman.Build.Optimal.Cost.{encoded_bits}
use study_in_tezpur_universi.Huffman.Build.Optimal.Tree.{
  text_length, amount, build_huffman_tree_optimal,
}
use study_in_tezpur_universi.Huffman.File.{compress, complete, restored, out_of_fuel, decompress}
use study_in_tezpur_universi.Huffman.File.Tally.{AllBytes}
use study_in_tezpur_universi.Huffman.File.RoundTrip.{decompress-compress}
use study_in_tezpur_universi.Huffman.File.Total.{decompress_ends}

abbrev aab : List ℕ
aab = b'a' ∷ b'a' ∷ b'b' ∷ []

abbrev frequencies : List ℕ
frequencies = replicate 97 0 ++ 2 ∷ 1 ∷ replicate 157 0

-- The tree of "aab".
abbrev tree : HuffmanNode
tree = node b'$' 3 (create_node b'b' 1) (create_node b'a' 2)

tree-IsFull : IsFull tree
tree-IsFull =
    IsFull.fork b'$' 3 (IsFull.leaf b'b' 1 (omega arith)) (IsFull.leaf b'a' 2 (omega arith))

aab-AllBytes : AllBytes aab
aab-AllBytes = (omega arith, (omega arith, (omega arith, tt)))

decompress-compress_example : decompress (compress aab) true ≡ restored complete aab
decompress-compress_example = decompress-compress aab aab-AllBytes (omega arith)

-- The magic alone, which a size should follow.
decompress_ends_example : decompress (b'H' ∷ b'U' ∷ b'F' ∷ b'1' ∷ 0 ∷ []) true ≢ out_of_fuel
decompress_ends_example = decompress_ends (b'H' ∷ b'U' ∷ b'F' ∷ b'1' ∷ 0 ∷ []) true

frequencies_distinct : 1 < count_distinct frequencies
unfolding count_distinct
frequencies_distinct = omega arith

build_huffman_tree-leaves_example :
    (count_leaves b'b' (build_huffman_tree frequencies).0
      ≡ (if ltb 0 (get_or frequencies b'b' 0) then 1 else 0))
    × (leaves (build_huffman_tree frequencies).0 ≡ count_distinct frequencies)
build_huffman_tree-leaves_example =
    build_huffman_tree-leaves frequencies b'b' refl frequencies_distinct

generate_codes-Coded_example : Coded tree b'a' [] (entry_of (generate_codes tree) b'a')
generate_codes-Coded_example =
    generate_codes-Coded tree b'a' tree-IsFull refl (unfold count_leaves in omega arith)

-- The tree as a header: 0, 1 and "b", 1 and "a", in three bytes of which five bits are spare.
abbrev header : List ℕ
header = 0x58 ∷ 0xac ∷ 0x20 ∷ []

header_bits : stream (bit_reader_init header) ≡ tree_bits tree ++ 0 ∷ 0 ∷ 0 ∷ 0 ∷ 0 ∷ []
unfolding file_bits
header_bits = stream-bit_reader_init header

deserialize-tree_bits_example :
    (br' : BitReader) × (deserialize_tree_preorder 2 (bit_reader_init header)
      ≡ some (stored tree, br'))
    × (stream br' ≡ 0 ∷ 0 ∷ 0 ∷ 0 ∷ 0 ∷ [])
deserialize-tree_bits_example =
    deserialize-tree_bits 2 tree (bit_reader_init header) (0 ∷ 0 ∷ 0 ∷ 0 ∷ 0 ∷ []) tree-IsFull
      (omega arith) header_bits

-- The header that breaks off behind its first byte.
deserialize-Ends_example :
    Ends (bit_reader_init (0x58 ∷ [])) (deserialize_tree_preorder 9 (bit_reader_init (0x58 ∷ [])))
deserialize-Ends_example =
    deserialize-Ends 9 (bit_reader_init (0x58 ∷ []))
      (rw (stream-bit_reader_init (0x58 ∷ [])) (unfold file_bits in omega arith))

-- A heap of two leaves, with room for a third.
abbrev two_leaves : MinHeap
two_leaves = record {
  size = 2;
  capacity = 3;
  array = create_node b'b' 1 ∷ create_node b'a' 2 ∷ null ∷ [];
}

two_leaves-IsWithin : IsWithin two_leaves
two_leaves-IsWithin = record { fits = omega arith; allocated = refl }

two_leaves-IsHeap : IsHeap two_leaves.array two_leaves.size
two_leaves-IsHeap zero some_c inside = absurd (omega arith)
two_leaves-IsHeap (suc zero) some_c inside = omega arith
two_leaves-IsHeap (suc (suc c)) some_c inside = absurd (omega arith)

extract_min-least_example :
    IsHeap (extract_min two_leaves).1.array (extract_min two_leaves).1.size
    × ((i : ℕ) → i < two_leaves.size → freq_of (extract_min two_leaves).0 ≤ key two_leaves.array i)
extract_min-least_example =
    extract_min-least two_leaves two_leaves-IsWithin (omega arith) two_leaves-IsHeap

insert_min_heap-IsHeap_example :
    IsHeap
      (insert_min_heap two_leaves (create_node b'c' 1)).array
      (insert_min_heap two_leaves (create_node b'c' 1)).size
insert_min_heap-IsHeap_example =
    insert_min_heap-IsHeap two_leaves (create_node b'c' 1) two_leaves-IsWithin (omega arith)
      two_leaves-IsHeap

generate_codes_fit_example : length (entry_of (generate_codes tree) b'a').code < max_tree_ht
generate_codes_fit_example =
    generate_codes_fit tree b'a' tree-IsFull refl (unfold leaves in omega arith)
      (unfold count_leaves in omega arith)

-- The frequencies of "abcc", and a tree that spells it in 7 bits, where 6 are enough.
abbrev abcc : List ℕ
abcc = replicate 97 0 ++ 1 ∷ 1 ∷ 2 ∷ replicate 156 0

abbrev worse_tree : HuffmanNode
worse_tree =
    node b'$' 4 (create_node b'a' 1) (node b'$' 3 (create_node b'b' 1) (create_node b'c' 2))

worse_tree-IsFull : IsFull worse_tree
worse_tree-IsFull =
    IsFull.fork b'$' 4 (IsFull.leaf b'a' 1 (omega arith))
      (IsFull.fork b'$' 3 (IsFull.leaf b'b' 1 (omega arith)) (IsFull.leaf b'c' 2 (omega arith)))

get_or_behind : (xs : List ℕ) (i : ℕ) → length xs ≤ i → get_or xs i 0 ≡ 0
get_or_behind [] i h = refl
get_or_behind (x ∷ xs) zero h = absurd (omega arith)
get_or_behind (x ∷ xs) (suc i) h = get_or_behind xs i (omega arith)

abbrev own_leaf : List ℕ → ℕ → Bool
own_leaf xs c = count_leaves c worse_tree == (if ltb 0 (get_or xs c 0) then 1 else 0)

own_leaf_all : all_below 256 (own_leaf abcc) ≡ true
unfolding all_below count_leaves
own_leaf_all = refl

own_leaves :
    (xs : List ℕ) (c : ℕ)
    → length xs ≡ 256
    → all_below 256 (own_leaf xs) ≡ true
    → count_leaves c worse_tree ≡ (if ltb 0 (get_or xs c 0) then 1 else 0)
unfolding count_leaves
own_leaves xs c size all = elim (Bool-cases (ltb c 256)) [
  | inl below ↦ ground (arith, all_below_lem 256 (own_leaf xs) c (ground arith) all)
  | inr behind ↦ rw (get_or_behind xs c (ground arith)) (ground arith)
]

build_huffman_tree_optimal_example :
    encoded_bits (amount abcc) 0 (build_huffman_tree abcc).0
    ≤ encoded_bits (amount abcc) 0 worse_tree
build_huffman_tree_optimal_example =
    build_huffman_tree_optimal abcc worse_tree refl (unfold count_distinct in omega arith)
      (unfold text_length in omega arith) worse_tree-IsFull
      (λ c. own_leaves abcc c refl own_leaf_all)
