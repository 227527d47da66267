-- ===== src/Huffman/Codes.antt =====
-- The table of prefix codes.
pub mod Entries
pub mod Fits
use study_in_tezpur_universi.Common.{
  ℕ, zero, suc, ◌≡◌, List, [], ◌∷◌, ◌++◌, ◌==◌, if◌then◌else◌, set, replicate,
  length as list_length, get_or,
}
use study_in_tezpur_universi.Huffman.Node.{HuffmanNode, null, node, create_node, is_leaf}

-- A code is the text of its `'0'` and `'1'` characters.
pub record CodeEntry : Type 0 where
  pub code : List ℕ
  pub length : ℕ

abbrev pub num_chars : ℕ
num_chars = 256

abbrev pub max_tree_ht : ℕ
max_tree_ht = 256

abbrev pub empty_entry : CodeEntry
empty_entry = record { code = []; length = 0 }

-- The entry of a leaf at the end of a path: `codeBuffer` up to `depth`.
abbrev pub leaf_entry : List ℕ → CodeEntry
leaf_entry [] = record { code = b'0' ∷ []; length = 1 }
leaf_entry (b ∷ path) = record { code = b ∷ path; length = suc (list_length path) }

-- `code_buffer` holds the `depth` characters that are set when the call is made.
pub generate_codes_recursive : HuffmanNode → List ℕ → List CodeEntry → List CodeEntry
generate_codes_recursive null code_buffer code_table = code_table
generate_codes_recursive (node symbol freq left right) code_buffer code_table =
    let as_leaf = set code_table symbol (leaf_entry code_buffer) in
    let at_left = generate_codes_recursive left (code_buffer ++ b'0' ∷ []) code_table in
    let as_fork = generate_codes_recursive right (code_buffer ++ b'1' ∷ []) at_left in
    if is_leaf (node symbol freq left right) then as_leaf else as_fork

pub generate_codes : HuffmanNode → List CodeEntry
unfolding generate_codes_recursive
generate_codes root = generate_codes_recursive root [] (replicate num_chars empty_entry)

abbrev pub entry_of : List CodeEntry → ℕ → CodeEntry
entry_of code_table c = get_or code_table c empty_entry
