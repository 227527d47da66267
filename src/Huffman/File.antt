-- ===== src/Huffman/File.antt =====
-- `compressFile` and `decompressFile`. A file is the list of its bytes; `none` for a name that
-- cannot be opened for reading. Console output is left out.
pub mod Size
pub mod Tally
pub mod Payload
pub mod Decoding
pub mod Prefix
pub mod RoundTrip
pub mod Total
use study_in_tezpur_universi.Common.{
  ℕ, zero, suc, ◌+◌, ◌-◌, ◌*◌, ◌%◌, ◌^◌, bit_and, bit_or, List, [], ◌∷◌, ◌++◌, Option, none, some,
  Bool, ltb, ◌==◌, ◌&&◌, not, if◌then◌else◌, get_or, set, replicate, take, drop, text_eq, length,
}
use study_in_tezpur_universi.Common.Bits.{◌<<◌, ◌>>◌}
use study_in_tezpur_universi.Huffman.BitIo.{
  BitWriter, BitReader, bit_writer_init, bit_reader_init, write_bit, bit_writer_flush, read_bit,
}
use study_in_tezpur_universi.Huffman.BitIo.Reading.{stream}
use study_in_tezpur_universi.Huffman.Node.{HuffmanNode, null, node, is_null, is_leaf, symbol_of}
use study_in_tezpur_universi.Huffman.Codes.{CodeEntry, num_chars, generate_codes, entry_of}
use study_in_tezpur_universi.Huffman.Build.{build_huffman_tree}
use study_in_tezpur_universi.Huffman.Header.{serialize_tree_preorder, deserialize_tree_preorder}

abbrev pub huf_magic : List ℕ
huf_magic = b'H' ∷ b'U' ∷ b'F' ∷ b'1' ∷ []

-- Pass 1: the counters of `uint64_t`.
pub record Counts : Type 0 where
  pub freqs : List ℕ
  pub total_chars : ℕ

pub count_from : List ℕ → Counts → Counts
count_from [] counts = counts
count_from (ch ∷ text) counts = count_from text (record {
  freqs = set counts.freqs ch ((get_or counts.freqs ch 0 + 1) % 2 ^ 64);
  total_chars = (counts.total_chars + 1) % 2 ^ 64;
})

pub count_chars : List ℕ → Counts
unfolding count_from
count_chars text = count_from text (record { freqs = replicate num_chars 0; total_chars = 0 })

-- The bytes of the size from byte `i - 1` down to byte 0.
pub size_bytes : ℕ → ℕ → List ℕ
size_bytes zero total_chars = []
size_bytes (suc i) total_chars = bit_and (total_chars >> (i * 8)) 0xff ∷ size_bytes i total_chars

pub write_code : List ℕ → BitWriter → BitWriter
write_code [] bw = bw
write_code (c ∷ code) bw = write_code code (write_bit bw (c - b'0'))

-- Pass 2.
pub write_payload : List CodeEntry → List ℕ → BitWriter → BitWriter
unfolding write_code
write_payload code_table [] bw = bw
write_payload code_table (ch ∷ text) bw =
    write_payload code_table text (write_code (entry_of code_table ch).code bw)

pub write_tree_and_payload : HuffmanNode → List ℕ → List ℕ → List ℕ
unfolding write_payload
write_tree_and_payload root text out =
    (bit_writer_flush (
      write_payload (generate_codes root) text
        (serialize_tree_preorder root (bit_writer_init out)))).fp

-- The output file for the bytes of an input file.
pub compress : List ℕ → List ℕ
unfolding count_chars size_bytes write_tree_and_payload
compress text =
    let counts = count_chars text in
    let root = (build_huffman_tree counts.freqs).0 in
    let out = huf_magic ++ size_bytes 8 counts.total_chars in
    if ltb 0 counts.total_chars && not (is_null root)
    then write_tree_and_payload root text out
    else out

pub data CompressResult : Type 0 where
  no_input no_output : CompressResult
  compressed : List ℕ → CompressResult

pub compress_file : Option (List ℕ) → Bool → CompressResult
unfolding compress
compress_file none can_write = no_input
compress_file (some text) can_write = if can_write then compressed (compress text) else no_output

-- The bytes of the stored size, and the file behind them.
pub read_size : ℕ → ℕ → List ℕ → Option (ℕ × List ℕ)
read_size zero orig_size fp = some (orig_size, fp)
read_size (suc left) orig_size [] = none
read_size (suc left) orig_size (byte ∷ fp) =
    read_size left (bit_or ((orig_size << 8) % 2 ^ 64) byte) fp

-- How the decoding loop ends.
pub data Ending : Type 0 where
  complete truncated bad_path : Ending

pub left_child : HuffmanNode → HuffmanNode
left_child null = null
left_child (node symbol freq left right) = left

pub right_child : HuffmanNode → HuffmanNode
right_child null = null
right_child (node symbol freq left right) = right

-- `none` is the model's fuel running out; `out` is what was decoded so far.
pub decode_loop :
    ℕ → HuffmanNode → ℕ → BitReader → HuffmanNode → ℕ → List ℕ → Option (Ending × List ℕ)
unfolding left_child right_child
decode_loop zero root orig_size br curr decoded out = none
decode_loop (suc fuel) root orig_size br curr decoded out =
    let round : Option (Ending × List ℕ) = elim (read_bit br) [
      | none ↦ some (truncated, out)
      | some (bit, br') ↦
          let next = if bit == 0 then left_child curr else right_child curr in
          let leaf = is_leaf next in
          let rest =
            decode_loop fuel root orig_size br' (if leaf then root else next)
              (if leaf then decoded + 1 else decoded)
              (if leaf then out ++ symbol_of next ∷ [] else out) in
          if is_null next then some (bad_path, out) else rest
    ] in
    if ltb decoded orig_size then round else some (complete, out)

-- A root that is a leaf is repeated; each round of the loop takes a bit.
pub decode_payload : HuffmanNode → ℕ → BitReader → Option (Ending × List ℕ)
unfolding decode_loop
decode_payload root orig_size br =
    if is_leaf root
    then some (complete, replicate orig_size (symbol_of root))
    else decode_loop (suc (length (stream br))) root orig_size br root 0 []

-- `bad_magic` and `bad_size` leave no output file, `bad_tree` an empty one. `restored` returns 0
-- with the bytes decoded, also where the loop ended early.
pub data DecompressResult : Type 0 where
  no_input bad_magic bad_size no_output bad_tree out_of_fuel : DecompressResult
  restored : Ending → List ℕ → DecompressResult

pub restore : Option (Ending × List ℕ) → DecompressResult
restore none = out_of_fuel
restore (some (ending, out)) = restored ending out

pub decompress_tree : ℕ → Option (HuffmanNode × BitReader) → DecompressResult
unfolding restore decode_payload
decompress_tree orig_size none = out_of_fuel
decompress_tree orig_size (some (root, br)) =
    if is_null root then bad_tree else restore (decode_payload root orig_size br)

pub decompress_body : Bool → Option (ℕ × List ℕ) → DecompressResult
unfolding decompress_tree
decompress_body can_write none = bad_size
decompress_body can_write (some (orig_size, fp)) =
    let br = bit_reader_init fp in
    if not can_write
    then no_output
    else if orig_size == 0
    then restored complete []
    else decompress_tree orig_size (deserialize_tree_preorder (suc (length (stream br))) br)

pub decompress : List ℕ → Bool → DecompressResult
unfolding decompress_body read_size
decompress fp can_write =
    if text_eq (take 4 fp) huf_magic
    then decompress_body can_write (read_size 8 0 (drop 4 fp))
    else bad_magic

pub decompress_file : Option (List ℕ) → Bool → DecompressResult
unfolding decompress
decompress_file none can_write = no_input
decompress_file (some fp) can_write = decompress fp can_write
