-- ===== src/Huffman/File/RoundTrip.antt =====
-- compressFile and decompressFile together.
use study_in_tezpur_universi.Common.{
  ℕ, suc, ◌+◌, ◌<◌, ◌≤◌, ◌≡◌, refl, sym, ap, ◌∙◌, List, [], ◌∷◌, ◌++◌, true, false, ◌==◌, ltb, ◌&&◌,
  not, if◌then◌else◌, some, arith, length, length-append, append_assoc, append-nil, get_or, ◌^◌,
}
use study_in_tezpur_universi.Huffman.BitIo.{BitReader, bit_writer_init, bit_reader_init}
use study_in_tezpur_universi.Huffman.BitIo.Stream.{file_bits}
use study_in_tezpur_universi.Huffman.BitIo.Writing.{bit_writer_init_lem, bit_writer_flush_lem}
use study_in_tezpur_universi.Huffman.BitIo.Reading.{stream, stream-bit_reader_init}
use study_in_tezpur_universi.Huffman.Node.{
  HuffmanNode, is_leaf, is_null, IsFull, IsFull-node, is_leaf-fork,
}
use study_in_tezpur_universi.Huffman.Codes.{CodeEntry, generate_codes, entry_of}
use study_in_tezpur_universi.Huffman.Codes.Entries.{Leads, generate_codes-Coded}
use study_in_tezpur_universi.Huffman.Header.{serialize_tree_preorder}
use study_in_tezpur_universi.Huffman.Header.RoundTrip.{
  tree_bits, stored, depth, serialize_tree_preorder_lem, deserialize-tree_bits, depth-le-tree_bits,
}
use study_in_tezpur_universi.Huffman.Build.{build_huffman_tree}
use study_in_tezpur_universi.Huffman.Build.Tree.{
  Serves, build_huffman_tree-Serves, count_distinct-pos,
}
use study_in_tezpur_universi.Huffman.File.{
  huf_magic, count_chars, size_bytes, write_payload, write_tree_and_payload, compress, compressed,
  compress_file, complete, decode_loop, decode_payload, restored, restore, decompress_tree,
  decompress_body, decompress, decompress_file,
}
use study_in_tezpur_universi.Huffman.File.Prefix.{write_tree_and_payload-behind}
use study_in_tezpur_universi.Huffman.File.Size.{read_size-size_bytes}
use study_in_tezpur_universi.Huffman.File.Tally.{occurrences, AllBytes, count_chars-Counted}
use study_in_tezpur_universi.Huffman.File.Payload.{
  payload_bits, AllLead, write_payload_lem, stored-Leads,
}
use study_in_tezpur_universi.Huffman.File.Decoding.{decode_loop-payload_bits}

-- Each byte of a text occurs in it, so that the tree's table has a code for it.
table-AllLead :
    (root : HuffmanNode) (text : List ℕ)
    → ((c : ℕ) → 0 < occurrences c text → Leads root c (entry_of (generate_codes root) c).code)
    → AllLead root (generate_codes root) text
table-AllLead root text lead = from text (λ c h. lead c h)
  where
    from :
        (rest : List ℕ)
        → ((c : ℕ) → 0 < occurrences c rest → Leads root c (entry_of (generate_codes root) c).code)
        → AllLead root (generate_codes root) rest
    from [] h = tt
    from (c ∷ rest) h = (h c (ground arith), from rest (λ d p. h d (omega (arith, p))))

stored-AllLead :
    {root : HuffmanNode} (table : List CodeEntry) (text : List ℕ)
    → IsFull root
    → AllLead root table text
    → AllLead (stored root) table text
stored-AllLead table [] full lead = tt
stored-AllLead table (c ∷ text) full lead =
    (stored-Leads full lead.0, stored-AllLead table text full lead.1)

-- The stored tree has the shape of the tree.
stored_shape :
    (t : HuffmanNode) → IsFull t → (is_null (stored t) ≡ false) × (is_leaf (stored t) ≡ is_leaf t)
stored_shape t (IsFull.leaf symbol freq small) = (refl, refl)
stored_shape t (IsFull.fork symbol freq {left} {right} l r) =
    rw (is_leaf-fork symbol freq left right (IsFull-node l))
      (refl, is_leaf-fork b'$' 0 (stored left) (stored right) (stored_shape left l).0)

-- The bits of the file behind its first part: the tree, the codes and a padding.
pub write_tree_and_payload_lem :
    (root : HuffmanNode) (text out : List ℕ)
    → IsFull root
    → AllLead root (generate_codes root) text
    → (pad : List ℕ) × (file_bits (write_tree_and_payload root text out)
        ≡ file_bits out ++ (tree_bits root ++ (payload_bits (generate_codes root) text ++ pad)))
      × (length pad < 8)
unfolding write_tree_and_payload
write_tree_and_payload_lem root text out full lead =
    let table = generate_codes root in
    let bw = bit_writer_init out in
    let (ready₀, e₀) = bit_writer_init_lem out in
    let (ready₁, e₁) = serialize_tree_preorder_lem root bw full ready₀ in
    let (ready₂, e₂) =
      write_payload_lem root table text (serialize_tree_preorder root bw) lead ready₁ in
    let (pad, e₃, short) =
      bit_writer_flush_lem (write_payload table text (serialize_tree_preorder root bw)) ready₂ in
    (pad, e₃ ∙ rw (e₂, e₁, e₀) (simp append_assoc), short)

-- The magic and the size are read back.
decompress-header :
    (n : ℕ) (more : List ℕ)
    → n < 2 ^ 64
    → decompress (huf_magic ++ (size_bytes 8 n ++ more)) true
      ≡ decompress_body true (some (n, more))
unfolding decompress
decompress-header n more h = ap (decompress_body true) (read_size-size_bytes n more h)

-- The decompressor behind the tree.
decompress_tree-payload :
    (root : HuffmanNode) (text pad : List ℕ) (br : BitReader)
    → IsFull root
    → is_leaf root ≡ false
    → AllLead root (generate_codes root) text
    → stream br ≡ payload_bits (generate_codes root) text ++ pad
    → decompress_tree (length text) (some (stored root, br)) ≡ restored complete text
unfolding decompress_tree restore decode_payload
decompress_tree-payload root text pad br full inner lead e =
    let table = generate_codes root in
    let shape = stored_shape root full in
    let fuel : suc (length (stream br)) ≡ length (payload_bits table text) + suc (length pad) =
      omega (arith, ap (λ (l : List ℕ). length l) e, length-append (payload_bits table text) pad) in
    let decoded =
      decode_loop-payload_bits (length pad) (length text) 0 (stored root) table text br [] pad
        (stored-AllLead table text full lead) (shape.1 ∙ inner) (omega arith) e in
    rw (shape.0, shape.1, inner)
      (ap restore (
        ap (λ (f : ℕ). decode_loop f (stored root) (length text) br (stored root) 0 []) fuel
        ∙ decoded))

-- The decompressor on a body of a tree, the codes of a text and a padding.
decompress_body-payload :
    (root : HuffmanNode) (text more pad : List ℕ)
    → IsFull root
    → is_leaf root ≡ false
    → 0 < length text
    → AllLead root (generate_codes root) text
    → file_bits more ≡ tree_bits root ++ (payload_bits (generate_codes root) text ++ pad)
    → decompress_body true (some (length text, more)) ≡ restored complete text
unfolding decompress_body
decompress_body-payload root text more pad full inner some_text lead e =
    let table = generate_codes root in
    let br = bit_reader_init more in
    let bits = stream-bit_reader_init more ∙ e in
    let deep : depth root ≤ suc (length (stream br)) = omega (
      arith,
      depth-le-tree_bits root full,
      ap (λ (l : List ℕ). length l) bits,
      length-append (tree_bits root) (payload_bits table text ++ pad),
    ) in
    let (br', rebuilt, after) =
      deserialize-tree_bits (suc (length (stream br))) root br (payload_bits table text ++ pad) full
        deep bits in
    let busy : (length text == 0) ≡ false = ground arith in
    rw (busy, rebuilt) (decompress_tree-payload root text pad br' full inner lead after)

-- `compress` without its counts: the tree is built for some frequencies of the text's length.
compress-text :
    (text : List ℕ) (n : ℕ) (root : HuffmanNode)
    → (count_chars text).total_chars ≡ n
    → (build_huffman_tree (count_chars text).freqs).0 ≡ root
    → compress text ≡ (
        if ltb 0 n && not (is_null root)
        then write_tree_and_payload root text (huf_magic ++ size_bytes 8 n)
        else huf_magic ++ size_bytes 8 n)
unfolding compress
compress-text text n root total tree =
    ap (λ (m : ℕ). frame m (build_huffman_tree (count_chars text).freqs).0) total
    ∙ ap (frame n) tree
  where
    frame : ℕ → HuffmanNode → List ℕ
    frame n root =
        if ltb 0 n && not (is_null root)
        then write_tree_and_payload root text (huf_magic ++ size_bytes 8 n)
        else huf_magic ++ size_bytes 8 n

round_trip :
    (text : List ℕ) (root : HuffmanNode)
    → length text < 2 ^ 64
    → 0 < length text
    → IsFull root
    → is_leaf root ≡ false
    → AllLead root (generate_codes root) text
    → decompress (write_tree_and_payload root text (huf_magic ++ size_bytes 8 (length text))) true
      ≡ restored complete text
round_trip text root fits some_text full inner lead =
    let more = write_tree_and_payload root text [] in
    let (pad, bits, short) = write_tree_and_payload_lem root text [] full lead in
    ap (λ (fp : List ℕ). decompress fp true)
      (write_tree_and_payload-behind root text (huf_magic ++ size_bytes 8 (length text)))
    ∙ decompress-header (length text) more fits
    ∙ decompress_body-payload root text more pad full inner some_text lead
        (unfold file_bits in bits)

-- The leaves of the tree's symbols give each byte of the text a code that leads to it.
Serves-AllLead :
    (text freqs : List ℕ) (root : HuffmanNode)
    → Serves freqs root
    → ((c : ℕ) → get_or freqs c 0 ≡ occurrences c text)
    → AllLead root (generate_codes root) text
Serves-AllLead text freqs root serves each = table-AllLead root text λ c h.
    let k =
      generate_codes-Coded root c serves.full serves.inner
        (serves.has_leaf c (omega (arith, each c))) in
    rw k.spelled k.leads

occurrences-head : (c : ℕ) (text : List ℕ) → 0 < occurrences c (c ∷ text)
occurrences-head c text = ground arith

-- For a text of bytes, shorter than 2^64, the decompressor restores from what the compressor writes
-- exactly the text, and its decoding loop ends with the text complete. The output file can be
-- opened.
pub decompress-compress :
    (text : List ℕ)
    → AllBytes text
    → length text < 2 ^ 64
    → decompress (compress text) true ≡ restored complete text
decompress-compress [] bytes fits =
    let (_, total, _) = count_chars-Counted [] bytes fits in
    let root = (build_huffman_tree (count_chars []).freqs).0 in
    ap (λ (fp : List ℕ). decompress fp true)
      (compress-text [] 0 root total refl ∙ ap (◌++◌ huf_magic) (sym (append-nil (size_bytes 8 0))))
    ∙ decompress-header 0 [] fits
    ∙ unfold decompress_body in refl
decompress-compress (c ∷ rest) bytes fits =
    let text = c ∷ rest in
    let freqs = (count_chars text).freqs in
    let root = (build_huffman_tree freqs).0 in
    let (size, total, each) = count_chars-Counted text bytes fits in
    let some_symbols =
      count_distinct-pos freqs c (omega (arith, each c, occurrences-head c rest)) in
    let serves = build_huffman_tree-Serves freqs size some_symbols in
    let trip =
      round_trip text root fits (omega arith) serves.full serves.inner
        (Serves-AllLead text freqs root serves each) in
    let busy : ltb 0 (length text) && not (is_null root) ≡ true =
      ground (arith, IsFull-node serves.full) in
    ap (λ (fp : List ℕ). decompress fp true)
      (compress-text text (length text) root total refl ∙ rw busy)
    ∙ trip

-- The two programs, one after the other, with files that can be opened.
pub decompress_file-compress_file :
    (text : List ℕ)
    → AllBytes text
    → length text < 2 ^ 64
    → (huf : List ℕ) × (compress_file (some text) true ≡ compressed huf)
      × (decompress_file (some huf) true ≡ restored complete text)
unfolding compress_file decompress_file
decompress_file-compress_file text bytes fits =
    (compress text, refl, decompress-compress text bytes fits)
