-- ===== src/Huffman/File/Prefix.antt =====
-- The tree and the payload go behind the header's bytes, whatever those are.
use study_in_tezpur_universi.Common.{ℕ, ◌-◌, ◌≡◌, refl, ap, ◌∙◌, List, [], ◌∷◌, ◌++◌, append-nil}
use study_in_tezpur_universi.Huffman.BitIo.{BitWriter, bit_writer_init, write_bit, bit_writer_flush}
use study_in_tezpur_universi.Huffman.BitIo.Prefix.{
  behind, write_bit-behind, bit_writer_flush-behind,
}
use study_in_tezpur_universi.Huffman.Node.{HuffmanNode}
use study_in_tezpur_universi.Huffman.Codes.{CodeEntry, entry_of, generate_codes}
use study_in_tezpur_universi.Huffman.Header.{serialize_tree_preorder}
use study_in_tezpur_universi.Huffman.Header.Prefix.{serialize-behind}
use study_in_tezpur_universi.Huffman.File.{write_code, write_payload, write_tree_and_payload}

write_code-behind :
    (out code : List ℕ) (bw : BitWriter)
    → write_code code (behind out bw) ≡ behind out (write_code code bw)
unfolding write_code
write_code-behind out [] bw = refl
write_code-behind out (c ∷ code) bw =
    rw (write_bit-behind out bw (c - b'0')) (write_code-behind out code (write_bit bw (c - b'0')))

write_payload-behind :
    (out : List ℕ) (table : List CodeEntry) (text : List ℕ) (bw : BitWriter)
    → write_payload table text (behind out bw) ≡ behind out (write_payload table text bw)
unfolding write_payload
write_payload-behind out table [] bw = refl
write_payload-behind out table (c ∷ text) bw =
    rw (write_code-behind out (entry_of table c).code bw)
      (write_payload-behind out table text (write_code (entry_of table c).code bw))

init-behind : (out : List ℕ) → bit_writer_init out ≡ behind out (bit_writer_init [])
unfolding bit_writer_init
init-behind out = rw append-nil

-- The file is the header's bytes and what the writer adds to an empty file.
pub write_tree_and_payload-behind :
    (root : HuffmanNode) (text out : List ℕ)
    → write_tree_and_payload root text out ≡ out ++ write_tree_and_payload root text []
unfolding write_tree_and_payload
write_tree_and_payload-behind root text out =
    let empty = bit_writer_init [] in
    let tree = serialize_tree_preorder root empty in
    let table = generate_codes root in
    ap
      (λ (bw : BitWriter).
        (bit_writer_flush (write_payload table text (serialize_tree_preorder root bw))).fp)
      (init-behind out)
    ∙ ap (λ (bw : BitWriter). (bit_writer_flush (write_payload table text bw)).fp)
        (serialize-behind out root empty)
    ∙ ap (λ (bw : BitWriter). (bit_writer_flush bw).fp) (write_payload-behind out table text tree)
    ∙ ap (λ (bw : BitWriter). bw.fp) (bit_writer_flush-behind out (write_payload table text tree))
