-- ===== src/Huffman/File/Total.antt =====
-- The ways in which decompressFile ends.
use study_in_tezpur_universi.Common.{
  ℕ, zero, suc, ◌+◌, ◌<◌, ◌≡◌, ◌≢◌, ◌∙◌, List, [], ◌∷◌, ◌++◌, Bool, true, false, ltb, if◌then◌else◌,
  Option, none, some, arith, length, take, drop, text_eq, replicate, Bool-cases, Option-cases, inl,
  inr,
}
use study_in_tezpur_universi.Huffman.BitIo.{BitReader, bit_reader_init, read_bit}
use study_in_tezpur_universi.Huffman.BitIo.Reading.{stream}
use study_in_tezpur_universi.Huffman.BitIo.Consumed.{read_bit-shorter}
use study_in_tezpur_universi.Huffman.Node.{HuffmanNode, is_leaf, is_null, symbol_of}
use study_in_tezpur_universi.Huffman.Header.Total.{deserialize-Ends}
use study_in_tezpur_universi.Huffman.File.Decoding.{child, decode_loop-round}
use study_in_tezpur_universi.Huffman.File.{
  huf_magic, Ending, complete, truncated, bad_path, decode_loop, decode_payload, out_of_fuel,
  restore, decompress_tree, decompress_body, decompress, read_size,
}

decode_loop-none :
    (fuel n decoded : ℕ) (root curr : HuffmanNode) (br : BitReader) (out : List ℕ)
    → read_bit br ≡ none
    → decode_loop (suc fuel) root n br curr decoded out
      ≡ (if ltb decoded n then some (truncated, out) else some (complete, out))
unfolding decode_loop
decode_loop-none fuel n decoded root curr br out h = rw (h, decode_loop)

decode_loop-done :
    (fuel n decoded : ℕ) (root curr : HuffmanNode) (br : BitReader) (out : List ℕ)
    → ltb decoded n ≡ false
    → decode_loop (suc fuel) root n br curr decoded out ≡ some (complete, out)
unfolding decode_loop
decode_loop-done fuel n decoded root curr br out done = rw done

decode_loop-lost :
    (fuel n bit decoded : ℕ) (root curr : HuffmanNode) (br br' : BitReader) (out : List ℕ)
    → ltb decoded n ≡ true
    → read_bit br ≡ some (bit, br')
    → is_null (child bit curr) ≡ true
    → decode_loop (suc fuel) root n br curr decoded out ≡ some (bad_path, out)
unfolding decode_loop
decode_loop-lost fuel n bit decoded root curr br br' out more got lost =
    rw (more, got, decode_loop) (rw lost)

-- A bit that is read costs a round.
decode_loop-Ends :
    (fuel n decoded : ℕ) (root curr : HuffmanNode) (br : BitReader) (out : List ℕ)
    → length (stream br) < fuel
    → (r : Ending × List ℕ) × (decode_loop fuel root n br curr decoded out ≡ some r)
decode_loop-Ends zero n decoded root curr br out h = absurd (omega arith)
decode_loop-Ends (suc fuel) n decoded root curr br out h = elim (Option-cases (read_bit br)) [
  | inl ended ↦ elim (Bool-cases (ltb decoded n)) [
    | inl more ↦
        ((truncated, out), decode_loop-none fuel n decoded root curr br out ended ∙ rw more)
    | inr done ↦ ((complete, out), decode_loop-none fuel n decoded root curr br out ended ∙ rw done)
  ]
  | inr ((bit, br'), got) ↦
      let next = child bit curr in
      let (r, rest) =
        decode_loop-Ends fuel n (if is_leaf next then decoded + 1 else decoded) root
          (if is_leaf next then root else next) br'
          (if is_leaf next then out ++ symbol_of next ∷ [] else out)
          (omega (arith, read_bit-shorter br got)) in
      elim (Bool-cases (ltb decoded n)) [
        | inr done ↦ ((complete, out), decode_loop-done fuel n decoded root curr br out done)
        | inl more ↦ elim (Bool-cases (is_null next)) [
          | inl lost ↦ (
            (bad_path, out),
            decode_loop-lost fuel n bit decoded root curr br br' out more got lost,
          )
          | inr found ↦
              (r, decode_loop-round fuel n bit decoded root curr br br' out more got found ∙ rest)
        ]
      ]
]

decode_payload-Ends :
    (root : HuffmanNode) (n : ℕ) (br : BitReader)
    → (r : Ending × List ℕ) × (decode_payload root n br ≡ some r)
unfolding decode_payload
decode_payload-Ends root n br = elim (Bool-cases (is_leaf root)) [
  | inl leaf ↦ ((complete, replicate n (symbol_of root)), rw leaf)
  | inr inner ↦
      let (r, e) = decode_loop-Ends (suc (length (stream br))) n 0 root root br [] (omega arith) in
      (r, rw inner e)
]

decompress_tree-Ends :
    (n : ℕ) (root : HuffmanNode) (br : BitReader)
    → decompress_tree n (some (root, br)) ≢ out_of_fuel
unfolding decompress_tree restore
decompress_tree-Ends n root br h =
    let (r, e) = decode_payload-Ends root n br in
    elim (Bool-cases (is_null root)) [
      | inl lost ↦ let h' = rw lost at h in cc
      | inr found ↦ let h' = rw (found, e) at h in cc
    ]

decompress_body-Ends :
    (can_write : Bool) (sized : Option (ℕ × List ℕ)) → decompress_body can_write sized ≢ out_of_fuel
unfolding decompress_body
decompress_body-Ends can_write none h = cc
decompress_body-Ends can_write (some (n, fp)) h =
    let br = bit_reader_init fp in
    let (root, br', e, _) = deserialize-Ends (suc (length (stream br))) br (omega arith) in
    let h' = rw e at h in ground (arith, decompress_tree-Ends n root br')

-- On every file, damaged ones included, the decompressor ends: the model's fuel, one more than the
-- bits in the file, never runs out.
pub decompress_ends : (fp : List ℕ) (can_write : Bool) → decompress fp can_write ≢ out_of_fuel
unfolding decompress
decompress_ends fp can_write h = elim (Bool-cases (text_eq (take 4 fp) huf_magic)) [
  | inl good ↦ decompress_body-Ends can_write (read_size 8 0 (drop 4 fp)) (rw good at h)
  | inr bad ↦ let h' = rw bad at h in cc
]
