-- ===== src/Huffman/BitIo/Consumed.antt =====
-- The reader takes at least a bit for each bit that it serves.
use study_in_tezpur_universi.Common.{
  ℕ, zero, suc, ◌%◌, ◌≤◌, ◌≡◌, refl, List, [], ◌∷◌, none, some, arith, length, inl, inr,
  Option-cases, bit_or, ◌^◌,
}
use study_in_tezpur_universi.Common.Bits.{◌<<◌}
use study_in_tezpur_universi.Huffman.BitIo.{BitReader, read_bit, read_bits, read_bits_from}
use study_in_tezpur_universi.Huffman.BitIo.Reading.{
  stream, read_bit-next, read_bit-end, read_bits_from-suc,
}

-- A bit that is served is one bit less to read.
pub read_bit-shorter :
    (br : BitReader) {bit : ℕ} {br' : BitReader}
    → read_bit br ≡ some (bit, br')
    → length (stream br) ≡ suc (length (stream br'))
read_bit-shorter br {bit} {br'} h = by_stream (stream br) refl
  where
    by_stream : (bits : List ℕ) → stream br ≡ bits → length (stream br) ≡ suc (length (stream br'))
    by_stream [] e = let ended = read_bit-end br e in cc
    by_stream (b ∷ bits) e =
        let (served, got, left) = read_bit-next br b bits e in
        let same : served ≡ br' = cc in rw (e, ← same, left)

read_bits_from-none :
    (left res : ℕ) (br : BitReader)
    → read_bit br ≡ none
    → read_bits_from (suc left) br res ≡ (none, br)
unfolding read_bits_from
read_bits_from-none left res br h = rw (h, read_bits_from)

read_bits_from-shorter :
    (left res : ℕ) (br : BitReader)
    → length (stream (read_bits_from left br res).1) ≤ length (stream br)
read_bits_from-shorter zero res br = unfold read_bits_from in omega arith
read_bits_from-shorter (suc left) res br = elim (Option-cases (read_bit br)) [
  | inl ended ↦ rw (read_bits_from-none left res br ended) (omega arith)
  | inr ((b, br'), got) ↦ rw (read_bits_from-suc left res b br br' got) (
      omega (
        arith,
        read_bit-shorter br got,
        read_bits_from-shorter left (bit_or ((res << 1) % 2 ^ 32) b) br',
      ))
]

-- `readBits` reads no more than there is.
pub read_bits-shorter :
    (n : ℕ) (br : BitReader) → length (stream (read_bits br n).1) ≤ length (stream br)
unfolding read_bits
read_bits-shorter n br = read_bits_from-shorter n 0 br
