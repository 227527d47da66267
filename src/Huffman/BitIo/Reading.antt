-- ===== src/Huffman/BitIo/Reading.antt =====
-- The reader serves the bits of its file in order.
use study_in_tezpur_universi.Common.{
  ℕ, zero, suc, ◌*◌, ◌/◌, ◌%◌, ◌^◌, ◌≤◌, ◌<◌, ◌≡◌, refl, ◌∙◌, bit_or, List, [], ◌∷◌, ◌++◌, none,
  some, arith,
}
use native.Mathlib.Nat.{
  pow-suc, div-div-eq-div-mul, div-eq_of_lt, div-le_self, lt_of_lt_of_le, pow-le-pow_right,
}
use study_in_tezpur_universi.Common.Bits.{◌<<◌, bit_and-one, bit_or-disjoint}
use study_in_tezpur_universi.Huffman.BitIo.{
  BitReader, bit_reader_init, serve, read_bit, read_bits_from, read_bits,
}
use study_in_tezpur_universi.Huffman.BitIo.Stream.{low_bits, file_bits}

-- The bits still to be served.
pub stream : BitReader → List ℕ
unfolding file_bits
stream br = low_bits br.bit_count br.buffer ++ file_bits br.fp

pub stream-bit_reader_init : (fp : List ℕ) → stream (bit_reader_init fp) ≡ file_bits fp
unfolding stream bit_reader_init
stream-bit_reader_init fp = refl

read_bit-end_fields :
    (fp : List ℕ) (buffer n : ℕ)
    → low_bits n buffer ++ file_bits fp ≡ []
    → read_bit (record { fp = fp; buffer = buffer; bit_count = n }) ≡ none
unfolding read_bit file_bits
read_bit-end_fields [] buffer zero h = refl
read_bit-end_fields (byte ∷ fp) buffer zero h = cc
read_bit-end_fields fp buffer (suc n) h = cc

-- At the end of the bits `readBit` reports it.
pub read_bit-end : (br : BitReader) → stream br ≡ [] → read_bit br ≡ none
unfolding stream
read_bit-end br h = read_bit-end_fields br.fp br.buffer br.bit_count h

serve_fields :
    (fp : List ℕ) (buffer n : ℕ)
    → serve (record { fp = fp; buffer = buffer; bit_count = suc n })
      ≡ (buffer / 2 ^ n % 2, record { fp = fp; buffer = buffer; bit_count = n })
unfolding serve
serve_fields fp buffer n = ground (arith, bit_and-one (buffer / 2 ^ n))

read_bit-next_fields :
    (fp : List ℕ) (buffer n b : ℕ) (bits : List ℕ)
    → low_bits n buffer ++ file_bits fp ≡ b ∷ bits
    → (br' : BitReader) × (read_bit (record { fp = fp; buffer = buffer; bit_count = n })
        ≡ some (b, br'))
      × (stream br' ≡ bits)
unfolding read_bit file_bits stream
read_bit-next_fields [] buffer zero b bits h = cc
read_bit-next_fields (byte ∷ fp) buffer zero b bits h = (
  record { fp = fp; buffer = byte; bit_count = 7 },
  ground (arith, serve_fields fp byte 7),
  ground arith,
)
read_bit-next_fields fp buffer (suc n) b bits h = (
  record { fp = fp; buffer = buffer; bit_count = n },
  ground (arith, serve_fields fp buffer n),
  ground arith,
)

-- Otherwise it serves the first of the bits, and the others remain.
pub read_bit-next :
    (br : BitReader) (b : ℕ) (bits : List ℕ)
    → stream br ≡ b ∷ bits
    → (br' : BitReader) × (read_bit br ≡ some (b, br')) × (stream br' ≡ bits)
unfolding stream
read_bit-next br b bits h = read_bit-next_fields br.fp br.buffer br.bit_count b bits h

halves : (v l : ℕ) → v / 2 ^ suc l ≡ v / 2 ^ l / 2
halves v l = rw (pow-suc 2 l, div-div-eq-div-mul v (2 ^ l) 2)

shift_in :
    (v l : ℕ) → v < 2 ^ 32 → bit_or (((v / 2 ^ suc l) << 1) % 2 ^ 32) (v / 2 ^ l % 2) ≡ v / 2 ^ l
shift_in v l h =
    let q : ((v / 2 ^ suc l) << 1) % 2 ^ 32 ≡ v / 2 ^ l / 2 * 2 ^ 1 =
      omega (arith, halves v l, div-le_self v (2 ^ l)) in
    rw q (omega (arith, bit_or-disjoint 1 (v / 2 ^ l / 2) (v / 2 ^ l % 2) (omega arith)))

pub read_bits_from-suc :
    (left res b : ℕ) (br br' : BitReader)
    → read_bit br ≡ some (b, br')
    → read_bits_from (suc left) br res ≡ read_bits_from left br' (bit_or ((res << 1) % 2 ^ 32) b)
unfolding read_bits_from
read_bits_from-suc left res b br br' h = rw (h, read_bits_from)

read_bits_from-low_bits :
    (left v : ℕ) (br : BitReader) (rest : List ℕ)
    → v < 2 ^ 32
    → stream br ≡ low_bits left v ++ rest
    → (br' : BitReader) × (read_bits_from left br (v / 2 ^ left) ≡ (some v, br'))
      × (stream br' ≡ rest)
unfolding read_bits_from
read_bits_from-low_bits zero v br rest h e = (br, ground arith, e)
read_bits_from-low_bits (suc left) v br rest h e =
    let (br', one, more) = read_bit-next br (v / 2 ^ left % 2) (low_bits left v ++ rest) e in
    let (br'', all, after) = read_bits_from-low_bits left v br' rest h more in
    (
      br'',
      read_bits_from-suc left (v / 2 ^ suc left) _ br br' one ∙ rw (shift_in v left h) all,
      after,
    )

-- From a reader whose bits begin with the lowest `n` bits of a number below 2^n, `n` at most 32,
-- `readBits` gives that number and leaves the rest to be read.
pub read_bits-low_bits :
    (n v : ℕ) (br : BitReader) (rest : List ℕ)
    → v < 2 ^ n
    → n ≤ 32
    → stream br ≡ low_bits n v ++ rest
    → (br' : BitReader) × (read_bits br n ≡ (some v, br')) × (stream br' ≡ rest)
unfolding read_bits
read_bits-low_bits n v br rest h fits e =
    rw (div-eq_of_lt h) at (
      read_bits_from-low_bits n v br rest (lt_of_lt_of_le h (pow-le-pow_right (omega arith) fits))
        e)
