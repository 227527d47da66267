-- ===== src/Huffman/File/Size.antt =====
-- The size in the header: eight bytes, the highest first.
use native.Mathlib.Nat.{div-div-eq-div-mul, div-le_self}
use native.Mathlib.Numerals.{towards_suc}
use study_in_tezpur_universi.Common.{
  ℕ, zero, suc, ◌+◌, ◌*◌, ◌/◌, ◌%◌, ◌^◌, ◌<◌, ◌≡◌, refl, bit_and, bit_or, List, ◌++◌, some, arith,
  length,
}
use study_in_tezpur_universi.Common.Bits.{◌<<◌, ◌>>◌, bit_and-mask, bit_or-disjoint}
use study_in_tezpur_universi.Huffman.File.{size_bytes, read_size}

pow_byte : (k : ℕ) → 2 ^ (suc k * 8) ≡ 2 ^ (k * 8) * 256
pow_byte k = let e : suc k * 8 ≡ k * 8 + 8 = omega arith in rw e (simp towards_suc (omega arith))

bytes_above : (n l : ℕ) → n / 2 ^ (suc l * 8) ≡ n / 2 ^ (l * 8) / 256
bytes_above n l = rw (pow_byte l, div-div-eq-div-mul n (2 ^ (l * 8)) 256)

-- The next byte goes below those that were read.
byte_in :
    (n l : ℕ)
    → n < 2 ^ 64
    → bit_or (((n / 2 ^ (suc l * 8)) << 8) % 2 ^ 64) (bit_and (n >> (l * 8)) 0xff) ≡ n / 2 ^ (l * 8)
byte_in n l h =
    let q : ((n / 2 ^ (suc l * 8)) << 8) % 2 ^ 64 ≡ n / 2 ^ (l * 8) / 256 * 2 ^ 8 =
      omega (arith, bytes_above n l, div-le_self n (2 ^ (l * 8))) in
    rw (q, bit_and-mask 8 (n / 2 ^ (l * 8)))
      (omega
        (arith, bit_or-disjoint 8 (n / 2 ^ (l * 8) / 256) (n / 2 ^ (l * 8) % 256) (omega arith)))

read_size-size_bytes_from :
    (l n : ℕ) (rest : List ℕ)
    → n < 2 ^ 64
    → read_size l (n / 2 ^ (l * 8)) (size_bytes l n ++ rest) ≡ some (n, rest)
unfolding read_size size_bytes
read_size-size_bytes_from zero n rest h = ground arith
read_size-size_bytes_from (suc l) n rest h =
    rw (byte_in n l h) (read_size-size_bytes_from l n rest h)

-- A size below 2^64 is read back from the eight bytes that stand for it in the header, and the rest
-- of the file remains.
pub read_size-size_bytes :
    (n : ℕ) (rest : List ℕ) → n < 2 ^ 64 → read_size 8 0 (size_bytes 8 n ++ rest) ≡ some (n, rest)
read_size-size_bytes n rest h =
    let high : n / 2 ^ (8 * 8) ≡ 0 = omega arith in
    rw high at (read_size-size_bytes_from 8 n rest h)

pub length-size_bytes : (l n : ℕ) → length (size_bytes l n) ≡ l
unfolding size_bytes
length-size_bytes zero n = refl
length-size_bytes (suc l) n = omega (arith, length-size_bytes l n)
