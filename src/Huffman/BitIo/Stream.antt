-- ===== src/Huffman/BitIo/Stream.antt =====
-- The abstract view of the bit routines: the list of bits in a byte, a file, a reader and a writer.
use study_in_tezpur_universi.Common.{ℕ, zero, suc, ◌/◌, ◌%◌, ◌^◌, ◌≡◌, refl, List, [], ◌∷◌, ◌++◌}

-- The lowest `n` bits of a number, the highest of them first.
abbrev pub low_bits : ℕ → ℕ → List ℕ
low_bits zero b = []
low_bits (suc n) b = (b / 2 ^ n % 2) ∷ low_bits n b

abbrev pub byte_bits : ℕ → List ℕ
byte_bits b = low_bits 8 b

unfoldable pub file_bits : List ℕ → List ℕ
file_bits [] = []
file_bits (b ∷ fp) = byte_bits b ++ file_bits fp

pub file_bits-append : (xs ys : List ℕ) → file_bits (xs ++ ys) ≡ file_bits xs ++ file_bits ys
unfolding file_bits
file_bits-append [] ys = refl
file_bits-append (b ∷ xs) ys = rw (file_bits-append xs ys)
