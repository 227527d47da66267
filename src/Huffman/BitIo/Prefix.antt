-- ===== src/Huffman/BitIo/Prefix.antt =====
-- What a file held before the writer was attached stays in front of all that it writes.
use study_in_tezpur_universi.Common.{
  ℕ, zero, suc, ◌+◌, ◌≡◌, refl, bit_and, List, ◌++◌, ◌==◌, append_assoc, Bool-cases, inl, inr,
}
use study_in_tezpur_universi.Common.Bits.{◌>>◌}
use study_in_tezpur_universi.Huffman.BitIo.{BitWriter, write_bit, write_bits, bit_writer_flush}

-- A writer whose file began with `out`.
abbrev pub behind : List ℕ → BitWriter → BitWriter
behind out bw = record bw { fp = out ++ bw.fp }

pub write_bit-behind :
    (out : List ℕ) (bw : BitWriter) (bit : ℕ)
    → write_bit (behind out bw) bit ≡ behind out (write_bit bw bit)
unfolding write_bit
write_bit-behind out bw bit = elim (Bool-cases (bw.bit_count + 1 == 8)) [
  | inl full ↦ rw (full, append_assoc)
  | inr free ↦ rw free
]

pub write_bits-behind :
    (out : List ℕ) (bw : BitWriter) (val n : ℕ)
    → write_bits (behind out bw) val n ≡ behind out (write_bits bw val n)
unfolding write_bits
write_bits-behind out bw val zero = refl
write_bits-behind out bw val (suc n) =
    rw (write_bit-behind out bw (bit_and (val >> n) 1))
      (write_bits-behind out (write_bit bw (bit_and (val >> n) 1)) val n)

pub bit_writer_flush-behind :
    (out : List ℕ) (bw : BitWriter)
    → bit_writer_flush (behind out bw) ≡ behind out (bit_writer_flush bw)
unfolding bit_writer_flush
bit_writer_flush-behind out bw = elim (Bool-cases (bw.bit_count == 0)) [
  | inl empty ↦ rw empty
  | inr some_bits ↦ rw (some_bits, append_assoc)
]
