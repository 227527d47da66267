-- ===== src/Huffman/BitIo.antt =====
-- The bit-level writer and reader. A FILE is the list of the bytes written so far, or still to be
-- read. Bits are 0 and 1.
pub mod Stream
pub mod Reading
pub mod Consumed
pub mod Prefix
pub mod Writing
use study_in_tezpur_universi.Common.{
  ℕ, zero, suc, ◌+◌, ◌-◌, ◌%◌, ◌^◌, bit_and, bit_or, List, [], ◌∷◌, ◌++◌, Option, none, some, ◌==◌,
  if◌then◌else◌,
}
use study_in_tezpur_universi.Common.Bits.{◌<<◌, ◌>>◌}

pub record BitWriter : Type 0 where
  pub fp : List ℕ
  pub buffer : ℕ
  pub bit_count : ℕ
  pub total_bytes_written : ℕ

pub record BitReader : Type 0 where
  pub fp : List ℕ
  pub buffer : ℕ
  pub bit_count : ℕ

unfoldable pub bit_writer_init : List ℕ → BitWriter
bit_writer_init fp = record { fp = fp; buffer = 0; bit_count = 0; total_bytes_written = 0 }

-- `fputc(bw->buffer, bw->fp)` and the reset behind it.
pub put_byte : BitWriter → BitWriter
put_byte bw = record {
  fp = bw.fp ++ bw.buffer ∷ [];
  buffer = 0;
  bit_count = 0;
  total_bytes_written = (bw.total_bytes_written + 1) % 2 ^ 64;
}

pub write_bit : BitWriter → ℕ → BitWriter
unfolding put_byte
write_bit bw bit =
    let marked =
      if bit == 0 then bw.buffer else bit_or bw.buffer ((1 << (7 - bw.bit_count)) % 256) in
    let added = record bw { buffer = marked; bit_count = bw.bit_count + 1 } in
    if bw.bit_count + 1 == 8 then put_byte added else added

-- The loop runs from bit `num_bits - 1` down to bit 0.
pub write_bits : BitWriter → ℕ → ℕ → BitWriter
write_bits bw val zero = bw
write_bits bw val (suc i) = write_bits (write_bit bw (bit_and (val >> i) 1)) val i

pub bit_writer_flush : BitWriter → BitWriter
unfolding put_byte
bit_writer_flush bw = if bw.bit_count == 0 then bw else put_byte bw

unfoldable pub bit_reader_init : List ℕ → BitReader
bit_reader_init fp = record { fp = fp; buffer = 0; bit_count = 0 }

-- The bit is served from the buffer, whose `bit_count` is not 0 here.
pub serve : BitReader → ℕ × BitReader
serve br = (bit_and (br.buffer >> (br.bit_count - 1)) 1, record br { bit_count = br.bit_count - 1 })

pub refill : List ℕ → Option BitReader
refill [] = none
refill (byte ∷ rest) = some (record { fp = rest; buffer = byte; bit_count = 8 })

-- `none` is the -1 at the end of the file, which leaves the reader as it is.
pub read_bit : BitReader → Option (ℕ × BitReader)
unfolding serve refill
read_bit br =
    if br.bit_count == 0
    then (elim (refill br.fp) [ none ↦ none | some full ↦ some (serve full) ])
    else some (serve br)

-- `none` in the result is the -1 of `readBits`; the reader is left where it stopped.
pub read_bits_from : ℕ → BitReader → ℕ → Option ℕ × BitReader
read_bits_from zero br res = (some res, br)
read_bits_from (suc left) br res = elim (read_bit br) [
  | none ↦ (none, br)
  | some (b, br') ↦ read_bits_from left br' (bit_or ((res << 1) % 2 ^ 32) b)
]

pub read_bits : BitReader → ℕ → Option ℕ × BitReader
unfolding read_bits_from
read_bits br num_bits = read_bits_from num_bits br 0
