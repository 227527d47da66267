-- ===== src/Huffman/BitIo/Writing.antt =====
-- The writer packs its bits, the first into the highest place of a byte.
use study_in_tezpur_universi.Common.{
  ℕ, zero, suc, ◌+◌, ◌-◌, ◌/◌, ◌%◌, ◌^◌, ◌<◌, ◌≡◌, refl, sym, ◌∙◌, bit_or, List, [], ◌∷◌, ◌++◌,
  if◌then◌else◌, ◌==◌, ◌&&◌, ◌||◌, not, ltb, Bool, true, false, take, drop, arith, append_assoc,
  append-nil, length, text_eq, text_eq→eq, all_below, all_below_lem, take-append-drop, length-drop,
  Bool-cases, inl, inr,
}
use study_in_tezpur_universi.Common.Bits.{◌<<◌, bit_and-one}
use study_in_tezpur_universi.Huffman.BitIo.{
  BitWriter, bit_writer_init, put_byte, write_bit, write_bits, bit_writer_flush,
}
use study_in_tezpur_universi.Huffman.BitIo.Stream.{low_bits, byte_bits, file_bits, file_bits-append}

-- The bits written so far, the ones in the buffer included.
pub written : BitWriter → List ℕ
written bw = file_bits bw.fp ++ take bw.bit_count (byte_bits bw.buffer)

-- The buffer is a byte, and the places not yet written are zero.
pub record IsReady (bw : BitWriter) : Type 0 where
  pub room : bw.bit_count < 8
  pub byte : bw.buffer < 256
  pub clear : bw.buffer % 2 ^ (8 - bw.bit_count) ≡ 0

abbrev marked : ℕ → ℕ → ℕ
marked b n = bit_or b (1 << (7 - n) % 256)

-- The step for each buffer and each count, checked by evaluation.
abbrev step_holds : ℕ → ℕ → Bool
step_holds n b =
    not (b % 2 ^ (8 - n) == 0)
    || (text_eq (take (suc n) (byte_bits (marked b n))) (take n (byte_bits b) ++ 1 ∷ [])
        && text_eq (take (suc n) (byte_bits b)) (take n (byte_bits b) ++ 0 ∷ [])
        && marked b n % 2 ^ (7 - n) == 0
        && b % 2 ^ (7 - n) == 0
        && ltb (marked b n) 256)

step_table : all_below 8 (λ n. all_below 256 (step_holds n)) ≡ true
unfolding all_below
step_table = refl

-- A buffer with `n` places taken, and the bit that is put into the next place.
abbrev placed : ℕ → ℕ → ℕ → ℕ
placed b n bit = if bit == 0 then b else marked b n

record Placed (b n bit : ℕ) : Type 0 where
  bits : take (suc n) (byte_bits (placed b n bit)) ≡ take n (byte_bits b) ++ bit ∷ []
  byte : placed b n bit < 256
  clear : placed b n bit % 2 ^ (7 - n) ≡ 0

step_test : (b n : ℕ) → n < 8 → b < 256 → step_holds n b ≡ true
step_test b n hn hb =
    all_below_lem 256 (step_holds n) b hb
      (all_below_lem 8 (λ m. all_below 256 (step_holds m)) n hn step_table)

step-Placed : (b n bit : ℕ) → n < 8 → b < 256 → b % 2 ^ (8 - n) ≡ 0 → bit < 2 → Placed b n bit
step-Placed b n zero hn hb clear hbit =
    let t = step_test b n hn hb in
    record { bits = text_eq→eq _ _ (ground arith); byte = hb; clear = ground arith }
step-Placed b n (suc zero) hn hb clear hbit =
    let t = step_test b n hn hb in
    record { bits = text_eq→eq _ _ (ground arith); byte = ground arith; clear = ground arith }
step-Placed b n (suc (suc bit)) hn hb clear hbit = absurd (omega arith)

write_bit-free :
    (bw : BitWriter) (bit : ℕ)
    → (bw.bit_count + 1 == 8) ≡ false
    → write_bit bw bit
      ≡ record bw { buffer = placed bw.buffer bw.bit_count bit; bit_count = bw.bit_count + 1 }
unfolding write_bit
write_bit-free bw bit h = rw h

write_bit-full :
    (bw : BitWriter) (bit : ℕ)
    → (bw.bit_count + 1 == 8) ≡ true
    → write_bit bw bit
      ≡ put_byte
          (record bw { buffer = placed bw.buffer bw.bit_count bit; bit_count = bw.bit_count + 1 })
unfolding write_bit
write_bit-full bw bit h = rw h

file_bits-last :
    (fp : List ℕ) (b : ℕ) → file_bits (fp ++ b ∷ []) ++ [] ≡ file_bits fp ++ byte_bits b
unfolding file_bits
file_bits-last fp b = simp (file_bits-append fp (b ∷ []), append-nil)

file_bits-whole : (fp : List ℕ) (b : ℕ) → file_bits (fp ++ b ∷ []) ≡ file_bits fp ++ byte_bits b
file_bits-whole fp b = sym (append-nil _) ∙ file_bits-last fp b

full_bits :
    (fp : List ℕ) (b n bit : ℕ)
    → n ≡ 7
    → Placed b n bit
    → file_bits (fp ++ placed b n bit ∷ []) ++ []
      ≡ (file_bits fp ++ take n (byte_bits b)) ++ bit ∷ []
full_bits fp b n bit seven p =
    let whole : take (suc n) (byte_bits (placed b n bit)) ≡ byte_bits (placed b n bit) = rw seven in
    rw (
      file_bits-last fp (placed b n bit),
      append_assoc (file_bits fp) (take n (byte_bits b)) (bit ∷ []),
      ← p.bits,
      whole,
    )

free_bits :
    (fp : List ℕ) (b n bit : ℕ)
    → Placed b n bit
    → file_bits fp ++ take (n + 1) (byte_bits (placed b n bit))
      ≡ (file_bits fp ++ take n (byte_bits b)) ++ bit ∷ []
free_bits fp b n bit p =
    let next : n + 1 ≡ suc n = omega arith in
    rw (next, append_assoc (file_bits fp) (take n (byte_bits b)) (bit ∷ []), ← p.bits)

-- `writeBit` adds its bit behind those written before.
pub write_bit_lem :
    (bw : BitWriter) (bit : ℕ)
    → IsReady bw
    → bit < 2
    → IsReady (write_bit bw bit) × (written (write_bit bw bit) ≡ written bw ++ bit ∷ [])
unfolding written put_byte
write_bit_lem bw bit ready small =
    let p = step-Placed bw.buffer bw.bit_count bit ready.room ready.byte ready.clear small in
    elim (Bool-cases (bw.bit_count + 1 == 8)) [
      | inl full ↦ rw (write_bit-full bw bit full) (
        record { room = omega arith; byte = omega arith; clear = refl },
        full_bits bw.fp bw.buffer bw.bit_count bit (ground arith) p,
      )
      | inr free ↦ rw (write_bit-free bw bit free) (
        record { room = ground (arith, ready.room); byte = p.byte; clear = left bw bit p },
        free_bits bw.fp bw.buffer bw.bit_count bit p,
      )
    ]
  where
    left :
        (bw : BitWriter) (bit : ℕ)
        → Placed bw.buffer bw.bit_count bit
        → placed bw.buffer bw.bit_count bit % 2 ^ (8 - (bw.bit_count + 1)) ≡ 0
    left bw bit p = let e : 8 - (bw.bit_count + 1) ≡ 7 - bw.bit_count = omega arith in rw e p.clear

-- On a well-formed writer, `writeBits` puts the lowest bits of a number, the highest of them first,
-- behind the bits written before, and leaves the writer well formed.
pub write_bits_lem :
    (bw : BitWriter) (val n : ℕ)
    → IsReady bw
    → IsReady (write_bits bw val n) × (written (write_bits bw val n) ≡ written bw ++ low_bits n val)
unfolding write_bits
write_bits_lem bw val zero ready = (ready, rw append-nil)
write_bits_lem bw val (suc i) ready =
    let bit = val / 2 ^ i % 2 in
    let (ready', one) = write_bit_lem bw bit ready (omega arith) in
    let (ready'', all) = write_bits_lem (write_bit bw bit) val i ready' in
    rw (bit_and-one (val / 2 ^ i))
      (ready'', all ∙ rw (one, append_assoc (written bw) (bit ∷ []) (low_bits i val)))

-- Flushing a well-formed writer leaves a file of the bits written, and fewer than eight bits of
-- padding.
pub bit_writer_flush_lem :
    (bw : BitWriter)
    → IsReady bw
    → (pad : List ℕ) × (file_bits (bit_writer_flush bw).fp ≡ written bw ++ pad) × (length pad < 8)
unfolding written bit_writer_flush put_byte
bit_writer_flush_lem bw ready = elim (Bool-cases (bw.bit_count == 0)) [
  | inl empty ↦
      let e : bw.bit_count ≡ 0 = ground arith in ([], rw (empty, e) (simp append-nil), omega arith)
  | inr some_bits ↦ (
    drop bw.bit_count (byte_bits bw.buffer),
    rw (
      some_bits,
      file_bits-whole bw.fp bw.buffer,
      append_assoc (file_bits bw.fp) (take bw.bit_count (byte_bits bw.buffer))
          (drop bw.bit_count (byte_bits bw.buffer)),
      take-append-drop bw.bit_count (byte_bits bw.buffer),
    ),
    ground (arith, length-drop bw.bit_count (byte_bits bw.buffer)),
  )
]

pub bit_writer_init_lem :
    (fp : List ℕ) → IsReady (bit_writer_init fp) × (written (bit_writer_init fp) ≡ file_bits fp)
unfolding bit_writer_init written
bit_writer_init_lem fp =
    (record { room = omega arith; byte = omega arith; clear = refl }, append-nil (file_bits fp))
