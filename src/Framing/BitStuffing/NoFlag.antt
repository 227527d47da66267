-- ===== src/Framing/BitStuffing/NoFlag.antt =====
-- bit_stuffing.c: runs of ones in a stuffed text, and its length.
use study_in_tezpur_universi.Common.{
  ℕ, zero, suc, ◌+◌, ◌*◌, ◌≤◌, ◌<◌, ◌≡◌, ◌≢◌, List, [], ◌∷◌, ◌++◌, true, false, replicate, length,
  arith, Bool-cases, inl, inr, append_assoc,
}
use study_in_tezpur_universi.Framing.BitStuffing.{
  is_fifth, next_count, stuffing, stuff_from, bit_stuff, flag, max_bits,
}

stuff_from-fifth :
    (count c : ℕ) (rest : List ℕ)
    → is_fifth count c ≡ true
    → stuff_from count (c ∷ rest) ≡ c ∷ b'0' ∷ stuff_from 0 rest
unfolding stuff_from stuffing next_count
stuff_from-fifth count c rest h = rw h

stuff_from-other :
    (count c : ℕ) (rest : List ℕ)
    → is_fifth count c ≡ false
    → stuff_from count (c ∷ rest) ≡ c ∷ stuff_from (next_count count c) rest
unfolding stuff_from stuffing
stuff_from-other count c rest h = rw h

next_count-other :
    (count c : ℕ)
    → count < 5
    → is_fifth count c ≡ false
    → (next_count count c < 5) × (c ≡ b'1' → next_count count c ≡ count + 1)
unfolding next_count is_fifth
next_count-other count c below h = (ground arith, λ e. ground arith)

fifth-one : (count c : ℕ) → is_fifth count c ≡ true → (c ≡ b'1') × (count ≡ 4)
unfolding is_fifth
fifth-one count c h = ground arith

-- The ones that begin a payload, with those before it, are at most five.
leading_ones :
    (count m : ℕ) (data_bits post : List ℕ)
    → count < 5
    → stuff_from count data_bits ≡ replicate m b'1' ++ post
    → count + m ≤ 5
leading_ones count zero data_bits post below e = omega arith
leading_ones count (suc m) [] post below e = unfold stuff_from in cc
leading_ones count (suc zero) (c ∷ rest) post below e = omega arith
leading_ones count (suc (suc m)) (c ∷ rest) post below e = elim (Bool-cases (is_fifth count c)) [
  | inl fifth ↦ let e' = rw (stuff_from-fifth count c rest fifth) at e in absurd (ground arith)
  | inr other ↦
      let e' = rw (stuff_from-other count c rest other) at e in
      ground (
        arith,
        next_count-other count c below other,
        leading_ones (next_count count c) (suc m) rest post,
      )
]

no_run_from :
    (count : ℕ) (data_bits pre post : List ℕ)
    → count < 5
    → stuff_from count data_bits ≢ pre ++ (replicate 6 b'1' ++ post)
no_run_from count [] [] post below e = unfold stuff_from in cc
no_run_from count [] (p ∷ pre) post below e = unfold stuff_from in cc
no_run_from count (c ∷ rest) [] post below e =
    absurd (omega (arith, leading_ones count 6 (c ∷ rest) post below e))
no_run_from count (c ∷ rest) (p ∷ []) post below e = elim (Bool-cases (is_fifth count c)) [
  | inl fifth ↦ let e' = rw (stuff_from-fifth count c rest fifth) at e in ground arith
  | inr other ↦
      let e' = rw (stuff_from-other count c rest other) at e in
      ground
        (arith, next_count-other count c below other, no_run_from (next_count count c) rest [] post)
]
no_run_from count (c ∷ rest) (p ∷ q ∷ pre) post below e = elim (Bool-cases (is_fifth count c)) [
  | inl fifth ↦
      let e' = rw (stuff_from-fifth count c rest fifth) at e in
      ground (arith, no_run_from 0 rest pre post)
  | inr other ↦
      let e' = rw (stuff_from-other count c rest other) at e in
      ground (
        arith,
        next_count-other count c below other,
        no_run_from (next_count count c) rest (q ∷ pre) post,
      )
]

-- No six ones stand in a row in a stuffed payload.
pub bit_stuff-no_run :
    (data_bits pre post : List ℕ) → bit_stuff data_bits ≢ pre ++ (replicate 6 b'1' ++ post)
unfolding bit_stuff
bit_stuff-no_run data_bits pre post = no_run_from 0 data_bits pre post (omega arith)

-- The flag occurs nowhere in a stuffed text.
pub bit_stuff-no_flag : (data_bits pre post : List ℕ) → bit_stuff data_bits ≢ pre ++ (flag ++ post)
bit_stuff-no_flag data_bits pre post e =
    bit_stuff-no_run data_bits (pre ++ b'0' ∷ []) (b'0' ∷ post) (rw append_assoc e)

next_count-le : (count c : ℕ) → is_fifth count c ≡ false → next_count count c ≤ count + 1
unfolding next_count
next_count-le count c h = ground arith

length-stuff_from :
    (count : ℕ) (data_bits : List ℕ)
    → count < 5
    → 5 * length (stuff_from count data_bits) ≤ 6 * length data_bits + count
length-stuff_from count [] below = unfold stuff_from in omega arith
length-stuff_from count (c ∷ rest) below = elim (Bool-cases (is_fifth count c)) [
  | inl fifth ↦
      rw (stuff_from-fifth count c rest fifth)
        (omega (arith, fifth-one count c fifth, length-stuff_from 0 rest (omega arith)))
  | inr other ↦ rw (stuff_from-other count c rest other) (
      omega (
        arith,
        next_count-le count c other,
        length-stuff_from (next_count count c) rest (next_count-other count c below other).0,
      ))
]

-- Stuffing adds at most one character in five; and a text that fits `main`'s buffer fits, stuffed
-- and with its NUL, in the buffer of twice that size.
pub length-bit_stuff :
    (data_bits : List ℕ)
    → length data_bits < max_bits
    → (5 * length (bit_stuff data_bits) ≤ 6 * length data_bits)
      × (length (bit_stuff data_bits) < max_bits * 2)
unfolding bit_stuff
length-bit_stuff data_bits fits = omega (arith, length-stuff_from 0 data_bits (omega arith))
