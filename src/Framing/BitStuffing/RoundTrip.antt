-- ===== src/Framing/BitStuffing/RoundTrip.antt =====
-- bit_stuffing.c: the sender and the receiver together, and main.
use study_in_tezpur_universi.Common.{
  ℕ, ◌-◌, ◌<◌, ◌≡◌, refl, ap, List, [], ◌∷◌, ◌++◌, true, false, text_eq_self, length, arith,
  Bool-cases, inl, inr, take-length,
}
use study_in_tezpur_universi.Framing.BitStuffing.{
  is_fifth, next_count, stuffing, stuff_from, bit_stuff, unstuff_from, bit_unstuff, is_binary, main,
  finished, max_bits, flag,
}

-- Behind a fifth one the stuffed zero is skipped.
unstuff_from-fifth :
    (count c : ℕ) (rest : List ℕ)
    → is_fifth count c ≡ true
    → unstuff_from count (c ∷ b'0' ∷ rest) ≡ c ∷ unstuff_from 0 rest
unfolding unstuff_from
unstuff_from-fifth count c rest h = rw h

-- Elsewhere a character is kept, and the counter follows.
unstuff_from-other :
    (count c : ℕ) (rest : List ℕ)
    → is_fifth count c ≡ false
    → unstuff_from count (c ∷ rest) ≡ c ∷ unstuff_from (next_count count c) rest
unfolding unstuff_from
unstuff_from-other count c [] h = refl
unstuff_from-other count c (d ∷ rest) h = rw h

next_count-fifth : (count c : ℕ) → is_fifth count c ≡ true → next_count count c ≡ 0
unfolding next_count
next_count-fifth count c h = rw h

stuffing-fifth : (count c : ℕ) → is_fifth count c ≡ true → stuffing count c ≡ b'0' ∷ []
unfolding stuffing
stuffing-fifth count c h = rw h

stuffing-other : (count c : ℕ) → is_fifth count c ≡ false → stuffing count c ≡ []
unfolding stuffing
stuffing-other count c h = rw h

unstuff-stuff_from :
    (count : ℕ) (data_bits : List ℕ) → unstuff_from count (stuff_from count data_bits) ≡ data_bits
unfolding stuff_from
unstuff-stuff_from count [] = unfold unstuff_from in refl
unstuff-stuff_from count (c ∷ rest) = elim (Bool-cases (is_fifth count c)) [
  | inl fifth ↦
      rw
        (
          stuffing-fifth count c fifth,
          next_count-fifth count c fifth,
          unstuff_from-fifth count c (stuff_from 0 rest) fifth,
        )
        (ap (◌∷◌ c) (unstuff-stuff_from 0 rest))
  | inr other ↦
      rw
        (
          stuffing-other count c other,
          unstuff_from-other count c (stuff_from (next_count count c) rest) other,
        )
        (ap (◌∷◌ c) (unstuff-stuff_from (next_count count c) rest))
]

-- The receiver's unstuffing undoes the sender's stuffing, for every text.
pub bit_unstuff-bit_stuff : (data_bits : List ℕ) → bit_unstuff (bit_stuff data_bits) ≡ data_bits
unfolding bit_unstuff bit_stuff
bit_unstuff-bit_stuff data_bits = unstuff-stuff_from 0 data_bits

-- On a text of binary digits that fits its buffer, `main` sends the stuffed text between two flags,
-- recovers the text and reports success.
pub main-binary :
    (arg : List ℕ)
    → length arg < max_bits
    → is_binary arg ≡ true
    → main arg
      ≡ finished (record {
        stuffed = bit_stuff arg;
        framed = flag ++ (bit_stuff arg ++ flag);
        unstuffed = arg;
        status = 0;
      })
unfolding main
main-binary arg short binary = rw (
  take-length (max_bits - 1) arg (omega arith),
  binary,
  bit_unstuff-bit_stuff arg,
  text_eq_self arg,
)
