-- ===== src/Detection/Checksum.antt =====
-- STCN/Session1/Lab_Session_1/Exp02_Error_Detection/checksum.c. A word is a number below 2^16; the
-- sums wrap around at 2^32.
pub mod Verified
pub mod Program
mod Tests
use study_in_tezpur_universi.Common.{
  ℕ, zero, suc, ◌+◌, ◌-◌, ◌%◌, ◌^◌, bit_and, bit_xor, List, [], ◌∷◌, Bool, ◌==◌, not, if◌then◌else◌,
  get_or, set, length, map, take, ltb,
}
use study_in_tezpur_universi.Common.Bits.{◌>>◌}
use study_in_tezpur_universi.Common.Int.{ℤ, pos, negsuc}

-- The loop that adds up the words, in 32 bits.
pub sum_words : ℕ → List ℕ → ℕ
sum_words sum [] = sum
sum_words sum (w ∷ words) = sum_words ((sum + w) % 2 ^ 32) words

-- The loop that adds the carries. Two rounds are enough for a sum of 32 bits.
pub fold_fuel : ℕ → ℕ → ℕ
fold_fuel zero sum = sum
fold_fuel (suc fuel) sum =
    let rest = fold_fuel fuel (bit_and sum 0xffff + (sum >> 16)) in
    if sum >> 16 == 0 then sum else rest

pub fold : ℕ → ℕ
unfolding fold_fuel
fold sum = fold_fuel 2 sum

-- `~sum & 0xFFFF`, for the complement of 32 bits.
pub compute_checksum : List ℕ → ℕ
unfolding sum_words fold
compute_checksum words = bit_and (2 ^ 32 - 1 - fold (sum_words 0 words)) 0xffff

pub verify_checksum : List ℕ → ℕ → Bool
unfolding sum_words fold
verify_checksum words checksum = fold ((sum_words 0 words + checksum) % 2 ^ 32) == 0xffff

-- What `main` prints for its words: the checksum, and whether it accepts the frame before and
-- detects the error after one bit of the second word is flipped.
pub record Report : Type 0 where
  pub checksum : ℕ
  pub valid : Bool
  pub error_detected : Bool

pub demonstrate : List ℕ → Report
unfolding compute_checksum verify_checksum
demonstrate words =
    let checksum = compute_checksum words in
    record {
      checksum = checksum;
      valid = verify_checksum words checksum;
      error_detected = not (verify_checksum (set words 1 (bit_xor (get_or words 1 0) 1)) checksum);
    }

-- `(uint16_t)` of a `long`.
pub to_word : ℤ → ℕ
to_word (pos n) = n % 2 ^ 16
to_word (negsuc n) = 2 ^ 16 - 1 - n % 2 ^ 16

abbrev pub default_words : List ℕ
default_words = 0x4500 ∷ 0x003c ∷ 0x1c46 ∷ 0x4000 ∷ []

-- The words of `main` for its arguments without the program's name: at most eight of them, and the
-- default words for fewer than four. `strtol` reads a number of base 16.
module _ (strtol : List ℕ → ℤ) where
  pub words_of : List (List ℕ) → List ℕ
  unfolding to_word
  words_of args =
      if ltb 4 (length args + 1)
      then map (λ (a : List ℕ). to_word (strtol a)) (take 8 args)
      else default_words

  pub main : List (List ℕ) → Report
  unfolding words_of demonstrate
  main args = demonstrate (words_of args)
