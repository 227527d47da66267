-- ===== src/Detection/Checksum/Program.antt =====
-- `main` of checksum.c for any arguments.
use study_in_tezpur_universi.Common.{
  ℕ, zero, suc, ◌+◌, ◌^◌, ◌≤◌, ◌<◌, ◌≡◌, refl, List, [], ◌∷◌, bit_xor, true, false, ltb,
  if◌then◌else◌, get_or, set, length, map, take, length-set, arith, Bool-cases, inl, inr,
}
use study_in_tezpur_universi.Common.Bits.{bit_xor-one}
use study_in_tezpur_universi.Common.Int.{ℤ, pos, negsuc}
use study_in_tezpur_universi.Detection.Checksum.{
  compute_checksum, verify_checksum, demonstrate, to_word, default_words, words_of, main,
}
use study_in_tezpur_universi.Detection.Checksum.Verified.{
  AllWords, total, verify_checksum-compute_checksum, verify_checksum_detects,
}

to_word-lt : (z : ℤ) → to_word z < 2 ^ 16
unfolding to_word
to_word-lt (pos n) = omega arith
to_word-lt (negsuc n) = omega arith

-- One bit more or less changes the sum by one.
total-set :
    (words : List ℕ) (i v : ℕ)
    → i < length words
    → total (set words i v) + get_or words i 0 ≡ total words + v
total-set [] i v inside = absurd (omega arith)
total-set (w ∷ words) zero v inside = omega arith
total-set (w ∷ words) (suc i) v inside = omega (arith, total-set words i v (omega arith))

set-AllWords : (words : List ℕ) (i v : ℕ) → v < 2 ^ 16 → AllWords words → AllWords (set words i v)
set-AllWords [] i v small all = tt
set-AllWords (w ∷ words) zero v small all = (small, all.1)
set-AllWords (w ∷ words) (suc i) v small all = (all.0, set-AllWords words i v small all.1)

get_or-lt : (words : List ℕ) (i : ℕ) → AllWords words → get_or words i 0 < 2 ^ 16
get_or-lt [] i all = omega arith
get_or-lt (w ∷ words) zero all = all.0
get_or-lt (w ∷ words) (suc i) all = get_or-lt words i all.1

demonstrate_lem :
    (words : List ℕ)
    → AllWords words
    → 1 < length words
    → length words ≤ 8
    → ((demonstrate words).valid ≡ true) × ((demonstrate words).error_detected ≡ true)
unfolding demonstrate
demonstrate_lem words all two short =
    let w = get_or words 1 0 in
    let (even, odd) = bit_xor-one w in
    let small = get_or-lt words 1 all in
    let sum = total-set words 1 (bit_xor w 1) two in
    let size = length-set words 1 (bit_xor w 1) in
    let refused : verify_checksum (set words 1 (bit_xor w 1)) (compute_checksum words) ≡ false =
      verify_checksum_detects words (set words 1 (bit_xor w 1)) all
        (set-AllWords words 1 (bit_xor w 1) (ground (arith, even, odd, small)) all) (omega arith)
        (omega (arith, size)) (λ e. ground (arith, even, odd, sum, e)) in
    (verify_checksum-compute_checksum words all (omega arith), rw refused refl)

module _ (strtol : List ℕ → ℤ) where
  read-AllWords :
      (k : ℕ) (args : List (List ℕ))
      → AllWords (map (λ (a : List ℕ). to_word (strtol a)) (take k args))
        × (length (map (λ (a : List ℕ). to_word (strtol a)) (take k args))
            ≡ (if ltb k (length args) then k else length args))
  read-AllWords zero args = (tt, ground arith)
  read-AllWords (suc k) [] = (tt, ground arith)
  read-AllWords (suc k) (a ∷ args) =
      let (all, size) = read-AllWords k args in ((to_word-lt (strtol a), all), ground (arith, size))

  -- For any arguments and whatever numbers they are read as: the receiver accepts the frame with the
  -- checksum of its words, and detects the error where one bit of the second word is flipped.
  pub main_detects :
      (args : List (List ℕ))
      → ((main strtol args).valid ≡ true) × ((main strtol args).error_detected ≡ true)
  unfolding main words_of
  main_detects args =
      let (all, size) = read-AllWords 8 args in
      elim (Bool-cases (ltb 4 (length args + 1))) [
        | inl given ↦ rw given (
            demonstrate_lem (map (λ (a : List ℕ). to_word (strtol a)) (take 8 args)) all
              (ground (arith, size, given)) (ground (arith, size)))
        | inr missing ↦ rw missing (
            demonstrate_lem default_words
              (omega arith, (omega arith, (omega arith, (omega arith, tt)))) (omega arith)
              (omega arith))
      ]
