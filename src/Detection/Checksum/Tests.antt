-- ===== src/Detection/Checksum/Tests.antt =====
-- The theorems on the checksum at the sample words of `main`, and its run.
use study_in_tezpur_universi.Common.{ℕ, ◌≡◌, refl, List, [], ◌∷◌, true, false, length, arith}
use study_in_tezpur_universi.Common.Int.{ℤ, neg}
use study_in_tezpur_universi.Detection.Checksum.{
  sum_words, fold, fold_fuel, compute_checksum, verify_checksum, demonstrate, words_of, main,
}
use study_in_tezpur_universi.Detection.Checksum.Verified.{AllWords, verify_checksum_detects}
use study_in_tezpur_universi.Detection.Checksum.Program.{main_detects}

abbrev sample : List ℕ
sample = 0x4500 ∷ 0x003c ∷ 0x1c46 ∷ 0x4000 ∷ []

abbrev corrupted : List ℕ
corrupted = 0x4500 ∷ 0x003d ∷ 0x1c46 ∷ 0x4000 ∷ []

sample-AllWords : AllWords sample
sample-AllWords = (omega arith, (omega arith, (omega arith, (omega arith, tt))))

corrupted-AllWords : AllWords corrupted
corrupted-AllWords = (omega arith, (omega arith, (omega arith, (omega arith, tt))))

sample_run : demonstrate sample ≡ record { checksum = 0x5e7d; valid = true; error_detected = true }
unfolding demonstrate compute_checksum verify_checksum sum_words fold fold_fuel
sample_run = refl

verify_checksum_detects_example : verify_checksum corrupted (compute_checksum sample) ≡ false
verify_checksum_detects_example =
    verify_checksum_detects sample corrupted sample-AllWords corrupted-AllWords (omega arith)
      (omega arith) (λ e. omega arith)

-- Each argument read as the negative of its length.
abbrev lengths : List ℕ → ℤ
lengths text = neg (length text)

abbrev four_args : List (List ℕ)
four_args = (b'1' ∷ []) ∷ [] ∷ (b'a' ∷ b'b' ∷ []) ∷ (b'f' ∷ []) ∷ []

four_words : words_of lengths four_args ≡ 0xffff ∷ 0 ∷ 0xfffe ∷ 0xffff ∷ []
unfolding words_of neg
four_words = refl

main_detects_example :
    ((main lengths four_args).valid ≡ true) × ((main lengths four_args).error_detected ≡ true)
main_detects_example = main_detects lengths four_args
