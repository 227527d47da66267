-- ===== src/Detection/Crc/Tests.antt =====
-- The theorem on the cyclic redundancy check at the default data of `main`, and a sample run.
use study_in_tezpur_universi.Common.{
  ℕ, ◌≡◌, refl, List, [], ◌∷◌, ◌++◌, ◌-◌, Option, none, some, true, length, arith,
}
use study_in_tezpur_universi.Detection.Crc.{
  xor_op, step_head, step_tail, divide, compute_crc, check_crc, Report, main,
}
use study_in_tezpur_universi.Detection.Crc.Verified.{AllBinary, check_crc-compute_crc}

-- "100100" and "1101".
abbrev sample : List ℕ
sample = b'1' ∷ b'0' ∷ b'0' ∷ b'1' ∷ b'0' ∷ b'0' ∷ []

abbrev polynomial : List ℕ
polynomial = b'1' ∷ b'1' ∷ b'0' ∷ b'1' ∷ []

sample_remainder : compute_crc sample polynomial ≡ some (b'0' ∷ b'0' ∷ b'1' ∷ [])
unfolding compute_crc divide step_head step_tail xor_op
sample_remainder = refl

sample-AllBinary : AllBinary sample
sample-AllBinary = (refl, (refl, (refl, (refl, (refl, (refl, tt))))))

polynomial-AllBinary : AllBinary polynomial
polynomial-AllBinary = (refl, (refl, (refl, (refl, tt))))

check_crc-compute_crc_example :
    (remainder : List ℕ) × (compute_crc sample polynomial ≡ some remainder)
    × (length remainder ≡ length polynomial - 1)
    × (check_crc (sample ++ remainder) polynomial ≡ some true)
check_crc-compute_crc_example =
    check_crc-compute_crc sample polynomial sample-AllBinary polynomial-AllBinary (omega arith)
      (omega arith)

status_of : Option Report → Option ℕ
status_of (some r) = some r.status
status_of none = none

-- The default run detects the error, and a generator with a single one does not.
default_run : status_of (main []) ≡ some 0
unfolding status_of main
default_run = refl

single_one : status_of (main (sample ∷ (b'1' ∷ b'0' ∷ []) ∷ [])) ≡ some 1
unfolding status_of main
single_one = refl

no_generator : status_of (main (sample ∷ [] ∷ [])) ≡ none
unfolding status_of main
no_generator = refl
