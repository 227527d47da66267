-- ===== src/Detection/Parity/Tests.antt =====
-- The data of the program.
use study_in_tezpur_universi.Common.{ℕ, ◌%◌, ◌≡◌, refl, List, [], ◌∷◌, replicate, arith}
use study_in_tezpur_universi.Detection.Parity.{demo_1d_parity, demo_2d_parity, main_1d}
use study_in_tezpur_universi.Detection.Parity.Even.{demo_1d_parity_detects}

abbrev bits : List ℕ
bits = b'1' ∷ b'0' ∷ b'1' ∷ b'1' ∷ b'0' ∷ b'0' ∷ b'1' ∷ []

abbrev sample_matrix : List (List ℕ)
sample_matrix =
    (b'1' ∷ b'0' ∷ b'1' ∷ b'1' ∷ [])
    ∷ (b'0' ∷ b'1' ∷ b'1' ∷ b'0' ∷ [])
    ∷ (b'1' ∷ b'1' ∷ b'0' ∷ b'1' ∷ [])
    ∷ (b'0' ∷ b'0' ∷ b'1' ∷ b'0' ∷ [])
    ∷ []

parities :
    demo_2d_parity 4 4 sample_matrix
    ≡ (b'1' ∷ b'0' ∷ b'1' ∷ b'1' ∷ [], b'0' ∷ b'0' ∷ b'1' ∷ b'0' ∷ [])
unfolding demo_2d_parity
parities = refl

demo_1d_parity_detects_example :
    ((demo_1d_parity bits).rx_ones % 2 ≡ 0) × ((demo_1d_parity bits).corrupt_ones % 2 ≡ 1)
demo_1d_parity_detects_example = demo_1d_parity_detects bits (omega arith)

-- Where the parity bit is cut off, the receiver does not count an even number. `main` cuts the text
-- before.
parity_cut : (demo_1d_parity (replicate 129 b'1')).rx_ones ≡ 129
unfolding demo_1d_parity
parity_cut = refl

main_cuts : (main_1d (replicate 129 b'1' ∷ [])).rx_ones ≡ 128
unfolding main_1d demo_1d_parity
main_cuts = refl
