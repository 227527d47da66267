-- ===== src/Framing/BitStuffing/Tests.antt =====
-- The theorems on bit stuffing at a concrete text.
use study_in_tezpur_universi.Common.{ℕ, ◌≡◌, ◌≢◌, refl, List, [], ◌∷◌, ◌++◌}
use study_in_tezpur_universi.Framing.BitStuffing.{
  is_fifth, next_count, stuffing, stuff_from, bit_stuff, bit_unstuff, flag,
}
use study_in_tezpur_universi.Framing.BitStuffing.RoundTrip.{bit_unstuff-bit_stuff}
use study_in_tezpur_universi.Framing.BitStuffing.NoFlag.{bit_stuff-no_flag}

-- "0111110".
abbrev five_ones : List ℕ
five_ones = b'0' ∷ b'1' ∷ b'1' ∷ b'1' ∷ b'1' ∷ b'1' ∷ b'0' ∷ []

stuffs_fifth : bit_stuff five_ones ≡ b'0' ∷ b'1' ∷ b'1' ∷ b'1' ∷ b'1' ∷ b'1' ∷ b'0' ∷ b'0' ∷ []
unfolding bit_stuff stuff_from stuffing next_count is_fifth
stuffs_fifth = refl

bit_unstuff-bit_stuff_example : bit_unstuff (bit_stuff five_ones) ≡ five_ones
bit_unstuff-bit_stuff_example = bit_unstuff-bit_stuff five_ones

bit_stuff-no_flag_example : bit_stuff five_ones ≢ [] ++ (flag ++ [])
bit_stuff-no_flag_example = bit_stuff-no_flag five_ones [] []
