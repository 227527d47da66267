-- ===== src/Correction/Hamming/Tests.antt =====
-- The (7, 4) code of the program's default data.
use study_in_tezpur_universi.Common.{
  ℕ, ◌≤◌, ◌≡◌, refl, List, [], ◌∷◌, Option, none, some, replicate,
}
use study_in_tezpur_universi.Common.Int.{pos}
use study_in_tezpur_universi.Correction.Hamming.{
  is_power_of_two, encode_hamming, flip, decode_and_correct, Outcome, not_binary, overrun, finished,
  main,
}
use study_in_tezpur_universi.Correction.Hamming.Correct.{decode_and_correct-encode_hamming}

abbrev text : List ℕ
text = b'1' ∷ b'0' ∷ b'1' ∷ b'1' ∷ []

codeword : (encode_hamming text).codeword ≡ 0 ∷ 0 ∷ 1 ∷ 1 ∷ 0 ∷ 0 ∷ 1 ∷ 1 ∷ []
unfolding encode_hamming is_power_of_two
codeword = refl

status : Outcome → Option ℕ
status not_binary = some 1
status overrun = none
status (finished r) = some r.status

corrected : status (main text (pos 3)) ≡ some 0
unfolding status main is_power_of_two
corrected = refl

too_long : status (main (replicate 63 b'1') (pos 3)) ≡ none
unfolding status main is_power_of_two
too_long = refl

decode_and_correct-encode_hamming_example :
    (decode_and_correct
        (encode_hamming text).codeword
        (encode_hamming text).n
        (encode_hamming text).r
      ≡ record { syndrome = 0; received = (encode_hamming text).codeword; recovered_data = text })
    × ((e : ℕ)
        → 1 ≤ e
        → e ≤ (encode_hamming text).n
        → decode_and_correct
            (flip (encode_hamming text).codeword e)
            (encode_hamming text).n
            (encode_hamming text).r
          ≡ record {
            syndrome = e;
            received = (encode_hamming text).codeword;
            recovered_data = text;
          })
decode_and_correct-encode_hamming_example = decode_and_correct-encode_hamming text refl
