-- ===== src/Ciphers/Caesar/Tests.antt =====
-- The theorems on the Caesar cipher at a concrete text, and a sample run.
use study_in_tezpur_universi.Common.{ℕ, ◌-◌, ◌<◌, ◌≡◌, refl, List, [], ◌∷◌, get_or, arith}
use study_in_tezpur_universi.Common.Int.{pos, negsuc, rem, plus}
use study_in_tezpur_universi.Ciphers.Caesar.{
  normalize, encrypt_char, encrypt_caesar, decrypt_caesar, brute_force_attack,
}
use study_in_tezpur_universi.Ciphers.Caesar.RoundTrip.{
  decrypt_caesar-encrypt_caesar, brute_force_attack-finds,
}

-- "Hi Zoe".
abbrev greeting : List ℕ
greeting = b'H' ∷ b'i' ∷ b' ' ∷ b'Z' ∷ b'o' ∷ b'e' ∷ []

normalize_minus_three : 0 < normalize (negsuc 2)
unfolding normalize
normalize_minus_three = omega arith

shifts_three : encrypt_caesar greeting (pos 3) ≡ b'K' ∷ b'l' ∷ b' ' ∷ b'C' ∷ b'r' ∷ b'h' ∷ []
unfolding encrypt_caesar normalize encrypt_char rem plus
shifts_three = refl

decrypt_caesar-encrypt_caesar_example :
    decrypt_caesar (encrypt_caesar greeting (negsuc 2)) (negsuc 2) ≡ greeting
decrypt_caesar-encrypt_caesar_example = decrypt_caesar-encrypt_caesar greeting (negsuc 2)

brute_force_attack-finds_example :
    get_or (brute_force_attack (encrypt_caesar greeting (negsuc 2))) (normalize (negsuc 2) - 1) []
    ≡ greeting
brute_force_attack-finds_example =
    brute_force_attack-finds greeting (negsuc 2) normalize_minus_three
