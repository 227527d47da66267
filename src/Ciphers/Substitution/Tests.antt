-- ===== src/Ciphers/Substitution/Tests.antt =====
-- The theorems on the substitution cipher at a concrete text and key.
use study_in_tezpur_universi.Common.{ℕ, ◌≡◌, refl, List, [], ◌∷◌, true}
use study_in_tezpur_universi.Ciphers.Substitution.{
  validate_from, validate_key, encrypt_substitution, decrypt_substitution,
}
use study_in_tezpur_universi.Ciphers.Substitution.RoundTrip.{
  decrypt_substitution-encrypt_substitution,
}

-- "Hi Zoe", and the key "qwertyuiopasdfghjklzxcvbnm".
abbrev greeting : List ℕ
greeting = b'H' ∷ b'i' ∷ b' ' ∷ b'Z' ∷ b'o' ∷ b'e' ∷ []

abbrev keyboard : List ℕ
keyboard =
    b'q' ∷ b'w' ∷ b'e' ∷ b'r' ∷ b't' ∷ b'y' ∷ b'u' ∷ b'i' ∷ b'o' ∷ b'p' ∷ b'a' ∷ b's' ∷ b'd' ∷ b'f'
    ∷ b'g' ∷ b'h' ∷ b'j' ∷ b'k' ∷ b'l' ∷ b'z' ∷ b'x' ∷ b'c' ∷ b'v' ∷ b'b' ∷ b'n' ∷ b'm' ∷ []

keyboard-valid : validate_key keyboard ≡ true
unfolding validate_key validate_from
keyboard-valid = refl

decrypt_substitution-encrypt_substitution_example :
    decrypt_substitution (encrypt_substitution greeting keyboard) keyboard ≡ greeting
decrypt_substitution-encrypt_substitution_example =
    decrypt_substitution-encrypt_substitution greeting keyboard keyboard-valid
