-- ===== src/Ciphers/Substitution/RoundTrip.antt =====
-- substitution_cipher.c: both directions together, and main.
use mathlib.Core.Path.{ap₂}
use study_in_tezpur_universi.Common.{
  ℕ, ◌-◌, ◌<◌, ◌≡◌, refl, List, [], ◌∷◌, true, false, if◌then◌else◌, length, get_or, arith,
  Bool-cases, inl, inr, take-length, text_eq_self,
}
use study_in_tezpur_universi.Common.Chars.{is_upper, is_lower, is_alpha, to_upper, to_lower}
use study_in_tezpur_universi.Ciphers.Substitution.{
  letter_index, validate_key, encrypt_char, encrypt_substitution, reverse_table, decrypt_char,
  decrypt_substitution, main, bad_key, finished, max_text,
}
use study_in_tezpur_universi.Ciphers.Substitution.Key.{IsKey, validate_key-IsKey}

upper_letter :
    (k : ℕ)
    → is_alpha k ≡ true
    → (is_upper (to_upper k) ≡ true) × (to_upper k - b'A' ≡ letter_index k)
upper_letter k h = ground arith

lower_letter :
    (k : ℕ)
    → is_alpha k ≡ true
    → (is_upper (to_lower k) ≡ false)
      × (is_lower (to_lower k) ≡ true)
      × (to_lower k - b'a' ≡ letter_index k)
lower_letter k h = ground arith

decrypt_char-encrypt_char :
    (key : List ℕ) (ch : ℕ)
    → IsKey key
    → decrypt_char (reverse_table key) (encrypt_char key ch) ≡ ch
unfolding encrypt_char decrypt_char
decrypt_char-encrypt_char key ch k = elim (Bool-cases (is_upper ch)) [
  | inl upper ↦
      let p = ch - b'A' in
      let below : p < 26 = ground arith in
      let u = upper_letter (get_or key p 0) (k.letters p below) in
      rw (upper, u.0, u.1, k.reversed p below) (ground arith)
  | inr not_upper ↦ elim (Bool-cases (is_lower ch)) [
    | inl lower ↦
        let p = ch - b'a' in
        let below : p < 26 = ground arith in
        let l = lower_letter (get_or key p 0) (k.letters p below) in
        rw (not_upper, lower, l.0, l.1, l.2, k.reversed p below) (ground arith)
    | inr other ↦ rw (not_upper, other, not_upper, other)
  ]
]

-- Under a key that is accepted, decryption undoes encryption, for every text.
pub decrypt_substitution-encrypt_substitution :
    (text key : List ℕ)
    → validate_key key ≡ true
    → decrypt_substitution (encrypt_substitution text key) key ≡ text
unfolding decrypt_substitution encrypt_substitution
decrypt_substitution-encrypt_substitution [] key h = refl
decrypt_substitution-encrypt_substitution (ch ∷ text) key h =
    ap₂ ◌∷◌ (decrypt_char-encrypt_char key ch (validate_key-IsKey key h))
      (decrypt_substitution-encrypt_substitution text key h)

-- On a text that fits its buffer, `main` refuses a key that is not accepted, and otherwise recovers
-- the text and reports success.
pub main_checked :
    (arg key : List ℕ)
    → length arg < max_text
    → main arg key ≡ (
        if validate_key key
        then finished
            (record { encrypted = encrypt_substitution arg key; decrypted = arg; status = 0 })
        else bad_key)
unfolding main
main_checked arg key short = elim (Bool-cases (validate_key key)) [
  | inl good ↦ rw (
    take-length (max_text - 1) arg (omega arith),
    good,
    decrypt_substitution-encrypt_substitution arg key good,
    text_eq_self arg,
  )
  | inr bad ↦ rw bad
]
