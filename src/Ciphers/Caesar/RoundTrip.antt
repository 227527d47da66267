-- ===== src/Ciphers/Caesar/RoundTrip.antt =====
-- caesar_cipher.c: both directions together, the attack, and main.
use mathlib.Core.Path.{ap₂}
use study_in_tezpur_universi.Common.{
  ℕ, zero, suc, ◌+◌, ◌-◌, ◌<◌, ◌≡◌, refl, ap, ◌∙◌, List, [], ◌∷◌, map, get_or, false, length,
  take-length, text_eq_self, arith,
}
use study_in_tezpur_universi.Common.Int.{ℤ, pos}
use study_in_tezpur_universi.Common.Chars.{is_upper, is_lower, is_alpha}
use study_in_tezpur_universi.Ciphers.Caesar.{
  normalize, encrypt_char, decrypt_char, encrypt_caesar, decrypt_caesar, candidates_from,
  brute_force_attack, main, max_text,
}

normalize-lt : (key : ℤ) → normalize key < 26
unfolding normalize
normalize-lt key = omega arith

decrypt_char-encrypt_char : (key ch : ℕ) → key < 26 → decrypt_char key (encrypt_char key ch) ≡ ch
unfolding decrypt_char encrypt_char
decrypt_char-encrypt_char key ch h = ground arith

-- Decryption undoes encryption, for every text and every key, negative keys included.
pub decrypt_caesar-encrypt_caesar :
    (text : List ℕ) (key : ℤ) → decrypt_caesar (encrypt_caesar text key) key ≡ text
unfolding decrypt_caesar encrypt_caesar
decrypt_caesar-encrypt_caesar [] key = refl
decrypt_caesar-encrypt_caesar (ch ∷ text) key =
    ap₂ ◌∷◌ (decrypt_char-encrypt_char (normalize key) ch (normalize-lt key))
      (decrypt_caesar-encrypt_caesar text key)

-- Encryption permutes the letters of each case and changes no other character.
pub encrypt_char_class :
    (key ch : ℕ)
    → key < 26
    → (is_upper (encrypt_char key ch) ≡ is_upper ch)
      × (is_lower (encrypt_char key ch) ≡ is_lower ch)
      × (is_alpha ch ≡ false → encrypt_char key ch ≡ ch)
unfolding encrypt_char
encrypt_char_class key ch h = (ground arith, ground arith, λ e. ground arith)

normalize-pos : (k : ℕ) → k < 26 → normalize (pos k) ≡ k
unfolding normalize
normalize-pos k h = omega arith

candidates_from-get_or :
    (left k i : ℕ) (ciphertext : List ℕ)
    → i < left
    → get_or (candidates_from left k ciphertext) i [] ≡ decrypt_caesar ciphertext (pos (k + i))
unfolding candidates_from
candidates_from-get_or zero k i ciphertext h = absurd (omega arith)
candidates_from-get_or (suc left) k zero ciphertext h = let e : k + 0 ≡ k = omega arith in rw e
candidates_from-get_or (suc left) k (suc i) ciphertext h =
    let e : k + suc i ≡ k + 1 + i = omega arith in
    rw e (candidates_from-get_or left (k + 1) i ciphertext (omega arith))

decrypt_caesar-normalize :
    (ciphertext : List ℕ) (key : ℤ)
    → decrypt_caesar ciphertext (pos (normalize key)) ≡ decrypt_caesar ciphertext key
unfolding decrypt_caesar
decrypt_caesar-normalize ciphertext key =
    ap (λ (k : ℕ). map (decrypt_char k) ciphertext)
      (normalize-pos (normalize key) (normalize-lt key))

-- Unless the key is a multiple of 26, the attack's candidate at the place of the key modulo 26 is
-- the text.
pub brute_force_attack-finds :
    (text : List ℕ) (key : ℤ)
    → 0 < normalize key
    → get_or (brute_force_attack (encrypt_caesar text key)) (normalize key - 1) [] ≡ text
unfolding brute_force_attack
brute_force_attack-finds text key h =
    let place : 1 + (normalize key - 1) ≡ normalize key = omega arith in
    candidates_from-get_or 25 1 (normalize key - 1) (encrypt_caesar text key)
      (omega (arith, normalize-lt key))
    ∙ rw place (
        decrypt_caesar-normalize (encrypt_caesar text key) key
        ∙ decrypt_caesar-encrypt_caesar text key)

-- On a text that fits its buffer, `main` recovers the text, shows the candidates of the attack and
-- reports success, for every shift.
pub main_recovers :
    (arg : List ℕ) (shift : ℤ)
    → length arg < max_text
    → main arg shift ≡ record {
      encrypted = encrypt_caesar arg shift;
      decrypted = arg;
      candidates = brute_force_attack (encrypt_caesar arg shift);
      status = 0;
    }
unfolding main
main_recovers arg shift short = rw (
  take-length (max_text - 1) arg (omega arith),
  decrypt_caesar-encrypt_caesar arg shift,
  text_eq_self arg,
)
