-- ===== src/Ciphers/Caesar.antt =====
-- STCN/Session1/Lab_Session_1/Exp09_Cryptography_Ciphers/caesar_cipher.c. A text is the list of its
-- character codes before the NUL; codes above 127 are no letters in the C locale.
pub mod RoundTrip
mod Tests
use study_in_tezpur_universi.Common.{
  ℕ, zero, suc, ◌+◌, ◌-◌, ◌%◌, List, [], ◌∷◌, map, if◌then◌else◌, take, text_eq,
}
use study_in_tezpur_universi.Common.Int.{ℤ, pos, rem, plus}
use study_in_tezpur_universi.Common.Chars.{is_upper, is_lower}

abbrev pub max_text : ℕ
max_text = 1024

-- `((key % 26) + 26) % 26`.
pub normalize : ℤ → ℕ
unfolding rem plus
normalize key = plus (rem key 26) 26 % 26

pub encrypt_char : ℕ → ℕ → ℕ
encrypt_char key ch =
    if is_upper ch
    then (ch - b'A' + key) % 26 + b'A'
    else if is_lower ch
    then (ch - b'a' + key) % 26 + b'a'
    else ch

-- 26 is added before the key is taken off, since `-` stops at 0.
pub decrypt_char : ℕ → ℕ → ℕ
decrypt_char key ch =
    if is_upper ch
    then (ch - b'A' + 26 - key) % 26 + b'A'
    else if is_lower ch
    then (ch - b'a' + 26 - key) % 26 + b'a'
    else ch

pub encrypt_caesar : List ℕ → ℤ → List ℕ
unfolding normalize encrypt_char
encrypt_caesar plaintext key = map (encrypt_char (normalize key)) plaintext

pub decrypt_caesar : List ℕ → ℤ → List ℕ
unfolding normalize decrypt_char
decrypt_caesar ciphertext key = map (decrypt_char (normalize key)) ciphertext

-- The candidates for the keys `k`, …, `k + left - 1`; `brute_force_attack` prints those from 1 to 25.
pub candidates_from : ℕ → ℕ → List ℕ → List (List ℕ)
unfolding decrypt_caesar
candidates_from zero k ciphertext = []
candidates_from (suc left) k ciphertext =
    decrypt_caesar ciphertext (pos k) ∷ candidates_from left (k + 1) ciphertext

-- For a text that fits `candidate`, as each text of `main` does.
pub brute_force_attack : List ℕ → List (List ℕ)
unfolding candidates_from
brute_force_attack ciphertext = candidates_from 25 1 ciphertext

-- What `main` prints and returns: the candidates only if the decrypted text matches.
pub record Report : Type 0 where
  pub encrypted : List ℕ
  pub decrypted : List ℕ
  pub candidates : List (List ℕ)
  pub status : ℕ

-- `main` with its arguments, the shift read by `atoi`.
pub main : List ℕ → ℤ → Report
main arg shift =
    let text = take (max_text - 1) arg in
    let encrypted = encrypt_caesar text shift in
    let decrypted = decrypt_caesar encrypted shift in
    let matches = text_eq text decrypted in
    record {
      encrypted = encrypted;
      decrypted = decrypted;
      candidates = if matches then brute_force_attack encrypted else [];
      status = if matches then 0 else 1;
    }
