-- ===== src/Ciphers/Substitution.antt =====
-- STCN/Session1/Lab_Session_1/Exp09_Cryptography_Ciphers/substitution_cipher.c. A text is the list
-- of its character codes before the NUL; codes above 127 are no letters in the C locale.
pub mod Key
pub mod RoundTrip
mod Tests
use study_in_tezpur_universi.Common.{
  ℕ, zero, suc, ◌+◌, ◌-◌, List, [], ◌∷◌, map, Bool, true, false, if◌then◌else◌, ◌==◌, ◌&&◌, not,
  take, text_eq, length, get_or, set, replicate,
}
use study_in_tezpur_universi.Common.Chars.{is_upper, is_lower, is_alpha, to_upper, to_lower}

abbrev pub max_text : ℕ
max_text = 1024

abbrev pub letter_index : ℕ → ℕ
letter_index ch = to_upper ch - b'A'

-- The loop over the key with the array `seen`.
pub validate_from : List ℕ → List Bool → Bool
validate_from [] seen = true
validate_from (ch ∷ key) seen =
    let rest = validate_from key (set seen (letter_index ch) true) in
    if not (is_alpha ch) then false else if get_or seen (letter_index ch) false then false else rest

pub validate_key : List ℕ → Bool
unfolding validate_from
validate_key key = if not (length key == 26) then false else validate_from key (replicate 26 false)

pub encrypt_char : List ℕ → ℕ → ℕ
encrypt_char key ch =
    if is_upper ch
    then to_upper (get_or key (ch - b'A') 0)
    else if is_lower ch
    then to_lower (get_or key (ch - b'a') 0)
    else ch

pub encrypt_substitution : List ℕ → List ℕ → List ℕ
unfolding encrypt_char
encrypt_substitution plaintext key = map (encrypt_char key) plaintext

-- The loop that builds `reverse_key`, from index `i` on. The array starts out undefined; here it
-- holds zeros.
pub reverse_from : ℕ → List ℕ → List ℕ → List ℕ
reverse_from i [] reverse_key = reverse_key
reverse_from i (ch ∷ key) reverse_key =
    reverse_from (suc i) key (set reverse_key (letter_index ch) (b'A' + i))

pub reverse_table : List ℕ → List ℕ
unfolding reverse_from
reverse_table key = reverse_from 0 key (replicate 26 0)

pub decrypt_char : List ℕ → ℕ → ℕ
decrypt_char reverse_key ch =
    if is_upper ch
    then get_or reverse_key (ch - b'A') 0
    else if is_lower ch
    then to_lower (get_or reverse_key (ch - b'a') 0)
    else ch

pub decrypt_substitution : List ℕ → List ℕ → List ℕ
unfolding reverse_table decrypt_char
decrypt_substitution ciphertext key = map (decrypt_char (reverse_table key)) ciphertext

pub record Report : Type 0 where
  pub encrypted : List ℕ
  pub decrypted : List ℕ
  pub status : ℕ

pub data Outcome : Type 0 where
  bad_key : Outcome
  finished : Report → Outcome

-- `main` with its arguments.
pub main : List ℕ → List ℕ → Outcome
main arg key =
    let text = take (max_text - 1) arg in
    let encrypted = encrypt_substitution text key in
    let decrypted = decrypt_substitution encrypted key in
    if not (validate_key key)
    then bad_key
    else finished (record {
      encrypted = encrypted;
      decrypted = decrypted;
      status = if text_eq text decrypted then 0 else 1;
    })
