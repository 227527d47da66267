-- ===== src/Ciphers/Substitution/Key.antt =====
-- substitution_cipher.c: what an accepted key is, and the table that reverses it.
use study_in_tezpur_universi.Common.{
  ℕ, zero, suc, ◌+◌, ◌<◌, ◌≡◌, ◌≢◌, refl, ap, ◌∙◌, List, [], ◌∷◌, Bool, true, false, ◌==◌, length,
  length-set, get_or, get_or-set, set, replicate, arith, Bool-cases, inl, inr,
}
use study_in_tezpur_universi.Common.Chars.{is_alpha}
use study_in_tezpur_universi.Ciphers.Substitution.{
  letter_index, validate_from, validate_key, reverse_from, reverse_table,
}

letter_index-lt : (ch : ℕ) → is_alpha ch ≡ true → letter_index ch < 26
letter_index-lt ch h = ground arith

-- An accepted letter is a letter, was not seen before, and is seen from there on.
record Accepted (ch : ℕ) (key : List ℕ) (seen : List Bool) : Type 0 where
  letter : is_alpha ch ≡ true
  fresh : get_or seen (letter_index ch) false ≡ false
  later : validate_from key (set seen (letter_index ch) true) ≡ true

validate_from-Accepted :
    (ch : ℕ) (key : List ℕ) (seen : List Bool)
    → validate_from (ch ∷ key) seen ≡ true
    → Accepted ch key seen
unfolding validate_from
validate_from-Accepted ch key seen h = elim (Bool-cases (is_alpha ch)) [
  | inr other ↦ let h' = rw other at h in cc
  | inl letter ↦ elim (Bool-cases (get_or seen (letter_index ch) false)) [
    | inl old ↦ let h' = rw (letter, old) at h in cc
    | inr fresh ↦ record { letter = letter; fresh = fresh; later = rw (letter, fresh) at h }
  ]
]

validate_from-letter :
    (key : List ℕ) (seen : List Bool) (p : ℕ)
    → validate_from key seen ≡ true
    → p < length key
    → is_alpha (get_or key p 0) ≡ true
validate_from-letter [] seen p h below = absurd (omega arith)
validate_from-letter (ch ∷ key) seen zero h below = (validate_from-Accepted ch key seen h).letter
validate_from-letter (ch ∷ key) seen (suc p) h below =
    validate_from-letter key (set seen (letter_index ch) true) p
      (validate_from-Accepted ch key seen h).later (omega arith)

-- The entry of a letter that was seen is not written again.
reverse_from-kept :
    (i : ℕ) (key reverse_key : List ℕ) (seen : List Bool) (j : ℕ)
    → validate_from key seen ≡ true
    → length seen ≡ 26
    → length reverse_key ≡ 26
    → get_or seen j false ≡ true
    → get_or (reverse_from i key reverse_key) j 0 ≡ get_or reverse_key j 0
unfolding reverse_from
reverse_from-kept i [] reverse_key seen j h size size' old = refl
reverse_from-kept i (ch ∷ key) reverse_key seen j h size size' old =
    let a = validate_from-Accepted ch key seen h in
    let idx = letter_index ch in
    let small = letter_index-lt ch a.letter in
    let seen_j = get_or-set seen idx j true false (omega arith) in
    let table_j = get_or-set reverse_key idx j (b'A' + i) 0 (omega arith) in
    elim (Bool-cases (idx == j)) [
      | inl same ↦
          let e : idx ≡ j = ground arith in let old' = rw (← e) at old in let f = a.fresh in cc
      | inr other ↦
          reverse_from-kept (suc i) key (set reverse_key idx (b'A' + i)) (set seen idx true) j
            a.later (length-set seen idx true ∙ size)
            (length-set reverse_key idx (b'A' + i) ∙ size') (seen_j ∙ rw other old)
          ∙ table_j
          ∙ rw other
    ]

-- The entry of the key's letter at place `p` is the plain letter of that place.
reverse_from-hit :
    (i : ℕ) (key reverse_key : List ℕ) (seen : List Bool) (p : ℕ)
    → validate_from key seen ≡ true
    → length seen ≡ 26
    → length reverse_key ≡ 26
    → p < length key
    → get_or (reverse_from i key reverse_key) (letter_index (get_or key p 0)) 0 ≡ b'A' + i + p
unfolding reverse_from
reverse_from-hit i [] reverse_key seen p h size size' below = absurd (omega arith)
reverse_from-hit i (ch ∷ key) reverse_key seen zero h size size' below =
    let a = validate_from-Accepted ch key seen h in
    let idx = letter_index ch in
    let small = letter_index-lt ch a.letter in
    let seen_idx = get_or-set seen idx idx true false (omega arith) in
    let table_idx = get_or-set reverse_key idx idx (b'A' + i) 0 (omega arith) in
    let self : (idx == idx) ≡ true = ground arith in
    let sum : b'A' + i ≡ b'A' + i + 0 = omega arith in
    reverse_from-kept (suc i) key (set reverse_key idx (b'A' + i)) (set seen idx true) idx a.later
      (length-set seen idx true ∙ size) (length-set reverse_key idx (b'A' + i) ∙ size')
      (seen_idx ∙ rw self)
    ∙ table_idx
    ∙ rw self sum
reverse_from-hit i (ch ∷ key) reverse_key seen (suc p) h size size' below =
    let a = validate_from-Accepted ch key seen h in
    let idx = letter_index ch in
    let sum : b'A' + suc i + p ≡ b'A' + i + suc p = omega arith in
    reverse_from-hit (suc i) key (set reverse_key idx (b'A' + i)) (set seen idx true) p a.later
      (length-set seen idx true ∙ size) (length-set reverse_key idx (b'A' + i) ∙ size')
      (omega arith)
    ∙ sum

-- What an accepted key gives: 26 letters, and a table that takes each back to its place.
pub record IsKey (key : List ℕ) : Type 0 where
  pub size : length key ≡ 26
  pub letters : (p : ℕ) → p < 26 → is_alpha (get_or key p 0) ≡ true
  pub reversed :
      (p : ℕ) → p < 26 → get_or (reverse_table key) (letter_index (get_or key p 0)) 0 ≡ b'A' + p

pub validate_key-IsKey : (key : List ℕ) → validate_key key ≡ true → IsKey key
unfolding validate_key reverse_table
validate_key-IsKey key h = elim (Bool-cases (length key == 26)) [
  | inr other ↦ let h' = rw other at h in cc
  | inl same ↦
      let size : length key ≡ 26 = ground arith in
      let h' = rw same at h in
      record {
        size = size;
        letters = λ p below. validate_from-letter key (replicate 26 false) p h' (omega arith);
        reversed = λ p below.
            reverse_from-hit 0 key (replicate 26 0) (replicate 26 false) p h' refl refl
              (omega arith);
      }
]

-- No two letters of an accepted key are the same up to case.
pub validate_key_distinct :
    (key : List ℕ) (p q : ℕ)
    → validate_key key ≡ true
    → p < 26
    → q < 26
    → p ≢ q
    → letter_index (get_or key p 0) ≢ letter_index (get_or key q 0)
validate_key_distinct key p q h below below' apart same =
    let k = validate_key-IsKey key h in
    let at_p = k.reversed p below in
    let at_q = k.reversed q below' in
    let both = ap (λ (j : ℕ). get_or (reverse_table key) j 0) same in apart (omega arith)
