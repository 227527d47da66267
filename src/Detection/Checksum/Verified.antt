-- ===== src/Detection/Checksum/Verified.antt =====
-- checksum.c: the sender's checksum and the receiver's test.
use study_in_tezpur_universi.Common.{
  ℕ, ◌+◌, ◌-◌, ◌*◌, ◌/◌, ◌%◌, ◌^◌, ◌≤◌, ◌<◌, ◌≡◌, ◌≢◌, List, [], ◌∷◌, true, false, ◌==◌, length,
  arith, Bool-cases, inl, inr,
}
use study_in_tezpur_universi.Common.Bits.{bit_and-mask}
use study_in_tezpur_universi.Detection.Checksum.{
  sum_words, fold_fuel, fold, compute_checksum, verify_checksum,
}

-- Words of 16 bits.
abbrev pub AllWords : List ℕ → Type 0
AllWords [] = Unit
AllWords (w ∷ words) = (w < 2 ^ 16) × AllWords words

abbrev pub total : List ℕ → ℕ
total [] = 0
total (w ∷ words) = w + total words

-- The two rounds leave a sum of 16 bits, congruent modulo 2^16 - 1, and 0 only for 0.
fold_lem :
    (s : ℕ) → s < 2 ^ 32 → (fold s < 2 ^ 16) × (fold s % 65535 ≡ s % 65535) × (fold s ≡ 0 → s ≡ 0)
unfolding fold fold_fuel
fold_lem s h =
    let a = bit_and-mask 16 s in let b = bit_and-mask 16 (s % 65536 + s / 65536) in ground arith

sum_words-total :
    (s : ℕ) (words : List ℕ) → s + total words < 2 ^ 32 → sum_words s words ≡ s + total words
unfolding sum_words
sum_words-total s [] h = omega arith
sum_words-total s (w ∷ words) h =
    let e : (s + w) % 2 ^ 32 ≡ s + w = omega arith in
    rw (e, sum_words-total (s + w) words (omega arith)) (omega arith)

total-lt : (words : List ℕ) → AllWords words → total words ≤ length words * 65535
total-lt [] h = omega arith
total-lt (w ∷ words) h = omega (arith, total-lt words h.1)

-- The sum of a frame of fewer than 2^16 words does not wrap around.
frame_sum :
    (words : List ℕ)
    → AllWords words
    → length words < 2 ^ 16
    → (sum_words 0 words ≡ total words) × (total words + 65535 < 2 ^ 32)
frame_sum words small short =
    let bound : total words + 65535 < 2 ^ 32 = omega (arith, total-lt words small) in
    (omega (arith, sum_words-total 0 words (omega arith)), bound)

-- The checksum is the complement of the folded sum.
compute_checksum_lem :
    (words : List ℕ)
    → AllWords words
    → length words < 2 ^ 16
    → compute_checksum words ≡ 65535 - fold (total words)
unfolding compute_checksum
compute_checksum_lem words small short =
    let (e, h) = frame_sum words small short in
    let f = fold_lem (total words) (omega arith) in
    let m = bit_and-mask 16 (2 ^ 32 - 1 - fold (total words)) in rw e (omega arith)

-- The receiver accepts a frame of fewer than 2^16 words with the checksum computed for it.
pub verify_checksum-compute_checksum :
    (words : List ℕ)
    → AllWords words
    → length words < 2 ^ 16
    → verify_checksum words (compute_checksum words) ≡ true
unfolding verify_checksum
verify_checksum-compute_checksum words small short =
    let (e, h) = frame_sum words small short in
    let f = fold_lem (total words) (omega arith) in
    let c = compute_checksum_lem words small short in
    let s = total words + (65535 - fold (total words)) in
    let whole : (total words + (65535 - fold (total words))) % 2 ^ 32 ≡ s = omega arith in
    let g = fold_lem s (omega arith) in rw (e, c, whole) (ground arith)

-- A frame of fewer than 2^16 words is refused if its checksum was computed for another such frame
-- whose sum differs modulo 2^16 - 1.
pub verify_checksum_detects :
    (words received : List ℕ)
    → AllWords words
    → AllWords received
    → length words < 2 ^ 16
    → length received < 2 ^ 16
    → total words % 65535 ≢ total received % 65535
    → verify_checksum received (compute_checksum words) ≡ false
unfolding verify_checksum
verify_checksum_detects words received small small' short short' apart =
    let (e, h) = frame_sum words small short in
    let (e', h') = frame_sum received small' short' in
    let f = fold_lem (total words) (omega arith) in
    let c = compute_checksum_lem words small short in
    let s = total received + (65535 - fold (total words)) in
    let whole : (total received + (65535 - fold (total words))) % 2 ^ 32 ≡ s = omega arith in
    let g = fold_lem s (omega arith) in
    elim (Bool-cases (fold s == 65535)) [
      | inl accepted ↦ let a : fold s ≡ 65535 = ground arith in absurd (apart (omega arith))
      | inr refused ↦ rw (e', c, whole) refused
    ]
