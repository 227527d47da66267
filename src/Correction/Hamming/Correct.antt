-- ===== src/Correction/Hamming/Correct.antt =====
-- The decoder finds and corrects an error in one position.
use native.Mathlib.Nat
use study_in_tezpur_universi.Common.{
  ℕ, zero, suc, ◌+◌, ◌-◌, ◌*◌, ◌%◌, ◌^◌, ◌≤◌, ◌<◌, ◌≡◌, refl, ap, ◌∙◌, List, [], ◌∷◌, true, ◌&&◌,
  not, ltb, leb, ◌==◌, if◌then◌else◌, get_or, set, replicate, length, length-set, length-replicate,
  get_or-set, get_or-replicate, arith, Bool-cases, inl, inr,
}
use study_in_tezpur_universi.Correction.Hamming.{
  is_power_of_two, calculate_r, place_from, encode_ones, decode_ones, parity_from, Codeword,
  encode_hamming, syndrome_from, flip, extract_from, decode_and_correct, all_binary,
}
use study_in_tezpur_universi.Correction.Hamming.Position.{
  bit, shift, low, bit-below, low_self, shift-next, shift_zero,
}
use study_in_tezpur_universi.Correction.Hamming.Parity.{
  EvenBelow, decode_ones-set, bit-test, parity_from-even,
}
use study_in_tezpur_universi.Correction.Hamming.Extract.{
  Enough, calculate_r-Enough, data_positions-count, length-place_from, extract_from-place_from,
  length-parity_from, extract_from-parity_from,
}

AllBits : List ℕ → Type 0
AllBits cw = (j : ℕ) → get_or cw j 0 ≤ 1

set-AllBits : (cw : List ℕ) (i v : ℕ) → i < length cw → v ≤ 1 → AllBits cw → AllBits (set cw i v)
unfolding AllBits
set-AllBits cw i v inside small bits j = elim (Bool-cases (i == j)) [
  | inl here ↦ rw (get_or-set cw i j v 0 inside, here) small
  | inr other ↦ rw (get_or-set cw i j v 0 inside, other) (bits j)
]

place_from-AllBits :
    (left i : ℕ) (text cw : List ℕ)
    → i + left ≤ length cw
    → all_binary text ≡ true
    → AllBits cw
    → AllBits (place_from left i text cw)
unfolding place_from
place_from-AllBits zero i text cw room binary bits = bits
place_from-AllBits (suc left) i [] cw room binary bits = elim (Bool-cases (is_power_of_two i)) [
  | inl power ↦ rw power (place_from-AllBits left (i + 1) [] cw (omega arith) binary bits)
  | inr no_power ↦ rw no_power bits
]
place_from-AllBits (suc left) i (c ∷ rest) cw room binary bits =
    elim (Bool-cases (is_power_of_two i)) [
      | inl power ↦
          rw power (place_from-AllBits left (i + 1) (c ∷ rest) cw (omega arith) binary bits)
      | inr no_power ↦ rw no_power (
          place_from-AllBits left (i + 1) rest (set cw i (c - b'0'))
            (omega (arith, length-set cw i (c - b'0'))) (ground arith)
            (set-AllBits cw i (c - b'0') (omega arith) (ground arith) bits))
    ]

parity_from-AllBits :
    (n left i : ℕ) (cw : List ℕ)
    → ((t : ℕ) → t < i + left → 2 ^ t < length cw)
    → AllBits cw
    → AllBits (parity_from n left i cw)
unfolding parity_from
parity_from-AllBits n zero i cw inside bits = bits
parity_from-AllBits n (suc left) i cw inside bits =
    let v : ℕ = if encode_ones n 1 (2 ^ i) cw % 2 == 0 then 0 else 1 in
    parity_from-AllBits n left (i + 1) (set cw (2 ^ i) v)
      (λ t h. rw (length-set cw (2 ^ i) v) (inside t (omega arith)))
      (set-AllBits cw (2 ^ i) v (inside i (omega arith)) (ground arith) bits)

-- What the encoder makes of the data.
record Encoded (text : List ℕ) (c : Codeword) : Type 0 where
  even : EvenBelow c.n c.r c.codeword
  bits : AllBits c.codeword
  size : length c.codeword ≡ c.n + 1
  room : c.n < 2 ^ c.r
  payload : extract_from c.n 1 c.codeword ≡ text

power_inside : (k r t : ℕ) → Enough k r → t < r → 2 ^ t ≤ k + r
power_inside k r t enough below =
    let p = Nat.pow-le-pow_right {n = 2} (omega arith) {i = t + 1} {j = r} (omega arith) in
    let e : t + 1 ≡ suc t = omega arith in omega (arith, rw e at p, Nat.pow-suc 2 t, enough.least)

encode_hamming-Encoded :
    (text : List ℕ) → all_binary text ≡ true → Encoded text (encode_hamming text)
unfolding encode_hamming AllBits
encode_hamming-Encoded text binary =
    let k = length text in
    let r = calculate_r k in
    let n = k + r in
    let enough = calculate_r-Enough k in
    let blank = replicate (n + 1) 0 in
    let placed = place_from n 1 text blank in
    let blank_size = length-replicate (n + 1) 0 in
    let placed_size : length placed ≡ n + 1 = length-place_from n 1 text blank ∙ blank_size in
    let powers : (t : ℕ) → t < 0 + r → 2 ^ t < length placed =
      λ t h. omega (arith, placed_size, power_inside k r t enough (omega arith)) in
    let blank_bits : AllBits blank = λ j. omega (arith, get_or-replicate {A = ℕ} (n + 1) j 0) in
    record {
      even =
          parity_from-even n r placed (λ t h. power_inside k r t enough h)
            (omega (arith, placed_size));
      bits =
          parity_from-AllBits n r 0 placed powers
            (place_from-AllBits n 1 text blank (omega (arith, blank_size)) binary blank_bits);
      size = length-parity_from n r 0 placed ∙ placed_size;
      room = enough.above;
      payload =
          extract_from-parity_from n n r 0 placed powers
          ∙ extract_from-place_from n 1 text blank (data_positions-count k r enough) binary
              (omega (arith, blank_size));
    }

flip-flip : (cw : List ℕ) (e : ℕ) → AllBits cw → flip (flip cw e) e ≡ cw
unfolding flip AllBits
flip-flip [] e bits = refl
flip-flip (x ∷ cw) zero bits =
    let b = bits 0 in let e : 1 - (1 - x) ≡ x = omega arith in ap (λ (t : ℕ). t ∷ cw) e
flip-flip (x ∷ cw) (suc e) bits = ap (◌∷◌ x) (flip-flip cw e (λ j. bits (suc j)))

-- Where the parities are the bits of `e`, the syndrome is `e`.
syndrome_from-sum :
    (n left i e syndrome : ℕ) (received : List ℕ)
    → ((t : ℕ) → t < i + left → decode_ones n 1 (2 ^ t) received % 2 ≡ bit e t)
    → syndrome_from n left i received syndrome ≡ syndrome + 2 ^ i * low left (shift e i)
unfolding syndrome_from low bit
syndrome_from-sum n zero i e syndrome received parities = omega (arith, Nat.mul-zero (2 ^ i))
syndrome_from-sum n (suc left) i e syndrome received parities =
    let here = parities i (omega arith) in
    let ones = decode_ones n 1 (2 ^ i) received in
    let syndrome' : ℕ = if not (ones % 2 == 0) then syndrome + 2 ^ i else syndrome in
    let rest =
      syndrome_from-sum n left (i + 1) e syndrome' received (λ t h. parities t (omega arith)) in
    let next : i + 1 ≡ suc i = omega arith in
    let double : 2 ^ (i + 1) ≡ 2 * 2 ^ i = rw next (omega (arith, Nat.pow-suc 2 i)) in
    rest
    ∙ rw (shift-next e i, double)
        (elim (Bool-cases (ones % 2 == 0)) [
          | inl even ↦
              let z : shift e i % 2 ≡ 0 = ground (arith, here) in rw (even, z) (omega arith)
          | inr odd ↦ let z : shift e i % 2 ≡ 1 = ground (arith, here) in rw (odd, z) (omega arith)
        ])

-- The parities of a codeword with an error are the bits of its position.
flip-parity :
    (n r e t : ℕ) (cw : List ℕ)
    → EvenBelow n r cw
    → AllBits cw
    → length cw ≡ n + 1
    → 1 ≤ e
    → e ≤ n
    → t < r
    → decode_ones n 1 (2 ^ t) (flip cw e) % 2 ≡ bit e t
unfolding AllBits flip
flip-parity n r e t cw even bits size some_e inside below =
    let changed =
      decode_ones-set n 1 (2 ^ t) e (1 - get_or cw e 0) cw some_e (omega arith)
        (omega (arith, size)) in
    let changed' = rw (bit-test e t) at changed in
    ground (arith, changed', even t below, bits e, bit-below e t)

syndrome_from-position :
    (n r e : ℕ) (received : List ℕ)
    → e < 2 ^ r
    → ((t : ℕ) → t < r → decode_ones n 1 (2 ^ t) received % 2 ≡ bit e t)
    → syndrome_from n r 0 received 0 ≡ e
unfolding shift
syndrome_from-position n r e received small parities =
    let sum = syndrome_from-sum n r 0 e 0 received (λ t h. parities t (omega arith)) in
    omega (arith, sum, low_self r e small)

decode-clean :
    (text : List ℕ) (c : Codeword)
    → Encoded text c
    → decode_and_correct c.codeword c.n c.r
      ≡ record { syndrome = 0; received = c.codeword; recovered_data = text }
unfolding decode_and_correct bit
decode-clean text c h =
    let z : syndrome_from c.n c.r 0 c.codeword 0 ≡ 0 =
      syndrome_from-position c.n c.r 0 c.codeword (Nat.one-le-pow c.r 2 (omega arith))
        (λ t below. let s = shift_zero t in omega (arith, h.even t below, s)) in
    rw (z, h.payload) refl

decode-flip :
    (text : List ℕ) (c : Codeword) (e : ℕ)
    → Encoded text c
    → 1 ≤ e
    → e ≤ c.n
    → decode_and_correct (flip c.codeword e) c.n c.r
      ≡ record { syndrome = e; received = c.codeword; recovered_data = text }
unfolding decode_and_correct
decode-flip text c e h some_e inside =
    let z : syndrome_from c.n c.r 0 (flip c.codeword e) 0 ≡ e =
      syndrome_from-position c.n c.r e (flip c.codeword e) (omega (arith, h.room))
        (λ t below. flip-parity c.n c.r e t c.codeword h.even h.bits h.size some_e inside below) in
    let found : (ltb 0 e && leb e c.n) ≡ true = ground arith in
    rw (z, found, flip-flip c.codeword e h.bits, h.payload) refl

-- The decoder gets binary data back from their codeword, with the syndrome 0; and where one bit of the
-- codeword was inverted in transit, it names its position, restores the codeword and gets the data
-- back.
pub decode_and_correct-encode_hamming :
    (text : List ℕ)
    → all_binary text ≡ true
    → (decode_and_correct
          (encode_hamming text).codeword
          (encode_hamming text).n
          (encode_hamming text).r
        ≡ record { syndrome = 0; received = (encode_hamming text).codeword; recovered_data = text })
      × ((e : ℕ)
          → 1 ≤ e
          → e ≤ (encode_hamming text).n
          → decode_and_correct
              (flip (encode_hamming text).codeword e)
              (encode_hamming text).n
              (encode_hamming text).r
            ≡ record {
              syndrome = e;
              received = (encode_hamming text).codeword;
              recovered_data = text;
            })
decode_and_correct-encode_hamming text binary =
    let h = encode_hamming-Encoded text binary in
    (
      decode-clean text (encode_hamming text) h,
      λ e some_e inside. decode-flip text (encode_hamming text) e h some_e inside,
    )
