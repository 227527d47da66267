-- ===== src/Correction/Hamming/Extract.antt =====
-- The data bits: their number, and that the decoder takes out what the encoder placed.
use native.Mathlib.Nat
use study_in_tezpur_universi.Common.{
  ℕ, zero, suc, ◌+◌, ◌-◌, ◌*◌, ◌%◌, ◌^◌, ◌≤◌, ◌<◌, ◌≡◌, refl, sym, ◌∙◌, List, [], ◌∷◌, true, false,
  ltb, ◌==◌, if◌then◌else◌, get_or, set, length, length-set, get_or-set, arith, Bool-cases, inl,
  inr,
}
use study_in_tezpur_universi.Correction.Hamming.{
  is_power_of_two, calculate_r_fuel, calculate_r, place_from, encode_ones, parity_from,
  extract_from, all_binary,
}
use study_in_tezpur_universi.Correction.Hamming.Position.{
  is_power_of_two-power, is_power_of_two_between,
}

-- What the search for `r` reaches: the least number above 0 with room for itself and `k` data bits.
pub record Enough (k r : ℕ) : Type 0 where
  pub above : k + r < 2 ^ r
  pub least : 2 ^ r < 2 * (k + r + 1)

double : (r : ℕ) → 2 ^ (r + 1) ≡ 2 * 2 ^ r
double r = let e : r + 1 ≡ suc r = omega arith in rw e (omega (arith, Nat.pow-suc 2 r))

calculate_r_fuel-Enough :
    (fuel k r : ℕ)
    → k < fuel + 2 ^ r - r
    → 1 ≤ r
    → r < 2 ^ r
    → 2 ^ r < 2 * (k + r + 1)
    → Enough k (calculate_r_fuel fuel k r)
unfolding calculate_r_fuel
calculate_r_fuel-Enough zero k r rounds some_r room least = record {
  above = omega arith;
  least = least;
}
calculate_r_fuel-Enough (suc fuel) k r rounds some_r room least =
    elim (Bool-cases (ltb (2 ^ r) (k + r + 1))) [
      | inl more ↦
          let d = double r in
          rw more (
            calculate_r_fuel-Enough fuel k (r + 1) (omega (arith, d)) (omega arith)
              (omega (arith, d)) (ground (arith, d)))
      | inr done ↦ rw done (record { above = ground arith; least = least })
    ]

pub calculate_r-Enough : (k : ℕ) → Enough k (calculate_r k)
unfolding calculate_r
calculate_r-Enough k =
    calculate_r_fuel-Enough k k 1 (omega arith) (omega arith) (omega arith) (omega arith)

-- How many of the positions from `i` on are not a power of two.
pub data_positions : ℕ → ℕ → ℕ
data_positions zero i = 0
data_positions (suc left) i =
    let rest = data_positions left (i + 1) in if is_power_of_two i then rest else suc rest

exponent_unique : (r s i : ℕ) → 2 ^ r < 2 * i → i ≤ 2 ^ r → 2 ^ s < 2 * i → i ≤ 2 ^ s → r ≡ s
exponent_unique r s i a b c d = elim (Bool-cases (ltb r s)) [
  | inl less ↦
      let p = Nat.pow-le-pow_right {n = 2} (omega arith) {i = r + 1} {j = s} (ground arith) in
      absurd (omega (arith, p, double r))
  | inr not_less ↦ elim (Bool-cases (ltb s r)) [
    | inl less ↦
        let p = Nat.pow-le-pow_right {n = 2} (omega arith) {i = s + 1} {j = r} (ground arith) in
        absurd (omega (arith, p, double s))
    | inr same ↦ ground arith
  ]
]

-- `s` powers of two are below `i`, and `r` below `i + left`.
count_positions :
    (left i r s : ℕ)
    → 2 ^ s < 2 * i
    → i ≤ 2 ^ s
    → 2 ^ r < 2 * (i + left)
    → i + left ≤ 2 ^ r
    → data_positions left i + r ≡ left + s
unfolding data_positions
count_positions zero i r s a b c d =
    omega (arith, exponent_unique r s i (omega arith) (omega arith) a b)
count_positions (suc left) i r s a b c d = elim (Bool-cases (i == 2 ^ s)) [
  | inl here ↦
      let e : i ≡ 2 ^ s = ground arith in
      let power : is_power_of_two i ≡ true = rw e (is_power_of_two-power s) in
      let rest =
        count_positions left (i + 1) r (s + 1) (omega (arith, double s))
          (omega (arith, double s, Nat.one-le-pow s 2 (omega arith))) (omega arith) (omega arith) in
      rw power (omega (arith, rest))
  | inr other ↦
      let no_power = is_power_of_two_between s i a (ground arith) in
      let rest =
        count_positions left (i + 1) r s (omega arith) (ground arith) (omega arith) (omega arith) in
      rw no_power (omega (arith, rest))
]

-- A codeword has a place for each data bit.
pub data_positions-count : (k r : ℕ) → Enough k r → data_positions (k + r) 1 ≡ k
data_positions-count k r enough = omega (
  arith,
  count_positions (k + r) 1 r 0 (omega arith) (omega arith) (omega (arith, enough.least))
      (omega (arith, enough.above)),
)

pub length-place_from :
    (left i : ℕ) (text cw : List ℕ) → length (place_from left i text cw) ≡ length cw
unfolding place_from
length-place_from zero i text cw = refl
length-place_from (suc left) i [] cw = elim (Bool-cases (is_power_of_two i)) [
  | inl power ↦ rw power (length-place_from left (i + 1) [] cw)
  | inr no_power ↦ rw no_power refl
]
length-place_from (suc left) i (c ∷ rest) cw = elim (Bool-cases (is_power_of_two i)) [
  | inl power ↦ rw power (length-place_from left (i + 1) (c ∷ rest) cw)
  | inr no_power ↦
      rw no_power
        (length-place_from left (i + 1) rest (set cw i (c - b'0')) ∙ length-set cw i (c - b'0'))
]

-- No position before `i` is written.
place_from-before :
    (left i j : ℕ) (text cw : List ℕ)
    → j < i
    → i + left ≤ length cw
    → get_or (place_from left i text cw) j 0 ≡ get_or cw j 0
unfolding place_from
place_from-before zero i j text cw before room = refl
place_from-before (suc left) i j [] cw before room = elim (Bool-cases (is_power_of_two i)) [
  | inl power ↦ rw power (place_from-before left (i + 1) j [] cw (omega arith) (omega arith))
  | inr no_power ↦ rw no_power refl
]
place_from-before (suc left) i j (c ∷ rest) cw before room = elim (Bool-cases (is_power_of_two i)) [
  | inl power ↦
      rw power (place_from-before left (i + 1) j (c ∷ rest) cw (omega arith) (omega arith))
  | inr no_power ↦
      let other : (i == j) ≡ false = ground arith in
      let size = length-set cw i (c - b'0') in
      let value = get_or-set cw i j (c - b'0') 0 (omega arith) in
      rw no_power (
        place_from-before left (i + 1) j rest (set cw i (c - b'0')) (omega arith)
          (omega (arith, size))
        ∙ rw other at value)
]

-- The decoder takes out the data that the encoder placed.
pub extract_from-place_from :
    (left i : ℕ) (text cw : List ℕ)
    → data_positions left i ≡ length text
    → all_binary text ≡ true
    → i + left ≤ length cw
    → extract_from left i (place_from left i text cw) ≡ text
unfolding extract_from place_from data_positions
extract_from-place_from zero i [] cw count binary room = refl
extract_from-place_from zero i (c ∷ text) cw count binary room = absurd (omega (arith, count))
extract_from-place_from (suc left) i [] cw count binary room =
    elim (Bool-cases (is_power_of_two i)) [
      | inl power ↦
          rw power
            (extract_from-place_from left (i + 1) [] cw (rw power at count) binary (omega arith))
      | inr no_power ↦
          let e : suc (data_positions left (i + 1)) ≡ 0 = rw no_power at count in
          absurd (omega (arith, e))
    ]
extract_from-place_from (suc left) i (c ∷ rest) cw count binary room =
    elim (Bool-cases (is_power_of_two i)) [
      | inl power ↦ rw power (
          extract_from-place_from left (i + 1) (c ∷ rest) cw (rw power at count) binary
            (omega arith))
      | inr no_power ↦
          let e : suc (data_positions left (i + 1)) ≡ suc (length rest) = rw no_power at count in
          let size = length-set cw i (c - b'0') in
          let here : (i == i) ≡ true = ground arith in
          let value = rw here at (get_or-set cw i i (c - b'0') 0 (omega arith)) in
          let kept =
            place_from-before left (i + 1) i rest (set cw i (c - b'0')) (omega arith)
              (omega (arith, size)) in
          let restored : c - b'0' + b'0' ≡ c = ground arith in
          let later : extract_from left (i + 1) (place_from left (i + 1) rest (set cw i (c - b'0')))
              ≡ rest =
            extract_from-place_from left (i + 1) rest (set cw i (c - b'0')) (omega (arith, e))
              (ground arith) (omega (arith, size)) in
          rw (no_power, kept ∙ value, restored, later) refl
    ]

extract_from-set :
    (left i p v : ℕ) (cw : List ℕ)
    → is_power_of_two p ≡ true
    → p < length cw
    → extract_from left i (set cw p v) ≡ extract_from left i cw
unfolding extract_from
extract_from-set zero i p v cw power inside = refl
extract_from-set (suc left) i p v cw power inside = elim (Bool-cases (is_power_of_two i)) [
  | inl also ↦ rw also (extract_from-set left (i + 1) p v cw power inside)
  | inr no_power ↦
      let other : (p == i) ≡ false = elim (Bool-cases (p == i)) [
        | inl same ↦
            let e : p ≡ i = ground arith in
            let clash : true ≡ false = sym (rw e at power) ∙ no_power in absurd (ground arith)
        | inr apart ↦ apart
      ] in
      rw
        (
          no_power,
          get_or-set cw p i v 0 inside,
          other,
          extract_from-set left (i + 1) p v cw power inside,
        )
        refl
]

pub length-parity_from : (n left i : ℕ) (cw : List ℕ) → length (parity_from n left i cw) ≡ length cw
unfolding parity_from
length-parity_from n zero i cw = refl
length-parity_from n (suc left) i cw =
    let v : ℕ = if encode_ones n 1 (2 ^ i) cw % 2 == 0 then 0 else 1 in
    length-parity_from n left (i + 1) (set cw (2 ^ i) v) ∙ length-set cw (2 ^ i) v

-- The parity bits do not touch the data.
pub extract_from-parity_from :
    (n m left i : ℕ) (cw : List ℕ)
    → ((t : ℕ) → t < i + left → 2 ^ t < length cw)
    → extract_from m 1 (parity_from n left i cw) ≡ extract_from m 1 cw
unfolding parity_from
extract_from-parity_from n m zero i cw inside = refl
extract_from-parity_from n m (suc left) i cw inside =
    let v : ℕ = if encode_ones n 1 (2 ^ i) cw % 2 == 0 then 0 else 1 in
    extract_from-parity_from n m left (i + 1) (set cw (2 ^ i) v)
      (λ t h. rw (length-set cw (2 ^ i) v) (inside t (omega arith)))
    ∙ extract_from-set m 1 (2 ^ i) v cw (is_power_of_two-power i) (inside i (omega arith))
