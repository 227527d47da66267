-- ===== src/Correction/Hamming/Parity.antt =====
-- The parities of a codeword: what a change of one bit does to them, and that the encoder makes them
-- even.
use Prim.Native.Nat.{bit_and}
use native.Mathlib.Nat
use study_in_tezpur_universi.Common.{
  ℕ, zero, suc, ◌+◌, ◌*◌, ◌%◌, ◌^◌, ◌≤◌, ◌<◌, ◌≡◌, refl, List, true, false, ◌&&◌, not, ◌==◌,
  if◌then◌else◌, get_or, set, length, length-set, get_or-set, arith, Bool-cases, inl, inr,
}
use study_in_tezpur_universi.Correction.Hamming.{encode_ones, decode_ones, parity_from}
use study_in_tezpur_universi.Correction.Hamming.Position.{
  bit, bit_and-bit, bit-below, bit_power, bit_other_power,
}

-- What the value `v` at index `e` adds to a count.
abbrev pub one : ℕ → ℕ → ℕ → ℕ
one mask e v = if not (bit_and e mask == 0) && (v == 1) then 1 else 0

decode_ones-set_before :
    (left j mask e v : ℕ) (cw : List ℕ)
    → e < j
    → e < length cw
    → decode_ones left j mask (set cw e v) ≡ decode_ones left j mask cw
unfolding decode_ones
decode_ones-set_before zero j mask e v cw before inside = refl
decode_ones-set_before (suc left) j mask e v cw before inside =
    let other : (e == j) ≡ false = ground arith in
    rw
      (
        get_or-set cw e j v 0 inside,
        other,
        decode_ones-set_before left (j + 1) mask e v cw (omega arith) inside,
      )
      refl

-- A change of one value changes the count by what the two values add to it.
pub decode_ones-set :
    (left j mask e v : ℕ) (cw : List ℕ)
    → j ≤ e
    → e < j + left
    → e < length cw
    → decode_ones left j mask (set cw e v) + one mask e (get_or cw e 0)
      ≡ decode_ones left j mask cw + one mask e v
unfolding decode_ones
decode_ones-set zero j mask e v cw from to inside = absurd (omega arith)
decode_ones-set (suc left) j mask e v cw from to inside = elim (Bool-cases (e == j)) [
  | inl here ↦
      let same : j ≡ e = ground arith in
      let b : (e == e) ≡ true = ground arith in
      let rest = decode_ones-set_before left (e + 1) mask e v cw (omega arith) inside in
      rw (same, get_or-set cw e e v 0 inside, b, rest) (omega arith)
  | inr other ↦
      let rest = decode_ones-set left (j + 1) mask e v cw (ground arith) (omega arith) inside in
      rw (get_or-set cw e j v 0 inside, other) (omega (arith, rest))
]

-- The encoder counts as if its parity bit were not set.
encode_ones-decode :
    (left j mask : ℕ) (cw : List ℕ)
    → mask < length cw
    → encode_ones left j mask cw ≡ decode_ones left j mask (set cw mask 0)
unfolding encode_ones decode_ones
encode_ones-decode zero j mask cw inside = refl
encode_ones-decode (suc left) j mask cw inside =
    let rest = encode_ones-decode left (j + 1) mask cw inside in
    elim (Bool-cases (j == mask)) [
      | inl here ↦
          let b : (mask == j) ≡ true = ground arith in
          rw (get_or-set cw mask j 0 0 inside, b, here, rest) (ground arith)
      | inr other ↦
          let b : (mask == j) ≡ false = ground arith in
          rw (get_or-set cw mask j 0 0 inside, b, other, rest) refl
    ]

pub bit-test : (e i : ℕ) → not (bit_and e (2 ^ i) == 0) ≡ (bit e i == 1)
bit-test e i = elim (Bool-cases (bit e i == 1)) [
  | inl set_bit ↦
      let h : bit e i ≡ 1 = ground arith in
      let value : bit_and e (2 ^ i) ≡ 1 * 2 ^ i = rw h at (bit_and-bit i e) in
      ground (arith, value, Nat.one-le-pow i 2)
  | inr clear ↦
      let h : bit e i ≡ 0 = ground (arith, bit-below e i) in
      let value : bit_and e (2 ^ i) ≡ 0 * 2 ^ i = rw h at (bit_and-bit i e) in ground (arith, value)
]

-- All parities below `r` are even.
abbrev pub EvenBelow : ℕ → ℕ → List ℕ → Type 0
EvenBelow n r cw = (i : ℕ) → i < r → decode_ones n 1 (2 ^ i) cw % 2 ≡ 0

module _ (n k : ℕ) (cw : List ℕ) (inside : 2 ^ k ≤ n) (room : n < length cw) where
  other_parity :
      (i v : ℕ)
      → ¬ (k ≡ i)
      → decode_ones n 1 (2 ^ i) (set cw (2 ^ k) v) ≡ decode_ones n 1 (2 ^ i) cw
  other_parity i v apart =
      let test = rw (bit_other_power k i apart) at (bit-test (2 ^ k) i) in
      let clear : not (bit_and (2 ^ k) (2 ^ i) == 0) ≡ false = test in
      let changed =
        decode_ones-set n 1 (2 ^ i) (2 ^ k) v cw (Nat.one-le-pow k 2 (omega arith)) (omega arith)
          (omega arith) in
      omega (arith, rw clear at changed)

  own_parity :
      (v : ℕ)
      → decode_ones n 1 (2 ^ k) (set cw (2 ^ k) v)
        ≡ encode_ones n 1 (2 ^ k) cw + (if v == 1 then 1 else 0)
  own_parity v =
      let test = rw (bit_power k) at (bit-test (2 ^ k) k) in
      let own : not (bit_and (2 ^ k) (2 ^ k) == 0) ≡ true = test in
      let some_index = Nat.one-le-pow k 2 (omega arith) in
      let changed =
        decode_ones-set n 1 (2 ^ k) (2 ^ k) v cw some_index (omega arith) (omega arith) in
      let cleared =
        decode_ones-set n 1 (2 ^ k) (2 ^ k) 0 cw some_index (omega arith) (omega arith) in
      let counts = encode_ones-decode n 1 (2 ^ k) cw (omega arith) in
      omega (arith, rw own at changed, rw own at cleared, counts)

  -- Setting parity bit `k` makes parity `k` even and leaves the others alone.
  parity_step-EvenBelow :
      EvenBelow n k cw
      → EvenBelow n (k + 1) (set cw (2 ^ k) (if encode_ones n 1 (2 ^ k) cw % 2 == 0 then 0 else 1))
  parity_step-EvenBelow even i below =
      let v : ℕ = if encode_ones n 1 (2 ^ k) cw % 2 == 0 then 0 else 1 in
      elim (Bool-cases (i == k)) [
        | inl here ↦
            let same : i ≡ k = ground arith in
            let total = own_parity v in rw same (ground (arith, total))
        | inr other ↦
            let apart : ¬ (k ≡ i) = λ e. ground arith in
            rw (other_parity i v apart) (even i (ground arith))
      ]

parity_from-EvenBelow :
    (n left i : ℕ) (cw : List ℕ)
    → ((t : ℕ) → t < i + left → 2 ^ t ≤ n)
    → n < length cw
    → EvenBelow n i cw
    → EvenBelow n (i + left) (parity_from n left i cw)
unfolding parity_from
parity_from-EvenBelow n zero i cw inside room even = let e : i + 0 ≡ i = omega arith in rw e even
parity_from-EvenBelow n (suc left) i cw inside room even =
    let e : i + suc left ≡ i + 1 + left = omega arith in
    let v : ℕ = if encode_ones n 1 (2 ^ i) cw % 2 == 0 then 0 else 1 in
    rw e (
      parity_from-EvenBelow n left (i + 1) (set cw (2 ^ i) v) (λ t h. inside t (omega arith))
        (rw (length-set cw (2 ^ i) v) room)
        (parity_step-EvenBelow n i cw (inside i (omega arith)) room even))

-- The encoder's loop makes the `r` parities even.
pub parity_from-even :
    (n r : ℕ) (cw : List ℕ)
    → ((t : ℕ) → t < r → 2 ^ t ≤ n)
    → n < length cw
    → EvenBelow n r (parity_from n r 0 cw)
parity_from-even n r cw inside room =
    let e : 0 + r ≡ r = omega arith in
    rw e at (
      parity_from-EvenBelow n r 0 cw (λ t h. inside t (omega arith)) room
        (λ i h. absurd (omega arith)))
