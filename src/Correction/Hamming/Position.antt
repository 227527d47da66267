-- ===== src/Correction/Hamming/Position.antt =====
-- The bits of the positions of a codeword.
use Prim.Native.Nat.{bit_and}
use native.Mathlib.Nat
use study_in_tezpur_universi.Common.{
  ℕ, zero, suc, ◌+◌, ◌-◌, ◌*◌, ◌/◌, ◌%◌, ◌^◌, ◌<◌, ◌≡◌, refl, ap, ◌∙◌, true, false, ◌==◌, arith,
  Bool-cases, inl, inr,
}
use study_in_tezpur_universi.Common.Bits.{bit_and-lowest, bit_and-one}
use study_in_tezpur_universi.Correction.Hamming.{is_power_of_two}

-- `j` without its lowest `i` bits, and its bit number `i`.
unfoldable pub shift : ℕ → ℕ → ℕ
shift j zero = j
shift j (suc i) = shift (j / 2) i

unfoldable pub bit : ℕ → ℕ → ℕ
bit j i = shift j i % 2

pub bit_and-bit : (i j : ℕ) → bit_and j (2 ^ i) ≡ bit j i * 2 ^ i
unfolding bit shift
bit_and-bit zero j = omega (arith, bit_and-one j)
bit_and-bit (suc i) j =
    let half : 2 ^ suc i / 2 ≡ 2 ^ i = omega (arith, Nat.pow-suc 2 i) in
    let low : 2 ^ suc i % 2 ≡ 0 = omega (arith, Nat.pow-suc 2 i) in
    let lowest : bit_and j (2 ^ suc i) ≡ bit_and (j / 2) (2 ^ i) * 2 =
      ground (arith, low, rw half at (bit_and-lowest j (2 ^ suc i))) in
    omega (
      arith,
      lowest,
      ap (λ (t : ℕ). t * 2) (bit_and-bit i (j / 2)),
      Nat.pow-suc 2 i,
      ap (λ (t : ℕ). shift (j / 2) i % 2 * t) (Nat.pow-suc 2 i),
    )

pub bit-below : (j i : ℕ) → bit j i < 2
unfolding bit
bit-below j i = omega arith

pub shift-next : (j i : ℕ) → shift j (i + 1) ≡ shift j i / 2
unfolding shift
shift-next j zero = refl
shift-next j (suc i) = let e : suc i + 1 ≡ suc (i + 1) = omega arith in rw e (shift-next (j / 2) i)

pub shift_zero : (i : ℕ) → shift 0 i ≡ 0
unfolding shift
shift_zero zero = refl
shift_zero (suc i) = shift_zero i

half_power : (i : ℕ) → 2 ^ suc i / 2 ≡ 2 ^ i
half_power i = omega (arith, Nat.pow-suc 2 i)

pub bit_power : (i : ℕ) → bit (2 ^ i) i ≡ 1
unfolding bit shift
bit_power zero = refl
bit_power (suc i) = rw (half_power i) (bit_power i)

pub bit_other_power : (k i : ℕ) → ¬ (k ≡ i) → bit (2 ^ k) i ≡ 0
unfolding bit shift
bit_other_power zero zero apart = absurd (apart refl)
bit_other_power zero (suc i) apart = rw (shift_zero i) refl
bit_other_power (suc k) zero apart = omega (arith, Nat.pow-suc 2 k)
bit_other_power (suc k) (suc i) apart =
    rw (half_power k) (bit_other_power k i (λ e. apart (ap suc e)))

-- A number below `2^l` is the sum of its lowest `l` bits.
unfoldable pub low : ℕ → ℕ → ℕ
low zero x = 0
low (suc l) x = x % 2 + 2 * low l (x / 2)

pub low_self : (l x : ℕ) → x < 2 ^ l → low l x ≡ x
unfolding low
low_self zero x h = omega arith
low_self (suc l) x h = omega (arith, low_self l (x / 2) (omega (arith, Nat.pow-suc 2 l)))

and_self_below : (n a : ℕ) → a < n → bit_and a a ≡ a
and_self_below zero a h = absurd (omega arith)
and_self_below (suc n) zero h = refl
and_self_below (suc n) (suc a) h =
    omega (arith, bit_and-lowest (suc a) (suc a), and_self_below n (suc a / 2) (omega arith))

is_power-even : (m : ℕ) → 0 < m → is_power_of_two (2 * m) ≡ is_power_of_two m
unfolding is_power_of_two
is_power-even m h =
    let up : 2 * m / 2 ≡ m = omega arith in
    let down : (2 * m - 1) / 2 ≡ m - 1 = omega arith in
    let e = rw (up, down) at (bit_and-lowest (2 * m) (2 * m - 1)) in ground (arith, e)

is_power-odd : (m : ℕ) → 0 < m → is_power_of_two (2 * m + 1) ≡ false
unfolding is_power_of_two
is_power-odd m h =
    let up : (2 * m + 1) / 2 ≡ m = omega arith in
    let down : (2 * m + 1 - 1) / 2 ≡ m = omega arith in
    let e = rw (up, down) at (bit_and-lowest (2 * m + 1) (2 * m + 1 - 1)) in
    ground (arith, e, and_self_below (suc m) m (omega arith))

pub is_power_of_two-power : (s : ℕ) → is_power_of_two (2 ^ s) ≡ true
unfolding is_power_of_two
is_power_of_two-power zero = refl
is_power_of_two-power (suc s) =
    let e : 2 ^ suc s ≡ 2 * 2 ^ s = omega (arith, Nat.pow-suc 2 s) in
    rw e (is_power-even (2 ^ s) (Nat.one-le-pow s 2 (omega arith)) ∙ is_power_of_two-power s)

-- There is no power of two between two successive ones.
pub is_power_of_two_between : (s i : ℕ) → 2 ^ s < 2 * i → i < 2 ^ s → is_power_of_two i ≡ false
is_power_of_two_between zero i above below = absurd (omega arith)
is_power_of_two_between (suc s) i above below =
    let p = Nat.pow-suc 2 s in
    elim (Bool-cases (i % 2 == 0)) [
      | inl even ↦
          let e : i ≡ 2 * (i / 2) = ground arith in
          rw e (
            is_power-even (i / 2) (omega (arith, p, e))
            ∙ is_power_of_two_between s (i / 2) (omega (arith, p, e)) (omega (arith, p, e)))
      | inr odd ↦
          let e : i ≡ 2 * (i / 2) + 1 = ground arith in
          let some_half : 0 < i / 2 = omega (arith, p, e, Nat.one-le-pow s 2 (omega arith)) in
          rw e (is_power-odd (i / 2) some_half)
    ]
