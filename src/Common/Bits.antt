-- ===== src/Common/Bits.antt =====
-- Bit operations of C on unsigned values, as arithmetic.
use native.Mathlib.Omega.{arith}
use native.Mathlib.Nat.{pow-suc, one-le-pow}
use Prim.Native.Nat.{
  ℕ, zero, suc, ◌+◌, ◌-◌, ◌*◌, ◌/◌, ◌%◌, ◌^◌, ◌≤◌, ◌<◌, min, max, digits, bit_and, bit_or,
  bit_and-bitwise, bit_or-bitwise, bit_xor, bit_xor-bitwise, differ,
}
use mathlib.Core.Path.{◌≡◌, refl, ap}

infixl 75 ◌<<◌ ◌>>◌
abbrev pub ◌<<◌ : ℕ → ℕ → ℕ
x << k = x * 2 ^ k

abbrev pub ◌>>◌ : ℕ → ℕ → ℕ
x >> k = x / 2 ^ k

-- The digits of a native operation do not depend on spare fuel.
module _ (rest : ℕ → ℕ) (op : ℕ → ℕ → ℕ) where
  digits-spare :
      (fuel a b : ℕ)
      → (more : ℕ) → a ≤ fuel
      → fuel ≤ more
      → digits rest op fuel a b ≡ digits rest op more a b
  digits-spare zero zero b zero p q = refl
  digits-spare zero zero b (suc more) p q = refl
  digits-spare zero (suc a) b more p q = absurd (omega arith)
  digits-spare (suc fuel) a b zero p q = absurd (omega arith)
  digits-spare (suc fuel) zero b (suc more) p q = refl
  digits-spare (suc fuel) (suc a) b (suc more) p q =
      rw (digits-spare fuel (suc a / 2) (b / 2) more (omega arith) (omega arith))

  digits-lowest :
      (a b : ℕ)
      → digits rest op (suc a) (suc a) b
        ≡ digits rest op (suc a / 2) (suc a / 2) (b / 2) * 2 + op (suc a % 2) (b % 2)
  digits-lowest a b =
      rw (digits-spare (suc a / 2) (suc a / 2) (b / 2) a (omega arith) (omega arith))

-- The lowest digit of `|` and of `&`, and the digits above it.
bit_or-lowest : (a b : ℕ) → bit_or a b ≡ bit_or (a / 2) (b / 2) * 2 + max (a % 2) (b % 2)
bit_or-lowest zero b = simp bit_or-bitwise (omega arith)
bit_or-lowest (suc a) b = simp bit_or-bitwise (digits-lowest (λ y. y) max a b)

pub bit_and-lowest : (a b : ℕ) → bit_and a b ≡ bit_and (a / 2) (b / 2) * 2 + min (a % 2) (b % 2)
bit_and-lowest zero b = simp bit_and-bitwise (omega arith)
bit_and-lowest (suc a) b = simp bit_and-bitwise (digits-lowest (λ y. 0) min a b)

or_zero_below : (n a : ℕ) → a < n → bit_or a 0 ≡ a
or_zero_below zero a h = absurd (omega arith)
or_zero_below (suc n) zero h = refl
or_zero_below (suc n) (suc a) h =
    omega (arith, bit_or-lowest (suc a) 0, or_zero_below n (suc a / 2) (omega arith))

and_zero_below : (n a : ℕ) → a < n → bit_and a 0 ≡ 0
and_zero_below zero a h = absurd (omega arith)
and_zero_below (suc n) zero h = refl
and_zero_below (suc n) (suc a) h =
    omega (arith, bit_and-lowest (suc a) 0, and_zero_below n (suc a / 2) (omega arith))

pub bit_and-zero : (a : ℕ) → bit_and a 0 ≡ 0
bit_and-zero a = and_zero_below (suc a) a (omega arith)

-- `x & 1` is the lowest bit.
pub bit_and-one : (a : ℕ) → bit_and a 1 ≡ a % 2
bit_and-one a = omega (arith, bit_and-lowest a 1, bit_and-zero (a / 2))

times_double : (q k : ℕ) → q * 2 ^ suc k ≡ 2 * (q * 2 ^ k)
times_double q k = omega (arith, ap (λ (t : ℕ). q * t) (pow-suc 2 k))

-- `|` adds a part that stands below the bits of the other.
pub bit_or-disjoint : (k q r : ℕ) → r < 2 ^ k → bit_or (q * 2 ^ k) r ≡ q * 2 ^ k + r
bit_or-disjoint zero q r h = ground (arith, or_zero_below (suc q) q (omega arith))
bit_or-disjoint (suc k) q r h = ground (
  arith,
  bit_or-lowest (q * 2 ^ suc k) r,
  times_double q k,
  pow-suc 2 k,
  bit_or-disjoint k q (r / 2),
)

and_low : (k q r : ℕ) → r < 2 ^ k → bit_and (q * 2 ^ k + r) (2 ^ k - 1) ≡ r
and_low zero q r h = rw bit_and-zero (omega arith)
and_low (suc k) q r h = ground (
  arith,
  bit_and-lowest (q * 2 ^ suc k + r) (2 ^ suc k - 1),
  times_double q k,
  pow-suc 2 k,
  and_low k q (r / 2),
)

-- `x & (2^k - 1)` keeps the lowest `k` bits.
pub bit_and-mask : (k a : ℕ) → bit_and a (2 ^ k - 1) ≡ a % 2 ^ k
bit_and-mask k a = ground (arith, one-le-pow k 2, and_low k (a / 2 ^ k) (a % 2 ^ k))

bit_xor-lowest :
    (a b : ℕ) → bit_xor (suc a) b ≡ bit_xor (suc a / 2) (b / 2) * 2 + differ (suc a % 2) (b % 2)
bit_xor-lowest a b = simp bit_xor-bitwise (digits-lowest (λ y. y) differ a b)

differ_zero : (x : ℕ) → differ x 0 ≡ x
differ_zero zero = refl
differ_zero (suc x) = refl

differ_one : (x : ℕ) → x < 2 → differ x 1 + x ≡ 1
differ_one zero h = refl
differ_one (suc zero) h = refl
differ_one (suc (suc x)) h = absurd (omega arith)

xor_zero_below : (n a : ℕ) → a < n → bit_xor a 0 ≡ a
xor_zero_below zero a h = absurd (omega arith)
xor_zero_below (suc n) zero h = refl
xor_zero_below (suc n) (suc a) h =
    omega (
      arith,
      bit_xor-lowest a 0,
      xor_zero_below n (suc a / 2) (omega arith),
      differ_zero (suc a % 2),
    )

-- Flipping the lowest bit adds 1 or takes it away.
pub bit_xor-one : (a : ℕ) → (a % 2 ≡ 0 → bit_xor a 1 ≡ a + 1) × (a % 2 ≡ 1 → bit_xor a 1 + 1 ≡ a)
bit_xor-one zero = (λ even. refl, λ odd. absurd (omega arith))
bit_xor-one (suc a) =
    let low = bit_xor-lowest a 1 in
    let high = xor_zero_below (suc (suc a / 2)) (suc a / 2) (omega arith) in
    let bit = differ_one (suc a % 2) (omega arith) in
    (λ even. omega (arith, low, high, bit), λ odd. omega (arith, low, high, bit))
