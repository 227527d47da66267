-- ===== src/Common/Int.antt =====
-- The `int` values of C that may be negative, as far as the sources compute with them.
use Prim.Native.Nat.{ℕ, zero, suc, ◌+◌, ◌-◌, ◌*◌, ◌%◌, ◌≤◌}
use mathlib.Core.Path.{◌≡◌}
use native.Mathlib.Omega.{arith}
use study_in_tezpur_universi.Common.Tests.{leb, if◌then◌else◌}

-- `negsuc n` is -(n + 1).
pub data ℤ : Type 0 where
  pos : ℕ → ℤ
  negsuc : ℕ → ℤ

unfoldable pub neg : ℕ → ℤ
neg zero = pos 0
neg (suc n) = negsuc n

-- `a % m` for a positive m: the remainder has the sign of `a`.
unfoldable pub rem : ℤ → ℕ → ℤ
unfolding neg
rem (pos n) m = pos (n % m)
rem (negsuc n) m = neg (suc n % m)

-- `a + m` where the sum is not negative.
unfoldable pub plus : ℤ → ℕ → ℕ
plus (pos n) m = n + m
plus (negsuc n) m = m - suc n

abbrev pub pos_part : ℤ → ℕ
pos_part (pos n) = n
pos_part (negsuc n) = 0

abbrev pub neg_part : ℤ → ℕ
neg_part (pos n) = 0
neg_part (negsuc n) = suc n

-- a - b, as an integer.
abbrev pub sub_ℕ : ℕ → ℕ → ℤ
sub_ℕ a b = if leb b a then pos (a - b) else negsuc (b - a - 1)

infixl 65 ◌-ℤ◌
unfoldable pub ◌-ℤ◌ : ℤ → ℤ → ℤ
a -ℤ b = sub_ℕ (pos_part a + neg_part b) (neg_part a + pos_part b)

-- A multiple by a number that is not negative.
unfoldable pub times : ℕ → ℤ → ℤ
times n a = sub_ℕ (n * pos_part a) (n * neg_part a)

pub -ℤ_parts :
    (a b : ℤ)
    → pos_part (a -ℤ b) + neg_part a + pos_part b ≡ neg_part (a -ℤ b) + pos_part a + neg_part b
unfolding ◌-ℤ◌
-ℤ_parts a b = ground arith

pub times_parts :
    (n : ℕ) (a : ℤ) → pos_part (times n a) + n * neg_part a ≡ neg_part (times n a) + n * pos_part a
unfolding times
times_parts n a = ground arith

-- The absolute value.
abbrev pub magnitude : ℤ → ℕ
magnitude a = pos_part a + neg_part a

sub_ℕ-magnitude : (a b : ℕ) → magnitude (sub_ℕ a b) ≤ a + b
sub_ℕ-magnitude a b = ground arith

pub -ℤ-magnitude : (a b : ℤ) → magnitude (a -ℤ b) ≤ magnitude a + magnitude b
unfolding ◌-ℤ◌
-ℤ-magnitude a b =
    omega (arith, sub_ℕ-magnitude (pos_part a + neg_part b) (neg_part a + pos_part b))

pub times-magnitude : (n : ℕ) (a : ℤ) → magnitude (times n a) ≤ n * magnitude a
unfolding times
times-magnitude n a = omega (arith, sub_ℕ-magnitude (n * pos_part a) (n * neg_part a))
