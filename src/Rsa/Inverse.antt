-- ===== src/Rsa/Inverse.antt =====
-- `mod_inverse`.
use Prim.Native.Nat.{◌∣◌}
use native.Mathlib.Nat
use study_in_tezpur_universi.Common.{
  ℕ, zero, suc, ◌+◌, ◌*◌, ◌/◌, ◌%◌, ◌^◌, ◌≤◌, ◌<◌, ◌≡◌, ap, sym, ◌∙◌, Option, none, some, ◌==◌,
  arith, Bool-cases, inl, inr,
}
use study_in_tezpur_universi.Common.Int.{
  ℤ, pos, negsuc, neg, rem, plus, pos_part, neg_part, magnitude, times,
}
use study_in_tezpur_universi.Rsa.{ExtGcd, ext_gcd, gcd, mod_inverse}
use study_in_tezpur_universi.Rsa.Coefficients.{ext_gcd_small}
use study_in_tezpur_universi.Rsa.Euclid.{Bezout, ext_gcd-Bezout, ext_gcd-Greatest}

-- `d` and `x` differ by a multiple of `m`.
Congruent : ℕ → ℕ → ℤ → Type 0
Congruent m d x = (k : ℕ) × (l : ℕ) × (d + neg_part x + m * k ≡ pos_part x + m * l)

plus-neg : (s m : ℕ) → s ≤ m → plus (neg s) m + s ≡ m
unfolding neg plus
plus-neg zero m h = omega arith
plus-neg (suc s) m h = omega arith

normal-Congruent : (m : ℕ) (x : ℤ) → 0 < m → Congruent m (plus (rem x m) m % m) x
unfolding rem plus Congruent
normal-Congruent m (pos n) h =
    let t = n % m + m in (t / m + n / m, 1, omega (arith, Nat.mod-add-div t m, Nat.mod-add-div n m))
normal-Congruent m (negsuc n) h =
    let t = plus (neg (suc n % m)) m in
    let less = Nat.mod-lt (suc n) h in
    let sum = plus-neg (suc n % m) m (omega arith) in
    (t / m, 1 + suc n / m, omega (arith, Nat.mod-add-div t m, Nat.mod-add-div (suc n) m, sum))

pub mod_of_sum : (m a b u v : ℕ) → a + m * u ≡ b + m * v → a % m ≡ b % m
mod_of_sum m a b u v h =
    sym (Nat.add-mul-mod_self_left a m u)
    ∙ ap (λ (t : ℕ). t % m) h
    ∙ Nat.add-mul-mod_self_left b m v

-- What a result of `mod_inverse` says of its arguments.
abbrev pub IsInverse : ℕ → ℕ → Option ℕ → Type 0
IsInverse e phi none = (k : ℕ) × (1 < k) × (k ∣ e) × (k ∣ phi)
IsInverse e phi (some d) = (d < phi) × (e * d % phi ≡ 1)

Congruent-inverse :
    (e phi d : ℕ) (r : ExtGcd)
    → 1 < phi
    → r.gcd ≡ 1
    → Bezout e phi r
    → Congruent phi d r.x
    → e * d % phi ≡ 1
unfolding Congruent
Congruent-inverse e phi d r h one bezout (k, l, same) =
    mod_of_sum phi (e * d) 1 (pos_part r.y + e * k) (neg_part r.y + e * l)
      (omega (arith, ap (λ (t : ℕ). e * t) same, bezout, one))
    ∙ Nat.mod-eq_of_lt h

-- The sum that `mod_inverse` reduces last.
abbrev pub last_sum : ℕ → ℕ → ℕ
last_sum e phi = plus (rem (ext_gcd e phi).x phi) phi

last_sum_below : (x : ℤ) (phi : ℕ) → 0 < phi → plus (rem x phi) phi < 2 * phi
unfolding plus rem
last_sum_below (pos n) phi h = omega (arith, Nat.mod-lt n h)
last_sum_below (negsuc n) phi h =
    omega (arith, plus-neg (suc n % phi) phi (omega (arith, Nat.mod-lt (suc n) h)))

pub mod_inverse_lem : (e phi : ℕ) → 1 < phi → IsInverse e phi (mod_inverse e phi)
unfolding mod_inverse
mod_inverse_lem e phi h =
    let r = ext_gcd e phi in
    elim (Bool-cases (r.gcd == 1)) [
      | inl one ↦
          let g : r.gcd ≡ 1 = ground arith in
          rw one (
            Nat.mod-lt (plus (rem r.x phi) phi) (omega arith),
            Congruent-inverse e phi (plus (rem r.x phi) phi % phi) r h g (ext_gcd-Bezout e phi)
                (normal-Congruent phi r.x (omega arith)),
          )
      | inr other ↦
          let (same, left, right, _, _) = ext_gcd-Greatest e phi in
          let some_gcd = Nat.pos_of_dvd_of_pos right (omega arith) in
          rw other (gcd e phi, ground (arith, same, some_gcd, other), left, right)
    ]

-- No signed value of `ext_gcd` or of the last line of `mod_inverse` overflows. The recursive calls of
-- `ext_gcd` are calls on smaller arguments.
pub record InverseFits (e phi : ℕ) : Type 0 where
  pub x_fits : magnitude (ext_gcd e phi).x < 2 ^ 63
  pub y_fits : magnitude (ext_gcd e phi).y < 2 ^ 63
  pub product_fits : magnitude (times (e / phi) (ext_gcd phi (e % phi)).y) < 2 ^ 63
  pub sum_fits : last_sum e phi < 2 ^ 63

-- For an argument above 0 that is an `int64_t`, and a modulus above 1 and below 2^62: `mod_inverse`
-- fails only where both have a common divisor above 1, and otherwise returns the inverse below the
-- modulus; and the coefficients, the last product for them and the sum that is reduced last fit into
-- an `int64_t`.
pub mod_inverse-IsInverse :
    (e phi : ℕ)
    → 0 < e
    → e < 2 ^ 63
    → 1 < phi
    → phi < 2 ^ 62
    → IsInverse e phi (mod_inverse e phi) × InverseFits e phi
mod_inverse-IsInverse e phi some_e e_small above small =
    let (x_small, y_small, product_small) = ext_gcd_small e phi some_e (omega arith) in
    (
      mod_inverse_lem e phi above,
      record {
        x_fits = omega arith;
        y_fits = omega arith;
        product_fits = omega arith;
        sum_fits = omega (arith, last_sum_below (ext_gcd e phi).x phi (omega arith));
      },
    )
