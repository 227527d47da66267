-- ===== src/Rsa/Coefficients.antt =====
-- The coefficients of `ext_gcd` and the products for them are no greater than its arguments.
use native.Mathlib.Nat
use study_in_tezpur_universi.Common.{
  ℕ, zero, suc, ◌+◌, ◌*◌, ◌/◌, ◌%◌, ◌≤◌, ◌<◌, ◌≡◌, refl, ap, ◌∙◌, false, ◌==◌, arith, Bool-cases,
  inl, inr,
}
use study_in_tezpur_universi.Common.Int.{pos, magnitude, times, -ℤ-magnitude, times-magnitude}
use study_in_tezpur_universi.Rsa.{ExtGcd, ext_gcd_step, ext_gcd_fuel, ext_gcd}

-- The coefficients for `a` and `b`, where `b` is not 0.
record IsSmall (a b : ℕ) (r : ExtGcd) : Type 0 where
  x_small : magnitude r.x ≤ b
  y_small : magnitude r.y ≤ a

step-IsSmall :
    (a b : ℕ) (inner : ExtGcd) → IsSmall b (a % b) inner → IsSmall a b (ext_gcd_step a b inner)
unfolding ext_gcd_step
step-IsSmall a b inner h =
    let product : a / b * magnitude inner.y ≤ a / b * b = Nat.mul-le-mul_left (a / b) h.y_small in
    record {
      x_small = h.y_small;
      y_small = omega (
        arith,
        -ℤ-magnitude inner.x (times (a / b) inner.y),
        times-magnitude (a / b) inner.y,
        product,
        h.x_small,
        Nat.mod-add-div a b,
      );
    }

-- The innermost call.
ext_gcd_last : (fuel a : ℕ) → ext_gcd_fuel fuel a 0 ≡ record { gcd = a; x = pos 1; y = pos 0 }
unfolding ext_gcd_fuel
ext_gcd_last zero a = refl
ext_gcd_last (suc fuel) a = refl

last-IsSmall :
    (a b : ℕ) → 0 < a → IsSmall a b (ext_gcd_step a b (record { gcd = b; x = pos 1; y = pos 0 }))
unfolding ext_gcd_step
last-IsSmall a b some_a = record {
  x_small = omega arith;
  y_small =
      omega (arith, -ℤ-magnitude (pos 1) (times (a / b) (pos 0)), times-magnitude (a / b) (pos 0));
}

fuel-IsSmall : (fuel a b : ℕ) → b < fuel → 0 < a → 0 < b → IsSmall a b (ext_gcd_fuel fuel a b)
unfolding ext_gcd_fuel
fuel-IsSmall zero a b enough some_a some_b = absurd (omega arith)
fuel-IsSmall (suc fuel) a b enough some_a some_b =
    let busy : (b == 0) ≡ false = ground arith in
    let less = Nat.mod-lt a {m = b} some_b in
    rw busy (elim (Bool-cases (a % b == 0)) [
      | inl divides ↦
          let e : a % b ≡ 0 = ground arith in
          let last : ext_gcd_fuel fuel b (a % b) ≡ record { gcd = b; x = pos 1; y = pos 0 } =
            ap (λ (t : ℕ). ext_gcd_fuel fuel b t) e ∙ ext_gcd_last fuel b in
          rw last (last-IsSmall a b some_a)
      | inr more ↦
          step-IsSmall a b (ext_gcd_fuel fuel b (a % b))
            (fuel-IsSmall fuel b (a % b) (omega arith) some_b (ground arith))
    ])

product_small : (a b : ℕ) → 0 < b → magnitude (times (a / b) (ext_gcd b (a % b)).y) ≤ a
unfolding ext_gcd
product_small a b some_b = elim (Bool-cases (a % b == 0)) [
  | inl divides ↦
      let e : a % b ≡ 0 = ground arith in
      let last = ext_gcd_last (a % b + 1) b in
      let none_left : (ext_gcd_fuel (a % b + 1) b (a % b)).y ≡ pos 0 =
        ap (λ (t : ℕ). (ext_gcd_fuel (a % b + 1) b t).y) e ∙ ap (λ (r : ExtGcd). r.y) last in
      rw none_left (omega (arith, times-magnitude (a / b) (pos 0)))
  | inr more ↦
      let y = (ext_gcd_fuel (a % b + 1) b (a % b)).y in
      let h = fuel-IsSmall (a % b + 1) b (a % b) (omega arith) some_b (ground arith) in
      let product : a / b * magnitude y ≤ a / b * b = Nat.mul-le-mul_left (a / b) h.y_small in
      omega (arith, times-magnitude (a / b) y, product, Nat.mod-add-div a b)
]

-- For arguments above 0, the coefficients are no greater than the arguments, and so is the product
-- that the second one is computed from.
pub ext_gcd_small :
    (a b : ℕ)
    → 0 < a
    → 0 < b
    → (magnitude (ext_gcd a b).x ≤ b)
      × (magnitude (ext_gcd a b).y ≤ a)
      × (magnitude (times (a / b) (ext_gcd b (a % b)).y) ≤ a)
unfolding ext_gcd
ext_gcd_small a b some_a some_b =
    let h = fuel-IsSmall (b + 1) a b (omega arith) some_a some_b in
    (h.x_small, h.y_small, product_small a b some_b)
