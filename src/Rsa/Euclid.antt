-- ===== src/Rsa/Euclid.antt =====
-- The two Euclidean algorithms and the modular inverse.
use Prim.Native.Nat.{◌∣◌}
use native.Mathlib.Nat
use study_in_tezpur_universi.Common.{
  ℕ, zero, suc, ◌+◌, ◌*◌, ◌/◌, ◌%◌, ◌<◌, ◌≡◌, refl, ap, ◌==◌, arith, Bool-cases, inl, inr,
}
use study_in_tezpur_universi.Common.Int.{pos_part, neg_part, ◌-ℤ◌, times, -ℤ_parts, times_parts}
use study_in_tezpur_universi.Rsa.{ExtGcd, ext_gcd_step, ext_gcd_fuel, ext_gcd, gcd_fuel, gcd}

-- `a * x + b * y ≡ g`, the negative parts on the other side.
abbrev pub Bezout : ℕ → ℕ → ExtGcd → Type 0
Bezout a b r = a * pos_part r.x + b * pos_part r.y ≡ r.gcd + a * neg_part r.x + b * neg_part r.y

step-Bezout : (a b : ℕ) (r : ExtGcd) → Bezout b (a % b) r → Bezout a b (ext_gcd_step a b r)
unfolding ext_gcd_step
step-Bezout a b r h =
    let q = a / b in
    let split : a ≡ b * q + a % b = omega (arith, Nat.mod-add-div a b) in
    let difference = -ℤ_parts r.x (times q r.y) in
    let multiple = times_parts q r.y in
    let y' = r.x -ℤ times q r.y in
    omega (
      arith,
      ap (λ (t : ℕ). t * pos_part r.y) split,
      ap (λ (t : ℕ). t * neg_part r.y) split,
      ap (λ (t : ℕ). b * t) difference,
      ap (λ (t : ℕ). b * t) multiple,
      h,
    )

ext_gcd-Bezout_fuel : (fuel a b : ℕ) → b < fuel → Bezout a b (ext_gcd_fuel fuel a b)
unfolding ext_gcd_fuel
ext_gcd-Bezout_fuel zero a b h = absurd (omega arith)
ext_gcd-Bezout_fuel (suc fuel) a b h = elim (Bool-cases (b == 0)) [
  | inl done ↦ rw done (omega arith)
  | inr more ↦
      let less = Nat.mod-lt a {m = b} (ground arith) in
      rw more (
        step-Bezout a b (ext_gcd_fuel fuel b (a % b))
          (ext_gcd-Bezout_fuel fuel b (a % b) (omega arith)))
]

-- The coefficients combine the arguments to the result.
pub ext_gcd-Bezout : (a b : ℕ) → Bezout a b (ext_gcd a b)
unfolding ext_gcd
ext_gcd-Bezout a b = ext_gcd-Bezout_fuel (b + 1) a b (omega arith)

ext_gcd-gcd_fuel : (fuel a b : ℕ) → (ext_gcd_fuel fuel a b).gcd ≡ gcd_fuel fuel a b
unfolding ext_gcd_fuel ext_gcd_step gcd_fuel
ext_gcd-gcd_fuel zero a b = refl
ext_gcd-gcd_fuel (suc fuel) a b = elim (Bool-cases (b == 0)) [
  | inl done ↦ rw done refl
  | inr more ↦ rw more (ext_gcd-gcd_fuel fuel b (a % b))
]

-- The recursive algorithm returns what the loop of `gcd` does.
pub ext_gcd-gcd : (a b : ℕ) → (ext_gcd a b).gcd ≡ gcd a b
unfolding ext_gcd gcd
ext_gcd-gcd a b = ext_gcd-gcd_fuel (b + 1) a b

gcd_fuel-divides : (fuel a b : ℕ) → b < fuel → (gcd_fuel fuel a b ∣ a) × (gcd_fuel fuel a b ∣ b)
unfolding gcd_fuel
gcd_fuel-divides zero a b h = absurd (omega arith)
gcd_fuel-divides (suc fuel) a b h = elim (Bool-cases (b == 0)) [
  | inl done ↦ let e : b ≡ 0 = ground arith in rw (done, e) (Nat.dvd_refl a, Nat.dvd-zero a)
  | inr more ↦
      let less = Nat.mod-lt a {m = b} (ground arith) in
      let (left, right) = gcd_fuel-divides fuel b (a % b) (omega arith) in
      rw more ((Nat.dvd-mod_iff _ left).0 right, left)
]

gcd_fuel_greatest : (fuel k a b : ℕ) → k ∣ a → k ∣ b → k ∣ gcd_fuel fuel a b
unfolding gcd_fuel
gcd_fuel_greatest zero k a b ha hb = ha
gcd_fuel_greatest (suc fuel) k a b ha hb = elim (Bool-cases (b == 0)) [
  | inl done ↦ rw done ha
  | inr more ↦ rw more (gcd_fuel_greatest fuel k b (a % b) hb ((Nat.dvd-mod_iff k hb).1 ha))
]

-- `gcd` and `ext_gcd` return a common divisor that every common divisor divides, and the
-- coefficients of `ext_gcd` combine the arguments to it.
pub ext_gcd-Greatest :
    (a b : ℕ)
    → ((ext_gcd a b).gcd ≡ gcd a b)
      × (gcd a b ∣ a)
      × (gcd a b ∣ b)
      × ((k : ℕ) → k ∣ a → k ∣ b → k ∣ gcd a b)
      × Bezout a b (ext_gcd a b)
unfolding gcd
ext_gcd-Greatest a b =
    let (left, right) = gcd_fuel-divides (b + 1) a b (omega arith) in
    (ext_gcd-gcd a b, left, right, λ (k : ℕ). gcd_fuel_greatest (b + 1) k a b, ext_gcd-Bezout a b)
