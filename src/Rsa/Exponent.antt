-- ===== src/Rsa/Exponent.antt =====
-- The search for the public exponent ends with one that has an inverse.
use Prim.Native.Nat.{◌∣◌}
use native.Mathlib.Nat
use study_in_tezpur_universi.Common.{
  ℕ, zero, suc, ◌+◌, ◌-◌, ◌*◌, ◌%◌, ◌≤◌, ◌<◌, ◌≡◌, refl, ap, sym, ◌∙◌, true, ◌==◌, ltb, arith,
  Bool-cases, inl, inr,
}
use study_in_tezpur_universi.Rsa.{gcd, is_prime, exponent_fuel}
use study_in_tezpur_universi.Rsa.Euclid.{ext_gcd-Greatest}
use study_in_tezpur_universi.Rsa.Power.{mod-mul-left, mod-mul-right}
use study_in_tezpur_universi.Rsa.Prime.{IsPrime, is_prime_lem}

gcd-divides : (a b : ℕ) → (gcd a b ∣ a) × (gcd a b ∣ b)
gcd-divides a b = let (_, left, right, _, _) = ext_gcd-Greatest a b in (left, right)

gcd_next : (n : ℕ) → 0 < n → gcd (n - 1) n ≡ 1
gcd_next n h =
    let (left, right) = gcd-divides (n - 1) n in
    let e : n - (n - 1) ≡ 1 = omega arith in
    Nat.eq-one_of_dvd-one (rw e at (Nat.dvd-sub (gcd (n - 1) n) right left))

gcd_below_prime : (p n : ℕ) → IsPrime p → 0 < n → n < p → gcd p n ≡ 1
gcd_below_prime p n (above, only) some_n below =
    let (left, right) = gcd-divides p n in
    let small = Nat.le_of_dvd {m = gcd p n} {n = n} some_n right in
    let some_gcd = Nat.pos_of_dvd_of_pos right some_n in
    elim (Bool-cases (gcd p n == 1)) [
      | inl one ↦ ground arith
      | inr other ↦
          let e =
            only (gcd p n) (ground (arith, some_gcd)) (Nat.mod-eq-zero_of_dvd (gcd p n) left) in
          absurd (omega (arith, e, small))
    ]

exponent_fuel-coprime :
    (fuel e phi : ℕ)
    → phi % 2 ≡ 0
    → e % 2 ≡ 1
    → e < phi
    → phi ≤ e + 2 * fuel
    → gcd (exponent_fuel fuel e phi) phi ≡ 1
unfolding exponent_fuel
exponent_fuel-coprime zero e phi even odd below enough = absurd (omega arith)
exponent_fuel-coprime (suc fuel) e phi even odd below enough =
    let more : ltb e phi ≡ true = ground arith in
    elim (Bool-cases (gcd e phi == 1)) [
      | inl one ↦ rw (more, one) (ground arith)
      | inr other ↦
          let last : ¬ (e ≡ phi - 1) = λ h.
            let one = gcd_next phi (omega arith) in
            let clash : gcd e phi ≡ 1 = rw h one in absurd (ground arith) in
          rw (more, other)
            (exponent_fuel-coprime fuel (e + 2) phi even (omega arith) (omega (arith, last))
              (omega arith))
    ]

IsPrime-17 : IsPrime 17
unfolding is_prime
IsPrime-17 = (is_prime_lem 17).0 refl

-- For an even totient the exponent is coprime to it.
pub exponent-coprime : (phi : ℕ) → 0 < phi → phi % 2 ≡ 0 → gcd (exponent_fuel phi 17 phi) phi ≡ 1
unfolding exponent_fuel
exponent-coprime zero some_phi even = absurd (omega arith)
exponent-coprime (suc n) some_phi even = elim (Bool-cases (ltb 17 (suc n))) [
  | inl more ↦ exponent_fuel-coprime (suc n) 17 (suc n) even refl (ground arith) (omega arith)
  | inr small ↦ rw small (gcd_below_prime 17 (suc n) IsPrime-17 some_phi (ground arith))
]

odd_prime : (p : ℕ) → IsPrime p → ¬ (p ≡ 2) → (p - 1) % 2 ≡ 0
odd_prime p (above, only) other = elim (Bool-cases (p % 2 == 0)) [
  | inl even ↦ absurd (other (sym (only 2 (omega arith) (ground arith))))
  | inr odd ↦ ground arith
]

-- The totient of two primes is even.
pub totient_even : (p q : ℕ) → IsPrime p → IsPrime q → ¬ (p ≡ q) → (p - 1) * (q - 1) % 2 ≡ 0
totient_even p q p_prime q_prime apart = elim (Bool-cases (p == 2)) [
  | inl two ↦
      let other : ¬ (q ≡ 2) = ground arith in
      sym (mod-mul-right (p - 1) (q - 1) 2)
      ∙ ap (λ (t : ℕ). (p - 1) * t % 2) (odd_prime q q_prime other)
      ∙ ap (λ (t : ℕ). t % 2) (Nat.mul-zero (p - 1))
  | inr other ↦
      sym (mod-mul-left (p - 1) (q - 1) 2)
      ∙ ap (λ (t : ℕ). t * (q - 1) % 2) (odd_prime p p_prime (ground arith))
      ∙ ap (λ (t : ℕ). t % 2) (Nat.zero-mul (q - 1))
]
