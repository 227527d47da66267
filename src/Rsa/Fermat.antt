-- ===== src/Rsa/Fermat.antt =====
-- Fermat's theorem on the powers modulo a prime.
use native.Mathlib.Nat
use study_in_tezpur_universi.Common.{
  ℕ, zero, suc, ◌+◌, ◌*◌, ◌/◌, ◌%◌, ◌^◌, ◌<◌, ◌≡◌, refl, ap, sym, ◌∙◌, ◌==◌, arith, Bool-cases, inl,
  inr,
}
use study_in_tezpur_universi.Common.Int.{pos_part, neg_part}
use study_in_tezpur_universi.Rsa.{ext_gcd, gcd}
use study_in_tezpur_universi.Rsa.Euclid.{ext_gcd-Greatest}
use study_in_tezpur_universi.Rsa.Inverse.{mod_of_sum}
use study_in_tezpur_universi.Rsa.Power.{mod-mul-left}
use study_in_tezpur_universi.Rsa.Prime.{IsPrime}
use study_in_tezpur_universi.Rsa.Binomial.{
  binomial, binomial_all, binomial_absorb, terms, pow-terms,
}

pub quotient : (n m : ℕ) → n % m ≡ 0 → n ≡ m * (n / m)
quotient n m h = omega (arith, Nat.mod-add-div n m)

-- A number that a prime does not divide is coprime to it.
pub gcd-prime : (a p : ℕ) → IsPrime p → ¬ (a % p ≡ 0) → gcd a p ≡ 1
gcd-prime a p (above, only) apart =
    let (_, left, right, _, _) = ext_gcd-Greatest a p in
    let a_part = Nat.mod-eq-zero_of_dvd (gcd a p) left in
    let p_part = Nat.mod-eq-zero_of_dvd (gcd a p) right in
    elim (Bool-cases (gcd a p == 1)) [
      | inl one ↦ ground arith
      | inr other ↦
          let some_gcd : 0 < gcd a p = Nat.pos_of_dvd_of_pos right (omega arith) in
          let e : gcd a p ≡ p = only (gcd a p) (ground arith) p_part in
          absurd (apart (rw e at a_part))
    ]

-- What is coprime to a factor of a multiple divides the other factor.
pub coprime-mul : (a b p : ℕ) → gcd a p ≡ 1 → a * b % p ≡ 0 → b % p ≡ 0
coprime-mul a b p one divides =
    let (same, _, _, _, bezout) = ext_gcd-Greatest a p in
    let r = ext_gcd a p in
    let t = a * b / p in
    let split = quotient (a * b) p divides in
    let e : b + p * (t * neg_part r.x + neg_part r.y * b)
        ≡ 0 + p * (t * pos_part r.x + pos_part r.y * b) =
      omega (
        arith,
        ap (λ (s : ℕ). s * b)
            (bezout ∙ ap (λ (s : ℕ). s + a * neg_part r.x + p * neg_part r.y) (same ∙ one)),
        ap (λ (s : ℕ). s * neg_part r.x) split,
        ap (λ (s : ℕ). s * pos_part r.x) split,
      ) in
    mod_of_sum p b 0 _ _ e ∙ omega arith

pub prime-mul : (a b p : ℕ) → IsPrime p → a * b % p ≡ 0 → ¬ (a % p ≡ 0) → b % p ≡ 0
prime-mul a b p prime divides apart = coprime-mul a b p (gcd-prime a p prime apart) divides

-- The inner coefficients of a prime are its multiples.
binomial-prime : (p k : ℕ) → IsPrime (suc p) → suc k < suc p → binomial (suc p) (suc k) % suc p ≡ 0
binomial-prime p k prime below =
    let product : suc k * binomial (suc p) (suc k) % suc p ≡ 0 =
      ap (λ (t : ℕ). t % suc p) (binomial_absorb p k) ∙ Nat.mul-mod_right (suc p) (binomial p k) in
    let small = Nat.mod-eq_of_lt below in
    prime-mul (suc k) (binomial (suc p) (suc k)) (suc p) prime product
      (λ h. absurd (omega (arith, small, h)))

mod-add-zero : (x y m : ℕ) → y % m ≡ 0 → (x + y) % m ≡ x % m
mod-add-zero x y m h =
    let e : x + y ≡ x + m * (y / m) = omega (arith, quotient y m h) in
    ap (λ (t : ℕ). t % m) e ∙ Nat.add-mul-mod_self_left x m (y / m)

terms-prime : (a p m : ℕ) → IsPrime (suc p) → m < suc p → terms a (suc p) m % suc p ≡ 1 % suc p
unfolding terms
terms-prime a p zero prime below = refl
terms-prime a p (suc m) prime below =
    let zero_part : binomial (suc p) (suc m) * a ^ suc m % suc p ≡ 0 =
      sym (mod-mul-left (binomial (suc p) (suc m)) (a ^ suc m) (suc p))
      ∙ ap (λ (t : ℕ). t * a ^ suc m % suc p) (binomial-prime p m prime below)
      ∙ ap (λ (t : ℕ). t % suc p) (Nat.zero-mul (a ^ suc m))
      ∙ omega arith in
    mod-add-zero (terms a (suc p) m) (binomial (suc p) (suc m) * a ^ suc m) (suc p) zero_part
    ∙ terms-prime a p m prime (omega arith)

pow-mod-next : (a p : ℕ) → IsPrime (suc p) → (a + 1) ^ suc p % suc p ≡ (1 + a ^ suc p) % suc p
unfolding terms
pow-mod-next a p prime =
    let inner = terms-prime a p p prime (omega arith) in
    let last : binomial (suc p) (suc p) * a ^ suc p ≡ a ^ suc p =
      ap (λ (t : ℕ). t * a ^ suc p) (binomial_all (suc p)) ∙ Nat.one-mul (a ^ suc p) in
    let sum : (a + 1) ^ suc p ≡ terms a (suc p) p + a ^ suc p =
      pow-terms a (suc p) ∙ ap (λ (t : ℕ). terms a (suc p) p + t) last in
    ap (λ (t : ℕ). t % suc p) sum
    ∙ sym (Nat.mod-add-mod (terms a (suc p) p) (suc p) (a ^ suc p))
    ∙ ap (λ (t : ℕ). (t + a ^ suc p) % suc p) inner
    ∙ Nat.mod-add-mod 1 (suc p) (a ^ suc p)

-- A power to a prime leaves the base modulo the prime.
fermat_suc : (a p : ℕ) → IsPrime (suc p) → a ^ suc p % suc p ≡ a % suc p
fermat_suc zero p prime = ap (λ (t : ℕ). t % suc p) (Nat.pow-suc 0 p ∙ Nat.mul-zero (0 ^ p))
fermat_suc (suc a) p prime =
    let e : suc a ≡ a + 1 = omega arith in
    let one : 1 + a ≡ a + 1 = omega arith in
    rw e (
      pow-mod-next a p prime
      ∙ sym (Nat.add-mod-mod 1 (a ^ suc p) (suc p))
      ∙ ap (λ (t : ℕ). (1 + t) % suc p) (fermat_suc a p prime)
      ∙ Nat.add-mod-mod 1 a (suc p)
      ∙ ap (λ (t : ℕ). t % suc p) one)

pub fermat : (a p : ℕ) → IsPrime p → a ^ p % p ≡ a % p
fermat a zero prime = absurd (omega (arith, prime.0))
fermat a (suc p) prime = fermat_suc a p prime
