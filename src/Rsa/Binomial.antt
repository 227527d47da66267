-- ===== src/Rsa/Binomial.antt =====
-- The binomial coefficients and the binomial theorem for `a + 1`.
use native.Mathlib.Nat
use study_in_tezpur_universi.Common.{ℕ, zero, suc, ◌+◌, ◌*◌, ◌^◌, ◌<◌, ◌≡◌, refl, ap, ◌∙◌, arith}

unfoldable pub binomial : ℕ → ℕ → ℕ
binomial zero zero = 1
binomial zero (suc k) = 0
binomial (suc n) zero = 1
binomial (suc n) (suc k) = binomial n k + binomial n (suc k)

binomial_none : (n : ℕ) → binomial n zero ≡ 1
unfolding binomial
binomial_none zero = refl
binomial_none (suc n) = refl

binomial_above : (n k : ℕ) → n < k → binomial n k ≡ 0
unfolding binomial
binomial_above zero zero h = absurd (omega arith)
binomial_above zero (suc k) h = refl
binomial_above (suc n) zero h = absurd (omega arith)
binomial_above (suc n) (suc k) h =
    omega (arith, binomial_above n k (omega arith), binomial_above n (suc k) (omega arith))

pub binomial_all : (n : ℕ) → binomial n n ≡ 1
unfolding binomial
binomial_all zero = refl
binomial_all (suc n) = omega (arith, binomial_all n, binomial_above n (suc n) (omega arith))

pub binomial_absorb : (n k : ℕ) → suc k * binomial (suc n) (suc k) ≡ suc n * binomial n k
unfolding binomial
binomial_absorb zero zero = refl
binomial_absorb zero (suc k) = omega arith
binomial_absorb (suc n) zero =
    omega
      (arith, binomial_absorb n zero, binomial_none n, ap (λ (t : ℕ). suc n * t) (binomial_none n))
binomial_absorb (suc n) (suc k) = omega (arith, binomial_absorb n k, binomial_absorb n (suc k))

module _ (a : ℕ) where
  -- The terms of (a + 1)^n up to a^m.
  unfoldable pub terms : ℕ → ℕ → ℕ
  terms n zero = 1
  terms n (suc m) = terms n m + binomial n (suc m) * a ^ suc m

  terms_next : (n m : ℕ) → terms (suc n) (suc m) ≡ terms n (suc m) + a * terms n m
  unfolding terms binomial
  terms_next n zero =
      let one : a ^ 1 ≡ a =
        Nat.pow-suc a 0 ∙ ap (λ (t : ℕ). t * a) (Nat.pow-zero a) ∙ Nat.one-mul a in
      rw (one, binomial_none n) (omega arith)
  terms_next n (suc m) =
      let p : a ^ suc (suc m) ≡ a * a ^ suc m = Nat.pow-succ' a (suc m) in
      rw p (omega (arith, terms_next n m))

  -- (a + 1)^n is the sum of its terms.
  pub pow-terms : (n : ℕ) → (a + 1) ^ n ≡ terms n n
  unfolding terms
  pow-terms zero = Nat.pow-zero (a + 1)
  pow-terms (suc n) =
      let none : binomial n (suc n) * a ^ suc n ≡ 0 * a ^ suc n =
        ap (λ (t : ℕ). t * a ^ suc n) (binomial_above n (suc n) (omega arith)) in
      let next = terms_next n n in
      let power = Nat.pow-suc (a + 1) n in
      let ih = ap (λ (t : ℕ). t * (a + 1)) (pow-terms n) in power ∙ ih ∙ omega (arith, next, none)
