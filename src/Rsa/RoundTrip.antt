-- ===== src/Rsa/RoundTrip.antt =====
-- Decryption returns what was encrypted.
use native.Mathlib.Nat
use study_in_tezpur_universi.Common.{
  ℕ, zero, suc, ◌+◌, ◌-◌, ◌*◌, ◌/◌, ◌%◌, ◌^◌, ◌≤◌, ◌<◌, ◌≡◌, refl, ap, sym, ◌∙◌, List, [], ◌∷◌, map,
  Option, none, some, leb, text_eq_self, arith, Bool-cases, inl, inr,
}
use study_in_tezpur_universi.Rsa.{
  gcd, mod_inverse, mod_exp, exponent_fuel, Keys, Report, finished, demonstrate, with_inverse, main,
}
use study_in_tezpur_universi.Rsa.Euclid.{ext_gcd-Greatest}
use study_in_tezpur_universi.Rsa.Inverse.{mod_of_sum, IsInverse, mod_inverse_lem}
use study_in_tezpur_universi.Rsa.Power.{mod-mul-left, mul-pow-mod, mod_exp_lem}
use study_in_tezpur_universi.Rsa.Prime.{IsPrime, is_prime_lem}
use study_in_tezpur_universi.Rsa.Fermat.{quotient, prime-mul, fermat}
use study_in_tezpur_universi.Rsa.Exponent.{exponent-coprime, totient_even}

pow-add : (x a b : ℕ) → x ^ (a + b) ≡ x ^ a * x ^ b
pow-add x zero b =
    let e : zero + b ≡ b = omega arith in rw (e, Nat.pow-zero x) (sym (Nat.one-mul (x ^ b)))
pow-add x (suc a) b =
    let e : suc a + b ≡ suc (a + b) = omega arith in
    rw (e, Nat.pow-succ' x (a + b), Nat.pow-succ' x a)
      (omega (arith, ap (λ (t : ℕ). x * t) (pow-add x a b)))

pow-mul : (x a b : ℕ) → (x ^ a) ^ b ≡ x ^ (a * b)
pow-mul x a zero =
    let e : a * zero ≡ zero = omega arith in rw e (Nat.pow-zero (x ^ a) ∙ sym (Nat.pow-zero x))
pow-mul x a (suc b) =
    let e : a * suc b ≡ a * b + a = omega arith in
    rw e (
      Nat.pow-suc (x ^ a) b ∙ ap (λ (t : ℕ). t * x ^ a) (pow-mul x a b) ∙ sym (pow-add x (a * b) a))

-- Going round the powers modulo a prime any number of times.
pow_cycle : (m p j : ℕ) → IsPrime p → m ^ (1 + j * (p - 1)) % p ≡ m % p
pow_cycle m p zero prime =
    let e : 1 + zero * (p - 1) ≡ 1 = omega arith in
    rw (e, Nat.pow-suc m 0, Nat.pow-zero m, Nat.one-mul m) refl
pow_cycle m p (suc j) prime =
    let e : 1 + suc j * (p - 1) ≡ 1 + j * (p - 1) + (p - 1) = omega arith in
    let next : suc (p - 1) ≡ p = omega (arith, prime.0) in
    ap (λ (t : ℕ). m ^ t % p) e
    ∙ ap (λ (t : ℕ). t % p) (pow-add m (1 + j * (p - 1)) (p - 1))
    ∙ sym (mod-mul-left (m ^ (1 + j * (p - 1))) (m ^ (p - 1)) p)
    ∙ ap (λ (t : ℕ). t * m ^ (p - 1) % p) (pow_cycle m p j prime)
    ∙ mod-mul-left m (m ^ (p - 1)) p
    ∙ ap (λ (t : ℕ). t % p) (sym (Nat.pow-succ' m (p - 1)))
    ∙ ap (λ (t : ℕ). m ^ t % p) next
    ∙ fermat m p prime

-- What two numbers differ by, where the remainder is the same.
same-mod : (x y p : ℕ) → y ≤ x → 0 < p → x % p ≡ y % p → (x - y) % p ≡ 0
same-mod x y p ordered some_p h =
    let monotone : y / p ≤ x / p = elim (Bool-cases (leb (y / p) (x / p))) [
      | inl up ↦ ground arith
      | inr down ↦
          let above : p * (x / p + 1) ≤ p * (y / p) = Nat.mul-le-mul_left p (ground arith) in
          absurd (omega (arith, Nat.mod-add-div x p, Nat.mod-add-div y p, h, above))
    ] in
    let e : x - y ≡ p * (x / p - y / p) =
      omega (arith, Nat.mod-add-div x p, Nat.mod-add-div y p, h, Nat.mul-sub p (x / p) (y / p)) in
    ap (λ (t : ℕ). t % p) e ∙ Nat.mul-mod_right p (x / p - y / p)

-- Two numbers that agree modulo two primes agree modulo their product.
module _ (p q : ℕ) (p_prime : IsPrime p) (q_prime : IsPrime q) (apart : ¬ (p ≡ q)) where
  same_product_ordered :
      (x y : ℕ) → y ≤ x → x % p ≡ y % p → x % q ≡ y % q → x % (p * q) ≡ y % (p * q)
  same_product_ordered x y ordered at_p at_q =
      let s = (x - y) / p in
      let split = quotient (x - y) p (same-mod x y p ordered (omega (arith, p_prime.0)) at_p) in
      let not_q : ¬ (p % q ≡ 0) = λ h. apart (sym (p_prime.1 q q_prime.0 h)) in
      let divides : p * s % q ≡ 0 =
        ap (λ (t : ℕ). t % q) (sym split)
        ∙ same-mod x y q ordered (omega (arith, q_prime.0)) at_q in
      let inner = quotient s q (prime-mul p s q q_prime divides not_q) in
      let e : x + p * q * 0 ≡ y + p * q * (s / q) =
        omega (arith, split, ap (λ (t : ℕ). p * t) inner) in
      mod_of_sum (p * q) x y 0 (s / q) e

  same_product : (x y : ℕ) → x % p ≡ y % p → x % q ≡ y % q → x % (p * q) ≡ y % (p * q)
  same_product x y at_p at_q = elim (Bool-cases (leb y x)) [
    | inl ordered ↦ same_product_ordered x y (ground arith) at_p at_q
    | inr other ↦ sym (same_product_ordered y x (ground arith) (sym at_p) (sym at_q))
  ]

  pow-identity : (m k : ℕ) → m ^ (1 + k * ((p - 1) * (q - 1))) % (p * q) ≡ m % (p * q)
  pow-identity m k =
      let at_p : k * ((p - 1) * (q - 1)) ≡ k * (q - 1) * (p - 1) = omega arith in
      let at_q : k * ((p - 1) * (q - 1)) ≡ k * (p - 1) * (q - 1) = omega arith in
      same_product (m ^ (1 + k * ((p - 1) * (q - 1)))) m
        (ap (λ (t : ℕ). m ^ (1 + t) % p) at_p ∙ pow_cycle m p (k * (q - 1)) p_prime)
        (ap (λ (t : ℕ). m ^ (1 + t) % q) at_q ∙ pow_cycle m q (k * (p - 1)) q_prime)

  several : 1 < p * q
  several = omega (arith, p_prime.0, q_prime.0, Nat.mul-le-mul p_prime.0 q_prime.0)

  -- Raising to an exponent and then to its inverse returns a message below the modulus.
  pub decrypt-encrypt :
      (m e d : ℕ)
      → m < p * q
      → e * d % ((p - 1) * (q - 1)) ≡ 1
      → mod_exp (mod_exp m e (p * q)) d (p * q) ≡ m
  decrypt-encrypt m e d below inverse =
      let n = p * q in
      let phi = (p - 1) * (q - 1) in
      let k = e * d / phi in
      let exponent : e * d ≡ 1 + k * phi = omega (arith, Nat.mod-add-div (e * d) phi, inverse) in
      mod_exp_lem (mod_exp m e n) d n several
      ∙ ap (λ (t : ℕ). t ^ d % n) (mod_exp_lem m e n several)
      ∙ ap (λ (t : ℕ). t % n) (sym (Nat.one-mul ((m ^ e % n) ^ d)))
      ∙ mul-pow-mod d 1 (m ^ e) n
      ∙ ap (λ (t : ℕ). t % n) (Nat.one-mul ((m ^ e) ^ d) ∙ pow-mul m e d)
      ∙ ap (λ (t : ℕ). m ^ t % n) exponent
      ∙ pow-identity m k
      ∙ Nat.mod-eq_of_lt below

-- A text of characters that fit into a byte and below `n`.
abbrev pub Fits : ℕ → List ℕ → Type 0
Fits n [] = Unit
Fits n (c ∷ text) = (c < 256) × (c < n) × Fits n text

map-decrypt :
    (n e d : ℕ) (text : List ℕ)
    → ((m : ℕ) → m < n → mod_exp (mod_exp m e n) d n ≡ m)
    → Fits n text
    → map (λ (c : ℕ). mod_exp c d n % 256) (map (λ (c : ℕ). mod_exp c e n) text) ≡ text
map-decrypt n e d [] back fits = refl
map-decrypt n e d (c ∷ text) back (byte, below, fits) =
    let here : mod_exp (mod_exp c e n) d n % 256 ≡ c =
      ap (λ (t : ℕ). t % 256) (back c below) ∙ Nat.mod-eq_of_lt byte in
    rw (here, map-decrypt n e d text back fits)

-- What a successful run should report.
pub record Recovers (text : List ℕ) (n : ℕ) (r : Report) : Type 0 where
  pub decrypted : r.decrypted_msg ≡ text
  pub status : r.status ≡ 0
  pub number : 42 < n → r.int_decrypted ≡ 42

demonstrate-Recovers :
    (k : Keys) (text : List ℕ)
    → ((m : ℕ) → m < k.n → mod_exp (mod_exp m k.e k.n) k.d k.n ≡ m)
    → Fits k.n text
    → Recovers text k.n (demonstrate k text)
unfolding demonstrate
demonstrate-Recovers k text back fits =
    let same = map-decrypt k.n k.e k.d text back fits in
    record {
      decrypted = same;
      status = rw (same, text_eq_self text) refl;
      number = λ below. back 42 below;
    }

with_inverse-Recovers :
    (n phi e : ℕ) (text : List ℕ) (inverse : Option ℕ)
    → gcd e phi ≡ 1
    → IsInverse e phi inverse
    → ((d m : ℕ) → m < n → e * d % phi ≡ 1 → mod_exp (mod_exp m e n) d n ≡ m)
    → Fits n text
    → (r : Report) × (with_inverse n phi e text inverse ≡ finished r) × Recovers text n r
unfolding with_inverse
with_inverse-Recovers n phi e text none one (k, above, left, right) back fits =
    let (_, _, _, greatest, _) = ext_gcd-Greatest e phi in
    let e : k ≡ 1 = Nat.eq-one_of_dvd-one (rw one at (greatest k left right)) in
    absurd (omega arith)
with_inverse-Recovers n phi e text (some d) one (_, inverse) back fits =
    let k : Keys = record { n = n; phi = phi; e = e; d = d } in
    (demonstrate k text, refl, demonstrate-Recovers k text (λ m below. back d m below inverse) fits)

even_above : (n : ℕ) → 1 ≤ n → n % 2 ≡ 0 → 1 < n
even_above n some_n even = omega arith

totient_above : (p q : ℕ) → IsPrime p → IsPrime q → ¬ (p ≡ q) → 1 < (p - 1) * (q - 1)
totient_above p q p_prime q_prime apart =
    let one =
      Nat.mul-le-mul {n₁ = 1} {m₁ = 1} {n₂ = p - 1} {m₂ = q - 1} (omega (arith, p_prime.0))
        (omega (arith, q_prime.0)) in
    even_above ((p - 1) * (q - 1)) one (totient_even p q p_prime q_prime apart)

-- For two different primes whose product is below 2^62, and a text whose characters fit into a byte
-- and lie below the product, the program finds its keys, decrypts every character to what it was, and
-- returns 0; the number 42 is decrypted if it lies below the product.
pub main-Recovers :
    (p q : ℕ) (text : List ℕ)
    → IsPrime p
    → IsPrime q
    → ¬ (p ≡ q)
    → p * q < 2 ^ 62
    → Fits (p * q) text
    → (r : Report) × (main p q text ≡ finished r) × Recovers text (p * q) r
unfolding main
main-Recovers p q text p_prime q_prime apart small fits =
    let phi = (p - 1) * (q - 1) in
    let e = exponent_fuel phi 17 phi in
    let above = totient_above p q p_prime q_prime apart in
    let one = exponent-coprime phi (omega arith) (totient_even p q p_prime q_prime apart) in
    let below : phi ≤ p * q =
      Nat.mul-le-mul {n₁ = p - 1} {m₁ = q - 1} {n₂ = p} {m₂ = q} (omega arith) (omega arith) in
    let n_kept : p * q % 2 ^ 64 ≡ p * q = omega arith in
    let phi_kept : phi % 2 ^ 64 ≡ phi = omega arith in
    let p_passes = (is_prime_lem p).1 p_prime in
    let q_passes = (is_prime_lem q).1 q_prime in
    rw (n_kept, phi_kept, p_passes, q_passes)
      (with_inverse-Recovers (p * q) phi e text (mod_inverse e phi) one
        (mod_inverse_lem e phi above)
        (λ d m below inverse. decrypt-encrypt p q p_prime q_prime apart m e d below inverse) fits)
