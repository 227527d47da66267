-- ===== src/Rsa.antt =====
-- STCN/Session1/Lab_Session_1/Exp10_RSA_Algorithm/rsa.c. The numbers of the program are not
-- negative but for the coefficients of `ext_gcd`. The modulus and the totient are unsigned and wrap
-- around; the theorems bound the numbers so that no signed value overflows.
pub mod Coefficients
pub mod Euclid
pub mod Inverse
pub mod Binomial
pub mod Exponent
pub mod Fermat
pub mod Power
pub mod Prime
pub mod RoundTrip
mod Tests
use study_in_tezpur_universi.Common.{
  ℕ, zero, suc, ◌+◌, ◌-◌, ◌*◌, ◌/◌, ◌%◌, ◌^◌, List, [], ◌∷◌, map, Option, none, some, Bool, true,
  false, ◌||◌, ◌&&◌, not, ltb, leb, ◌==◌, if◌then◌else◌, text_eq,
}
use study_in_tezpur_universi.Common.Int.{ℤ, pos, neg, rem, plus, ◌-ℤ◌, times}

-- The result of `ext_gcd` and what it stores.
pub record ExtGcd : Type 0 where
  pub gcd : ℕ
  pub x : ℤ
  pub y : ℤ

pub ext_gcd_step : ℕ → ℕ → ExtGcd → ExtGcd
ext_gcd_step a b inner = record {
  gcd = inner.gcd;
  x = inner.y;
  y = inner.x -ℤ times (a / b) inner.y;
}

-- `b` falls from call to call, so that `b + 1` calls deep is enough.
pub ext_gcd_fuel : ℕ → ℕ → ℕ → ExtGcd
unfolding ext_gcd_step
ext_gcd_fuel zero a b = record { gcd = a; x = pos 1; y = pos 0 }
ext_gcd_fuel (suc fuel) a b =
    let inner = ext_gcd_step a b (ext_gcd_fuel fuel b (a % b)) in
    if b == 0 then record { gcd = a; x = pos 1; y = pos 0 } else inner

pub ext_gcd : ℕ → ℕ → ExtGcd
unfolding ext_gcd_fuel
ext_gcd a b = ext_gcd_fuel (b + 1) a b

-- The loop of `gcd`.
pub gcd_fuel : ℕ → ℕ → ℕ → ℕ
gcd_fuel zero a b = a
gcd_fuel (suc fuel) a b = let rest = gcd_fuel fuel b (a % b) in if b == 0 then a else rest

pub gcd : ℕ → ℕ → ℕ
unfolding gcd_fuel
gcd a b = gcd_fuel (b + 1) a b

-- `none` is the -1.
pub mod_inverse : ℕ → ℕ → Option ℕ
unfolding ext_gcd rem plus
mod_inverse e phi =
    let r = ext_gcd e phi in if not (r.gcd == 1) then none else some (plus (rem r.x phi) phi % phi)

-- The loop of `mod_exp`; `exp` is halved, so that `exp` rounds are enough. The products are taken in
-- 128 bits.
pub mod_exp_fuel : ℕ → ℕ → ℕ → ℕ → ℕ → ℕ
mod_exp_fuel zero base exp modulus result = result
mod_exp_fuel (suc fuel) base exp modulus result =
    let result' = if exp % 2 == 1 then result * base % modulus else result in
    let rest = mod_exp_fuel fuel (base * base % modulus) (exp / 2) modulus result' in
    if ltb 0 exp then rest else result

pub mod_exp : ℕ → ℕ → ℕ → ℕ
unfolding mod_exp_fuel
mod_exp base exp modulus = mod_exp_fuel exp (base % modulus) exp modulus 1

-- The loop of `is_prime`: `i` grows by 6, so that `n` rounds are enough.
pub trial_fuel : ℕ → ℕ → ℕ → Bool
trial_fuel zero n i = true
trial_fuel (suc fuel) n i =
    let rest = trial_fuel fuel n (i + 6) in
    if leb (i * i) n then (if n % i == 0 || n % (i + 2) == 0 then false else rest) else true

pub is_prime : ℕ → Bool
unfolding trial_fuel
is_prime n =
    if leb n 1
    then false
    else if leb n 3
    then true
    else if n % 2 == 0 || n % 3 == 0
    then false
    else trial_fuel n n 5

-- The loop that looks for the public exponent; each round adds 2.
pub exponent_fuel : ℕ → ℕ → ℕ → ℕ
unfolding gcd
exponent_fuel zero e phi = e
exponent_fuel (suc fuel) e phi =
    let rest = exponent_fuel fuel (e + 2) phi in
    if ltb e phi then (if gcd e phi == 1 then e else rest) else e

-- What `main` prints of its keys, and its two tests of encryption.
pub record Keys : Type 0 where
  pub n : ℕ
  pub phi : ℕ
  pub e : ℕ
  pub d : ℕ

pub record Report : Type 0 where
  pub keys : Keys
  pub int_cipher : ℕ
  pub int_decrypted : ℕ
  pub cipher_tokens : List ℕ
  pub decrypted_msg : List ℕ
  pub status : ℕ

pub data Outcome : Type 0 where
  not_prime no_inverse : Outcome
  finished : Report → Outcome

pub demonstrate : Keys → List ℕ → Report
unfolding mod_exp
demonstrate k test_msg =
    let int_cipher = mod_exp 42 k.e k.n in
    let cipher_tokens = map (λ (c : ℕ). mod_exp c k.e k.n) test_msg in
    let decrypted_msg = map (λ (c : ℕ). mod_exp c k.d k.n % 256) cipher_tokens in
    record {
      keys = k;
      int_cipher = int_cipher;
      int_decrypted = mod_exp int_cipher k.d k.n;
      cipher_tokens = cipher_tokens;
      decrypted_msg = decrypted_msg;
      status = if text_eq test_msg decrypted_msg then 0 else 1;
    }

pub with_inverse : ℕ → ℕ → ℕ → List ℕ → Option ℕ → Outcome
unfolding demonstrate
with_inverse n phi e test_msg none = no_inverse
with_inverse n phi e test_msg (some d) =
    finished (demonstrate (record { n = n; phi = phi; e = e; d = d }) test_msg)

-- `main` with its arguments, the primes read by `atoll`.
pub main : ℕ → ℕ → List ℕ → Outcome
unfolding is_prime exponent_fuel mod_inverse with_inverse
main p q test_msg =
    let n = p * q % 2 ^ 64 in
    let phi = (p - 1) * (q - 1) % 2 ^ 64 in
    let e = exponent_fuel phi 17 phi in
    if not (is_prime p) || not (is_prime q)
    then not_prime
    else with_inverse n phi e test_msg (mod_inverse e phi)
