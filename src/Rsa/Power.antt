-- ===== src/Rsa/Power.antt =====
-- `mod_exp` computes the power.
use native.Mathlib.Nat
use study_in_tezpur_universi.Common.{
  ℕ, zero, suc, ◌+◌, ◌*◌, ◌/◌, ◌%◌, ◌^◌, ◌≤◌, ◌<◌, ◌≡◌, refl, ap, sym, ◌∙◌, ltb, ◌==◌,
  if◌then◌else◌, arith, Bool-cases, inl, inr,
}
use study_in_tezpur_universi.Rsa.{mod_exp_fuel, mod_exp}

pub mod-mul-left : (a b m : ℕ) → a % m * b % m ≡ a * b % m
mod-mul-left a b m =
    let split : a * b ≡ a % m * b + m * (a / m * b) =
      omega (arith, ap (λ (t : ℕ). t * b) (Nat.mod-add-div a m)) in
    sym (Nat.add-mul-mod_self_left (a % m * b) m (a / m * b)) ∙ ap (λ (t : ℕ). t % m) (sym split)

pub mod-mul-right : (a b m : ℕ) → a * (b % m) % m ≡ a * b % m
mod-mul-right a b m = rw (Nat.mul_comm a (b % m), mod-mul-left b a m, Nat.mul_comm b a) refl

pub mul-pow-mod : (k r x m : ℕ) → r * (x % m) ^ k % m ≡ r * x ^ k % m
mul-pow-mod zero r x m = rw (Nat.pow-zero (x % m), Nat.pow-zero x) refl
mul-pow-mod (suc k) r x m =
    let y = x % m in
    let front : r * y ^ suc k ≡ r * y * y ^ k =
      omega (arith, ap (λ (t : ℕ). r * t) (Nat.pow-suc y k)) in
    let back : r * x ^ suc k ≡ r * x ^ k * x =
      omega (arith, ap (λ (t : ℕ). r * t) (Nat.pow-suc x k)) in
    let swap : r * y * x ^ k ≡ r * x ^ k * y = omega arith in
    ap (λ (t : ℕ). t % m) front
    ∙ mul-pow-mod k (r * y) x m
    ∙ ap (λ (t : ℕ). t % m) swap
    ∙ mod-mul-right (r * x ^ k) x m
    ∙ ap (λ (t : ℕ). t % m) (sym back)

pow-square : (k x : ℕ) → (x * x) ^ k ≡ x ^ (k + k)
pow-square zero x = Nat.pow-zero (x * x) ∙ sym (Nat.pow-zero x)
pow-square (suc k) x =
    let e : suc k + suc k ≡ suc (suc (k + k)) = omega arith in
    rw
      (Nat.pow-suc (x * x) k, pow-square k x, e, Nat.pow-suc x (suc (k + k)), Nat.pow-suc x (k + k))
      (omega arith)

-- An exponent by its half and its parity.
pow_odd : (x exp : ℕ) → exp % 2 ≡ 1 → x ^ exp ≡ x * (x * x) ^ (exp / 2)
pow_odd x exp h =
    let e : exp ≡ suc (exp / 2 + exp / 2) = omega arith in
    ap (λ (t : ℕ). x ^ t) e
    ∙ Nat.pow-succ' x (exp / 2 + exp / 2)
    ∙ ap (λ (t : ℕ). x * t) (sym (pow-square (exp / 2) x))

pow_even : (x exp : ℕ) → exp % 2 ≡ 0 → x ^ exp ≡ (x * x) ^ (exp / 2)
pow_even x exp h =
    let e : exp ≡ exp / 2 + exp / 2 = omega arith in
    ap (λ (t : ℕ). x ^ t) e ∙ sym (pow-square (exp / 2) x)

-- One round keeps `result * base ^ exp` modulo `m`.
round-power :
    (base exp m result : ℕ)
    → (if exp % 2 == 1 then result * base % m else result) * (base * base % m) ^ (exp / 2) % m
      ≡ result * base ^ exp % m
round-power base exp m result = elim (Bool-cases (exp % 2 == 1)) [
  | inl odd ↦ rw odd (
      mul-pow-mod (exp / 2) (result * base % m) (base * base) m
      ∙ mod-mul-left (result * base) ((base * base) ^ (exp / 2)) m
      ∙ ap (λ (t : ℕ). t % m)
          (omega (arith, ap (λ (t : ℕ). result * t) (pow_odd base exp (ground arith)))))
  | inr even ↦ rw even (
      mul-pow-mod (exp / 2) result (base * base) m
      ∙ ap (λ (t : ℕ). result * t % m) (sym (pow_even base exp (ground arith))))
]

mod_exp_fuel-power :
    (fuel base exp m result : ℕ)
    → exp ≤ fuel
    → mod_exp_fuel fuel base exp m result % m ≡ result * base ^ exp % m
unfolding mod_exp_fuel
mod_exp_fuel-power zero base exp m result h =
    let e : exp ≡ 0 = omega arith in rw (e, Nat.pow-zero base, Nat.mul-one result) refl
mod_exp_fuel-power (suc fuel) base exp m result h = elim (Bool-cases (ltb 0 exp)) [
  | inl more ↦ rw more (
      mod_exp_fuel-power fuel (base * base % m) (exp / 2) m
        (if exp % 2 == 1 then result * base % m else result) (ground arith)
      ∙ round-power base exp m result)
  | inr done ↦
      let e : exp ≡ 0 = ground arith in rw (done, e, Nat.pow-zero base, Nat.mul-one result) refl
]

mod_exp_fuel-below :
    (fuel base exp m result : ℕ) → result < m → mod_exp_fuel fuel base exp m result < m
unfolding mod_exp_fuel
mod_exp_fuel-below zero base exp m result h = h
mod_exp_fuel-below (suc fuel) base exp m result h =
    let result' = if exp % 2 == 1 then result * base % m else result in
    let below : result' < m = elim (Bool-cases (exp % 2 == 1)) [
      | inl odd ↦ rw odd (Nat.mod-lt (result * base) (omega arith))
      | inr even ↦ rw even h
    ] in
    let rest = mod_exp_fuel-below fuel (base * base % m) (exp / 2) m result' below in
    elim (Bool-cases (ltb 0 exp)) [ inl more ↦ rw more rest | inr done ↦ rw done h ]

pub mod_exp_lem :
    (base exp modulus : ℕ) → 1 < modulus → mod_exp base exp modulus ≡ base ^ exp % modulus
unfolding mod_exp
mod_exp_lem base exp modulus h =
    sym (Nat.mod-eq_of_lt (mod_exp_fuel-below exp (base % modulus) exp modulus 1 h))
    ∙ mod_exp_fuel-power exp (base % modulus) exp modulus 1 (omega arith)
    ∙ mul-pow-mod exp 1 base modulus
    ∙ ap (λ (t : ℕ). t % modulus) (Nat.one-mul (base ^ exp))

-- Every product of the loop fits into the 127 bits that `__int128` has for it.
pub ProductsFit : ℕ → ℕ → ℕ → ℕ → ℕ → Type 0
ProductsFit zero base exp modulus result = Unit
ProductsFit (suc fuel) base exp modulus result =
    (result * base < 2 ^ 127)
    × (base * base < 2 ^ 127)
    × ProductsFit fuel (base * base % modulus) (exp / 2) modulus
        (if exp % 2 == 1 then result * base % modulus else result)

product_fits : (a b m : ℕ) → a < m → b < m → m ≤ 2 ^ 63 → a * b < 2 ^ 127
product_fits a b m a_below b_below small =
    let h : a * b ≤ 2 ^ 63 * 2 ^ 63 =
      Nat.mul-le-mul {n₁ = a} {m₁ = b} {n₂ = 2 ^ 63} {m₂ = 2 ^ 63} (omega arith) (omega arith) in
    omega arith

fuel-ProductsFit :
    (fuel base exp modulus result : ℕ)
    → base < modulus
    → result < modulus
    → modulus ≤ 2 ^ 63
    → ProductsFit fuel base exp modulus result
unfolding ProductsFit
fuel-ProductsFit zero base exp modulus result b r small = tt
fuel-ProductsFit (suc fuel) base exp modulus result b r small =
    let next : (if exp % 2 == 1 then result * base % modulus else result) < modulus =
      elim (Bool-cases (exp % 2 == 1)) [
        | inl odd ↦ rw odd (Nat.mod-lt (result * base) (omega arith))
        | inr even ↦ rw even r
      ] in
    (
      product_fits result base modulus r b small,
      product_fits base base modulus b b small,
      fuel-ProductsFit fuel (base * base % modulus) (exp / 2) modulus
          (if exp % 2 == 1 then result * base % modulus else result)
          (Nat.mod-lt (base * base) (omega arith)) next small,
    )

-- For a modulus above 1 and up to 2^63, `mod_exp` is the power reduced by the modulus, and no product
-- of its loop overflows.
pub mod_exp-power :
    (base exp modulus : ℕ)
    → 1 < modulus
    → modulus ≤ 2 ^ 63
    → (mod_exp base exp modulus ≡ base ^ exp % modulus)
      × ProductsFit exp (base % modulus) exp modulus 1
mod_exp-power base exp modulus h small = (
  mod_exp_lem base exp modulus h,
  fuel-ProductsFit exp (base % modulus) exp modulus 1 (Nat.mod-lt base (omega arith)) h small,
)
