-- ===== src/Rsa/Prime.antt =====
-- `is_prime` decides whether a number is prime.
use native.Mathlib.Nat
use study_in_tezpur_universi.Common.{
  ℕ, zero, suc, ◌+◌, ◌*◌, ◌/◌, ◌%◌, ◌^◌, ◌≤◌, ◌<◌, ◌≡◌, refl, ap, ◌∙◌, ◌↔◌, ◌⊎◌, true, false, ◌||◌,
  leb, ◌==◌, arith, Bool-cases, inl, inr,
}
use study_in_tezpur_universi.Rsa.{trial_fuel, is_prime}

-- A number above 1 without a divisor but 1 and itself.
abbrev pub IsPrime : ℕ → Type 0
IsPrime n = (1 < n) × ((d : ℕ) → 1 < d → n % d ≡ 0 → d ≡ n)

-- What trial division leaves to be tested.
IsCandidate : ℕ → Type 0
IsCandidate d = (d % 6 ≡ 5) ⊎ (d % 6 ≡ 1)

-- The candidates from `i` on do not divide a number that passes.
trial-no_divisor :
    (fuel n i d : ℕ)
    → trial_fuel fuel n i ≡ true
    → i % 6 ≡ 5
    → IsCandidate d
    → i ≤ d
    → d < i + 6 * fuel
    → d * d ≤ n
    → ¬ (n % d ≡ 0)
unfolding trial_fuel IsCandidate
trial-no_divisor zero n i d passed phase candidate from to square divides = absurd (omega arith)
trial-no_divisor (suc fuel) n i d passed phase candidate from to square divides =
    let small : i * i ≤ n = omega (arith, Nat.mul-le-mul from from, square) in
    let in_range : leb (i * i) n ≡ true = ground arith in
    elim (Bool-cases (n % i == 0 || n % (i + 2) == 0)) [
      | inl found ↦ let e : false ≡ true = rw (in_range, found) at passed in absurd (ground arith)
      | inr none_found ↦
          let more : trial_fuel fuel n (i + 6) ≡ true = rw (in_range, none_found) at passed in
          let not_i : ¬ (d ≡ i) =
            λ e. let z : n % i ≡ 0 = rw e at divides in absurd (ground arith) in
          let not_next : ¬ (d ≡ i + 2) =
            λ e. let z : n % (i + 2) ≡ 0 = rw e at divides in absurd (ground arith) in
          let beyond : i + 6 ≤ d = elim candidate [
            | inl five ↦ omega arith
            | inr one ↦ omega arith
          ] in
          trial-no_divisor fuel n (i + 6) d more (omega arith) candidate beyond (omega arith) square
            divides
    ]

trial-IsPrime : (fuel n i : ℕ) → IsPrime n → 5 ≤ i → trial_fuel fuel n i ≡ true
unfolding trial_fuel
trial-IsPrime zero n i p from = refl
trial-IsPrime (suc fuel) n i (above, only) from = elim (Bool-cases (leb (i * i) n)) [
  | inl square ↦
      let large : 5 * i ≤ i * i = Nat.mul-le-mul_right i from in
      let h : i * i ≤ n = ground arith in
      let no_i : ¬ (n % i ≡ 0) = λ z. let e = only i (omega arith) z in absurd (omega arith) in
      let no_next : ¬ (n % (i + 2) ≡ 0) =
        λ z. let e = only (i + 2) (omega arith) z in absurd (omega arith) in
      let none_found : (n % i == 0 || n % (i + 2) == 0) ≡ false = ground arith in
      rw (square, none_found) (trial-IsPrime fuel n (i + 6) (above, only) (omega arith))
  | inr done ↦ rw done refl
]

mod_of_mod : (k c n : ℕ) → c % k ≡ 0 → n % c ≡ 0 → n % k ≡ 0
mod_of_mod k c n h divides =
    Nat.mod-eq-zero_of_dvd k
      (Nat.dvd_trans k (Nat.dvd_of_mod-eq-zero k h) (Nat.dvd_of_mod-eq-zero c divides))

quotient_above : (n d k : ℕ) → n ≡ d * k → 1 < n → ¬ (d ≡ n) → 1 < k
quotient_above n d zero product some_n apart = absurd (omega (arith, product, Nat.mul-zero d))
quotient_above n d (suc zero) product some_n apart =
    absurd (apart (omega (arith, product, Nat.mul-one d)))
quotient_above n d (suc (suc k)) product some_n apart = omega arith

-- A number that passes the whole test has no divisor up to its root.
module _ (n : ℕ) (odd : ¬ (n % 2 ≡ 0)) (third : ¬ (n % 3 ≡ 0))
    (passed : trial_fuel n n 5 ≡ true) where
  no_small_divisor : (c : ℕ) → 1 < c → c * c ≤ n → ¬ (n % c ≡ 0)
  unfolding IsCandidate
  no_small_divisor c above square divides =
      let grows : c * 1 ≤ c * c = Nat.mul-le-mul_left c (omega arith) in
      let two : ¬ (c % 2 ≡ 0) = λ h. odd (mod_of_mod 2 c n h divides) in
      let three : ¬ (c % 3 ≡ 0) = λ h. third (mod_of_mod 3 c n h divides) in
      let try : IsCandidate c → ⊥ =
        λ w. trial-no_divisor n n 5 c passed refl w (omega arith) (omega arith) square divides in
      elim (Bool-cases (c % 6 == 5)) [
        | inl five ↦ try (inl (ground arith))
        | inr other ↦ try (inr (ground arith))
      ]

  divisor-eq : (d : ℕ) → 1 < n → 1 < d → n % d ≡ 0 → d ≡ n
  divisor-eq d some_n above divides = elim (Bool-cases (d == n)) [
    | inl same ↦ ground arith
    | inr other ↦
        let k = n / d in
        let product : n ≡ d * k = omega (arith, Nat.mod-add-div n d) in
        let divides' : n % k ≡ 0 = ap (λ (t : ℕ). t % k) product ∙ Nat.mul-mod_left d k in
        elim (Bool-cases (leb d k)) [
          | inl low ↦
              let s : d * d ≤ d * k = Nat.mul-le-mul_left d (ground arith) in
              absurd (no_small_divisor d above (omega arith) divides)
          | inr high ↦
              let s : k * k ≤ d * k = Nat.mul-le-mul_right k (ground arith) in
              let apart : ¬ (d ≡ n) = ground arith in
              absurd (
                no_small_divisor k (quotient_above n d k product some_n apart) (omega arith)
                  divides')
        ]
  ]

small-IsPrime : (n : ℕ) → 1 < n → n ≤ 3 → IsPrime n
small-IsPrime n above small = (
  above,
  λ (d : ℕ) one_d divides.
      let low = Nat.le_of_dvd {m = d} {n = n} (omega arith) (Nat.dvd_of_mod-eq-zero d divides) in
      elim (Bool-cases (d == n)) [
        | inl same ↦ ground arith
        | inr other ↦
            let two : d ≡ 2 = ground arith in
            let three : n ≡ 3 = ground arith in
            let z : 3 % 2 ≡ 0 = rw (three, two) at divides in absurd (omega (arith, z))
      ],
)

not_divided : (n : ℕ) → IsPrime n → 3 < n → ¬ ((n % 2 == 0 || n % 3 == 0) ≡ true)
not_divided n (above, only) large found = elim (Bool-cases (n % 2 == 0)) [
  | inl even ↦ let e = only 2 (omega arith) (ground arith) in absurd (omega arith)
  | inr odd ↦ let e = only 3 (omega arith) (ground arith) in absurd (omega arith)
]

-- Without regard to overflow.
pub is_prime_lem : (n : ℕ) → (is_prime n ≡ true) ↔ IsPrime n
unfolding is_prime
is_prime_lem n = elim (Bool-cases (leb n 1)) [
  | inl low ↦ rw low (
    (λ (h : false ≡ true). absurd (ground arith)),
    λ (p : IsPrime n). absurd (ground (arith, p.0)),
  )
  | inr high ↦
      let above : 1 < n = ground arith in
      rw high (elim (Bool-cases (leb n 3)) [
        | inl small ↦
            let h : n ≤ 3 = ground arith in
            rw small ((λ (e : true ≡ true). small-IsPrime n above h), λ (p : IsPrime n). refl)
        | inr large ↦
            let h : 3 < n = ground arith in
            rw large (elim (Bool-cases (n % 2 == 0 || n % 3 == 0)) [
              | inl found ↦ rw found (
                (λ (e : false ≡ true). absurd (ground arith)),
                λ (p : IsPrime n). absurd (not_divided n p h found),
              )
              | inr none_found ↦ rw none_found (
                (λ (passed : trial_fuel n n 5 ≡ true). (
                  above,
                  λ (d : ℕ) one_d divides.
                      divisor-eq n (ground arith) (ground arith) passed d above one_d divides,
                )),
                λ (p : IsPrime n). trial-IsPrime n n 5 p (omega arith),
              )
            ])
      ])
]

-- Every square that the loop compares fits into an `int64_t`.
pub SquaresFit : ℕ → ℕ → ℕ → Type 0
SquaresFit zero n i = Unit
SquaresFit (suc fuel) n i = (i * i < 2 ^ 63) × (i * i ≤ n → SquaresFit fuel n (i + 6))

next_fits : (n i : ℕ) → n < 2 ^ 62 → i * i ≤ n → (i + 6) * (i + 6) < 2 ^ 63
next_fits n i small square = elim (Bool-cases (leb (2 ^ 31) i)) [
  | inl large ↦
      let h : 2 ^ 31 * 2 ^ 31 ≤ i * i =
        Nat.mul-le-mul {n₁ = 2 ^ 31} {m₁ = 2 ^ 31} {n₂ = i} {m₂ = i} (ground arith)
          (ground arith) in
      absurd (omega arith)
  | inr below ↦
      let h : (i + 6) * (i + 6) ≤ (2 ^ 31 + 6) * (2 ^ 31 + 6) =
        Nat.mul-le-mul {n₁ = i + 6} {m₁ = i + 6} {n₂ = 2 ^ 31 + 6} {m₂ = 2 ^ 31 + 6} (ground arith)
          (ground arith) in
      omega arith
]

fuel-SquaresFit : (fuel n i : ℕ) → n < 2 ^ 62 → i * i < 2 ^ 63 → SquaresFit fuel n i
unfolding SquaresFit
fuel-SquaresFit zero n i small fits = tt
fuel-SquaresFit (suc fuel) n i small fits =
    (fits, λ square. fuel-SquaresFit fuel n (i + 6) small (next_fits n i small square))

-- Below 2^62 the test accepts exactly the primes, and no square of its loop overflows.
pub is_prime-IsPrime : (n : ℕ) → n < 2 ^ 62 → ((is_prime n ≡ true) ↔ IsPrime n) × SquaresFit n n 5
is_prime-IsPrime n small = (is_prime_lem n, fuel-SquaresFit n n 5 small (omega arith))
