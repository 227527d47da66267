-- ===== src/Rsa/Tests.antt =====
-- The keys of the primes 61 and 53, and the programs' results on them.
use study_in_tezpur_universi.Common.{
  List, ℕ, ◌%◌, ◌*◌, ◌^◌, ◌≡◌, refl, ◌↔◌, some, [], ◌∷◌, arith, true, false,
}
use study_in_tezpur_universi.Common.Int.{◌-ℤ◌, times}
use study_in_tezpur_universi.Rsa.{
  Report, Outcome, not_prime, no_inverse, finished, main, mod_inverse, mod_exp, is_prime,
}
use study_in_tezpur_universi.Rsa.Inverse.{IsInverse, InverseFits, mod_inverse-IsInverse}
use study_in_tezpur_universi.Rsa.Prime.{IsPrime, SquaresFit, is_prime-IsPrime}
use study_in_tezpur_universi.Rsa.RoundTrip.{Recovers, main-Recovers}
use study_in_tezpur_universi.Rsa.Power.{ProductsFit, mod_exp-power}

status : Outcome → ℕ
status not_prime = 1
status no_inverse = 1
status (finished r) = r.status

main-ok : status (main 61 53 (78 ∷ 69 ∷ 84 ∷ [])) ≡ 0
unfolding status main ◌-ℤ◌ times
main-ok = refl

private_key : mod_inverse 17 3120 ≡ some 2753
unfolding mod_inverse ◌-ℤ◌ times
private_key = refl

composite : is_prime 91 ≡ false
unfolding is_prime
composite = refl

mod_inverse-IsInverse_example : IsInverse 17 3120 (mod_inverse 17 3120) × InverseFits 17 3120
mod_inverse-IsInverse_example =
    mod_inverse-IsInverse 17 3120 (omega arith) (omega arith) (omega arith) (omega arith)

mod_exp-power_example : (mod_exp 42 17 3233 ≡ 42 ^ 17 % 3233) × ProductsFit 17 (42 % 3233) 17 3233 1
mod_exp-power_example = mod_exp-power 42 17 3233 (omega arith) (omega arith)

is_prime-IsPrime_example : ((is_prime 10007 ≡ true) ↔ IsPrime 10007) × SquaresFit 10007 10007 5
is_prime-IsPrime_example = is_prime-IsPrime 10007 (omega arith)

IsPrime-61 : IsPrime 61
unfolding is_prime
IsPrime-61 = (is_prime-IsPrime 61 (omega arith)).0.0 refl

IsPrime-53 : IsPrime 53
unfolding is_prime
IsPrime-53 = (is_prime-IsPrime 53 (omega arith)).0.0 refl

abbrev message : List ℕ
message = b'N' ∷ b'E' ∷ b'T' ∷ []

main-Recovers_example :
    (r : Report) × (main 61 53 message ≡ finished r) × Recovers message (61 * 53) r
main-Recovers_example =
    main-Recovers 61 53 message IsPrime-61 IsPrime-53 (omega arith) (omega arith) (omega arith)

-- A square of a prime is no modulus for RSA, and the program does not refuse it.
square_fails : status (main 7 7 (b'1' ∷ [])) ≡ 1
unfolding status main ◌-ℤ◌ times
square_fails = refl
