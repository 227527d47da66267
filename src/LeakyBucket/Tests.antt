-- ===== src/LeakyBucket/Tests.antt =====
-- The leaky bucket on the trace of `main`, and its theorems at concrete values.
use mathlib.Core.Option
use mathlib.Core.List.{map}
use study_in_tezpur_universi.Common.{◌≡◌, refl, [], ◌∷◌, some, arith}
use study_in_tezpur_universi.LeakyBucket.{main_trace, Row, arrivals, shape, simulate}
use study_in_tezpur_universi.LeakyBucket.Shaping.{IsShaped, shape-IsShaped, Ends, simulate-Ends}

-- What `main` sends, and what it drops, second by second.
main_sent :
    Option.map (map (λ (r : Row). r.sent)) (simulate 20 1 main_trace 0)
    ≡ some (3 ∷ 3 ∷ 3 ∷ 3 ∷ 3 ∷ 3 ∷ 3 ∷ 2 ∷ [])
unfolding simulate arrivals shape
main_sent = refl

main_dropped :
    Option.map (map (λ (r : Row). r.dropped)) (simulate 20 1 main_trace 0)
    ≡ some (0 ∷ 0 ∷ 2 ∷ 0 ∷ 0 ∷ 0 ∷ 0 ∷ 0 ∷ [])
unfolding simulate arrivals shape
main_dropped = refl

shape-IsShaped_example : IsShaped (shape 3 6 6)
shape-IsShaped_example = shape-IsShaped 3 6 6

simulate-Ends_example : Ends main_trace 0 (simulate 20 1 main_trace 0)
simulate-Ends_example = simulate-Ends 20 1 7 0 main_trace (grind arith) (omega arith) (omega arith)
