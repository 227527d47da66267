-- ===== src/FlowControl/GoBackN/Tests.antt =====
-- The simulation of the program, and what it delivers.
use study_in_tezpur_universi.Common.{ℕ, ◌≡◌, refl, List, [], ◌∷◌, Option, some, arith}
use study_in_tezpur_universi.FlowControl.GoBackN.{Simulation, Event, discarded, simulate_go_back_n}
use study_in_tezpur_universi.FlowControl.GoBackN.Delivery.{
  delivered, countdown, InWindow, IsSent, simulate_go_back_n-delivers,
}

discards : List Event → List ℕ
discards [] = []
discards (discarded f ∷ events) = f ∷ discards events
discards (_ ∷ events) = discards events

discards_of : Option Simulation → List ℕ
unfolding discards
discards_of (some end) = discards end.events
discards_of _ = []

two_discarded : discards_of (simulate_go_back_n 4 8) ≡ 3 ∷ 2 ∷ []
unfolding discards_of simulate_go_back_n
two_discarded = refl

simulate_go_back_n-delivers_example :
    (end : Simulation) × (simulate_go_back_n 4 8 ≡ some end)
    × (delivered end.events ≡ countdown 8)
    × InWindow 4 end.events
    × IsSent end.events
simulate_go_back_n-delivers_example = simulate_go_back_n-delivers 4 8 (omega arith)
