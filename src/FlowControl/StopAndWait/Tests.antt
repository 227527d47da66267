-- ===== src/FlowControl/StopAndWait/Tests.antt =====
-- The five packets of the program.
use study_in_tezpur_universi.Common.{◌≡◌, List, [], some}
use study_in_tezpur_universi.FlowControl.StopAndWait.{Event, simulate_stop_and_wait}
use study_in_tezpur_universi.FlowControl.StopAndWait.Delivery.{
  delivered, confirmed, numbered, simulate_stop_and_wait-delivers,
}

simulate_stop_and_wait-delivers_example :
    (end : List Event) × (simulate_stop_and_wait 5 ≡ some end)
    × (delivered end ≡ numbered 5 1 [])
    × (confirmed end ≡ numbered 5 1 [])
simulate_stop_and_wait-delivers_example = simulate_stop_and_wait-delivers 5
