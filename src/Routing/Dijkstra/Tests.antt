-- ===== src/Routing/Dijkstra/Tests.antt =====
-- The network of the program.
use study_in_tezpur_universi.Common.{ℕ, ◌≤◌, ◌<◌, ◌≡◌, refl, List, [], ◌∷◌, some, get_or, arith}
use study_in_tezpur_universi.Routing.Dijkstra.{inf, dist_at, dijkstra, row, reached}
use study_in_tezpur_universi.Routing.Dijkstra.Routes.{route, row-reached}
use study_in_tezpur_universi.Routing.Dijkstra.Kept.{Walk}
use study_in_tezpur_universi.Routing.Dijkstra.Shortest.{dijkstra_shortest}

abbrev network : List (List ℕ)
network =
    (0 ∷ 2 ∷ 4 ∷ inf ∷ inf ∷ inf ∷ [])
    ∷ (2 ∷ 0 ∷ 1 ∷ 7 ∷ inf ∷ inf ∷ [])
    ∷ (4 ∷ 1 ∷ 0 ∷ inf ∷ 3 ∷ inf ∷ [])
    ∷ (inf ∷ 7 ∷ inf ∷ 0 ∷ 2 ∷ 1 ∷ [])
    ∷ (inf ∷ inf ∷ 3 ∷ 2 ∷ 0 ∷ 5 ∷ [])
    ∷ (inf ∷ inf ∷ inf ∷ 1 ∷ 5 ∷ 0 ∷ [])
    ∷ []

distances : (dijkstra 6 network 0).dist ≡ 0 ∷ 2 ∷ 3 ∷ 8 ∷ 6 ∷ 9 ∷ []
unfolding dijkstra
distances = refl

dijkstra_shortest_example :
    (dist_at (dijkstra 6 network 0) 3 ≤ inf)
    × ((p : List ℕ) (l : ℕ) → Walk 6 network 0 p 3 l → dist_at (dijkstra 6 network 0) 3 ≤ l)
    × (dist_at (dijkstra 6 network 0) 3 < inf
        → (p : List ℕ) × Walk 6 network 0 p 3 (dist_at (dijkstra 6 network 0) 3))
dijkstra_shortest_example = dijkstra_shortest 6 network 0 (omega arith) 3

row-reached_example :
    (p : List ℕ) × (row 6 0 (dijkstra 6 network 0) 5
      ≡ reached
          (dist_at (dijkstra 6 network 0) 5)
          (some (get_or (route p 5) 1 5))
          (some (route p 5)))
    × Walk 6 network 0 p 5 (dist_at (dijkstra 6 network 0) 5)
    × ((q : List ℕ) (l : ℕ) → Walk 6 network 0 q 5 l → dist_at (dijkstra 6 network 0) 5 ≤ l)
row-reached_example =
    row-reached 6 network 0 5 (omega arith) (omega arith) (unfold dijkstra in omega arith)

-- A -> B -> C -> E -> D -> F.
row_to_f : row 6 0 (dijkstra 6 network 0) 5 ≡ reached 9 (some 1) (some (0 ∷ 1 ∷ 2 ∷ 4 ∷ 3 ∷ 5 ∷ []))
unfolding dijkstra row
row_to_f = refl
