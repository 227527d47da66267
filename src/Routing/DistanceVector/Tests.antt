-- ===== src/Routing/DistanceVector/Tests.antt =====
-- The network of the program.
use study_in_tezpur_universi.Common.{
  ℕ, ◌≤◌, ◌<◌, ◌≡◌, ◌≢◌, refl, List, [], ◌∷◌, Option, none, some, Bool, true, ◌&&◌, ◌==◌, ltb, leb,
  if◌then◌else◌, all_below, all_below_lem, arith, map,
}
use study_in_tezpur_universi.Routing.DistanceVector.{inf, RoutingEntry, Routers, link, main}
use study_in_tezpur_universi.Routing.DistanceVector.Shortest.{
  IsNetwork, IsShortest, main-IsShortest,
}

abbrev network : List (List ℕ)
network =
    (0 ∷ 1 ∷ 7 ∷ inf ∷ [])
    ∷ (1 ∷ 0 ∷ 3 ∷ 8 ∷ [])
    ∷ (7 ∷ 3 ∷ 0 ∷ 1 ∷ [])
    ∷ (inf ∷ 8 ∷ 1 ∷ 0 ∷ [])
    ∷ []

abbrev costs : Option (Routers × ℕ) → List (List ℕ)
costs none = []
costs (some r) = map (λ (row : List RoutingEntry). map (λ (e : RoutingEntry). e.cost) row) r.0

network-costs :
    costs (main 4 network)
    ≡ (0 ∷ 1 ∷ 4 ∷ 5 ∷ []) ∷ (1 ∷ 0 ∷ 3 ∷ 4 ∷ []) ∷ (4 ∷ 3 ∷ 0 ∷ 1 ∷ []) ∷ (5 ∷ 4 ∷ 1 ∷ 0 ∷ []) ∷ []
unfolding main
network-costs = refl

all_pairs :
    (test : ℕ → ℕ → Bool) (i j : ℕ)
    → i < 4
    → j < 4
    → all_below 4 (λ (x : ℕ). all_below 4 (test x)) ≡ true
    → test i j ≡ true
all_pairs test i j i_inside j_inside all =
    all_below_lem 4 (test i) j j_inside
      (all_below_lem 4 (λ (x : ℕ). all_below 4 (test x)) i i_inside all)

abbrev has_network_cost : ℕ → ℕ → Bool
has_network_cost i j =
    (if i == j then link 4 network i j == 0 else ltb 0 (link 4 network i j))
    && leb (link 4 network i j) inf

all_network-costs : all_below 4 (λ (i : ℕ). all_below 4 (has_network_cost i)) ≡ true
unfolding all_below
all_network-costs = refl

network_cost :
    (i j c : ℕ)
    → (if i == j then c == 0 else ltb 0 c) && leb c inf ≡ true
    → (i ≡ j → c ≡ 0) × (i ≢ j → 0 < c) × (c ≤ inf)
network_cost i j c h = (λ e. ground arith, λ apart. ground arith, ground arith)

network-IsNetwork : IsNetwork 4 network
network-IsNetwork = record {
  diagonal =
      λ i a. (network_cost i i _ (all_pairs has_network_cost i i a a all_network-costs)).0 refl;
  positive =
      λ i j a b. (network_cost i j _ (all_pairs has_network_cost i j a b all_network-costs)).1;
  capped = λ i j a b. (network_cost i j _ (all_pairs has_network_cost i j a b all_network-costs)).2;
}

main-IsShortest_example :
    (r : Routers × ℕ) × (main 4 network ≡ some r)
    × ((i j : ℕ) → i < 4 → j < 4 → IsShortest 4 network r.0 i j)
main-IsShortest_example = main-IsShortest 4 network network-IsNetwork
