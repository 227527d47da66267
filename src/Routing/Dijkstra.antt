-- ===== src/Routing/Dijkstra.antt =====
-- `dijkstra` with the routing table that it prints, in
-- STCN/Session1/Lab_Session_1/Exp06_Routing_Algorithms/shortest_path_dijkstra.c, for costs that are
-- not negative and small enough for `int`.
pub mod Select
pub mod Relax
pub mod Fresh
pub mod Kept
pub mod Shortest
pub mod Chains
pub mod Routes
mod Tests
use study_in_tezpur_universi.Common.{
  ℕ, zero, suc, ◌+◌, ◌-◌, List, [], ◌∷◌, ◌++◌, Option, none, some, Bool, true, false, ◌&&◌, not,
  ltb, ◌==◌, if◌then◌else◌, get_or, set, replicate,
}

abbrev pub inf : ℕ
inf = 999999

-- `none` is the parent -1.
pub record Table : Type 0 where
  pub dist : List ℕ
  pub visited : List Bool
  pub parent : List (Option ℕ)

abbrev pub dist_at : Table → ℕ → ℕ
dist_at s v = get_or s.dist v inf

abbrev pub is_visited : Table → ℕ → Bool
is_visited s v = get_or s.visited v true

pub initial : ℕ → ℕ → Table
initial n src = record {
  dist = set (replicate n inf) src 0;
  visited = replicate n false;
  parent = replicate n none;
}

-- The loop that looks for the nearest node that is not visited, from `v` on, with the rounds left;
-- `none` is the -1.
pub select_from : ℕ → ℕ → Table → ℕ → Option ℕ → Option ℕ
select_from zero v s min_dist u = u
select_from (suc left) v s min_dist u =
    let nearer = select_from left (v + 1) s (dist_at s v) (some v) in
    let kept = select_from left (v + 1) s min_dist u in
    if not (is_visited s v) && ltb (dist_at s v) min_dist then nearer else kept

-- `print_path`, as the list of the nodes that it prints; `none`: the fuel was not enough.
pub append_node : Option (List ℕ) → ℕ → Option (List ℕ)
append_node none j = none
append_node (some path) j = some (path ++ j ∷ [])

pub print_path : ℕ → List (Option ℕ) → ℕ → Option (List ℕ)
unfolding append_node
print_path zero parent j = none
print_path (suc fuel) parent j = elim (get_or parent j none) [
  | none ↦ some (j ∷ [])
  | some u ↦ append_node (print_path fuel parent u) j
]

-- The loop of `get_next_hop`.
pub next_hop_fuel : ℕ → List (Option ℕ) → ℕ → ℕ → Option ℕ
next_hop_fuel zero parent curr source = none
next_hop_fuel (suc fuel) parent curr source = elim (get_or parent curr none) [
  | none ↦ some curr
  | some u ↦
      let later = next_hop_fuel fuel parent u source in if u == source then some curr else later
]

pub get_next_hop : ℕ → List (Option ℕ) → ℕ → ℕ → Option ℕ
unfolding next_hop_fuel
get_next_hop fuel parent dest source =
    if dest == source then some source else next_hop_fuel fuel parent dest source

-- A row of the routing table: for the source itself, for a node that is not reached, and with the
-- cost, the next hop and the path.
pub data RouteRow : Type 0 where
  local unreachable : RouteRow
  reached : ℕ → Option ℕ → Option (List ℕ) → RouteRow

-- A path has no more parents on it than there are nodes, so that this fuel is enough.
pub row : ℕ → ℕ → Table → ℕ → RouteRow
unfolding print_path get_next_hop
row n src s i =
    if i == src
    then local
    else if dist_at s i == inf
    then unreachable
    else reached (dist_at s i) (get_next_hop (n + 1) s.parent i src) (print_path (n + 1) s.parent i)

module _ (n : ℕ) (cost : List (List ℕ)) where
  abbrev pub cost_at : ℕ → ℕ → ℕ
  cost_at u v = get_or (get_or cost u []) v inf

  abbrev pub improves : ℕ → ℕ → Table → Bool
  improves u v s =
      not (is_visited s v)
      && (not (cost_at u v == inf) && ltb (dist_at s u + cost_at u v) (dist_at s v))

  -- One round of the loop over the neighbours of `u`.
  pub relax : ℕ → ℕ → Table → Table
  relax u v s =
      if improves u v s
      then record s {
        dist = set s.dist v (dist_at s u + cost_at u v);
        parent = set s.parent v (some u);
      }
      else s

  pub relax_from : ℕ → ℕ → ℕ → Table → Table
  unfolding relax
  relax_from zero v u s = s
  relax_from (suc left) v u s = relax_from left (v + 1) u (relax u v s)

  pub visit : ℕ → Table → Table
  unfolding relax_from
  visit u s = relax_from n 0 u (record s { visited = set s.visited u true })

  -- The outer loop, with the rounds left.
  pub rounds : ℕ → Table → Table
  unfolding select_from visit
  rounds zero s = s
  rounds (suc left) s = elim (select_from n 0 s inf none) [
    | none ↦ s
    | some u ↦ rounds left (visit u s)
  ]

  -- The tables when the loops are done.
  pub dijkstra : ℕ → Table
  unfolding rounds initial
  dijkstra src = rounds (n - 1) (initial n src)
