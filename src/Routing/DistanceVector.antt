-- ===== src/Routing/DistanceVector.antt =====
-- STCN/Session1/Lab_Session_1/Exp06_Routing_Algorithms/distance_vector_routing.c without its printing,
-- for any number of nodes and any matrix in place of those in `main`.
pub mod Tables
pub mod Improve
pub mod Rounds
pub mod Shortest
mod Tests
use study_in_tezpur_universi.Common.{
  ℕ, zero, suc, ◌+◌, List, [], ◌∷◌, Option, none, some, Bool, true, false, ◌&&◌, not, ltb, ◌==◌,
  if◌then◌else◌, get_or, set,
}

abbrev pub inf : ℕ
inf = 9999

-- `none` is the next hop -1.
pub record RoutingEntry : Type 0 where
  pub cost : ℕ
  pub next_hop : Option ℕ

abbrev pub Routers : Type 0
Routers = List (List RoutingEntry)

abbrev pub entry_at : Routers → ℕ → ℕ → RoutingEntry
entry_at routers i j = get_or (get_or routers i []) j (record { cost = inf; next_hop = none })

abbrev pub cost_of : Routers → ℕ → ℕ → ℕ
cost_of routers i j = (entry_at routers i j).cost

pub put : Routers → ℕ → ℕ → RoutingEntry → Routers
put routers i j entry = set routers i (set (get_or routers i []) j entry)

-- The values of a function from `i` on.
pub tabulate : {A : Type 0} → ℕ → ℕ → (ℕ → A) → List A
tabulate zero i f = []
tabulate (suc left) i f = f i ∷ tabulate left (suc i) f

-- The routers, and the flag of a round of the loop.
pub record Exchange : Type 0 where
  pub routers : Routers
  pub updated : Bool

-- The sum of the first costs in a router's table, and in the first tables, of `n` entries each.
pub row_total : ℕ → ℕ → Routers → ℕ
row_total zero i routers = 0
row_total (suc j) i routers = row_total j i routers + cost_of routers i j

pub table_total : ℕ → ℕ → Routers → ℕ
unfolding row_total
table_total n zero routers = 0
table_total n (suc i) routers = table_total n i routers + row_total n i routers

module _ (n : ℕ) (cost_matrix : List (List ℕ)) where
  abbrev pub link : ℕ → ℕ → ℕ
  link i j = get_or (get_or cost_matrix i []) j inf

  pub initial_entry : ℕ → ℕ → RoutingEntry
  initial_entry i j = record {
    cost = link i j;
    next_hop = if not (link i j == inf) && not (i == j) then some j else none;
  }

  pub initial : Routers
  unfolding tabulate initial_entry
  initial = tabulate n 0 (λ i. tabulate n 0 (initial_entry i))

  abbrev pub is_shorter : ℕ → ℕ → ℕ → Routers → Bool
  is_shorter i j k routers =
      (not (link i k == inf) && ltb 0 (link i k))
      && ltb (link i k + cost_of routers k j) (cost_of routers i j)

  -- Router `i` looks at the vector of `k` for its way to `j`.
  pub improve : ℕ → ℕ → ℕ → Exchange → Exchange
  unfolding put
  improve i j k s =
      if is_shorter i j k s.routers
      then record {
        routers =
            put s.routers i j
              (record { cost = link i k + cost_of s.routers k j; next_hop = some k });
        updated = true;
      }
      else s

  -- The three loops from an index on, with the rounds left.
  pub neighbours_from : ℕ → ℕ → ℕ → ℕ → Exchange → Exchange
  unfolding improve
  neighbours_from zero k i j s = s
  neighbours_from (suc left) k i j s = neighbours_from left (k + 1) i j (improve i j k s)

  pub destination : ℕ → ℕ → Exchange → Exchange
  unfolding neighbours_from
  destination i j s = if i == j then s else neighbours_from n 0 i j s

  pub destinations_from : ℕ → ℕ → ℕ → Exchange → Exchange
  unfolding destination
  destinations_from zero j i s = s
  destinations_from (suc left) j i s = destinations_from left (j + 1) i (destination i j s)

  pub sources_from : ℕ → ℕ → Exchange → Exchange
  unfolding destinations_from
  sources_from zero i s = s
  sources_from (suc left) i s = sources_from left (i + 1) (destinations_from n 0 i s)

  -- One round of the outer loop.
  pub round : Routers → Exchange
  unfolding sources_from
  round routers = sources_from n 0 (record { routers = routers; updated = false })

  -- The outer loop and its counter; `none`: the rounds were not enough.
  pub exchange_fuel : ℕ → Routers → ℕ → Option (Routers × ℕ)
  unfolding round
  exchange_fuel zero routers iteration = none
  exchange_fuel (suc fuel) routers iteration =
      let s = round routers in
      let rest = exchange_fuel fuel s.routers (iteration + 1) in
      if s.updated then rest else some (s.routers, iteration + 1)

  -- What `main` prints the tables and the number of iterations from. A round that updates lowers the
  -- sum of the costs, so that one round more than this sum is enough.
  pub main : Option (Routers × ℕ)
  unfolding exchange_fuel initial table_total
  main = exchange_fuel (suc (table_total n n initial)) initial 0
