-- ===== src/Routing/DistanceVector/Shortest.antt =====
-- The exchange ends, and then each table has the lengths of shortest walks and neighbours on them.
use study_in_tezpur_universi.Common.{
  ℕ, zero, suc, ◌+◌, ◌≤◌, ◌<◌, ◌≡◌, ◌≢◌, refl, ap, ◌∙◌, List, [], none, some, ◌==◌, arith,
  Bool-cases, inl, inr, get_or,
}
use study_in_tezpur_universi.Routing.DistanceVector.{
  inf, RoutingEntry, Routers, entry_at, cost_of, link, tabulate, initial_entry, initial, round,
  exchange_fuel, table_total, main,
}
use study_in_tezpur_universi.Routing.DistanceVector.Tables.{length-tabulate, get_or-tabulate}
use study_in_tezpur_universi.Routing.DistanceVector.Improve.{IsLink, Walk, Invariant}
use study_in_tezpur_universi.Routing.DistanceVector.Rounds.{IsDone, round_lem}

module _ (n : ℕ) (cost_matrix : List (List ℕ)) where
  -- The cost is 0 on the diagonal, and elsewhere positive and at most infinite.
  pub record IsNetwork : Type 0 where
    pub diagonal : (i : ℕ) → i < n → link n cost_matrix i i ≡ 0
    pub positive : (i j : ℕ) → i < n → j < n → i ≢ j → 0 < link n cost_matrix i j
    pub capped : (i j : ℕ) → i < n → j < n → link n cost_matrix i j ≤ inf

  row-initial :
      (i : ℕ)
      → i < n
      → get_or (initial n cost_matrix) i [] ≡ tabulate n 0 (initial_entry n cost_matrix i)
  unfolding initial
  row-initial i inside =
      get_or-tabulate n 0 i (λ i'. tabulate n 0 (initial_entry n cost_matrix i')) [] inside
      ∙ ap (λ (i' : ℕ). tabulate n 0 (initial_entry n cost_matrix i')) (omega arith)

  entry-initial :
      (i j : ℕ)
      → i < n
      → j < n
      → entry_at (initial n cost_matrix) i j ≡ initial_entry n cost_matrix i j
  entry-initial i j i_inside j_inside =
      ap (λ (r : List RoutingEntry). get_or r j (record { cost = inf; next_hop = none }))
        (row-initial i i_inside)
      ∙ get_or-tabulate n 0 j (initial_entry n cost_matrix i) _ j_inside
      ∙ ap (initial_entry n cost_matrix i) (omega arith)

  cost-initial :
      (i j : ℕ) → i < n → j < n → cost_of (initial n cost_matrix) i j ≡ link n cost_matrix i j
  unfolding initial_entry
  cost-initial i j i_inside j_inside =
      ap (λ (e : RoutingEntry). e.cost) (entry-initial i j i_inside j_inside)

  initial-Walk :
      (i j : ℕ)
      → IsNetwork
      → i < n
      → j < n
      → link n cost_matrix i j < inf
      → Walk n cost_matrix i j (link n cost_matrix i j)
  initial-Walk i j net i_inside j_inside near = elim (Bool-cases (i == j)) [
    | inl own ↦
        let e : i ≡ j = ground arith in rw (← e, net.diagonal i i_inside) (Walk.here i i_inside)
    | inr other ↦
        let l : IsLink n cost_matrix i j = record {
          from = i_inside;
          to = j_inside;
          finite = ground arith;
          pos = net.positive i j i_inside j_inside (ground arith);
        } in
        let e : link n cost_matrix i j + 0 ≡ link n cost_matrix i j = omega arith in
        rw e at (Walk.step j l (Walk.here j j_inside))
  ]

  initial_hop :
      (i j k : ℕ)
      → IsNetwork
      → i < n
      → j < n
      → (entry_at (initial n cost_matrix) i j).next_hop ≡ some k
      → IsLink n cost_matrix i k
        × (link n cost_matrix i k + cost_of (initial n cost_matrix) k j
            ≤ cost_of (initial n cost_matrix) i j)
  unfolding initial_entry
  initial_hop i j k net a b next =
      let hop = ap (λ (e : RoutingEntry). e.next_hop) (entry-initial i j a b) in
      let e : j ≡ k = ground (arith, hop, next) in
      let c = cost-initial i j a b in
      let d = cost-initial j j b b in
      let own = net.diagonal j b in
      rw (← e) (
        record {
          from = a;
          to = b;
          finite = ground (arith, hop, next);
          pos = net.positive i j a b (λ same. ground (arith, hop, next, same));
        },
        omega (arith, c, d, own),
      )

  initial-Invariant : IsNetwork → Invariant n cost_matrix (initial n cost_matrix)
  initial-Invariant net = record {
    square = record {
      rows = unfold initial in length-tabulate n 0 _;
      columns = λ i inside. rw (row-initial i inside) (length-tabulate n 0 _);
    };
    small = λ i j a b. omega (arith, cost-initial i j a b, net.capped i j a b);
    own = λ i a. cost-initial i i a a ∙ net.diagonal i a;
    walks = λ i j a b near.
        let c = cost-initial i j a b in rw c (initial-Walk i j net a b (omega (arith, c)));
    hops = λ i j k a b next. initial_hop i j k net a b next;
  }

  -- Tables that no comparison changes.
  record Converged (routers : Routers) : Type 0 where
    invariant : Invariant n cost_matrix routers
    done : (i j : ℕ) → i < n → j < n → IsDone n cost_matrix i j routers

  exchange_fuel-Converged :
      (fuel : ℕ) (routers : Routers) (iteration : ℕ)
      → Invariant n cost_matrix routers
      → table_total n n routers < fuel
      → (r : Routers × ℕ) × (exchange_fuel n cost_matrix fuel routers iteration ≡ some r)
        × Converged r.0
  unfolding exchange_fuel
  exchange_fuel-Converged zero routers iteration h enough = absurd (omega arith)
  exchange_fuel-Converged (suc fuel) routers iteration h enough =
      let s = round n cost_matrix routers in
      let step = round_lem n cost_matrix routers h in
      elim (Bool-cases s.updated) [
        | inl more ↦ rw more (
            exchange_fuel-Converged fuel s.routers (iteration + 1) step.kept
              (omega (arith, step.falls more)))
        | inr same ↦
            let (e, done) = step.done same in
            rw same ((s.routers, iteration + 1), refl, rw e (record { invariant = h; done = done }))
      ]

  neighbour_bound :
      (routers : Routers) (i j k : ℕ)
      → Converged routers
      → j < n
      → IsLink n cost_matrix i k
      → cost_of routers i j ≤ link n cost_matrix i k + cost_of routers k j
  neighbour_bound routers i j k c j_inside l = elim (Bool-cases (i == j)) [
    | inl own ↦ let e : i ≡ j = ground arith in rw (← e) (omega (arith, c.invariant.own i l.from))
    | inr apart ↦
        let finite = l.finite in
        let pos = l.pos in
        let quiet = c.done i j l.from j_inside apart k l.to in ground (arith, finite, pos, quiet)
  ]

  Walk-bound :
      (routers : Routers) (i j l : ℕ)
      → Converged routers
      → j < n
      → Walk n cost_matrix i j l
      → cost_of routers i j ≤ l
  Walk-bound routers i j l c j_inside (Walk.here i' inside) =
      omega (arith, c.invariant.own i' inside)
  Walk-bound routers a b m c j_inside (Walk.step {i} {j} {l} k edge rest) = omega (
    arith,
    Walk-bound routers k j l c j_inside rest,
    neighbour_bound routers i j k c j_inside edge,
  )

  -- A table entry as it should be.
  pub record IsShortest (routers : Routers) (i j : ℕ) : Type 0 where
    pub least : (l : ℕ) → Walk n cost_matrix i j l → cost_of routers i j ≤ l
    pub attained : cost_of routers i j < inf → Walk n cost_matrix i j (cost_of routers i j)
    pub hop :
        (k : ℕ)
        → (entry_at routers i j).next_hop ≡ some k
        → IsLink n cost_matrix i k
          × (cost_of routers i j ≡ link n cost_matrix i k + cost_of routers k j)

  -- For a matrix that is 0 on the diagonal and elsewhere positive and at most infinite, the exchange
  -- ends. Then each cost in a table is at most the length of any walk over links; where it is not
  -- infinite, it is the length of one; and a next hop is a neighbour whose own cost and that of the
  -- link to it add up to the cost.
  pub main-IsShortest :
      IsNetwork
      → (r : Routers × ℕ) × (main n cost_matrix ≡ some r)
        × ((i j : ℕ) → i < n → j < n → IsShortest r.0 i j)
  unfolding main
  main-IsShortest net =
      let h = initial-Invariant net in
      let (r, ends, c) =
        exchange_fuel-Converged (suc (table_total n n (initial n cost_matrix)))
          (initial n cost_matrix) 0 h (omega arith) in
      (
        r,
        ends,
        λ i j i_inside j_inside. record {
          least = λ l walk. Walk-bound r.0 i j l c j_inside walk;
          attained = c.invariant.walks i j i_inside j_inside;
          hop = λ k next.
              let (edge, above) = c.invariant.hops i j k i_inside j_inside next in
              (edge, omega (arith, above, neighbour_bound r.0 i j k c j_inside edge));
        },
      )
