-- ===== src/Routing/Dijkstra/Routes.antt =====
-- The rows of the routing table that `dijkstra` prints.
use study_in_tezpur_universi.Common.{
  ℕ, zero, suc, ◌+◌, ◌≤◌, ◌<◌, ◌≡◌, ◌≢◌, refl, ap, sym, ◌∙◌, List, [], ◌∷◌, ◌++◌, none, some, true,
  false, ◌==◌, get_or, length, arith, Bool-cases, inl, inr,
}
use study_in_tezpur_universi.Routing.Dijkstra.{
  inf, Table, dist_at, append_node, print_path, next_hop_fuel, get_next_hop, reached, row, dijkstra,
}
use study_in_tezpur_universi.Routing.Dijkstra.Kept.{Walk}
use study_in_tezpur_universi.Routing.Dijkstra.Shortest.{dijkstra_shortest}
use study_in_tezpur_universi.Routing.Dijkstra.Chains.{parent_at, Chain, dijkstra-IsChained}

-- The nodes of a walk to `v` from the first to the last, where `before` has those before `v` from the
-- last to the first.
pub route : List ℕ → ℕ → List ℕ
route [] v = v ∷ []
route (u ∷ before) v = route before u ++ v ∷ []

length-route : (p : List ℕ) (v : ℕ) → length (route p v) ≡ suc (length p)
unfolding route
length-route [] v = refl
length-route (u ∷ p) v = longer (route p u) v ∙ ap suc (length-route p u)
  where
    longer : (xs : List ℕ) (y : ℕ) → length (xs ++ y ∷ []) ≡ suc (length xs)
    longer [] y = refl
    longer (x ∷ xs) y = ap suc (longer xs y)

get_or-first : (xs ys : List ℕ) (i d e : ℕ) → i < length xs → get_or (xs ++ ys) i d ≡ get_or xs i e
get_or-first [] ys i d e inside = absurd (omega arith)
get_or-first (x ∷ xs) ys zero d e inside = refl
get_or-first (x ∷ xs) ys (suc i) d e inside = get_or-first xs ys i d e (omega arith)

module _ (n : ℕ) (cost : List (List ℕ)) (src : ℕ) (s : Table) where
  Chain-Walk : (p : List ℕ) (v : ℕ) → Chain n cost src s p v → Walk n cost src p v (dist_at s v)
  Chain-Walk [] v (a, b, c) = (b, c)
  Chain-Walk (u ∷ p) v (a, seen, inside, real, sum, rest) =
      (dist_at s u, Chain-Walk p u rest, inside, real, sum)

  print_path-route :
      (fuel : ℕ) (p : List ℕ) (v : ℕ)
      → length p < fuel
      → Chain n cost src s p v
      → print_path fuel s.parent v ≡ some (route p v)
  unfolding print_path append_node route
  print_path-route zero p v enough chain = absurd (omega arith)
  print_path-route (suc fuel) [] v enough (a, b, c) = rw (print_path, a) refl
  print_path-route (suc fuel) (u ∷ p) v enough (a, seen, inside, real, sum, rest) =
      rw (print_path, a, print_path-route fuel p u (omega arith) rest) refl

  next_hop_fuel-route :
      (fuel : ℕ) (p : List ℕ) (v : ℕ)
      → length p < fuel
      → parent_at s src ≡ none
      → Chain n cost src s p v
      → next_hop_fuel fuel s.parent v src ≡ some (get_or (route p v) 1 v)
  unfolding next_hop_fuel route
  next_hop_fuel-route zero p v enough root chain = absurd (omega arith)
  next_hop_fuel-route (suc fuel) [] v enough root (a, b, c) = rw (next_hop_fuel, a) refl
  next_hop_fuel-route (suc fuel) (u ∷ []) v enough root (a, seen, inside, real, sum, (b, e, c)) =
      let found : (u == src) ≡ true = ground (arith, e) in rw (next_hop_fuel, a, found) refl
  next_hop_fuel-route (suc fuel) (u ∷ x ∷ p) v enough root (a, seen, inside, real, sum, rest) =
      elim (Bool-cases (u == src)) [
        | inl here ↦
            let e : u ≡ src = ground arith in
            let orphan : parent_at s u ≡ none = ap (parent_at s) e ∙ root in
            let clash : none ≡ some x = sym orphan ∙ rest.0 in absurd (ground (arith, clash))
        | inr other ↦
            let later = next_hop_fuel-route fuel (x ∷ p) u (omega arith) root rest in
            let first =
              get_or-first (route (x ∷ p) u) (v ∷ []) 1 v u
                (omega (arith, length-route (x ∷ p) u)) in
            rw (next_hop_fuel, a, other) (later ∙ ap some (sym first))
      ]

module _ (n : ℕ) (cost : List (List ℕ)) (src : ℕ) where
  -- For a source among the nodes and another node that is reached: the row has the distance, the
  -- second node of a walk as the next hop and the nodes of that walk as the path. The walk goes from
  -- the source to the node, its length is the distance, and no walk is shorter.
  pub row-reached :
      (v : ℕ)
      → src < n
      → v ≢ src
      → dist_at (dijkstra n cost src) v < inf
      → (p : List ℕ) × (row n src (dijkstra n cost src) v
          ≡ reached
              (dist_at (dijkstra n cost src) v)
              (some (get_or (route p v) 1 v))
              (some (route p v)))
        × Walk n cost src p v (dist_at (dijkstra n cost src) v)
        × ((q : List ℕ) (l : ℕ) → Walk n cost src q v l → dist_at (dijkstra n cost src) v ≤ l)
  unfolding row get_next_hop
  row-reached v inside other near =
      let s = dijkstra n cost src in
      let h = dijkstra-IsChained n cost src inside in
      let (p, chain, short) = h.chains v near in
      let not_source : (v == src) ≡ false = ground arith in
      let finite : (dist_at s v == inf) ≡ false = ground arith in
      let path = print_path-route n cost src s (n + 1) p v (omega arith) chain in
      let hop = next_hop_fuel-route n cost src s (n + 1) p v (omega arith) h.source chain in
      (
        p,
        rw (not_source, finite, hop, path) refl,
        Chain-Walk n cost src s p v chain,
        (dijkstra_shortest n cost src inside v).1,
      )
