-- ===== src/Routing/DistanceVector/Improve.antt =====
-- What holds of the tables in every state, and that one comparison keeps it.
use study_in_tezpur_universi.Common.{
  ℕ, suc, ◌+◌, ◌≤◌, ◌<◌, ◌≡◌, refl, ap, sym, ◌∙◌, List, some, Bool, true, false, ◌&&◌, ◌==◌,
  if◌then◌else◌, arith, Bool-cases, inl, inr,
}
use study_in_tezpur_universi.Routing.DistanceVector.{
  inf, RoutingEntry, Routers, entry_at, cost_of, put, Exchange, link, is_shorter, improve,
  table_total,
}
use study_in_tezpur_universi.Routing.DistanceVector.Tables.{
  IsSquare, entry_at-put, put-IsSquare, table_total_lt,
}

unfoldable pub count_update : Bool → ℕ
count_update updated = if updated then 1 else 0

module _ (n : ℕ) (cost_matrix : List (List ℕ)) where
  abbrev pub link_to : ℕ → ℕ → ℕ
  link_to i k = link n cost_matrix i k

  -- `k` is a neighbour of `i`.
  pub record IsLink (i k : ℕ) : Type 0 where
    pub from : i < n
    pub to : k < n
    pub finite : (link_to i k == inf) ≡ false
    pub pos : 0 < link_to i k

  -- A walk over links from one node to another, with its length.
  pub data Walk : ℕ → ℕ → ℕ → Type 0 where
    here : (i : ℕ) → i < n → Walk i i 0
    step : {i j l : ℕ} (k : ℕ) → IsLink i k → Walk k j l → Walk i j (link_to i k + l)

  pub record Invariant (routers : Routers) : Type 0 where
    pub square : IsSquare n routers
    pub small : (i j : ℕ) → i < n → j < n → cost_of routers i j ≤ inf
    pub own : (i : ℕ) → i < n → cost_of routers i i ≡ 0
    pub walks :
        (i j : ℕ) → i < n → j < n → cost_of routers i j < inf → Walk i j (cost_of routers i j)
    pub hops :
        (i j k : ℕ)
        → i < n
        → j < n
        → (entry_at routers i j).next_hop ≡ some k
        → IsLink i k × (link_to i k + cost_of routers k j ≤ cost_of routers i j)

  -- No neighbour offers a shorter way.
  abbrev pub IsQuiet : ℕ → ℕ → ℕ → Routers → Type 0
  IsQuiet i j k routers = is_shorter n cost_matrix i j k routers ≡ false

  -- What a part of a round does: it keeps the invariant, an update lowers the sum of the costs, and
  -- where the flag is not set in the end, nothing changed and `Check` holds.
  pub record Part (Check : Routers → Type 0) (s s' : Exchange) : Type 0 where
    pub kept : Invariant s'.routers
    pub falls :
        table_total n n s'.routers + count_update s'.updated
        ≤ table_total n n s.routers + count_update s.updated
    pub quiet : s'.updated ≡ false → (s' ≡ s) × Check s.routers

  module _ (i j k : ℕ) (s : Exchange) (h : Invariant s.routers) (i_inside : i < n)
      (j_inside : j < n) (k_inside : k < n) (apart : (i == j) ≡ false)
      (shorter : is_shorter n cost_matrix i j k s.routers ≡ true) where
    entry : RoutingEntry
    entry = record { cost = link_to i k + cost_of s.routers k j; next_hop = some k }

    after : Routers
    after = put s.routers i j entry

    entry-after :
        (i' j' : ℕ)
        → entry_at after i' j' ≡ (if i == i' && j == j' then entry else entry_at s.routers i' j')
    unfolding after
    entry-after i' j' = entry_at-put n s.routers i j entry h.square i_inside j_inside i' j'

    cost-after :
        (i' j' : ℕ)
        → cost_of after i' j' ≡ (
            if i == i' && j == j'
            then link_to i k + cost_of s.routers k j
            else cost_of s.routers i' j')
    unfolding entry
    cost-after i' j' = elim (Bool-cases (i == i' && j == j')) [
      | inl hit ↦
          let e = entry-after i' j' in ap (λ (x : RoutingEntry). x.cost) (rw hit at e) ∙ rw hit refl
      | inr miss ↦
          let e = entry-after i' j' in
          ap (λ (x : RoutingEntry). x.cost) (rw miss at e) ∙ rw miss refl
    ]

    lower : (i' j' : ℕ) → cost_of after i' j' ≤ cost_of s.routers i' j'
    lower i' j' = elim (Bool-cases (i == i' && j == j')) [
      | inl hit ↦
          let a : i ≡ i' = ground arith in
          let b : j ≡ j' = ground arith in
          let e = cost-after i' j' in rw (← a, ← b) (ground (arith, shorter, cost-after i j))
      | inr miss ↦ let e = cost-after i' j' in omega (arith, rw miss at e)
    ]

    the-IsLink : IsLink i k
    the-IsLink = record {
      from = i_inside;
      to = k_inside;
      finite = ground arith;
      pos = ground arith;
    }

    after-Invariant : Invariant after
    unfolding entry
    after-Invariant = record {
      square = unfold after in put-IsSquare n s.routers i j entry h.square i_inside j_inside;
      small = λ i' j' a b. omega (arith, lower i' j', h.small i' j' a b);
      own = λ i' a. omega (arith, lower i' i', h.own i' a);
      walks = λ i' j' a b near. elim (Bool-cases (i == i' && j == j')) [
        | inl hit ↦
            let e : i ≡ i' = ground arith in
            let f : j ≡ j' = ground arith in
            let c : cost_of after i j ≡ link_to i k + cost_of s.routers k j =
              ground (arith, cost-after i j) in
            let small : cost_of s.routers k j < inf =
              ground (arith, shorter, h.small i j i_inside j_inside) in
            rw (← e, ← f) (rw c (Walk.step k the-IsLink (h.walks k j k_inside j_inside small)))
        | inr miss ↦
            let c = cost-after i' j' in
            let same = rw miss at c in rw same (h.walks i' j' a b (rw same at near))
      ];
      hops = λ i' j' k' a b next. elim (Bool-cases (i == i' && j == j')) [
        | inl hit ↦
            let e : i ≡ i' = ground arith in
            let f : j ≡ j' = ground arith in
            let x = entry-after i' j' in
            let own_hop = ap (λ (y : RoutingEntry). y.next_hop) (rw hit at x) in
            let same : k ≡ k' = ground (arith, own_hop, next) in
            let c : cost_of after i j ≡ link_to i k + cost_of s.routers k j =
              ground (arith, cost-after i j) in
            rw (← e, ← f, ← same) (the-IsLink, omega (arith, c, lower k j))
        | inr miss ↦
            let x = entry-after i' j' in
            let c = cost-after i' j' in
            let before =
              h.hops i' j' k' a b
                (sym (ap (λ (y : RoutingEntry). y.next_hop) (rw miss at x)) ∙ next) in
            (before.0, omega (arith, before.1, lower k' j', rw miss at c))
      ];
    }

    falls_by_one : suc (table_total n n after) ≤ table_total n n s.routers
    falls_by_one =
        table_total_lt n s.routers after lower n i j i_inside j_inside
          (ground (arith, shorter, cost-after i j))

  pub improve-Part :
      (i j k : ℕ) (s : Exchange)
      → Invariant s.routers
      → i < n
      → j < n
      → k < n
      → (i == j) ≡ false
      → Part (IsQuiet i j k) s (improve n cost_matrix i j k s)
  unfolding improve count_update
  improve-Part i j k s h i_inside j_inside k_inside apart =
      elim (Bool-cases (is_shorter n cost_matrix i j k s.routers)) [
        | inl shorter ↦ rw shorter (record {
          kept =
              unfold after entry in
              after-Invariant i j k s h i_inside j_inside k_inside apart shorter;
          falls =
              unfold after entry in
              ground (arith, falls_by_one i j k s h i_inside j_inside k_inside apart shorter);
          quiet = λ never. absurd (ground (arith, never));
        })
        | inr none_found ↦
            rw none_found
              (record { kept = h; falls = omega arith; quiet = λ same. (refl, none_found) })
      ]
