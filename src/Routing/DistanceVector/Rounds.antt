-- ===== src/Routing/DistanceVector/Rounds.antt =====
-- The loops of a round keep the invariant, and a round without an update leaves nothing to improve.
use mathlib.Core.Path.{subst}
use study_in_tezpur_universi.Common.{
  ℕ, zero, suc, ◌+◌, ◌≤◌, ◌<◌, ◌≡◌, refl, ap, sym, ◌∙◌, List, true, false, ◌==◌, arith, Bool-cases,
  inl, inr,
}
use study_in_tezpur_universi.Routing.DistanceVector.{
  Routers, Exchange, improve, neighbours_from, destination, destinations_from, sources_from, round,
  table_total,
}
use study_in_tezpur_universi.Routing.DistanceVector.Improve.{
  count_update, Invariant, IsQuiet, Part, improve-Part,
}

-- A property of the indices from `x` on, from that of `x` and of the later ones.
from_next :
    (P : ℕ → Type 0) (x left : ℕ)
    → P x
    → ((y : ℕ) → x + 1 ≤ y → y < x + 1 + left → P y)
    → (y : ℕ) → x ≤ y
    → y < x + suc left
    → P y
from_next P x left first later y low high = elim (Bool-cases (x == y)) [
  | inl here ↦ let e : x ≡ y = ground arith in subst P e first
  | inr other ↦ later y (ground arith) (omega arith)
]

module _ (n : ℕ) (cost_matrix : List (List ℕ)) where
  Part-stay :
      (Check : Routers → Type 0) (s : Exchange)
      → Invariant n cost_matrix s.routers
      → Check s.routers
      → Part n cost_matrix Check s s
  Part-stay Check s h c = record { kept = h; falls = omega arith; quiet = λ same. (refl, c) }

  Part-then :
      (Check Check' Check'' : Routers → Type 0) (s s' s'' : Exchange)
      → Part n cost_matrix Check s s'
      → Part n cost_matrix Check' s' s''
      → ((r : Routers) → Check r → Check' r → Check'' r)
      → Part n cost_matrix Check'' s s''
  Part-then Check Check' Check'' s s' s'' p q both = record {
    kept = q.kept;
    falls = omega (arith, p.falls, q.falls);
    quiet = λ same.
        let (e', c') = q.quiet same in
        let (e, c) = p.quiet (ap (λ (x : Exchange). x.updated) (sym e') ∙ same) in
        (e' ∙ e, both s.routers c (subst (λ (x : Exchange). Check' x.routers) e c'));
  }

  neighbours_from-Part :
      (left k i j : ℕ) (s : Exchange)
      → Invariant n cost_matrix s.routers
      → i < n
      → j < n
      → k + left ≤ n
      → (i == j) ≡ false
      → Part n cost_matrix
          (λ (r : Routers). (k' : ℕ) → k ≤ k' → k' < k + left → IsQuiet n cost_matrix i j k' r)
          s
          (neighbours_from n cost_matrix left k i j s)
  unfolding neighbours_from
  neighbours_from-Part zero k i j s h i_inside j_inside range apart =
      Part-stay _ s h (λ k' low high. absurd (omega arith))
  neighbours_from-Part (suc left) k i j s h i_inside j_inside range apart =
      let first = improve-Part n cost_matrix i j k s h i_inside j_inside (omega arith) apart in
      let rest =
        neighbours_from-Part left (k + 1) i j (improve n cost_matrix i j k s) first.kept i_inside
          j_inside (omega arith) apart in
      Part-then (IsQuiet n cost_matrix i j k) _ _ s _ _ first rest
        (λ r. from_next (λ (x : ℕ). IsQuiet n cost_matrix i j x r) k left)

  -- Router `i` has no shorter way to `j`.
  abbrev pub IsDone : ℕ → ℕ → Routers → Type 0
  IsDone i j r = (i == j) ≡ false → (k : ℕ) → k < n → IsQuiet n cost_matrix i j k r

  destination-Part :
      (i j : ℕ) (s : Exchange)
      → Invariant n cost_matrix s.routers
      → i < n
      → j < n
      → Part n cost_matrix (IsDone i j) s (destination n cost_matrix i j s)
  unfolding destination
  destination-Part i j s h i_inside j_inside = elim (Bool-cases (i == j)) [
    | inl own ↦ rw own (Part-stay (IsDone i j) s h (λ apart. absurd (ground arith)))
    | inr apart ↦
        let loop = neighbours_from-Part n 0 i j s h i_inside j_inside (omega arith) apart in
        rw apart (record {
          kept = loop.kept;
          falls = loop.falls;
          quiet = λ same.
              let (e, c) = loop.quiet same in
              (e, λ other k inside. c k (omega arith) (omega arith));
        })
  ]

  destinations_from-Part :
      (left j i : ℕ) (s : Exchange)
      → Invariant n cost_matrix s.routers
      → i < n
      → j + left ≤ n
      → Part n cost_matrix
          (λ (r : Routers). (j' : ℕ) → j ≤ j' → j' < j + left → IsDone i j' r)
          s
          (destinations_from n cost_matrix left j i s)
  unfolding destinations_from
  destinations_from-Part zero j i s h i_inside range =
      Part-stay _ s h (λ j' low high. absurd (omega arith))
  destinations_from-Part (suc left) j i s h i_inside range =
      let first = destination-Part i j s h i_inside (omega arith) in
      let rest =
        destinations_from-Part left (j + 1) i (destination n cost_matrix i j s) first.kept i_inside
          (omega arith) in
      Part-then (IsDone i j) _ _ s _ _ first rest (λ r. from_next (λ (x : ℕ). IsDone i x r) j left)

  sources_from-Part :
      (left i : ℕ) (s : Exchange)
      → Invariant n cost_matrix s.routers
      → i + left ≤ n
      → Part n cost_matrix
          (λ (r : Routers).
            (i' : ℕ) → i ≤ i' → i' < i + left → (j : ℕ) → 0 ≤ j → j < 0 + n → IsDone i' j r)
          s
          (sources_from n cost_matrix left i s)
  unfolding sources_from
  sources_from-Part zero i s h range = Part-stay _ s h (λ i' low high. absurd (omega arith))
  sources_from-Part (suc left) i s h range =
      let first = destinations_from-Part n 0 i s h (omega arith) (omega arith) in
      let rest =
        sources_from-Part left (i + 1) (destinations_from n cost_matrix n 0 i s) first.kept
          (omega arith) in
      Part-then _ _ _ s _ _ first rest
        (λ r. from_next (λ (x : ℕ). (j : ℕ) → 0 ≤ j → j < 0 + n → IsDone x j r) i left)

  -- A round keeps the invariant; it lowers the sum of the costs, or changes nothing and leaves no
  -- shorter way.
  pub record Round (routers : Routers) (s : Exchange) : Type 0 where
    pub kept : Invariant n cost_matrix s.routers
    pub falls : s.updated ≡ true → table_total n n s.routers < table_total n n routers
    pub done :
        s.updated ≡ false → (s.routers ≡ routers) × ((i j : ℕ) → i < n → j < n → IsDone i j routers)

  pub round_lem :
      (routers : Routers)
      → Invariant n cost_matrix routers
      → Round routers (round n cost_matrix routers)
  unfolding round count_update
  round_lem routers h =
      let p =
        sources_from-Part n 0 (record { routers = routers; updated = false }) h (omega arith) in
      record {
        kept = p.kept;
        falls = λ more. let f = p.falls in omega (arith, rw more at f);
        done = λ same.
            let (e, c) = p.quiet same in
            (
              ap (λ (x : Exchange). x.routers) e,
              λ i j i_inside j_inside.
                  c i (omega arith) (omega arith) j (omega arith) (omega arith),
            );
      }
