-- ===== src/Huffman/Build/Optimal/Contract.antt =====
-- Any tree costs at least as much as one in which the two least labels are siblings of greatest depth,
-- and that one costs their sum more than the tree where they are merged.
use study_in_tezpur_universi.Common.{
  ℕ, suc, ◌+◌, ◌≤◌, ◌<◌, ◌≡◌, ◌≢◌, refl, sym, ap, ◌∙◌, List, true, false, ◌==◌, arith, length,
  get_or, set, get_or-set, length-set,
}
use study_in_tezpur_universi.Huffman.Build.Optimal.Slots.{
  dot, is_label, occurrences, occurrences-set, place_of, occurs_at, exchange, length-exchange,
  occurrences-exchange, dot-exchange, get_or-exchange,
}
use study_in_tezpur_universi.Huffman.Build.Optimal.Deepest.{
  Shape, tip, branch, depths, merge_at, length-merge_at, occurrences-merge_at, dot-merge_at,
  is_branch, deepest,
}

-- A label that stands in another place than `a` in place `k` does.
occurs_apart :
    (labels : List ℕ) (k i : ℕ)
    → k < length labels
    → i < length labels
    → k ≢ i
    → is_label (get_or labels i 0) (get_or labels k 0) < occurrences (get_or labels i 0) labels
unfolding is_label
occurs_apart labels k i k_inside i_inside apart =
    let w = get_or labels i 0 in
    let kept : get_or (set labels k (suc w)) i 0 ≡ w =
      ground (arith, get_or-set labels k i (suc w) 0 k_inside, apart) in
    let there = occurs_at (set labels k (suc w)) i (omega (arith, length-set labels k (suc w))) in
    ground (arith, rw kept at there, occurrences-set w labels k (suc w) k_inside)

place_apart :
    (labels : List ℕ) (k w : ℕ)
    → k < length labels
    → is_label w (get_or labels k 0) < occurrences w labels
    → (i : ℕ) × (i < length labels) × (k ≢ i) × (get_or labels i 0 ≡ w)
unfolding is_label
place_apart labels k w k_inside more =
    let stored = occurrences-set w labels k (suc w) k_inside in
    let (i, inside, found) = place_of w (set labels k (suc w)) (ground (arith, stored)) in
    let value = get_or-set labels k i (suc w) 0 k_inside in
    let other : (k == i) ≡ false = ground (arith, value, found) in
    (
      i,
      omega (arith, inside, length-set labels k (suc w)),
      ground arith,
      sym (rw other at value) ∙ found,
    )

-- `a` and `b` are the two least labels.
pub record Least (labels : List ℕ) (a b : ℕ) : Type 0 where
  pub a_occurs : 0 < occurrences a labels
  pub b_occurs : is_label b a < occurrences b labels
  pub a_least : (w : ℕ) → 0 < occurrences w labels → a ≤ w
  pub b_least : (w : ℕ) → is_label w a < occurrences w labels → b ≤ w

-- The same labels in another order, with `a` and `b` in the places `k` and `k + 1`.
record Settled (ds labels : List ℕ) (k a b : ℕ) : Type 0 where
  moved : List ℕ
  size : length moved ≡ length labels
  same : (w : ℕ) → occurrences w moved ≡ occurrences w labels
  first : get_or moved k 0 ≡ a
  second : get_or moved (suc k) 0 ≡ b
  cost : dot ds moved ≤ dot ds labels

settle :
    (ds labels : List ℕ) (k a b bottom : ℕ)
    → length ds ≡ length labels
    → suc k < length labels
    → get_or ds k 0 ≡ bottom
    → get_or ds (suc k) 0 ≡ bottom
    → ((i : ℕ) → get_or ds i 0 ≤ bottom)
    → Least labels a b
    → Settled ds labels k a b
settle ds labels k a b bottom size inside first second bounded l =
    let (i, i_inside, i_holds) = place_of a labels l.a_occurs in
    let once = exchange labels i k in
    let once_size = length-exchange labels i k in
    let count : (w : ℕ) → occurrences w once ≡ occurrences w labels =
      λ w. occurrences-exchange w labels i k i_inside (omega arith) in
    let holds_a : get_or once k 0 ≡ a =
      ground (arith, get_or-exchange labels i k k i_inside (omega arith), i_holds) in
    let (j, j_inside, apart, j_holds) =
      place_apart once k b (omega (arith, once_size)) (rw (holds_a, count b) l.b_occurs) in
    let twice = exchange once j (suc k) in
    let next : suc k < length once = omega (arith, once_size) in
    let least_b : b ≤ get_or once (suc k) 0 = l.b_least (get_or once (suc k) 0) (
      rw (holds_a, count (get_or once (suc k) 0)) at
        (occurs_apart once k (suc k) (omega arith) next (λ e. omega (arith, e)))) in
    let least_a : a ≤ get_or labels k 0 =
      l.a_least (get_or labels k 0) (occurs_at labels k (omega arith)) in
    let cost_a =
      dot-exchange ds labels i k i_inside (omega arith) size (omega (arith, bounded i, first))
        (omega (arith, i_holds, least_a)) in
    let cost_b =
      dot-exchange ds once j (suc k) j_inside next (omega (arith, size, once_size))
        (omega (arith, bounded j, second)) (omega (arith, j_holds, least_b)) in
    record {
      moved = twice;
      size = length-exchange once j (suc k) ∙ once_size;
      same = λ w. occurrences-exchange w once j (suc k) j_inside next ∙ count w;
      first = ground (arith, get_or-exchange once j (suc k) k j_inside next, holds_a, apart);
      second = ground (arith, get_or-exchange once j (suc k) (suc k) j_inside next, j_holds);
      cost = omega (arith, cost_a, cost_b);
    }

-- A tree of one leaf less, with the sum of `a` and `b` in their place.
pub record Contracted (s : Shape) (labels : List ℕ) (a b : ℕ) : Type 0 where
  pub layout : Shape
  pub rest : List ℕ
  pub fits : length (depths 0 layout) ≡ length rest
  pub size : suc (length rest) ≡ length labels
  pub count :
      (w : ℕ)
      → occurrences w rest + is_label w a + is_label w b ≡ occurrences w labels + is_label w (a + b)
  pub cost : dot (depths 0 layout) rest + (a + b) ≤ dot (depths 0 s) labels

branch_of_two : (s : Shape) → 1 < length (depths 0 s) → is_branch s ≡ true
unfolding depths is_branch
branch_of_two tip h = absurd (omega arith)
branch_of_two (branch left right) h = refl

pub contract :
    (s : Shape) (labels : List ℕ) (a b : ℕ)
    → length (depths 0 s) ≡ length labels
    → 1 < length labels
    → Least labels a b
    → Contracted s labels a b
contract s labels a b fits two l =
    let p = deepest s 0 (branch_of_two s (omega arith)) in
    let m =
      settle (depths 0 s) labels p.place a b (suc p.above) fits (omega (arith, p.inside)) p.first
        p.second p.bounded l in
    let inside : suc p.place < length m.moved = omega (arith, p.inside, m.size) in
    let rest = merge_at p.place (a + b) m.moved in
    let same_size : length (merge_at p.place p.above (depths 0 s)) ≡ length rest = omega (
      arith,
      length-merge_at p.place p.above (depths 0 s) p.inside,
      length-merge_at p.place (a + b) m.moved inside,
      m.size,
    ) in
    let merged =
      dot-merge_at (depths 0 s) m.moved p.place p.above inside (omega (arith, m.size)) p.first
        p.second in
    record {
      layout = p.smaller;
      rest = rest;
      fits = ap length p.less ∙ same_size;
      size = omega (arith, length-merge_at p.place (a + b) m.moved inside, m.size);
      count = λ w.
          let c = occurrences-merge_at w p.place (a + b) m.moved inside in
          omega (arith, rw (m.first, m.second) at c, m.same w);
      cost = rw p.less (omega (arith, rw (m.first, m.second) at merged, m.cost));
    }
