-- ===== src/Huffman/Build/Optimal/Labels.antt =====
-- The shape of a tree of nodes and the frequencies in its leaves, and the leaves counted by symbol.
use study_in_tezpur_universi.Common.{
  ℕ, suc, ◌+◌, ◌*◌, ◌≡◌, refl, ap, ◌∙◌, List, [], ◌∷◌, ◌++◌, false, ltb, leb, ◌&&◌, ◌==◌,
  if◌then◌else◌, arith, Bool-cases, inl, inr, length, get_or,
}
use study_in_tezpur_universi.Huffman.Node.{
  HuffmanNode, node, create_node, is_null, IsFull, IsFull-node, count_leaves, count_leaves-fork,
}
use study_in_tezpur_universi.Huffman.Build.Fill.{leaf_sum}
use study_in_tezpur_universi.Huffman.Build.Optimal.Slots.{dot, is_label, occurrences}
use study_in_tezpur_universi.Huffman.Build.Optimal.Deepest.{
  Shape, tip, branch, depths, length-append,
}
use study_in_tezpur_universi.Huffman.Build.Optimal.Cost.{
  weigh, encoded_bits, weigh-IsAdditive, encoded_bits-fork,
}

dot-append :
    (ds es xs ys : List ℕ)
    → length ds ≡ length xs
    → dot (ds ++ es) (xs ++ ys) ≡ dot ds xs + dot es ys
unfolding dot
dot-append [] es [] ys same = omega arith
dot-append [] es (x ∷ xs) ys same = absurd (omega arith)
dot-append (d ∷ ds) es [] ys same = absurd (omega arith)
dot-append (d ∷ ds) es (x ∷ xs) ys same = omega (arith, dot-append ds es xs ys (omega arith))

occurrences-append :
    (w : ℕ) (xs ys : List ℕ) → occurrences w (xs ++ ys) ≡ occurrences w xs + occurrences w ys
unfolding occurrences
occurrences-append w [] ys = omega arith
occurrences-append w (x ∷ xs) ys = omega (arith, occurrences-append w xs ys)

-- A full tree as a shape with labels, which cost what the tree does.
pub record Outline (amount : ℕ → ℕ) (d : ℕ) (t : HuffmanNode) : Type 0 where
  pub layout : Shape
  pub labels : List ℕ
  pub fits : length (depths d layout) ≡ length labels
  pub size : length labels ≡ weigh (λ (c : ℕ). 1) t
  pub count : (w : ℕ) → occurrences w labels ≡ weigh (λ (c : ℕ). is_label w (amount c)) t
  pub cost : dot (depths d layout) labels ≡ encoded_bits amount d t

Outline-leaf : (amount : ℕ → ℕ) (d symbol freq : ℕ) → Outline amount d (create_node symbol freq)
unfolding depths weigh occurrences dot encoded_bits
Outline-leaf amount d symbol freq = record {
  layout = tip;
  labels = amount symbol ∷ [];
  fits = refl;
  size = refl;
  count = λ w. omega arith;
  cost = omega arith;
}

Outline-fork :
    (amount : ℕ → ℕ) (d symbol freq : ℕ) (left right : HuffmanNode)
    → is_null left ≡ false
    → Outline amount (suc d) left
    → Outline amount (suc d) right
    → Outline amount d (node symbol freq left right)
unfolding depths
Outline-fork amount d symbol freq left right h a b =
    let both = length-append a.labels b.labels in
    let add : (g : ℕ → ℕ) → weigh g (node symbol freq left right) ≡ weigh g left + weigh g right =
      λ g. weigh-IsAdditive g symbol freq left right h in
    record {
      layout = branch a.layout b.layout;
      labels = a.labels ++ b.labels;
      fits = omega (
        arith,
        both,
        a.fits,
        b.fits,
        length-append (depths (suc d) a.layout) (depths (suc d) b.layout),
      );
      size = omega (arith, both, a.size, b.size, add (λ (c : ℕ). 1));
      count = λ w. omega (
        arith,
        occurrences-append w a.labels b.labels,
        a.count w,
        b.count w,
        add (λ (c : ℕ). is_label w (amount c)),
      );
      cost = omega (
        arith,
        dot-append (depths (suc d) a.layout) (depths (suc d) b.layout) a.labels b.labels a.fits,
        a.cost,
        b.cost,
        encoded_bits-fork amount d symbol freq left right h,
      );
    }

pub outline : (amount : ℕ → ℕ) (d : ℕ) (t : HuffmanNode) → IsFull t → Outline amount d t
outline amount d t (IsFull.leaf symbol freq small) = Outline-leaf amount d symbol freq
outline amount d t (IsFull.fork symbol freq {left} {right} l r) =
    Outline-fork amount d symbol freq left right (IsFull-node l) (outline amount (suc d) left l)
      (outline amount (suc d) right r)

-- The amounts of the leaves, symbol by symbol from `i` on.
tally : (ℕ → ℕ) → HuffmanNode → ℕ → List ℕ → ℕ
tally g t i [] = 0
tally g t i (f ∷ freqs) = count_leaves i t * g i + tally g t (suc i) freqs

tally-leaf :
    (g : ℕ → ℕ) (symbol freq i : ℕ) (freqs : List ℕ)
    → tally g (create_node symbol freq) i freqs
      ≡ (if leb i symbol && ltb symbol (i + length freqs) then g symbol else 0)
unfolding tally count_leaves
tally-leaf g symbol freq i [] = ground arith
tally-leaf g symbol freq i (f ∷ freqs) = elim (Bool-cases (symbol == i)) [
  | inl here ↦
      let e : symbol ≡ i = ground arith in
      rw e (ground (arith, e, tally-leaf g symbol freq (suc i) freqs))
  | inr other ↦ ground (arith, tally-leaf g symbol freq (suc i) freqs)
]

tally-fork :
    (g : ℕ → ℕ) (symbol freq : ℕ) (left right : HuffmanNode) (i : ℕ) (freqs : List ℕ)
    → is_null left ≡ false
    → tally g (node symbol freq left right) i freqs ≡ tally g left i freqs + tally g right i freqs
unfolding tally
tally-fork g symbol freq left right i [] h = refl
tally-fork g symbol freq left right i (f ∷ freqs) h =
    let c = count_leaves-fork i symbol freq left right h in
    rw c (omega (arith, tally-fork g symbol freq left right (suc i) freqs h))

weigh-tally :
    (g : ℕ → ℕ) (t : HuffmanNode) (freqs : List ℕ)
    → length freqs ≡ 256
    → IsFull t
    → weigh g t ≡ tally g t 0 freqs
weigh-tally g t freqs size (IsFull.leaf symbol freq small) =
    unfold weigh in ground (arith, tally-leaf g symbol freq 0 freqs)
weigh-tally g t freqs size (IsFull.fork symbol freq {left} {right} l r) = omega (
  arith,
  weigh-IsAdditive g symbol freq left right (IsFull-node l),
  tally-fork g symbol freq left right 0 freqs (IsFull-node l),
  weigh-tally g left freqs size l,
  weigh-tally g right freqs size r,
)

tally-leaf_sum :
    (g : ℕ → ℕ) (t : HuffmanNode) (i : ℕ) (freqs : List ℕ)
    → ((j : ℕ) → count_leaves (i + j) t ≡ (if ltb 0 (get_or freqs j 0) then 1 else 0))
    → tally g t i freqs ≡ leaf_sum (weigh g) i freqs
unfolding tally leaf_sum weigh
tally-leaf_sum g t i [] h = refl
tally-leaf_sum g t i (f ∷ freqs) h =
    let first : count_leaves i t ≡ (if ltb 0 f then 1 else 0) =
      ap (λ (c : ℕ). count_leaves c t) (omega arith) ∙ h 0 in
    let rest =
      tally-leaf_sum g t (suc i) freqs
        (λ j. ap (λ (c : ℕ). count_leaves c t) (omega arith) ∙ h (suc j)) in
    elim (Bool-cases (ltb 0 f)) [
      | inl occurs ↦ rw (first, occurs) (omega (arith, rest))
      | inr absent ↦ rw (first, absent) (omega (arith, rest))
    ]

-- In a tree with one leaf for each symbol that occurs, the leaves weigh what those of the heap do.
pub weigh-leaf_sum :
    (g : ℕ → ℕ) (t : HuffmanNode) (freqs : List ℕ)
    → length freqs ≡ 256
    → IsFull t
    → ((c : ℕ) → count_leaves c t ≡ (if ltb 0 (get_or freqs c 0) then 1 else 0))
    → weigh g t ≡ leaf_sum (weigh g) 0 freqs
weigh-leaf_sum g t freqs size full own =
    weigh-tally g t freqs size full
    ∙ tally-leaf_sum g t 0 freqs (λ j. ap (λ (c : ℕ). count_leaves c t) (omega arith) ∙ own j)

-- Weights that agree on the leaves have the same sum.
pub leaf_sum-agree :
    (weight weight' : HuffmanNode → ℕ) (i : ℕ) (freqs : List ℕ)
    → ((j : ℕ)
        → weight (create_node (i + j) (get_or freqs j 0))
          ≡ weight' (create_node (i + j) (get_or freqs j 0)))
    → leaf_sum weight i freqs ≡ leaf_sum weight' i freqs
unfolding leaf_sum
leaf_sum-agree weight weight' i [] h = refl
leaf_sum-agree weight weight' i (f ∷ freqs) h =
    let first : weight (create_node i f) ≡ weight' (create_node i f) =
      let e : i + 0 ≡ i = omega arith in rw e at (h 0) in
    let rest =
      leaf_sum-agree weight weight' (suc i) freqs
        (λ j. let e : i + suc j ≡ suc i + j = omega arith in rw e at (h (suc j))) in
    ground (arith, first, rest)
