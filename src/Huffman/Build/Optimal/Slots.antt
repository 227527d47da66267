-- ===== src/Huffman/Build/Optimal/Slots.antt =====
-- Depths and labels as two lists side by side: their cost, how often a label occurs, and what storing
-- and exchanging labels does to both.
use study_in_tezpur_universi.Common.{
  ℕ, zero, suc, ◌+◌, ◌*◌, ◌≤◌, ◌<◌, ◌≡◌, ◌∙◌, List, [], ◌∷◌, ◌==◌, if◌then◌else◌, arith, Bool-cases,
  inl, inr, length, get_or, set, get_or-set, length-set,
}

-- The sum of each label times its depth.
unfoldable pub dot : List ℕ → List ℕ → ℕ
dot [] labels = 0
dot (d ∷ depths) [] = 0
dot (d ∷ depths) (x ∷ labels) = d * x + dot depths labels

unfoldable pub is_label : ℕ → ℕ → ℕ
is_label w x = if x == w then 1 else 0

unfoldable pub occurrences : ℕ → List ℕ → ℕ
occurrences w [] = 0
occurrences w (x ∷ labels) = is_label w x + occurrences w labels

pub dot-set :
    (depths labels : List ℕ) (p v : ℕ)
    → p < length labels
    → length depths ≡ length labels
    → dot depths (set labels p v) + get_or depths p 0 * get_or labels p 0
      ≡ dot depths labels + get_or depths p 0 * v
unfolding dot
dot-set [] [] p v inside same = absurd (omega arith)
dot-set [] (x ∷ labels) p v inside same = absurd (omega arith)
dot-set (d ∷ depths) [] p v inside same = absurd (omega arith)
dot-set (d ∷ depths) (x ∷ labels) zero v inside same = omega arith
dot-set (d ∷ depths) (x ∷ labels) (suc p) v inside same =
    omega (arith, dot-set depths labels p v (omega arith) (omega arith))

pub occurrences-set :
    (w : ℕ) (labels : List ℕ) (p v : ℕ)
    → p < length labels
    → occurrences w (set labels p v) + is_label w (get_or labels p 0)
      ≡ occurrences w labels + is_label w v
unfolding occurrences
occurrences-set w [] p v inside = absurd (omega arith)
occurrences-set w (x ∷ labels) zero v inside = omega arith
occurrences-set w (x ∷ labels) (suc p) v inside =
    omega (arith, occurrences-set w labels p v (omega arith))

-- A label that occurs has a place.
pub place_of :
    (w : ℕ) (labels : List ℕ)
    → 0 < occurrences w labels
    → (i : ℕ) × (i < length labels) × (get_or labels i 0 ≡ w)
unfolding occurrences is_label
place_of w [] some_w = absurd (omega arith)
place_of w (x ∷ labels) some_w = elim (Bool-cases (x == w)) [
  | inl here ↦ (0, omega arith, ground arith)
  | inr other ↦
      let (i, inside, found) = place_of w labels (ground arith) in
      (suc i, omega (arith, inside), found)
]

pub occurs_at :
    (labels : List ℕ) (i : ℕ) → i < length labels → 0 < occurrences (get_or labels i 0) labels
unfolding occurrences is_label
occurs_at [] i inside = absurd (omega arith)
occurs_at (x ∷ labels) zero inside = ground arith
occurs_at (x ∷ labels) (suc i) inside = omega (arith, occurs_at labels i (omega arith))

mul_le : (x a b : ℕ) → a ≤ b → x * a ≤ x * b
mul_le zero a b h = omega arith
mul_le (suc x) a b h = omega (arith, mul_le x a b h)

-- The smaller label costs less at the greater depth.
pub rearrange : (x y a b : ℕ) → x ≤ y → a ≤ b → x * b + y * a ≤ x * a + y * b
rearrange zero y a b h l = omega (arith, mul_le y a b l)
rearrange (suc x) zero a b h l = absurd (omega arith)
rearrange (suc x) (suc y) a b h l = omega (arith, rearrange x y a b (omega arith) l)

unfoldable pub exchange : List ℕ → ℕ → ℕ → List ℕ
exchange labels i p = set (set labels i (get_or labels p 0)) p (get_or labels i 0)

pub length-exchange : (labels : List ℕ) (i p : ℕ) → length (exchange labels i p) ≡ length labels
unfolding exchange
length-exchange labels i p = length-set _ p _ ∙ length-set labels i _

-- The place between the two stores holds what it held.
exchange_kept :
    (labels : List ℕ) (i p : ℕ)
    → i < length labels
    → get_or (set labels i (get_or labels p 0)) p 0 ≡ get_or labels p 0
exchange_kept labels i p inside = ground (arith, get_or-set labels i p (get_or labels p 0) 0)

pub occurrences-exchange :
    (w : ℕ) (labels : List ℕ) (i p : ℕ)
    → i < length labels
    → p < length labels
    → occurrences w (exchange labels i p) ≡ occurrences w labels
unfolding exchange
occurrences-exchange w labels i p i_inside p_inside =
    let first = occurrences-set w labels i (get_or labels p 0) i_inside in
    let second =
      occurrences-set w (set labels i (get_or labels p 0)) p (get_or labels i 0)
        (omega (arith, length-set labels i (get_or labels p 0))) in
    let kept = exchange_kept labels i p i_inside in omega (arith, first, rw kept at second)

-- Moving a smaller label to a greater depth does not cost more.
pub dot-exchange :
    (depths labels : List ℕ) (i p : ℕ)
    → i < length labels
    → p < length labels
    → length depths ≡ length labels
    → get_or depths i 0 ≤ get_or depths p 0
    → get_or labels i 0 ≤ get_or labels p 0
    → dot depths (exchange labels i p) ≤ dot depths labels
unfolding exchange
dot-exchange depths labels i p i_inside p_inside same deeper smaller =
    let stored = length-set labels i (get_or labels p 0) in
    let first = dot-set depths labels i (get_or labels p 0) i_inside same in
    let second =
      dot-set depths (set labels i (get_or labels p 0)) p (get_or labels i 0)
        (omega (arith, stored)) (omega (arith, stored)) in
    let kept = exchange_kept labels i p i_inside in
    let r =
      rearrange (get_or depths i 0) (get_or depths p 0) (get_or labels i 0) (get_or labels p 0)
        deeper smaller in
    omega (arith, first, rw kept at second, r)

pub get_or-exchange :
    (labels : List ℕ) (i p j : ℕ)
    → i < length labels
    → p < length labels
    → get_or (exchange labels i p) j 0 ≡ (
        if p == j
        then get_or labels i 0
        else if i == j
        then get_or labels p 0
        else get_or labels j 0)
unfolding exchange
get_or-exchange labels i p j i_inside p_inside = ground (
  arith,
  length-set labels i (get_or labels p 0),
  get_or-set (set labels i (get_or labels p 0)) p j (get_or labels i 0) 0,
  get_or-set labels i j (get_or labels p 0) 0,
)
