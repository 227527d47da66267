-- ===== src/Huffman/Build/Shape.antt =====
-- A Boolean form of full trees, and the weights of a tree that a fork adds up.
use study_in_tezpur_universi.Common.{
  ℕ, ◌+◌, ◌≤◌, ◌<◌, ◌≡◌, Bool, true, false, ◌&&◌, ltb, if◌then◌else◌, arith,
}
use study_in_tezpur_universi.Huffman.Node.{
  HuffmanNode, null, node, is_null, is_leaf, IsFull, IsFull-node, is_leaf-fork,
}
use study_in_tezpur_universi.Huffman.Header.RoundTrip.{depth}

unfoldable pub is_full : HuffmanNode → Bool
is_full null = false
is_full (node symbol freq left right) =
    if is_leaf (node symbol freq left right) then ltb symbol 256 else is_full left && is_full right

pub is_full-IsFull : (t : HuffmanNode) → is_full t ≡ true → IsFull t
unfolding is_full
is_full-IsFull null h = cc
is_full-IsFull (node symbol freq null null) h = IsFull.leaf symbol freq (ground arith)
is_full-IsFull (node symbol freq null (node s f l r)) h = cc
is_full-IsFull (node symbol freq (node s f l r) right) h =
    IsFull.fork symbol freq (is_full-IsFull (node s f l r) (ground arith))
      (is_full-IsFull right (ground arith))

-- 0 for a full tree.
unfoldable pub defect : HuffmanNode → ℕ
unfolding is_full
defect t = if is_full t then 0 else 1

unfoldable pub leaves : HuffmanNode → ℕ
leaves null = 0
leaves (node symbol freq left right) =
    if is_leaf (node symbol freq left right) then 1 else leaves left + leaves right

pub defect-IsFull : (t : HuffmanNode) → defect t ≡ 0 → IsFull t
unfolding defect
defect-IsFull t h = is_full-IsFull t (ground arith)

pub defect-fork :
    (symbol freq : ℕ) (left right : HuffmanNode)
    → defect left ≡ 0
    → defect right ≡ 0
    → defect (node symbol freq left right) ≡ 0
unfolding defect is_full
defect-fork symbol freq null right p q = ground arith
defect-fork symbol freq (node s f l r) right p q = ground arith

-- A weight that a fork adds up from its children.
abbrev pub IsAdditive : (HuffmanNode → ℕ) → Type 0
IsAdditive weight =
    (symbol freq : ℕ) (left right : HuffmanNode)
    → is_null left ≡ false
    → weight (node symbol freq left right) ≡ weight left + weight right

pub leaves-IsAdditive : IsAdditive leaves
unfolding leaves
leaves-IsAdditive symbol freq left right h = rw (is_leaf-fork symbol freq left right h)

-- A full tree is at most as deep as it has leaves, where a leaf has a depth of 1.
pub depth-le-leaves : (t : HuffmanNode) → IsFull t → depth t ≤ leaves t
depth-le-leaves t (IsFull.leaf symbol freq small) = unfold leaves in omega arith
depth-le-leaves t (IsFull.fork symbol freq {left} {right} l r) = omega (
  arith,
  leaves-IsAdditive symbol freq left right (IsFull-node l),
  leaves-pos left l,
  leaves-pos right r,
  depth-le-leaves left l,
  depth-le-leaves right r,
)
  where
    leaves-pos : (t : HuffmanNode) → IsFull t → 0 < leaves t
    leaves-pos t (IsFull.leaf symbol freq small) = unfold leaves in omega arith
    leaves-pos t (IsFull.fork symbol freq {left} {right} l r) =
        omega (arith, leaves-IsAdditive symbol freq left right (IsFull-node l), leaves-pos left l)
