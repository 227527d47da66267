-- ===== src/Huffman/Node.antt =====
-- The nodes of a Huffman tree, and what a caller sees of a tree: its leaves and its paths.
use study_in_tezpur_universi.Common.{
  ℕ, ◌+◌, ◌<◌, ◌≡◌, refl, List, [], ◌∷◌, Bool, true, false, ◌&&◌, ◌==◌, if◌then◌else◌, arith,
}

-- `null` is the NULL pointer; `node data freq left right` a node on the heap.
pub data HuffmanNode : Type 0 where
  null : HuffmanNode
  node : ℕ → ℕ → HuffmanNode → HuffmanNode → HuffmanNode

abbrev pub create_node : ℕ → ℕ → HuffmanNode
create_node symbol freq = node symbol freq null null

abbrev pub symbol_of : HuffmanNode → ℕ
symbol_of null = 0
symbol_of (node symbol freq left right) = symbol

abbrev pub freq_of : HuffmanNode → ℕ
freq_of null = 0
freq_of (node symbol freq left right) = freq

abbrev pub is_null : HuffmanNode → Bool
is_null null = true
is_null (node symbol freq left right) = false

-- `isLeaf` is called on nodes only.
abbrev pub is_leaf : HuffmanNode → Bool
is_leaf null = false
is_leaf (node symbol freq left right) = is_null left && is_null right

-- A tree in which each node has both children or none.
pub data IsFull : HuffmanNode → Type 0 where
  leaf : (symbol freq : ℕ) → symbol < 256 → IsFull (create_node symbol freq)
  fork :
      (symbol freq : ℕ) {left right : HuffmanNode}
      → IsFull left
      → IsFull right
      → IsFull (node symbol freq left right)

-- How many leaves carry a symbol.
unfoldable pub count_leaves : ℕ → HuffmanNode → ℕ
count_leaves c null = 0
count_leaves c (node symbol freq null null) = if symbol == c then 1 else 0
count_leaves c (node symbol freq left right) = count_leaves c left + count_leaves c right

-- The node that a code leads to: `'0'` is left, and anything else right.
unfoldable pub walk : HuffmanNode → List ℕ → HuffmanNode
walk t [] = t
walk null (b ∷ code) = null
walk (node symbol freq left right) (b ∷ code) = walk (if b == b'0' then left else right) code

pub IsFull-node : {t : HuffmanNode} → IsFull t → is_null t ≡ false
IsFull-node (leaf symbol freq h) = refl
IsFull-node (fork symbol freq l r) = refl

-- The leaves of a fork are those of its children.
pub count_leaves-fork :
    (c symbol freq : ℕ) (left right : HuffmanNode)
    → is_null left ≡ false
    → count_leaves c (node symbol freq left right) ≡ count_leaves c left + count_leaves c right
unfolding count_leaves
count_leaves-fork c symbol freq null right h = ground arith
count_leaves-fork c symbol freq (node s f l r) right h = refl

pub is_leaf-fork :
    (symbol freq : ℕ) (left right : HuffmanNode)
    → is_null left ≡ false
    → is_leaf (node symbol freq left right) ≡ false
is_leaf-fork symbol freq null right h = ground arith
is_leaf-fork symbol freq (node s f l r) right h = refl
