-- ===== src/Huffman/Build/Tree.antt =====
-- What `buildHuffmanTree` returns: a full tree with one leaf for each symbol that occurs.
use study_in_tezpur_universi.Common.{
  ℕ, zero, suc, ◌+◌, ◌-◌, ◌≤◌, ◌<◌, ◌≡◌, refl, ◌∙◌, List, [], ◌∷◌, some, false, ltb, ◌==◌,
  if◌then◌else◌, arith, Bool-cases, zero-cases, ==_self, inl, inr, length, get_or,
}
use study_in_tezpur_universi.Huffman.Node.{
  HuffmanNode, node, create_node, is_leaf, is_leaf-fork, IsFull, IsFull-node, count_leaves,
  count_leaves-fork,
}
use study_in_tezpur_universi.Huffman.Heap.{create_min_heap}
use study_in_tezpur_universi.Huffman.Heap.Conserve.{create_min_heap-IsWithin}
use study_in_tezpur_universi.Huffman.Build.{
  count_distinct, single_tree, fill_heap, merge_fuel, build_from_heap, build_single,
  build_huffman_tree,
}
use study_in_tezpur_universi.Huffman.Build.Shape.{defect, leaves, IsAdditive, leaves-IsAdditive}
use study_in_tezpur_universi.Huffman.Build.Merge.{IsForest, merge_fuel-Finished, root_weight}
use study_in_tezpur_universi.Huffman.Build.Fill.{
  leaf_sum, fill_heap-Filled, leaf_sum-defect, leaf_sum-leaves, leaf_sum-count_leaves,
}

-- The greedy construction conserves each additive weight of the leaves.
build_from_heap_weight :
    (weight : HuffmanNode → ℕ) (freqs : List ℕ)
    → IsAdditive weight
    → length freqs ≡ 256
    → 0 < count_distinct freqs
    → IsFull (build_from_heap freqs (count_distinct freqs))
      × (weight (build_from_heap freqs (count_distinct freqs)) ≡ leaf_sum weight 0 freqs)
unfolding build_from_heap create_min_heap
build_from_heap_weight weight freqs additive size some_symbols =
    let distinct = count_distinct freqs in
    let empty = create_min_heap distinct in
    let (within, no_weight) = create_min_heap-IsWithin weight distinct in
    let no_defect = (create_min_heap-IsWithin defect distinct).1 in
    let w = fill_heap-Filled weight 0 freqs empty within (omega arith) in
    let d = fill_heap-Filled defect 0 freqs empty within (omega arith) in
    let filled = fill_heap 0 freqs empty in
    let forest : IsForest filled = record {
      within = d.within;
      full = omega (arith, d.weighs, no_defect, leaf_sum-defect 0 freqs (omega arith));
    } in
    let m =
      merge_fuel-Finished weight filled.size filled additive forest (omega (arith, d.size))
        (omega arith) in
    let (full, weighs) = root_weight weight (merge_fuel filled.size filled) m.forest m.size in
    (full, omega (arith, weighs, m.weighs, w.weighs, no_weight))

pub count_leaves-IsAdditive : (c : ℕ) → IsAdditive (count_leaves c)
count_leaves-IsAdditive c symbol freq left right h = count_leaves-fork c symbol freq left right h

pub count_distinct-pos : (freqs : List ℕ) (j : ℕ) → 0 < get_or freqs j 0 → 0 < count_distinct freqs
unfolding count_distinct
count_distinct-pos [] j h = h
count_distinct-pos (f ∷ freqs) zero h = ground arith
count_distinct-pos (f ∷ freqs) (suc j) h = omega (arith, count_distinct-pos freqs j h)

single_tree-skip :
    (i f : ℕ) (freqs : List ℕ)
    → ltb 0 f ≡ false
    → single_tree i (f ∷ freqs) ≡ single_tree (suc i) freqs
unfolding single_tree
single_tree-skip i f freqs absent = rw absent

-- The only symbol and the dummy leaf.
single_tree_lem :
    (i c : ℕ) (freqs : List ℕ)
    → i + length freqs ≤ 256
    → 0 < count_distinct freqs
    → (root : HuffmanNode) × (single_tree i freqs ≡ some root)
      × IsFull root
      × (is_leaf root ≡ false)
      × (count_distinct freqs ≡ 1 → i ≤ c → 0 < get_or freqs (c - i) 0 → 0 < count_leaves c root)
unfolding single_tree count_distinct count_leaves
single_tree_lem i c [] size some_symbols = absurd (omega arith)
single_tree_lem i c (f ∷ freqs) size some_symbols = elim (Bool-cases (ltb 0 f)) [
  | inl occurs ↦ (
    node b'$' f (create_node i f) (create_node 0 0),
    rw occurs,
    IsFull.fork b'$' f (IsFull.leaf i f (omega arith)) (IsFull.leaf 0 0 (omega arith)),
    refl,
    λ one le some_c. elim (zero-cases (c - i)) [
      | inl first ↦ let e : i ≡ c = omega arith in rw (e, ==_self c) (omega arith)
      | inr later ↦
          let apart : c - i ≡ suc (c - suc i) = omega arith in
          absurd (
            omega
              (arith, count_distinct-pos freqs (c - suc i) (rw apart at some_c), rw occurs at one))
    ],
  )
  | inr absent ↦
      let more : 0 < count_distinct freqs = ground arith in
      let (root, found, full, inner, holds) = single_tree_lem (suc i) c freqs (omega arith) more in
      (
        root,
        single_tree-skip i f freqs absent ∙ found,
        full,
        inner,
        λ one le some_c. elim (zero-cases (c - i)) [
          | inl first ↦ absurd (ground arith)
          | inr later ↦
              let apart : c - i ≡ suc (c - suc i) = omega arith in
              holds (omega (arith, rw absent at one)) (omega arith) (rw apart at some_c)
        ],
      )
]

-- A tree that serves a text: full, no single leaf, and with a leaf for each symbol that occurs.
pub record Serves (freqs : List ℕ) (root : HuffmanNode) : Type 0 where
  pub full : IsFull root
  pub inner : is_leaf root ≡ false
  pub has_leaf : (c : ℕ) → 0 < get_or freqs c 0 → 0 < count_leaves c root

leaves-inner : (t : HuffmanNode) → IsFull t → 1 < leaves t → is_leaf t ≡ false
unfolding leaves
leaves-inner t (IsFull.leaf symbol freq small) h = absurd (omega arith)
leaves-inner t (IsFull.fork symbol freq {left} {right} l r) h =
    is_leaf-fork symbol freq left right (IsFull-node l)

build_from_heap-Serves :
    (freqs : List ℕ)
    → length freqs ≡ 256
    → 1 < count_distinct freqs
    → Serves freqs (build_from_heap freqs (count_distinct freqs))
build_from_heap-Serves freqs size two =
    let (full, many) = build_from_heap_weight leaves freqs leaves-IsAdditive size (omega arith) in
    record {
      full = full;
      inner = leaves-inner _ full (omega (arith, many, leaf_sum-leaves 0 freqs));
      has_leaf = λ c h.
          let (_, own) =
            build_from_heap_weight (count_leaves c) freqs (count_leaves-IsAdditive c) size
              (omega arith) in
          ground (arith, own, leaf_sum-count_leaves c 0 freqs);
    }

build_single-Serves :
    (freqs : List ℕ)
    → length freqs ≡ 256
    → count_distinct freqs ≡ 1
    → Serves freqs (build_single freqs (count_distinct freqs))
unfolding build_single
build_single-Serves freqs size one =
    let (root, found, full, inner, holds) = single_tree_lem 0 0 freqs (omega arith) (omega arith) in
    rw (found, build_single)
      (record {
        full = full;
        inner = inner;
        has_leaf = λ c h.
            let (root', found', full', inner', holds') =
              single_tree_lem 0 c freqs (omega arith) (omega arith) in
            let same : root' ≡ root = ground (arith, found, found') in
            let at_c : c - 0 ≡ c = omega arith in
            rw (← same) (holds' one (omega arith) (rw at_c h));
      })

-- If a symbol occurs, the tree serves the text.
pub build_huffman_tree-Serves :
    (freqs : List ℕ)
    → length freqs ≡ 256
    → 0 < count_distinct freqs
    → Serves freqs (build_huffman_tree freqs).0
unfolding build_huffman_tree
build_huffman_tree-Serves freqs size some_symbols =
    let busy : (count_distinct freqs == 0) ≡ false = ground arith in
    elim (Bool-cases (count_distinct freqs == 1)) [
      | inl one ↦ rw (busy, one) (build_single-Serves freqs size (ground arith))
      | inr more ↦ rw (busy, more) (build_from_heap-Serves freqs size (ground arith))
    ]

-- For 256 frequencies and a symbol that occurs, the tree is full, is no single leaf, and has a leaf
-- of that symbol. A text of one symbol only is no exception.
pub build_huffman_tree_has_leaf :
    (freqs : List ℕ) (c : ℕ)
    → length freqs ≡ 256
    → 0 < get_or freqs c 0
    → IsFull (build_huffman_tree freqs).0
      × (is_leaf (build_huffman_tree freqs).0 ≡ false)
      × (0 < count_leaves c (build_huffman_tree freqs).0)
build_huffman_tree_has_leaf freqs c size occurs =
    let s = build_huffman_tree-Serves freqs size (count_distinct-pos freqs c occurs) in
    (s.full, s.inner, s.has_leaf c occurs)

-- For 256 frequencies of which two or more are above 0, a symbol has exactly one leaf in the tree
-- if it occurs and none otherwise, and the tree has as many leaves as symbols occur.
pub build_huffman_tree-leaves :
    (freqs : List ℕ) (c : ℕ)
    → length freqs ≡ 256
    → 1 < count_distinct freqs
    → (count_leaves c (build_huffman_tree freqs).0 ≡ (if ltb 0 (get_or freqs c 0) then 1 else 0))
      × (leaves (build_huffman_tree freqs).0 ≡ count_distinct freqs)
unfolding build_huffman_tree
build_huffman_tree-leaves freqs c size two =
    let busy : (count_distinct freqs == 0) ≡ false = ground arith in
    let more : (count_distinct freqs == 1) ≡ false = ground arith in
    let (_, own) =
      build_from_heap_weight (count_leaves c) freqs (count_leaves-IsAdditive c) size
        (omega arith) in
    let (_, many) = build_from_heap_weight leaves freqs leaves-IsAdditive size (omega arith) in
    rw (busy, more)
      (own ∙ ground (arith, leaf_sum-count_leaves c 0 freqs), many ∙ leaf_sum-leaves 0 freqs)
