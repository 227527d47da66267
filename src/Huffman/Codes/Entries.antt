-- ===== src/Huffman/Codes/Entries.antt =====
-- The table's code of a symbol leads from the root to a leaf of that symbol.
use study_in_tezpur_universi.Common.{
  ℕ, ◌<◌, ◌≡◌, ◌⊎◌, refl, sym, ◌∙◌, List, [], ◌∷◌, ◌++◌, false, arith, length as list_length,
  length-append, length-set, length-replicate, get_or-set, get_or-replicate, append_assoc,
  append-nil, inl, inr, zero-cases, Bool-cases, replicate,
}
use study_in_tezpur_universi.Huffman.Node.{
  HuffmanNode, null, node, create_node, is_leaf, IsFull, IsFull-node, is_leaf-fork, count_leaves,
  count_leaves-fork,
}
use study_in_tezpur_universi.Huffman.Codes.{
  CodeEntry, num_chars, empty_entry, leaf_entry, generate_codes_recursive, generate_codes, entry_of,
}

-- The path of a code from a node to a leaf that carries the symbol.
pub data Leads : HuffmanNode → ℕ → List ℕ → Type 0 where
  arrived : (c freq : ℕ) → Leads (create_node c freq) c []
  left_of :
      {symbol freq c : ℕ} {left right : HuffmanNode} {path : List ℕ}
      → Leads left c path
      → Leads (node symbol freq left right) c (b'0' ∷ path)
  right_of :
      {symbol freq c : ℕ} {left right : HuffmanNode} {path : List ℕ}
      → Leads right c path
      → Leads (node symbol freq left right) c (b'1' ∷ path)

-- An entry behind `code_buffer`, for the symbol `c` of the tree.
pub record Coded (t : HuffmanNode) (c : ℕ) (code_buffer : List ℕ) (entry : CodeEntry) : Type 0 where
  pub path : List ℕ
  pub leads : Leads t c path
  pub spelled : entry.code ≡ code_buffer ++ path
  pub measured : entry.length ≡ list_length entry.code

length-generate_codes_recursive :
    (t : HuffmanNode) (p : List ℕ) (table : List CodeEntry)
    → list_length (generate_codes_recursive t p table) ≡ list_length table
unfolding generate_codes_recursive
length-generate_codes_recursive null p table = refl
length-generate_codes_recursive (node symbol freq left right) p table =
    elim (Bool-cases (is_leaf (node symbol freq left right))) [
      | inl as_leaf ↦ rw as_leaf (length-set table symbol (leaf_entry p))
      | inr as_fork ↦ rw as_fork (
          length-generate_codes_recursive right (p ++ b'1' ∷ [])
            (generate_codes_recursive left (p ++ b'0' ∷ []) table)
          ∙ length-generate_codes_recursive left (p ++ b'0' ∷ []) table)
    ]

leaf-Coded :
    (c freq : ℕ) (p : List ℕ) (entry : CodeEntry)
    → 0 < list_length p
    → entry ≡ leaf_entry p
    → Coded (create_node c freq) c p entry
leaf-Coded c freq [] entry h e = absurd (omega arith)
leaf-Coded c freq (b ∷ p) entry h e = record {
  path = [];
  leads = arrived c freq;
  spelled = rw e (sym (append-nil (b ∷ p)));
  measured = rw e;
}

-- A symbol that the tree lacks keeps its entry.
unchanged :
    (t : HuffmanNode) (c : ℕ) (p : List ℕ) (table : List CodeEntry)
    → IsFull t
    → list_length table ≡ num_chars
    → count_leaves c t ≡ 0
    → entry_of (generate_codes_recursive t p table) c ≡ entry_of table c
unfolding generate_codes_recursive
unchanged t c p table (IsFull.leaf symbol freq small) size none_of =
    unfold count_leaves in ground (arith, get_or-set table symbol c (leaf_entry p) empty_entry)
unchanged t c p table (IsFull.fork symbol freq {left} {right} l r) size none_of =
    let split = count_leaves-fork c symbol freq left right (IsFull-node l) in
    let at_left = generate_codes_recursive left (p ++ b'0' ∷ []) table in
    let size' = length-generate_codes_recursive left (p ++ b'0' ∷ []) table in
    rw (is_leaf-fork symbol freq left right (IsFull-node l)) (
      unchanged right c (p ++ b'1' ∷ []) at_left r (size' ∙ size) (omega arith)
      ∙ unchanged left c (p ++ b'0' ∷ []) table l size (omega arith))

module _ {symbol freq c : ℕ} {left right : HuffmanNode} {p : List ℕ} {entry : CodeEntry} where
  Coded-left : Coded left c (p ++ b'0' ∷ []) entry → Coded (node symbol freq left right) c p entry
  Coded-left k = record {
    path = b'0' ∷ k.path;
    leads = left_of k.leads;
    spelled = k.spelled ∙ append_assoc p (b'0' ∷ []) k.path;
    measured = k.measured;
  }

  Coded-right : Coded right c (p ++ b'1' ∷ []) entry → Coded (node symbol freq left right) c p entry
  Coded-right k = record {
    path = b'1' ∷ k.path;
    leads = right_of k.leads;
    spelled = k.spelled ∙ append_assoc p (b'1' ∷ []) k.path;
    measured = k.measured;
  }

-- A symbol of the tree gets the code that leads to it, behind the path to the tree itself.
coded :
    (t : HuffmanNode) (c : ℕ) (p : List ℕ) (table : List CodeEntry)
    → IsFull t
    → list_length table ≡ num_chars
    → 0 < list_length p ⊎ (is_leaf t ≡ false)
    → 0 < count_leaves c t
    → Coded t c p (entry_of (generate_codes_recursive t p table) c)
unfolding generate_codes_recursive
coded t c p table (IsFull.leaf symbol freq small) size inside some_of =
    let here : symbol ≡ c = unfold count_leaves in ground arith in
    let deep : 0 < list_length p = ground arith in
    rw here
      (leaf-Coded c freq p _ deep (ground (arith, get_or-set table c c (leaf_entry p) empty_entry)))
coded t c p table (IsFull.fork symbol freq {left} {right} l r) size inside some_of =
    let split = count_leaves-fork c symbol freq left right (IsFull-node l) in
    let p₀ = p ++ b'0' ∷ [] in
    let p₁ = p ++ b'1' ∷ [] in
    let at_left = generate_codes_recursive left p₀ table in
    let size' = length-generate_codes_recursive left p₀ table ∙ size in
    rw (is_leaf-fork symbol freq left right (IsFull-node l))
      (elim (zero-cases (count_leaves c right)) [
        | inl none_of ↦ rw (unchanged right c p₁ at_left r size' none_of) (
            Coded-left (
              coded left c p₀ table l size (inl (omega (arith, length-append p (b'0' ∷ []))))
                (omega arith)))
        | inr more ↦ Coded-right (
            coded right c p₁ at_left r size' (inl (omega (arith, length-append p (b'1' ∷ []))))
              more)
      ])

-- In the table of a full tree that is no single leaf, the code of each symbol of the tree leads
-- from the root to a leaf of that symbol, and the length kept beside it is the code's.
pub generate_codes-Coded :
    (t : HuffmanNode) (c : ℕ)
    → IsFull t
    → is_leaf t ≡ false
    → 0 < count_leaves c t
    → Coded t c [] (entry_of (generate_codes t) c)
unfolding generate_codes
generate_codes-Coded t c full inner some_of =
    coded t c [] (replicate num_chars empty_entry) full (length-replicate num_chars empty_entry)
      (inr inner) some_of

-- In the table of a full tree, a symbol that the tree lacks has the empty code.
pub generate_codes-absent :
    (t : HuffmanNode) (c : ℕ)
    → IsFull t
    → count_leaves c t ≡ 0
    → entry_of (generate_codes t) c ≡ empty_entry
unfolding generate_codes
generate_codes-absent t c full none_of =
    unchanged t c [] (replicate num_chars empty_entry) full (length-replicate num_chars empty_entry)
      none_of
    ∙ get_or-replicate num_chars c empty_entry
