-- ===== src/Huffman/Build/Optimal/Deepest.antt =====
-- The shape of a tree, the depths of its leaves, and its deepest pair of siblings.
use study_in_tezpur_universi.Common.{
  ℕ, zero, suc, ◌+◌, ◌≤◌, ◌<◌, ◌≡◌, refl, sym, ap, ◌∙◌, List, [], ◌∷◌, ◌++◌, Bool, true, false, leb,
  arith, Bool-cases, inl, inr, length, get_or,
}
use study_in_tezpur_universi.Huffman.Build.Optimal.Slots.{dot, is_label, occurrences}

pub data Shape : Type 0 where
  tip : Shape
  branch : Shape → Shape → Shape

-- The depths of the leaves from left to right, where the root's is `d`.
unfoldable pub depths : ℕ → Shape → List ℕ
depths d tip = d ∷ []
depths d (branch left right) = depths (suc d) left ++ depths (suc d) right

-- The entries in places `k` and `k + 1` are replaced by one.
unfoldable pub merge_at : ℕ → ℕ → List ℕ → List ℕ
merge_at k v [] = []
merge_at k v (x ∷ []) = x ∷ []
merge_at zero v (x ∷ y ∷ rest) = v ∷ rest
merge_at (suc k) v (x ∷ y ∷ rest) = x ∷ merge_at k v (y ∷ rest)

pub length-merge_at :
    (k v : ℕ) (xs : List ℕ) → suc k < length xs → suc (length (merge_at k v xs)) ≡ length xs
unfolding merge_at
length-merge_at k v [] inside = absurd (omega arith)
length-merge_at k v (x ∷ []) inside = absurd (omega arith)
length-merge_at zero v (x ∷ y ∷ rest) inside = omega arith
length-merge_at (suc k) v (x ∷ y ∷ rest) inside =
    omega (arith, length-merge_at k v (y ∷ rest) (omega arith))

pub occurrences-merge_at :
    (w k v : ℕ) (xs : List ℕ)
    → suc k < length xs
    → occurrences w (merge_at k v xs)
        + is_label w (get_or xs k 0)
        + is_label w (get_or xs (suc k) 0)
      ≡ occurrences w xs + is_label w v
unfolding merge_at occurrences
occurrences-merge_at w k v [] inside = absurd (omega arith)
occurrences-merge_at w k v (x ∷ []) inside = absurd (omega arith)
occurrences-merge_at w zero v (x ∷ y ∷ rest) inside = omega arith
occurrences-merge_at w (suc k) v (x ∷ y ∷ rest) inside =
    omega (arith, occurrences-merge_at w k v (y ∷ rest) (omega arith))

-- Two labels of depth `e + 1` become one of depth `e`.
pub dot-merge_at :
    (ds xs : List ℕ) (k e : ℕ)
    → suc k < length xs
    → length ds ≡ length xs
    → get_or ds k 0 ≡ suc e
    → get_or ds (suc k) 0 ≡ suc e
    → dot (merge_at k e ds) (merge_at k (get_or xs k 0 + get_or xs (suc k) 0) xs)
        + (get_or xs k 0 + get_or xs (suc k) 0)
      ≡ dot ds xs
unfolding merge_at dot
dot-merge_at ds [] k e inside same first second = absurd (omega arith)
dot-merge_at ds (x ∷ []) k e inside same first second = absurd (omega arith)
dot-merge_at [] (x ∷ y ∷ rest) k e inside same first second = absurd (omega arith)
dot-merge_at (c ∷ []) (x ∷ y ∷ rest) k e inside same first second = absurd (omega arith)
dot-merge_at (c ∷ d ∷ ds) (x ∷ y ∷ rest) zero e inside same first second =
    rw (first, second) (omega arith)
dot-merge_at (c ∷ d ∷ ds) (x ∷ y ∷ rest) (suc k) e inside same first second =
    omega (arith, dot-merge_at (d ∷ ds) (y ∷ rest) k e (omega arith) (omega arith) first second)

pub length-append : (xs ys : List ℕ) → length (xs ++ ys) ≡ length xs + length ys
length-append [] ys = omega arith
length-append (x ∷ xs) ys = omega (arith, length-append xs ys)

get_or-left : (xs ys : List ℕ) (i : ℕ) → i < length xs → get_or (xs ++ ys) i 0 ≡ get_or xs i 0
get_or-left [] ys i inside = absurd (omega arith)
get_or-left (x ∷ xs) ys zero inside = refl
get_or-left (x ∷ xs) ys (suc i) inside = get_or-left xs ys i (omega arith)

suc_add : (a b : ℕ) → suc a + b ≡ suc (a + b)
suc_add a b = omega arith

get_or-right : (xs ys : List ℕ) (i : ℕ) → get_or (xs ++ ys) (length xs + i) 0 ≡ get_or ys i 0
get_or-right [] ys i = ap (λ (j : ℕ). get_or ys j 0) (omega arith)
get_or-right (x ∷ xs) ys i =
    ap (λ (j : ℕ). get_or (x ∷ xs ++ ys) j 0) (suc_add (length xs) i) ∙ get_or-right xs ys i

merge_at-left :
    (k v : ℕ) (xs ys : List ℕ) → suc k < length xs → merge_at k v (xs ++ ys) ≡ merge_at k v xs ++ ys
unfolding merge_at
merge_at-left k v [] ys inside = absurd (omega arith)
merge_at-left k v (x ∷ []) ys inside = absurd (omega arith)
merge_at-left zero v (x ∷ y ∷ rest) ys inside = refl
merge_at-left (suc k) v (x ∷ y ∷ rest) ys inside =
    ap (λ (zs : List ℕ). x ∷ zs) (merge_at-left k v (y ∷ rest) ys (omega arith))

merge_at-right :
    (k v : ℕ) (xs ys : List ℕ)
    → 0 < length ys
    → merge_at (length xs + k) v (xs ++ ys) ≡ xs ++ merge_at k v ys
unfolding merge_at
merge_at-right k v [] ys some_y = ap (λ (j : ℕ). merge_at j v ys) (omega arith)
merge_at-right k v (x ∷ []) [] some_y = absurd (omega arith)
merge_at-right k v (x ∷ []) (y ∷ ys) some_y =
    ap (λ (j : ℕ). merge_at j v (x ∷ y ∷ ys)) (suc_add 0 k)
    ∙ ap (λ (j : ℕ). x ∷ merge_at j v (y ∷ ys)) (omega arith)
merge_at-right k v (x ∷ x' ∷ xs) ys some_y =
    ap (λ (j : ℕ). merge_at j v (x ∷ x' ∷ xs ++ ys)) (suc_add (length (x' ∷ xs)) k)
    ∙ ap (λ (zs : List ℕ). x ∷ zs) (merge_at-right k v (x' ∷ xs) ys some_y)

-- A deepest pair of siblings, and the shape without it.
pub record Deepest (d : ℕ) (s : Shape) : Type 0 where
  pub place : ℕ
  pub above : ℕ
  pub smaller : Shape
  pub inside : suc place < length (depths d s)
  pub low : d ≤ above
  pub first : get_or (depths d s) place 0 ≡ suc above
  pub second : get_or (depths d s) (suc place) 0 ≡ suc above
  pub bounded : (i : ℕ) → get_or (depths d s) i 0 ≤ suc above
  pub less : depths d smaller ≡ merge_at place above (depths d s)

get_or-append :
    (xs ys : List ℕ) (i bound : ℕ)
    → ((j : ℕ) → get_or xs j 0 ≤ bound)
    → ((j : ℕ) → get_or ys j 0 ≤ bound)
    → get_or (xs ++ ys) i 0 ≤ bound
get_or-append [] ys i bound p q = q i
get_or-append (x ∷ xs) ys zero bound p q = p 0
get_or-append (x ∷ xs) ys (suc i) bound p q = get_or-append xs ys i bound (λ j. p (suc j)) q

Deepest-left :
    (d : ℕ) (left right : Shape) (l : Deepest (suc d) left)
    → ((i : ℕ) → get_or (depths (suc d) right) i 0 ≤ suc l.above)
    → Deepest d (branch left right)
unfolding depths
Deepest-left d left right l others =
    let ls = depths (suc d) left in
    let rs = depths (suc d) right in
    record {
      place = l.place;
      above = l.above;
      smaller = branch l.smaller right;
      inside = omega (arith, l.inside, length-append ls rs);
      low = omega (arith, l.low);
      first = get_or-left ls rs l.place (omega (arith, l.inside)) ∙ l.first;
      second = get_or-left ls rs (suc l.place) l.inside ∙ l.second;
      bounded = λ i. get_or-append ls rs i (suc l.above) l.bounded others;
      less =
          ap (λ (xs : List ℕ). xs ++ rs) l.less
          ∙ sym (merge_at-left l.place l.above ls rs l.inside);
    }

Deepest-right :
    (d : ℕ) (left right : Shape) (r : Deepest (suc d) right)
    → ((i : ℕ) → get_or (depths (suc d) left) i 0 ≤ suc r.above)
    → Deepest d (branch left right)
unfolding depths
Deepest-right d left right r others =
    let ls = depths (suc d) left in
    let rs = depths (suc d) right in
    let next : suc (length ls + r.place) ≡ length ls + suc r.place = omega arith in
    record {
      place = length ls + r.place;
      above = r.above;
      smaller = branch left r.smaller;
      inside = omega (arith, r.inside, length-append ls rs);
      low = omega (arith, r.low);
      first = get_or-right ls rs r.place ∙ r.first;
      second =
          ap (λ (i : ℕ). get_or (ls ++ rs) i 0) next ∙ get_or-right ls rs (suc r.place) ∙ r.second;
      bounded = λ i. get_or-append ls rs i (suc r.above) others r.bounded;
      less =
          ap (λ (xs : List ℕ). ls ++ xs) r.less
          ∙ sym (merge_at-right r.place r.above ls rs (omega (arith, r.inside)));
    }

tip_bounded : (d bound : ℕ) (i : ℕ) → d ≤ bound → get_or (depths d tip) i 0 ≤ bound
unfolding depths
tip_bounded d bound zero h = h
tip_bounded d bound (suc i) h = omega arith

unfoldable pub is_branch : Shape → Bool
is_branch tip = false
is_branch (branch left right) = true

-- Each shape but a tip has such a pair.
pub deepest : (s : Shape) (d : ℕ) → is_branch s ≡ true → Deepest d s
unfolding is_branch
deepest tip d h = cc
deepest (branch tip tip) d h = record {
  place = 0;
  above = d;
  smaller = tip;
  inside = unfold depths in omega arith;
  low = omega arith;
  first = unfold depths in refl;
  second = unfold depths in refl;
  bounded = λ i. unfold depths in two_bounded i;
  less = unfold depths merge_at in refl;
}
  where
    two_bounded : (i : ℕ) → get_or (suc d ∷ suc d ∷ []) i 0 ≤ suc d
    two_bounded zero = omega arith
    two_bounded (suc zero) = omega arith
    two_bounded (suc (suc i)) = omega arith
deepest (branch tip (branch a b)) d h =
    let r = deepest (branch a b) (suc d) refl in
    Deepest-right d tip (branch a b) r
      (λ i. tip_bounded (suc d) (suc r.above) i (omega (arith, r.low)))
deepest (branch (branch a b) tip) d h =
    let l = deepest (branch a b) (suc d) refl in
    Deepest-left d (branch a b) tip l
      (λ i. tip_bounded (suc d) (suc l.above) i (omega (arith, l.low)))
deepest (branch (branch a b) (branch a' b')) d h =
    let l = deepest (branch a b) (suc d) refl in
    let r = deepest (branch a' b') (suc d) refl in
    elim (Bool-cases (leb r.above l.above)) [
      | inl left ↦
          Deepest-left d (branch a b) (branch a' b') l (λ i. ground (arith, left, r.bounded i))
      | inr right ↦
          Deepest-right d (branch a b) (branch a' b') r (λ i. ground (arith, right, l.bounded i))
    ]
