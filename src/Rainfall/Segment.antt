-- ===== src/Rainfall/Segment.antt =====
-- Arrays as lists: what stands in a segment, and the weight of the elements.
use study_in_tezpur_universi.Common.{
  ℕ, zero, suc, ◌+◌, ◌≤◌, ◌<◌, ◌≡◌, refl, ◌∙◌, List, [], ◌∷◌, ◌++◌, length, get_or, set, arith,
}

module _ {A : Type 0} (weight : A → ℕ) where
  abbrev pub weigh : List A → ℕ
  weigh [] = 0
  weigh (x ∷ xs) = weight x + weigh xs

  pub weigh-append : (xs ys : List A) → weigh (xs ++ ys) ≡ weigh xs + weigh ys
  weigh-append [] ys = omega arith
  weigh-append (x ∷ xs) ys = omega (arith, weigh-append xs ys)

  pub weigh-set :
      (xs : List A) (i : ℕ) (v d : A)
      → i < length xs
      → weigh (set xs i v) + weight (get_or xs i d) ≡ weigh xs + weight v
  weigh-set [] i v d h = absurd (omega arith)
  weigh-set (x ∷ xs) zero v d h = omega arith
  weigh-set (x ∷ xs) (suc i) v d h = omega (arith, weigh-set xs i v d (omega arith))

-- One list holds the elements of another, each as often: every weight of elements agrees.
abbrev pub SameItems : {A : Type 0} → List A → List A → Type 0
SameItems {A} xs ys = (weight : A → ℕ) → weigh weight xs ≡ weigh weight ys

module _ {A : Type 0} (blank : A) where
  -- The elements `xs` stand in an array from index `i` on.
  abbrev pub At : List A → ℕ → List A → Type 0
  At array i [] = Unit
  At array i (x ∷ xs) = (get_or array i blank ≡ x) × At array (i + 1) xs

  pub At-each :
      (array : List A) (i : ℕ) (xs : List A)
      → ((k : ℕ) → k < length xs → get_or array (i + k) blank ≡ get_or xs k blank)
      → At array i xs
  At-each array i [] h = tt
  At-each array i (x ∷ xs) h =
      let e : i + 0 ≡ i = omega arith in
      (
        rw e at (h 0 (omega arith)),
        At-each array (i + 1) xs λ k below.
            let e : i + suc k ≡ i + 1 + k = omega arith in rw e at (h (suc k) (omega arith)),
      )

  -- An array holds itself, and what it holds from its first index on is the array.
  pub At-self : (array : List A) → At array 0 array
  At-self array = At-each array 0 array λ k below. let e : 0 + k ≡ k = omega arith in rw e

  pub At-shift :
      (x : A) (array : List A) (i : ℕ) (xs : List A) → At (x ∷ array) (suc i) xs → At array i xs
  At-shift x array i [] h = tt
  At-shift x array i (y ∷ xs) h =
      let e : suc i + 1 ≡ suc (i + 1) = omega arith in
      (h.0, At-shift x array (i + 1) xs (rw e at h.1))

  pub At-whole : (array xs : List A) → length array ≡ length xs → At array 0 xs → array ≡ xs
  At-whole [] [] size h = refl
  At-whole [] (y ∷ xs) size h = absurd (omega arith)
  At-whole (x ∷ array) [] size h = absurd (omega arith)
  At-whole (x ∷ array) (y ∷ xs) size h =
      let e : 0 + 1 ≡ 1 = refl in
      let rest = At-whole array xs (omega arith) (At-shift x array 0 xs h.1) in cc

  pub At-append :
      (array : List A) (i : ℕ) (xs ys : List A)
      → At array i (xs ++ ys)
      → At array i xs × At array (i + length xs) ys
  At-append array i [] ys h = let e : i + 0 ≡ i = omega arith in (tt, rw e h)
  At-append array i (x ∷ xs) ys h =
      let e : i + suc (length xs) ≡ i + 1 + length xs = omega arith in
      let (l, r) = At-append array (i + 1) xs ys h.1 in ((h.0, l), rw e r)

  pub At-join :
      (array : List A) (i : ℕ) (xs ys : List A)
      → At array i xs
      → At array (i + length xs) ys
      → At array i (xs ++ ys)
  At-join array i [] ys h k = let e : i + 0 ≡ i = omega arith in rw e at k
  At-join array i (x ∷ xs) ys h k =
      let e : i + suc (length xs) ≡ i + 1 + length xs = omega arith in
      (h.0, At-join array (i + 1) xs ys h.1 (rw e at k))

  -- A segment that a change leaves alone.
  pub At-kept :
      (array array' : List A) (i : ℕ) (xs : List A)
      → At array i xs
      → ((k : ℕ) → i ≤ k → k < i + length xs → get_or array' k blank ≡ get_or array k blank)
      → At array' i xs
  At-kept array array' i [] h same = tt
  At-kept array array' i (x ∷ xs) h same = (
    same i (omega arith) (omega arith) ∙ h.0,
    At-kept array array' (i + 1) xs h.1 (λ k p q. same k (omega arith) (omega arith)),
  )
