-- ===== src/Detection/Parity/Even.antt =====
-- The parity bits make the number of ones even, and an error in one bit makes it odd.
use study_in_tezpur_universi.Common.{
  ℕ, zero, suc, ◌+◌, ◌%◌, ◌≤◌, ◌≡◌, refl, ap, sym, ◌∙◌, List, [], ◌∷◌, ◌++◌, ◌==◌, if◌then◌else◌,
  arith, Bool-cases, inl, inr, length, length-append, take-length,
}
use study_in_tezpur_universi.Detection.Parity.{
  count_ones, max_bits, corrupt, demo_1d_parity, row_ones, col_ones, row_parity, col_parity,
  demo_2d_parity,
}

count_ones-append : (xs ys : List ℕ) → count_ones (xs ++ ys) ≡ count_ones xs + count_ones ys
unfolding count_ones
count_ones-append [] ys = omega arith
count_ones-append (x ∷ xs) ys = omega (arith, count_ones-append xs ys)

-- Corrupting the first of some characters changes the parity.
count_ones-corrupt :
    (c : ℕ) (xs : List ℕ) → (count_ones (corrupt (c ∷ xs)) + count_ones (c ∷ xs)) % 2 ≡ 1
unfolding count_ones corrupt
count_ones-corrupt c xs = elim (Bool-cases (c == b'1')) [
  | inl one ↦ rw one (omega arith)
  | inr other ↦ rw other (omega arith)
]

abbrev parity_of : List ℕ → ℕ
parity_of text = if count_ones text % 2 == 0 then b'0' else b'1'

with_parity-even : (text : List ℕ) → count_ones (text ++ parity_of text ∷ []) % 2 ≡ 0
unfolding count_ones
with_parity-even text =
    let sum = count_ones-append text (parity_of text ∷ []) in
    elim (Bool-cases (count_ones text % 2 == 0)) [
      | inl even ↦ ground (arith, sum, even)
      | inr odd ↦ ground (arith, sum, odd)
    ]

corrupt-odd :
    (xs ys : List ℕ) (y : ℕ)
    → count_ones (xs ++ y ∷ ys) % 2 ≡ 0
    → count_ones (corrupt (xs ++ y ∷ ys)) % 2 ≡ 1
corrupt-odd [] ys y even = omega (arith, count_ones-corrupt y ys)
corrupt-odd (x ∷ xs) ys y even = omega (arith, count_ones-corrupt x (xs ++ y ∷ ys))

-- For a text of at most `MAX_BITS` characters, the receiver counts an even number of ones with the
-- even parity bit, and an odd number where the first character was corrupted.
pub demo_1d_parity_detects :
    (text : List ℕ)
    → length text ≤ max_bits
    → ((demo_1d_parity text).rx_ones % 2 ≡ 0) × ((demo_1d_parity text).corrupt_ones % 2 ≡ 1)
unfolding demo_1d_parity
demo_1d_parity_detects text short =
    let even = with_parity-even text in
    let whole =
      take-length (max_bits + 1) (text ++ parity_of text ∷ [])
        (omega (arith, length-append text (parity_of text ∷ []))) in
    rw whole (even, corrupt-odd text [] (parity_of text) even)

-- The sum of the counts of all rows, and of all columns.
rows_total : List (List ℕ) → ℕ → ℕ → ℕ → ℕ → ℕ
unfolding row_ones
rows_total matrix cols zero r c = 0
rows_total matrix cols (suc left) r c =
    row_ones matrix cols r c + rows_total matrix cols left (r + 1) c

cols_total : List (List ℕ) → ℕ → ℕ → ℕ → ℕ → ℕ
unfolding col_ones
cols_total matrix rows zero r c = 0
cols_total matrix rows (suc left) r c =
    col_ones matrix rows r c + cols_total matrix rows left r (c + 1)

cols_total_none : (matrix : List (List ℕ)) (left r c : ℕ) → cols_total matrix zero left r c ≡ 0
unfolding cols_total col_ones
cols_total_none matrix zero r c = refl
cols_total_none matrix (suc left) r c = omega (arith, cols_total_none matrix left r (c + 1))

-- The first row taken out of every column.
cols_total_row :
    (matrix : List (List ℕ)) (rows left r c : ℕ)
    → cols_total matrix (suc rows) left r c
      ≡ row_ones matrix left r c + cols_total matrix rows left (r + 1) c
unfolding cols_total col_ones row_ones
cols_total_row matrix rows zero r c = refl
cols_total_row matrix rows (suc left) r c = omega (arith, cols_total_row matrix rows left r (c + 1))

rows-cols :
    (matrix : List (List ℕ)) (rows cols r c : ℕ)
    → rows_total matrix cols rows r c ≡ cols_total matrix rows cols r c
unfolding rows_total
rows-cols matrix zero cols r c = sym (cols_total_none matrix cols r c)
rows-cols matrix (suc rows) cols r c =
    omega (arith, cols_total_row matrix rows cols r c, rows-cols matrix rows cols (r + 1) c)

row_parity-total :
    (matrix : List (List ℕ)) (cols left r : ℕ)
    → count_ones (row_parity matrix cols left r) % 2 ≡ rows_total matrix cols left r 0 % 2
unfolding count_ones row_parity rows_total
row_parity-total matrix cols zero r = refl
row_parity-total matrix cols (suc left) r = elim (Bool-cases (row_ones matrix cols r 0 % 2 == 0)) [
  | inl even ↦
      let e : row_ones matrix cols r 0 % 2 ≡ 0 = ground arith in
      rw even (omega (arith, e, row_parity-total matrix cols left (r + 1)))
  | inr odd ↦
      let e : row_ones matrix cols r 0 % 2 ≡ 1 = ground arith in
      rw odd (omega (arith, e, row_parity-total matrix cols left (r + 1)))
]

col_parity-total :
    (matrix : List (List ℕ)) (rows left c : ℕ)
    → count_ones (col_parity matrix rows left c) % 2 ≡ cols_total matrix rows left 0 c % 2
unfolding count_ones col_parity cols_total
col_parity-total matrix rows zero c = refl
col_parity-total matrix rows (suc left) c = elim (Bool-cases (col_ones matrix rows 0 c % 2 == 0)) [
  | inl even ↦
      let e : col_ones matrix rows 0 c % 2 ≡ 0 = ground arith in
      rw even (omega (arith, e, col_parity-total matrix rows left (c + 1)))
  | inr odd ↦
      let e : col_ones matrix rows 0 c % 2 ≡ 1 = ground arith in
      rw odd (omega (arith, e, col_parity-total matrix rows left (c + 1)))
]

-- The row parities and the column parities of a matrix have the same parity themselves.
pub demo_2d_parity_agree :
    (rows cols : ℕ) (matrix : List (List ℕ))
    → count_ones (demo_2d_parity rows cols matrix).0 % 2
      ≡ count_ones (demo_2d_parity rows cols matrix).1 % 2
unfolding demo_2d_parity
demo_2d_parity_agree rows cols matrix =
    row_parity-total matrix cols rows 0
    ∙ ap (λ (t : ℕ). t % 2) (rows-cols matrix rows cols 0 0)
    ∙ sym (col_parity-total matrix rows cols 0)
