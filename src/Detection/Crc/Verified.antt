-- ===== src/Detection/Crc/Verified.antt =====
-- crc.c: the division of the sender and that of the receiver, side by side.
use study_in_tezpur_universi.Common.{
  ℕ, zero, suc, ◌+◌, ◌-◌, ◌≤◌, ◌<◌, ◌≡◌, refl, ap, ◌∙◌, List, [], ◌∷◌, ◌++◌, true, Bool-cases, inl,
  inr, ◌||◌, ◌&&◌, ltb, leb, some, ◌==◌, length, length-append, length-replicate, drop, replicate,
  arith,
}
use study_in_tezpur_universi.Detection.Crc.{
  xor_char, xor_op, step_tail, divide, max_len, remainder_of, compute_crc, all_zero, is_divisible,
  check_crc,
}

-- Binary digits.
abbrev pub AllBinary : List ℕ → Type 0
AllBinary [] = Unit
AllBinary (c ∷ rest) = ((c == b'0' || c == b'1') ≡ true) × AllBinary rest

-- The parts of two buffers, of the same length, that differ by `ds`.
data Differ : List ℕ → List ℕ → List ℕ → Type 0 where
  done : Differ [] [] []
  more :
      {x y d : ℕ} {xs ys ds : List ℕ}
      → (x == b'0' || x == b'1') ≡ true
      → (y == b'0' || y == b'1') ≡ true
      → xor_char x y ≡ d
      → Differ xs ys ds
      → Differ (x ∷ xs) (y ∷ ys) (d ∷ ds)

xor_op-Differ :
    {xs ys ds : List ℕ} (generator : List ℕ)
    → AllBinary generator
    → Differ xs ys ds
    → Differ (xor_op xs generator) (xor_op ys generator) ds
unfolding xor_op
xor_op-Differ generator b Differ.done = Differ.done
xor_op-Differ [] b (Differ.more p q e h) = Differ.more p q e h
xor_op-Differ (g ∷ generator) b (Differ.more p q e h) =
    Differ.more (ground arith) (ground arith) (ground arith) (xor_op-Differ generator b.1 h)

step_tail-Differ :
    {xs ys ds : List ℕ} (generator : List ℕ) (c : ℕ)
    → AllBinary generator
    → Differ xs ys ds
    → Differ (step_tail generator c xs) (step_tail generator c ys) ds
unfolding step_tail
step_tail-Differ [] c b h = h
step_tail-Differ (g ∷ generator) c b h = elim (Bool-cases (c == b'1')) [
  | inl one ↦ rw one (xor_op-Differ generator b.1 h)
  | inr other ↦ rw other h
]

-- Dividing two buffers that agree in the divided part leaves their difference.
divide-Differ :
    (n : ℕ) (generator : List ℕ) {xs ys ds : List ℕ}
    → AllBinary generator
    → Differ xs ys (replicate n b'0' ++ ds)
    → Differ (drop n (divide n generator xs)) (drop n (divide n generator ys)) ds
unfolding divide
divide-Differ zero generator b h = h
divide-Differ (suc n) generator b (Differ.more {x} {y} {d} {xs} {ys} p q e h) =
    let same : y ≡ x = ground arith in
    rw same (divide-Differ n generator b (step_tail-Differ generator x b h))

-- The buffers of the sender and the receiver.
Differ-tails :
    (data_bits tail : List ℕ)
    → AllBinary data_bits
    → AllBinary tail
    → Differ
        (data_bits ++ replicate (length tail) b'0')
        (data_bits ++ tail)
        (replicate (length data_bits) b'0' ++ tail)
Differ-tails [] [] b b' = Differ.done
Differ-tails [] (t ∷ tail) b b' = Differ.more refl b'.0 (ground arith) (Differ-tails [] tail b b'.1)
Differ-tails (c ∷ data_bits) tail b b' =
    Differ.more b.0 b.0 (ground arith) (Differ-tails data_bits tail b.1 b')

-- A buffer that differs from another by that other one holds zeros.
Differ-zero : {xs ys ds : List ℕ} → Differ xs ys ds → xs ≡ ds → all_zero ys ≡ true
unfolding all_zero
Differ-zero Differ.done e = refl
Differ-zero (Differ.more {x} {y} {d} {xs} {ys} {ds} p q e h) same =
    let z = Differ-zero h (ground arith) in ground arith

Differ-AllBinary : {xs ys ds : List ℕ} → Differ xs ys ds → AllBinary xs × (length xs ≡ length ds)
Differ-AllBinary Differ.done = (tt, refl)
Differ-AllBinary (Differ.more p q e h) = let r = Differ-AllBinary h in ((p, r.0), ap suc r.1)

zeros-AllBinary : (n : ℕ) → AllBinary (replicate n b'0')
zeros-AllBinary zero = tt
zeros-AllBinary (suc n) = (refl, zeros-AllBinary n)

length-remainder_of :
    (data_bits generator : List ℕ)
    → AllBinary data_bits
    → AllBinary generator
    → AllBinary (remainder_of data_bits generator)
      × (length (remainder_of data_bits generator) ≡ length generator - 1)
unfolding remainder_of
length-remainder_of data_bits generator b g =
    let k = length generator - 1 in
    let size_zeros : length (replicate k b'0') ≡ k = length-replicate k b'0' in
    let self =
      divide-Differ (length data_bits) generator g
        (rw size_zeros at (Differ-tails data_bits (replicate k b'0') b (zeros-AllBinary k))) in
    let (binary, size) = Differ-AllBinary self in (binary, size ∙ size_zeros)

remainder_divides :
    (data_bits generator : List ℕ)
    → AllBinary data_bits
    → AllBinary generator
    → 0 < length generator
    → is_divisible (data_bits ++ remainder_of data_bits generator) generator ≡ true
remainder_divides data_bits generator b g some_bits =
    let n = length data_bits in
    let r = remainder_of data_bits generator in
    let (binary, size_r) = length-remainder_of data_bits generator b g in
    let both = divide-Differ n generator g (rw size_r at (Differ-tails data_bits r b binary)) in
    let rounds : length (data_bits ++ r) + 1 - length generator ≡ n =
      omega (arith, length-append data_bits r, size_r) in
    unfold is_divisible remainder_of in rw rounds (Differ-zero both refl)

-- For binary data and a binary generator that is not empty, which together have at most 2048
-- characters: the sender computes a remainder, one character shorter than the generator, and the
-- receiver's check passes on the data with it. Neither leaves its buffer.
pub check_crc-compute_crc :
    (data_bits generator : List ℕ)
    → AllBinary data_bits
    → AllBinary generator
    → 0 < length generator
    → length data_bits + length generator ≤ max_len
    → (remainder : List ℕ) × (compute_crc data_bits generator ≡ some remainder)
      × (length remainder ≡ length generator - 1)
      × (check_crc (data_bits ++ remainder) generator ≡ some true)
unfolding check_crc compute_crc
check_crc-compute_crc data_bits generator b g some_bits short =
    let r = remainder_of data_bits generator in
    let (_, size) = length-remainder_of data_bits generator b g in
    let whole = length-append data_bits r in
    let sender : (leb (length data_bits + length generator) max_len && ltb 0 (length generator))
        ≡ true =
      ground arith in
    let receiver : (ltb (length (data_bits ++ r)) max_len
          && leb (length generator) (length (data_bits ++ r) + 1))
        ≡ true =
      ground (arith, whole, size) in
    (
      r,
      rw sender refl,
      size,
      rw (receiver, remainder_divides data_bits generator b g some_bits) refl,
    )
