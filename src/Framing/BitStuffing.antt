-- ===== src/Framing/BitStuffing.antt =====
-- STCN/Session1/Lab_Session_1/Exp01_Framing/bit_stuffing.c. A C string is the list of its
-- character codes before the NUL.
pub mod RoundTrip
mod Tests
pub mod NoFlag
use study_in_tezpur_universi.Common.{
  ℕ, zero, suc, ◌+◌, ◌-◌, List, [], ◌∷◌, ◌++◌, Bool, true, false, ◌&&◌, ◌||◌, not, ◌==◌,
  if◌then◌else◌, take, text_eq,
}

-- The FLAG and MAX_BITS macros.
abbrev pub flag : List ℕ
flag = b'0' ∷ b'1' ∷ b'1' ∷ b'1' ∷ b'1' ∷ b'1' ∷ b'1' ∷ b'0' ∷ []

abbrev pub max_bits : ℕ
max_bits = 1024

-- The test `count == 5` behind a one, the counter behind a character, and what is stuffed there.
pub is_fifth : ℕ → ℕ → Bool
is_fifth count c = c == b'1' && count + 1 == 5

pub next_count : ℕ → ℕ → ℕ
unfolding is_fifth
next_count count c = if is_fifth count c then 0 else if c == b'1' then count + 1 else 0

pub stuffing : ℕ → ℕ → List ℕ
unfolding is_fifth
stuffing count c = if is_fifth count c then b'0' ∷ [] else []

pub stuff_from : ℕ → List ℕ → List ℕ
stuff_from count [] = []
stuff_from count (c ∷ data_bits) =
    c ∷ (stuffing count c ++ stuff_from (next_count count c) data_bits)

pub bit_stuff : List ℕ → List ℕ
unfolding stuff_from stuffing next_count
bit_stuff data_bits = stuff_from 0 data_bits

-- `stuffed[i + 1]` behind the last character is the NUL, which is no '0'.
pub unstuff_from : ℕ → List ℕ → List ℕ
unstuff_from count [] = []
unstuff_from count (c ∷ []) = c ∷ []
unstuff_from count (c ∷ d ∷ rest) =
    let skipped = unstuff_from 0 rest in
    let kept = unstuff_from (next_count count c) (d ∷ rest) in
    c ∷ (if is_fifth count c && d == b'0' then skipped else kept)

pub bit_unstuff : List ℕ → List ℕ
unfolding unstuff_from next_count
bit_unstuff stuffed = unstuff_from 0 stuffed

-- The check of the input for binary digits.
pub is_binary : List ℕ → Bool
is_binary [] = true
is_binary (c ∷ rest) = (c == b'0' || c == b'1') && is_binary rest

-- What `main` prints and returns.
pub record Report : Type 0 where
  pub stuffed : List ℕ
  pub framed : List ℕ
  pub unstuffed : List ℕ
  pub status : ℕ

pub data Outcome : Type 0 where
  invalid : Outcome
  finished : Report → Outcome

-- `main` with its argument `argv[1]`.
pub main : List ℕ → Outcome
unfolding is_binary
main arg =
    let data_bits = take (max_bits - 1) arg in
    let stuffed = bit_stuff data_bits in
    let unstuffed = bit_unstuff stuffed in
    if not (is_binary data_bits)
    then invalid
    else finished (record {
      stuffed = stuffed;
      framed = flag ++ (stuffed ++ flag);
      unstuffed = unstuffed;
      status = if text_eq data_bits unstuffed then 0 else 1;
    })
