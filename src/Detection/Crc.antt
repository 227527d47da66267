-- ===== src/Detection/Crc.antt =====
-- STCN/Session1/Lab_Session_1/Exp02_Error_Detection/crc.c. A C string is the list of its character
-- codes before the NUL. Where a buffer has no room for its string, the result is `none`.
pub mod Verified
mod Tests
use study_in_tezpur_universi.Common.{
  ℕ, zero, suc, ◌+◌, ◌-◌, List, [], ◌∷◌, ◌++◌, Bool, true, false, ◌&&◌, ◌==◌, if◌then◌else◌, length,
  drop, take, not, replicate, Option, none, some, ltb, leb,
}

abbrev pub xor_char : ℕ → ℕ → ℕ
xor_char x y = if x == y then b'0' else b'1'

-- `xor_op` on the dividend from `start` on.
pub xor_op : List ℕ → List ℕ → List ℕ
xor_op [] divisor = []
xor_op (x ∷ dividend) [] = x ∷ dividend
xor_op (x ∷ dividend) (y ∷ divisor) = xor_char x y ∷ xor_op dividend divisor

-- The first character behind a round's test, and the buffer behind it.
pub step_head : List ℕ → ℕ → ℕ
step_head [] c = c
step_head (g ∷ generator) c = if c == b'1' then xor_char c g else c

pub step_tail : List ℕ → ℕ → List ℕ → List ℕ
unfolding xor_op
step_tail [] c temp = temp
step_tail (g ∷ generator) c temp = if c == b'1' then xor_op temp generator else temp

-- The loop over the buffer from index `i` on, with the rounds that are left. What stands before `i`
-- is not touched again.
pub divide : ℕ → List ℕ → List ℕ → List ℕ
unfolding step_head step_tail
divide zero generator temp = temp
divide (suc left) generator [] = []
divide (suc left) generator (c ∷ temp) =
    step_head generator c ∷ divide left generator (step_tail generator c temp)

abbrev pub max_len : ℕ
max_len = 2048

-- The characters of `remainder`.
pub remainder_of : List ℕ → List ℕ → List ℕ
unfolding divide
remainder_of data_bits generator =
    drop (length data_bits)
      (divide (length data_bits) generator (data_bits ++ replicate (length generator - 1) b'0'))

-- `none`: `temp` has no room for the data, the zeros and the NUL, or the generator is empty, so that
-- `strncpy` gets a negative size.
pub compute_crc : List ℕ → List ℕ → Option (List ℕ)
unfolding remainder_of
compute_crc data_bits generator =
    if leb (length data_bits + length generator) max_len && ltb 0 (length generator)
    then some (remainder_of data_bits generator)
    else none

pub all_zero : List ℕ → Bool
all_zero [] = true
all_zero (c ∷ rest) = c == b'0' && all_zero rest

-- `i <= code_len - gen_len` makes `code_len - gen_len + 1` rounds.
pub is_divisible : List ℕ → List ℕ → Bool
unfolding divide all_zero
is_divisible codeword generator =
    let rounds = length codeword + 1 - length generator in
    all_zero (drop rounds (divide rounds generator codeword))

-- `none`: `temp` has no room for the codeword and its NUL, or the last loop starts in front of it.
pub check_crc : List ℕ → List ℕ → Option Bool
unfolding is_divisible
check_crc codeword generator =
    if ltb (length codeword) max_len && leb (length generator) (length codeword + 1)
    then some (is_divisible codeword generator)
    else none

infixl 5 ◌>>=◌
abbrev ◌>>=◌ : {A B : Type 0} → Option A → (A → Option B) → Option B
none >>= f = none
some a >>= f = f a

-- What `main` prints and its exit status.
pub record Report : Type 0 where
  pub remainder : List ℕ
  pub codeword : List ℕ
  pub status1 : Bool
  pub corrupt_codeword : List ℕ
  pub status2 : Bool
  pub status : ℕ

-- The corruption of the first character; in an empty codeword it is the NUL, and the string does not
-- end there any more.
pub flip_first : List ℕ → Option (List ℕ)
flip_first [] = none
flip_first (c ∷ codeword) = some ((if c == b'1' then b'0' else b'1') ∷ codeword)

-- `snprintf` cuts the codeword to the size of its buffer.
pub report : List ℕ → List ℕ → Option Report
unfolding compute_crc check_crc flip_first
report data_bits generator = do
  remainder ← compute_crc data_bits generator
  let codeword = take (max_len - 1) (data_bits ++ remainder)
  status1 ← check_crc codeword generator
  corrupt_codeword ← flip_first codeword
  status2 ← check_crc corrupt_codeword generator
  some (record {
    remainder = remainder;
    codeword = codeword;
    status1 = status1;
    corrupt_codeword = corrupt_codeword;
    status2 = status2;
    status = if status1 && not status2 then 0 else 1;
  })

-- `main` with its arguments behind the program's name; with fewer than two it takes its defaults.
pub main : List (List ℕ) → Option Report
unfolding report
main [] = report (b'1' ∷ b'0' ∷ b'0' ∷ b'1' ∷ b'0' ∷ b'0' ∷ []) (b'1' ∷ b'1' ∷ b'0' ∷ b'1' ∷ [])
main (data_bits ∷ []) =
    report (b'1' ∷ b'0' ∷ b'0' ∷ b'1' ∷ b'0' ∷ b'0' ∷ []) (b'1' ∷ b'1' ∷ b'0' ∷ b'1' ∷ [])
main (data_bits ∷ generator ∷ args) =
    report (take (max_len - 1) data_bits) (take (max_len - 1) generator)
