-- ===== src/Detection/Parity.antt =====
-- STCN/Session1/Lab_Session_1/Exp02_Error_Detection/parity.c. A matrix is the list of its rows, with
-- at least `rows` rows and `cols` columns.
pub mod Even
mod Tests
use study_in_tezpur_universi.Common.{
  ℕ, zero, suc, ◌+◌, ◌-◌, ◌%◌, List, [], ◌∷◌, ◌++◌, ◌==◌, if◌then◌else◌, get_or, take,
}

pub count_ones : List ℕ → ℕ
count_ones [] = 0
count_ones (c ∷ bits) = (if c == b'1' then 1 else 0) + count_ones bits

abbrev pub max_bits : ℕ
max_bits = 128

-- What `demo_1d_parity` prints.
pub record Report : Type 0 where
  pub ones : ℕ
  pub even_parity : ℕ
  pub odd_parity : ℕ
  pub rx_ones : ℕ
  pub corrupt_ones : ℕ

-- The corruption of the first character.
pub corrupt : List ℕ → List ℕ
corrupt [] = []
corrupt (c ∷ received) = (if c == b'1' then b'0' else b'1') ∷ received

-- `snprintf` cuts what it writes to the size of `received`, `MAX_BITS + 2` with the NUL.
pub demo_1d_parity : List ℕ → Report
unfolding count_ones corrupt
demo_1d_parity text =
    let ones = count_ones text in
    let even_parity : ℕ = if ones % 2 == 0 then b'0' else b'1' in
    let received = take (max_bits + 1) (text ++ even_parity ∷ []) in
    record {
      ones = ones;
      even_parity = even_parity;
      odd_parity = if ones % 2 == 0 then b'1' else b'0';
      rx_ones = count_ones received;
      corrupt_ones = count_ones (corrupt received);
    }

abbrev pub cell : List (List ℕ) → ℕ → ℕ → ℕ
cell matrix r c = get_or (get_or matrix r []) c 0

-- The ones of row `r` from column `c` on, and of column `c` from row `r` on, with the rounds left.
pub row_ones : List (List ℕ) → ℕ → ℕ → ℕ → ℕ
row_ones matrix zero r c = 0
row_ones matrix (suc left) r c =
    (if cell matrix r c == b'1' then 1 else 0) + row_ones matrix left r (c + 1)

pub col_ones : List (List ℕ) → ℕ → ℕ → ℕ → ℕ
col_ones matrix zero r c = 0
col_ones matrix (suc left) r c =
    (if cell matrix r c == b'1' then 1 else 0) + col_ones matrix left (r + 1) c

-- The loops over the rows and over the columns.
pub row_parity : List (List ℕ) → ℕ → ℕ → ℕ → List ℕ
unfolding row_ones
row_parity matrix cols zero r = []
row_parity matrix cols (suc left) r =
    (if row_ones matrix cols r 0 % 2 == 0 then b'0' else b'1') ∷ row_parity matrix cols left (r + 1)

pub col_parity : List (List ℕ) → ℕ → ℕ → ℕ → List ℕ
unfolding col_ones
col_parity matrix rows zero c = []
col_parity matrix rows (suc left) c =
    (if col_ones matrix rows 0 c % 2 == 0 then b'0' else b'1') ∷ col_parity matrix rows left (c + 1)

-- The parities that `demo_2d_parity` prints, of the rows and of the columns.
pub demo_2d_parity : ℕ → ℕ → List (List ℕ) → List ℕ × List ℕ
unfolding row_parity col_parity
demo_2d_parity rows cols matrix = (row_parity matrix cols rows 0, col_parity matrix rows cols 0)

-- The first demonstration as `main` calls it, with its arguments behind the program's name.
pub main_1d : List (List ℕ) → Report
unfolding demo_1d_parity
main_1d [] = demo_1d_parity (b'1' ∷ b'0' ∷ b'1' ∷ b'1' ∷ b'0' ∷ b'0' ∷ b'1' ∷ [])
main_1d (text ∷ args) = demo_1d_parity (take (max_bits - 1) text)
