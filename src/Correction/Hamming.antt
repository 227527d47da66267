-- ===== src/Correction/Hamming.antt =====
-- STCN/Session1/Lab_Session_1/Exp03_Error_Correction/hamming.c. The array of a codeword is a list of
-- `n + 1` bits, its index 0 unused; the fixed arrays of the program have room for it up to n = 63.
pub mod Position
pub mod Parity
pub mod Extract
pub mod Correct
mod Tests
use Prim.Native.Nat.{bit_and}
use study_in_tezpur_universi.Common.{
  ℕ, zero, suc, ◌+◌, ◌-◌, ◌*◌, ◌%◌, ◌^◌, List, [], ◌∷◌, Option, none, some, Bool, true, false, ◌&&◌,
  ◌||◌, not, ltb, leb, ◌==◌, if◌then◌else◌, get_or, set, replicate, take, length, text_eq,
}
use study_in_tezpur_universi.Common.Int.{ℤ, pos, negsuc}

unfoldable pub is_power_of_two : ℕ → Bool
is_power_of_two n = ltb 0 n && (bit_and n (n - 1) == 0)

-- `r` grows until `2^r` is large enough, which takes no more than `k` rounds.
pub calculate_r_fuel : ℕ → ℕ → ℕ → ℕ
calculate_r_fuel zero k r = r
calculate_r_fuel (suc fuel) k r =
    let rest = calculate_r_fuel fuel k (r + 1) in if ltb (2 ^ r) (k + r + 1) then rest else r

pub calculate_r : ℕ → ℕ
unfolding calculate_r_fuel
calculate_r k = calculate_r_fuel k k 1

-- The loop that places the data bits, from index `i` on, with the rounds left. It never reads behind
-- the data.
pub place_from : ℕ → ℕ → List ℕ → List ℕ → List ℕ
place_from zero i data_bits codeword = codeword
place_from (suc left) i data_bits codeword =
    if is_power_of_two i then place_from left (i + 1) data_bits codeword else elim data_bits [
      | [] ↦ codeword
      | c ∷ rest ↦ place_from left (i + 1) rest (set codeword i (c - b'0'))
    ]

-- The loops that count the ones at the indices with the bit of `mask`; the encoder leaves out the
-- index `mask` itself.
pub encode_ones : ℕ → ℕ → ℕ → List ℕ → ℕ
encode_ones zero j mask codeword = 0
encode_ones (suc left) j mask codeword =
    (if not (bit_and j mask == 0) && (not (j == mask) && (get_or codeword j 0 == 1)) then 1 else 0)
    + encode_ones left (j + 1) mask codeword

pub decode_ones : ℕ → ℕ → ℕ → List ℕ → ℕ
decode_ones zero j mask received = 0
decode_ones (suc left) j mask received =
    (if not (bit_and j mask == 0) && (get_or received j 0 == 1) then 1 else 0)
    + decode_ones left (j + 1) mask received

-- The loop over the parity bits, from number `i` on.
pub parity_from : ℕ → ℕ → ℕ → List ℕ → List ℕ
unfolding encode_ones
parity_from n zero i codeword = codeword
parity_from n (suc left) i codeword =
    let ones = encode_ones n 1 (2 ^ i) codeword in
    parity_from n left (i + 1) (set codeword (2 ^ i) (if ones % 2 == 0 then 0 else 1))

pub record Codeword : Type 0 where
  pub codeword : List ℕ
  pub n : ℕ
  pub r : ℕ

pub encode_hamming : List ℕ → Codeword
unfolding calculate_r place_from parity_from
encode_hamming data_bits =
    let r = calculate_r (length data_bits) in
    let n = length data_bits + r in
    record {
      codeword = parity_from n r 0 (place_from n 1 data_bits (replicate (n + 1) 0));
      n = n;
      r = r;
    }

-- The loop that adds up the syndrome.
pub syndrome_from : ℕ → ℕ → ℕ → List ℕ → ℕ → ℕ
unfolding decode_ones
syndrome_from n zero i received syndrome = syndrome
syndrome_from n (suc left) i received syndrome =
    let ones = decode_ones n 1 (2 ^ i) received in
    syndrome_from n left (i + 1) received
      (if not (ones % 2 == 0) then syndrome + 2 ^ i else syndrome)

-- `received[e] ^= 1`, of a bit.
pub flip : List ℕ → ℕ → List ℕ
flip received e = set received e (1 - get_or received e 0)

-- The loop that takes out the data bits, from index `i` on.
pub extract_from : ℕ → ℕ → List ℕ → List ℕ
extract_from zero i received = []
extract_from (suc left) i received =
    let rest = extract_from left (i + 1) received in
    if is_power_of_two i then rest else (get_or received i 0 + b'0') ∷ rest

pub record Decoded : Type 0 where
  pub syndrome : ℕ
  pub received : List ℕ
  pub recovered_data : List ℕ

pub decode_and_correct : List ℕ → ℕ → ℕ → Decoded
unfolding syndrome_from flip extract_from
decode_and_correct received n r =
    let syndrome = syndrome_from n r 0 received 0 in
    let corrected = if ltb 0 syndrome && leb syndrome n then flip received syndrome else received in
    record {
      syndrome = syndrome;
      received = corrected;
      recovered_data = extract_from n 1 corrected;
    }

abbrev pub all_binary : List ℕ → Bool
all_binary [] = true
all_binary (c ∷ text) = (c == b'0' || c == b'1') && all_binary text

-- What `main` prints of its two cases, the second one only for a position in the codeword, and the
-- exit status.
pub record Report : Type 0 where
  pub encoded : Codeword
  pub clean : Decoded
  pub corrupt : Option Decoded
  pub status : ℕ

-- The position of the injected error, if it is one of the codeword.
pub error_index : ℤ → ℕ → Option ℕ
error_index (pos p) n = if leb 1 p && leb p n then some p else none
error_index (negsuc p) n = none

pub report : List ℕ → Codeword → Option ℕ → Report
unfolding decode_and_correct flip
report text c none = record {
  encoded = c;
  clean = decode_and_correct c.codeword c.n c.r;
  corrupt = none;
  status = 0;
}
report text c (some e) =
    let decoded = decode_and_correct (flip c.codeword e) c.n c.r in
    record {
      encoded = c;
      clean = decode_and_correct c.codeword c.n c.r;
      corrupt = some decoded;
      status = if text_eq text decoded.recovered_data then 0 else 1;
    }

abbrev pub max_bits : ℕ
max_bits = 64

-- `main` returns 1 for data that are not binary; where the codeword has more bits than its array,
-- whose entry 0 is not used, it writes behind the array.
pub data Outcome : Type 0 where
  not_binary overrun : Outcome
  finished : Report → Outcome

-- `main` with the data of its first argument and the position of its second one.
pub main : List ℕ → ℤ → Outcome
unfolding encode_hamming report error_index
main arg error_pos =
    let text = take (max_bits - 1) arg in
    let c = encode_hamming text in
    if not (all_binary text)
    then not_binary
    else if ltb c.n max_bits
    then finished (report text c (error_index error_pos c.n))
    else overrun
