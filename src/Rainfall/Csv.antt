-- ===== src/Rainfall/Csv.antt =====
-- `readCSV`. A file is the list of the lines that `fgets` reads, all shorter than its buffer. `atoi`
-- and `atof` are those of the C library, as functions of the text of a field.
pub mod Fields
use study_in_tezpur_universi.Common.{
  ℕ, zero, suc, ◌+◌, List, [], ◌∷◌, ◌++◌, Option, none, some, ◌==◌, leb, if◌then◌else◌, get_or, set,
  length,
}
use study_in_tezpur_universi.Common.Int.{ℤ}
use study_in_tezpur_universi.Rainfall.Doubles.{Doubles}
use study_in_tezpur_universi.Rainfall.Record.{RainfallRecord, max_records, months}

-- What `strtok(…, ",")` yields, call after call: the fields that are not empty.
pub add_token : List ℕ → List (List ℕ) → List (List ℕ)
add_token [] rest = rest
add_token (c ∷ token) rest = (c ∷ token) ∷ rest

pub tokens_from : List ℕ → List ℕ → List (List ℕ)
unfolding add_token
tokens_from token [] = add_token token []
tokens_from token (c ∷ line) =
    let split = add_token token (tokens_from [] line) in
    let longer = tokens_from (token ++ c ∷ []) line in if c == b',' then split else longer

pub tokens : List ℕ → List (List ℕ)
unfolding tokens_from
tokens line = tokens_from [] line

module _ {V : Type 0} ⦃d : Doubles V⦄ (atoi : List ℕ → ℤ) (atof : List ℕ → V) where
  -- The loop over the months, with the months left; it stops where there is no token. `unset` is
  -- what the array held before.
  pub read_months : ℕ → List V → List (List ℕ) → List V × List (List ℕ)
  read_months zero unset fields = ([], fields)
  read_months (suc left) unset [] = (unset, [])
  read_months (suc left) [] (field ∷ fields) = ([], fields)
  read_months (suc left) (u ∷ unset) (field ∷ fields) =
      let (monthly, rest) = read_months left unset fields in (atof field ∷ monthly, rest)

  pub read_annual : List (List ℕ) → V
  read_annual [] = d.zero_value
  read_annual (field ∷ fields) = atof field

  -- The record of a line, or `none` for a line without a token, which is skipped.
  pub read_record : List V → List (List ℕ) → Option (RainfallRecord V)
  unfolding read_months read_annual
  read_record unset [] = none
  read_record unset (field ∷ fields) =
      let (monthly, rest) = read_months months unset fields in
      some (record { year = atoi field; monthly = monthly; annual = read_annual rest })

  pub push_record : Option (RainfallRecord V) → List (RainfallRecord V) → List (RainfallRecord V)
  push_record none records = records
  push_record (some r) records = records ++ r ∷ []

  -- The loop over the lines, which stops at `MAX_RECORDS` records. `unset n` is what the array of
  -- months holds before the line with `n` lines behind it.
  pub read_lines : (ℕ → List V) → List (List ℕ) → List (RainfallRecord V) → List (RainfallRecord V)
  unfolding tokens read_record push_record
  read_lines unset [] records = records
  read_lines unset (line ∷ lines) records =
      let records' = push_record (read_record (unset (length lines)) (tokens line)) records in
      let more = read_lines unset lines records' in
      if leb max_records (length records') then records' else more

  -- `none` is the -1 for a file that cannot be opened, or has no line. The first line is the header.
  pub read_csv : (ℕ → List V) → Option (List (List ℕ)) → Option (List (RainfallRecord V))
  unfolding read_lines
  read_csv unset none = none
  read_csv unset (some []) = none
  read_csv unset (some (header ∷ lines)) = some (read_lines unset lines [])
