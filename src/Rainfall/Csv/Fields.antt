-- ===== src/Rainfall/Csv/Fields.antt =====
-- What is read of a row, and how many rows are read.
use study_in_tezpur_universi.Common.{
  ℕ, zero, suc, ◌+◌, ◌≤◌, ◌<◌, ◌≡◌, refl, ap, ◌∙◌, List, [], ◌∷◌, ◌++◌, map, Option, none, some,
  false, ◌==◌, length, length-append, arith, append_assoc, append-nil,
}
use study_in_tezpur_universi.Common.Int.{ℤ}
use study_in_tezpur_universi.Rainfall.Doubles.{Doubles}
use study_in_tezpur_universi.Rainfall.Record.{RainfallRecord, max_records, months}
use study_in_tezpur_universi.Rainfall.Csv.{
  add_token, tokens_from, tokens, read_months, read_annual, read_record, push_record, read_lines,
  read_csv,
}

-- Fields with a comma between any two.
abbrev pub joined : List (List ℕ) → List ℕ
joined [] = []
joined (field ∷ []) = field
joined (field ∷ next ∷ fields) = field ++ b',' ∷ joined (next ∷ fields)

abbrev pub NoComma : List ℕ → Type 0
NoComma [] = Unit
NoComma (c ∷ field) = ((c == b',') ≡ false) × NoComma field

-- Fields that are not empty and have no comma.
abbrev pub AreFields : List (List ℕ) → Type 0
AreFields [] = Unit
AreFields (field ∷ fields) = (0 < length field) × NoComma field × AreFields fields

tokens_from-field :
    (token field line : List ℕ)
    → NoComma field
    → tokens_from token (field ++ line) ≡ tokens_from (token ++ field) line
unfolding tokens_from
tokens_from-field token [] line h = rw (append-nil token)
tokens_from-field token (c ∷ field) line h =
    rw h.0
      (tokens_from-field (token ++ c ∷ []) field line h.1 ∙ rw (append_assoc token (c ∷ []) field))

add_token_full :
    (token : List ℕ) (rest : List (List ℕ)) → 0 < length token → add_token token rest ≡ token ∷ rest
unfolding add_token
add_token_full [] rest h = absurd (omega arith)
add_token_full (c ∷ token) rest h = refl

tokens_from-comma :
    (token line : List ℕ) → tokens_from token (b',' ∷ line) ≡ add_token token (tokens_from [] line)
unfolding tokens_from
tokens_from-comma token line = refl

tokens_from-end : (token : List ℕ) → tokens_from token [] ≡ add_token token []
unfolding tokens_from
tokens_from-end token = refl

-- A line of fields is split into just these fields.
pub tokens-joined : (fields : List (List ℕ)) → AreFields fields → tokens (joined fields) ≡ fields
unfolding tokens
tokens-joined [] h = unfold tokens_from add_token in refl
tokens-joined (field ∷ []) h =
    ap (tokens_from []) (append_nil_sym field)
    ∙ tokens_from-field [] field [] h.1
    ∙ tokens_from-end field
    ∙ add_token_full field [] h.0
  where
    append_nil_sym : (field : List ℕ) → field ≡ field ++ []
    append_nil_sym field = rw (append-nil field)
tokens-joined (field ∷ next ∷ fields) h =
    tokens_from-field [] field (b',' ∷ joined (next ∷ fields)) h.1
    ∙ tokens_from-comma field (joined (next ∷ fields))
    ∙ add_token_full field (tokens_from [] (joined (next ∷ fields))) h.0
    ∙ ap (◌∷◌ field) (tokens-joined (next ∷ fields) h.2)

module _ {V : Type 0} ⦃d : Doubles V⦄ (atoi : List ℕ → ℤ) (atof : List ℕ → V) where
  read_months_full :
      (n : ℕ) (unset : List V) (fields rest : List (List ℕ))
      → length fields ≡ n
      → n ≤ length unset
      → read_months atoi atof n unset (fields ++ rest) ≡ (map atof fields, rest)
  unfolding read_months
  read_months_full zero unset [] rest size room = refl
  read_months_full zero unset (field ∷ fields) rest size room = absurd (omega arith)
  read_months_full (suc n) unset [] rest size room = absurd (omega arith)
  read_months_full (suc n) [] (field ∷ fields) rest size room = absurd (omega arith)
  read_months_full (suc n) (u ∷ unset) (field ∷ fields) rest size room =
      rw (read_months_full n unset fields rest (omega arith) (omega arith))

  -- A row of a year, twelve months and the annual rainfall, none of them empty, is read field by
  -- field, whatever the array of months held before.
  pub read_record-tokens :
      (unset : List V) (year annual : List ℕ) (monthly : List (List ℕ))
      → AreFields (year ∷ (monthly ++ annual ∷ []))
      → length monthly ≡ months
      → months ≤ length unset
      → read_record atoi atof unset (tokens (joined (year ∷ (monthly ++ annual ∷ []))))
        ≡ some (record { year = atoi year; monthly = map atof monthly; annual = atof annual })
  unfolding read_record read_annual
  read_record-tokens unset year annual monthly fields size room = rw (
    tokens-joined (year ∷ (monthly ++ annual ∷ [])) fields,
    read_months_full months unset monthly (annual ∷ []) size room,
  )

  push_record-length :
      (r : Option (RainfallRecord V)) (records : List (RainfallRecord V))
      → (length records ≤ length (push_record atoi atof r records))
        × (length (push_record atoi atof r records) ≤ length records + 1)
  unfolding push_record
  push_record-length none records = omega arith
  push_record-length (some r) records = omega (arith, length-append records (r ∷ []))

  read_lines-length :
      (unset : ℕ → List V) (lines : List (List ℕ)) (records : List (RainfallRecord V))
      → length records < max_records
      → (length (read_lines atoi atof unset lines records) ≤ max_records)
        × (length (read_lines atoi atof unset lines records) ≤ length records + length lines)
  unfolding read_lines
  read_lines-length unset [] records room = omega arith
  read_lines-length unset (line ∷ lines) records room =
      let pushed =
        push_record-length (read_record atoi atof (unset (length lines)) (tokens line)) records in
      ground (
        arith,
        pushed,
        read_lines-length unset lines (
            push_record atoi atof (read_record atoi atof (unset (length lines)) (tokens line))
              records),
      )

  -- Any file with a header line is read, to no more records than `records` has room for, and no more
  -- than it has lines behind the header.
  pub read_csv-length :
      (unset : ℕ → List V) (header : List ℕ) (lines : List (List ℕ))
      → (records : List (RainfallRecord V)) × (read_csv atoi atof unset (some (header ∷ lines))
          ≡ some records)
        × (length records ≤ max_records)
        × (length records ≤ length lines)
  unfolding read_csv
  read_csv-length unset header lines =
      let (room, short) = read_lines-length unset lines [] (omega arith) in
      (read_lines atoi atof unset lines [], refl, room, omega (arith, short))
