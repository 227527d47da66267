-- ===== src/Rainfall/Record.antt =====
-- The records, and the counters of the two sorts. An array of records is a list.
use study_in_tezpur_universi.Common.{ℕ, List, replicate}
use study_in_tezpur_universi.Common.Int.{ℤ, pos}
use study_in_tezpur_universi.Rainfall.Doubles.{Doubles}

abbrev pub max_records : ℕ
max_records = 200

abbrev pub months : ℕ
months = 12

pub record RainfallRecord (V : Type 0) : Type 0 where
  pub year : ℤ
  pub monthly : List V
  pub annual : V

-- How often a sort compared two records, and how often it moved one.
pub record Counters : Type 0 where
  pub comparisons : ℕ
  pub swaps : ℕ

-- What a read out of bounds gives here; the sources make none.
abbrev pub blank : {V : Type 0} ⦃d : Doubles V⦄ → RainfallRecord V
blank ⦃d⦄ = record { year = pos 0; monthly = replicate months d.zero_value; annual = d.zero_value }
