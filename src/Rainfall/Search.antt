-- ===== src/Rainfall/Search.antt =====
-- `lower_bound` and `upper_bound`, whose loops differ in their test only.
pub mod Bounds
use study_in_tezpur_universi.Common.{
  ℕ, zero, suc, ◌+◌, ◌-◌, ◌/◌, List, Bool, ltb, if◌then◌else◌, get_or, take, drop,
}
use study_in_tezpur_universi.Rainfall.Doubles.{Doubles}
use study_in_tezpur_universi.Rainfall.Record.{RainfallRecord, blank}

module _ {V : Type 0} ⦃d : Doubles V⦄ where
  -- A round at least halves the range, so that as many rounds as there are indices are enough.
  pub bound_loop : ℕ → (V → Bool) → List (RainfallRecord V) → ℕ → ℕ → ℕ
  bound_loop zero before arr l r = l
  bound_loop (suc fuel) before arr l r =
      let mid = (l + r) / 2 in
      let go_right = bound_loop fuel before arr (mid + 1) r in
      let go_left = bound_loop fuel before arr l mid in
      let round = if before (get_or arr mid blank).annual then go_right else go_left in
      if ltb l r then round else l

  pub lower_bound : List (RainfallRecord V) → ℕ → V → ℕ
  unfolding bound_loop
  lower_bound arr n val = bound_loop n (λ annual. d.lt annual val) arr 0 n

  pub upper_bound : List (RainfallRecord V) → ℕ → V → ℕ
  unfolding bound_loop
  upper_bound arr n val = bound_loop n (λ annual. d.le annual val) arr 0 n
