-- ===== src/LeakyBucket.antt =====
-- STCN/Session1/Lab_Session_1/Exp08_Traffic_Shaping/leaky_bucket.c: the simulation of `main`, for
-- any trace of arrivals.
pub mod Shaping
mod Tests
use study_in_tezpur_universi.Common.{
  ℕ, zero, suc, ◌+◌, ◌-◌, List, [], ◌∷◌, Option, none, some, ltb, leb, ◌==◌, if◌then◌else◌, Bool,
  true, false,
}
use mathlib.Core.Option

abbrev pub bucket_capacity : ℕ
bucket_capacity = 10

abbrev pub leak_rate : ℕ
leak_rate = 3

pub record TimeSlot : Type 0 where
  pub time : ℕ
  pub incoming : ℕ

-- The trace of `main`.
abbrev pub main_trace : List TimeSlot
main_trace =
    record { time = 1; incoming = 4 }
    ∷ record { time = 2; incoming = 8 }
    ∷ record { time = 3; incoming = 6 }
    ∷ record { time = 4; incoming = 2 }
    ∷ record { time = 5; incoming = 0 }
    ∷ record { time = 6; incoming = 5 }
    ∷ []

-- A printed row.
pub record Row : Type 0 where
  pub time : ℕ
  pub incoming : ℕ
  pub buffer_before : ℕ
  pub sent : ℕ
  pub dropped : ℕ
  pub buffer_after : ℕ

-- The arrivals of a second, and the slots of the trace behind `trace_idx` then.
pub arrivals : ℕ → List TimeSlot → ℕ × List TimeSlot
arrivals time [] = (0, [])
arrivals time (slot ∷ trace) =
    if slot.time == time then (slot.incoming, trace) else (0, slot ∷ trace)

-- One second: the arrivals fill the bucket, what overflows is dropped, and packets leak out.
pub shape : ℕ → ℕ → ℕ → Row
shape time bucket_content incoming =
    let overflow = ltb bucket_capacity (bucket_content + incoming) in
    let dropped = if overflow then bucket_content + incoming - bucket_capacity else 0 in
    let filled = if overflow then bucket_capacity else bucket_content + incoming in
    record {
      time = time;
      incoming = incoming;
      buffer_before = bucket_content;
      sent = if leb leak_rate filled then leak_rate else filled;
      dropped = dropped;
      buffer_after = if leb leak_rate filled then filled - leak_rate else 0;
    }

abbrev pub is_empty : List TimeSlot → Bool
is_empty [] = true
is_empty (slot ∷ trace) = false

-- The `while` loop; `none` means that the fuel ran out.
pub simulate : ℕ → ℕ → List TimeSlot → ℕ → Option (List Row)
unfolding arrivals shape
simulate zero time trace bucket_content = none
simulate (suc fuel) time trace bucket_content =
    let (incoming, trace') = arrivals time trace in
    let row = shape time bucket_content incoming in
    let rest = Option.map (◌∷◌ row) (simulate fuel (time + 1) trace' row.buffer_after) in
    if is_empty trace then (if ltb 0 bucket_content then rest else some []) else rest
