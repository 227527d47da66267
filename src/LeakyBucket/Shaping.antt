-- ===== src/LeakyBucket/Shaping.antt =====
-- leaky_bucket.c: the output rate is bounded, the bucket never overflows, no packet is lost but
-- those counted as dropped, and the simulation ends.
use mathlib.Core.Option
use mathlib.Core.Path.{subst}
use study_in_tezpur_universi.Common.{
  ℕ, zero, suc, ◌+◌, ◌-◌, ◌≤◌, ◌<◌, ◌≡◌, refl, List, [], ◌∷◌, Option, some, ◌==◌, false, arith,
  Bool-cases, inl, inr, ◌⊎◌, ◌∙◌,
}
use study_in_tezpur_universi.LeakyBucket.{
  bucket_capacity, leak_rate, TimeSlot, Row, arrivals, shape, simulate, is_empty,
}

-- One second sends at most the rate, fills no more than the capacity and loses no packet.
pub record IsShaped (r : Row) : Type 0 where
  pub rate : r.sent ≤ leak_rate
  pub bounded : r.buffer_after ≤ bucket_capacity
  pub conserved : r.buffer_before + r.incoming ≡ r.sent + r.dropped + r.buffer_after

-- One second sends at most the leak rate, leaves at most the capacity in the bucket, and accounts
-- for each packet as sent, dropped or left.
pub shape-IsShaped :
    (time bucket_content incoming : ℕ) → IsShaped (shape time bucket_content incoming)
unfolding shape
shape-IsShaped time bucket_content incoming = ground arith

-- If a second that starts with a bucket within its capacity drops packets, then it sends at the
-- full rate, and what was in the bucket and arrived is the capacity and what is dropped.
pub shape_drops :
    (time bucket_content incoming : ℕ)
    → bucket_content ≤ bucket_capacity
    → 0 < (shape time bucket_content incoming).dropped
    → ((shape time bucket_content incoming).sent ≡ leak_rate)
      × (bucket_content + incoming ≡ bucket_capacity + (shape time bucket_content incoming).dropped)
unfolding shape
shape_drops time bucket_content incoming fits h = ground arith

abbrev pub incoming_of : List TimeSlot → ℕ
incoming_of [] = 0
incoming_of (slot ∷ trace) = slot.incoming + incoming_of trace

abbrev pub sent_of : List Row → ℕ
sent_of [] = 0
sent_of (r ∷ rows) = r.sent + sent_of rows

abbrev pub dropped_of : List Row → ℕ
dropped_of [] = 0
dropped_of (r ∷ rows) = r.dropped + dropped_of rows

abbrev pub AllShaped : List Row → Type 0
AllShaped [] = Unit
AllShaped (r ∷ rows) = IsShaped r × AllShaped rows

arrivals_sum :
    (time : ℕ) (trace : List TimeSlot)
    → (arrivals time trace).0 + incoming_of (arrivals time trace).1 ≡ incoming_of trace
unfolding arrivals
arrivals_sum time [] = refl
arrivals_sum time (slot ∷ trace) = elim (Bool-cases (slot.time == time)) [
  | inl now ↦ rw now
  | inr later ↦ rw later (omega arith)
]

-- The rows of a run: each second is shaped, and what arrived was sent or dropped.
pub record IsRun (trace : List TimeSlot) (bucket_content : ℕ) (rows : List Row) : Type 0 where
  pub shaped : AllShaped rows
  pub conserved : bucket_content + incoming_of trace ≡ sent_of rows + dropped_of rows

shape_fields :
    (time bucket_content incoming : ℕ)
    → ((shape time bucket_content incoming).buffer_before ≡ bucket_content)
      × ((shape time bucket_content incoming).incoming ≡ incoming)
unfolding shape
shape_fields time bucket_content incoming = (refl, refl)

shape_leaks : (time n : ℕ) → (shape time (suc n) 0).buffer_after < suc n
unfolding shape
shape_leaks time n = ground arith

simulate-more :
    (fuel time bucket_content : ℕ) (trace : List TimeSlot)
    → is_empty trace ≡ false ⊎ (0 < bucket_content)
    → simulate (suc fuel) time trace bucket_content
      ≡ Option.map (◌∷◌ (shape time bucket_content (arrivals time trace).0)) (
          simulate fuel
            (time + 1)
            (arrivals time trace).1
            (shape time bucket_content (arrivals time trace).0).buffer_after)
unfolding simulate
simulate-more fuel time bucket_content [] h = ground arith
simulate-more fuel time bucket_content (slot ∷ trace) h = refl

-- A run that ends.
abbrev pub Ends : List TimeSlot → ℕ → Option (List Row) → Type 0
Ends trace bucket_content r = (rows : List Row) × (r ≡ some rows) × IsRun trace bucket_content rows

simulate-done : (fuel time : ℕ) → simulate (suc fuel) time [] 0 ≡ some []
unfolding simulate
simulate-done fuel time = refl

-- One more second in front of a run.
Ends-more :
    (fuel time bucket_content : ℕ) (trace : List TimeSlot)
    → is_empty trace ≡ false ⊎ (0 < bucket_content)
    → Ends
        (arrivals time trace).1
        (shape time bucket_content (arrivals time trace).0).buffer_after
        (simulate fuel
          (time + 1)
          (arrivals time trace).1
          (shape time bucket_content (arrivals time trace).0).buffer_after)
    → Ends trace bucket_content (simulate (suc fuel) time trace bucket_content)
Ends-more fuel time bucket_content trace h (rows, e, run) =
    let row = shape time bucket_content (arrivals time trace).0 in
    let shaped = shape-IsShaped time bucket_content (arrivals time trace).0 in
    (
      row ∷ rows,
      simulate-more fuel time bucket_content trace h ∙ rw e,
      record {
        shaped = (shaped, run.shaped);
        conserved = omega (
          arith,
          run.conserved,
          shape_fields time bucket_content (arrivals time trace).0,
          shaped.conserved,
          arrivals_sum time trace,
        );
      },
    )

-- Behind the trace the bucket is emptied.
drain-Ends :
    (fuel time bucket_content : ℕ)
    → bucket_content < fuel
    → Ends [] bucket_content (simulate fuel time [] bucket_content)
drain-Ends zero time bucket_content h = absurd (omega arith)
drain-Ends (suc fuel) time zero h =
    ([], simulate-done fuel time, record { shaped = tt; conserved = refl })
drain-Ends (suc fuel) time (suc n) h =
    let none_left : arrivals time [] ≡ (0, []) = unfold arrivals in refl in
    Ends-more fuel time (suc n) [] (inr (omega arith)) (
      rw none_left (
        drain-Ends fuel (time + 1) (shape time (suc n) 0).buffer_after
          (omega (arith, shape_leaks time n))))

-- Slots in ascending order of time, from `time` on and before `end`.
abbrev pub IsAscending : ℕ → ℕ → List TimeSlot → Type 0
IsAscending time end [] = Unit
IsAscending time end (slot ∷ trace) =
    (time ≤ slot.time) × (slot.time < end) × IsAscending (slot.time + 1) end trace

-- On a trace in ascending order of time, from the current time on and before `end`, with a bucket
-- within its capacity and a round for each second left and each packet of the capacity, the
-- simulation ends; each second is shaped, and what was in the bucket and arrived was sent or
-- dropped.
pub simulate-Ends :
    (fuel time end bucket_content : ℕ) (trace : List TimeSlot)
    → IsAscending time end trace
    → bucket_content ≤ bucket_capacity
    → (end - time) + bucket_capacity < fuel
    → Ends trace bucket_content (simulate fuel time trace bucket_content)
simulate-Ends fuel time end bucket_content [] order fits enough =
    drain-Ends fuel time bucket_content (omega arith)
simulate-Ends zero time end bucket_content (slot ∷ trace) order fits enough = absurd (omega arith)
simulate-Ends (suc fuel) time end bucket_content (slot ∷ trace) order fits enough =
    elim (Bool-cases (slot.time == time)) [
      | inl now ↦
          let e : slot.time ≡ time = ground arith in
          let a : arrivals time (slot ∷ trace) ≡ (slot.incoming, trace) =
            unfold arrivals in rw now in
          let r = shape time bucket_content slot.incoming in
          let order' = subst (λ (t : ℕ). IsAscending (t + 1) end trace) e order.2 in
          Ends-more fuel time bucket_content (slot ∷ trace) (inl refl) (
            rw a (
              simulate-Ends fuel (time + 1) end r.buffer_after trace order'
                (shape-IsShaped time bucket_content slot.incoming).bounded (omega arith)))
      | inr later ↦
          let a : arrivals time (slot ∷ trace) ≡ (0, slot ∷ trace) = unfold arrivals in rw later in
          let r = shape time bucket_content 0 in
          let next : time + 1 ≤ slot.time = ground arith in
          Ends-more fuel time bucket_content (slot ∷ trace) (inl refl) (
            rw a (
              simulate-Ends fuel (time + 1) end r.buffer_after (slot ∷ trace)
                (next, order.1, order.2) (shape-IsShaped time bucket_content 0).bounded
                (omega arith)))
    ]
