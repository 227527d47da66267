-- ===== src/FlowControl/StopAndWait/Delivery.antt =====
-- Every payload is accepted once, in order, and acknowledged.
use study_in_tezpur_universi.Common.{
  ℕ, zero, suc, ◌+◌, ◌≡◌, refl, List, [], ◌∷◌, some, false, ◌==◌, arith, Bool-cases, inl, inr,
}
use study_in_tezpur_universi.FlowControl.StopAndWait.{
  Event, transmitting, frame_lost, received, accepted, duplicate, ack_lost, acknowledged, attempt,
  send_fuel, packets_from, simulate_stop_and_wait,
}

-- The payloads that the receiver accepted, the newest first.
pub delivered : List Event → List ℕ
delivered [] = []
delivered (accepted i ∷ events) = i ∷ delivered events
delivered (transmitting _ _ ∷ events) = delivered events
delivered (frame_lost _ ∷ events) = delivered events
delivered (received _ ∷ events) = delivered events
delivered (duplicate _ ∷ events) = delivered events
delivered (ack_lost _ ∷ events) = delivered events
delivered (acknowledged _ _ ∷ events) = delivered events

-- The packets whose acknowledgement reached the sender.
pub confirmed : List Event → List ℕ
confirmed [] = []
confirmed (acknowledged i _ ∷ events) = i ∷ confirmed events
confirmed (transmitting _ _ ∷ events) = confirmed events
confirmed (frame_lost _ ∷ events) = confirmed events
confirmed (received _ ∷ events) = confirmed events
confirmed (duplicate _ ∷ events) = confirmed events
confirmed (ack_lost _ ∷ events) = confirmed events
confirmed (accepted _ ∷ events) = confirmed events

-- i + n - 1, …, i, and then `older`.
pub numbered : ℕ → ℕ → List ℕ → List ℕ
numbered zero i older = older
numbered (suc n) i older = numbered n (i + 1) (i ∷ older)

-- Two attempts deliver a packet.
send_fuel-delivers :
    (i : ℕ) (events : List Event)
    → (events' : List Event) × (send_fuel 2 i 0 events ≡ some events')
      × (delivered events' ≡ i ∷ delivered events)
      × (confirmed events' ≡ i ∷ confirmed events)
unfolding send_fuel attempt delivered confirmed
send_fuel-delivers i events = elim (Bool-cases (i == 2)) [
  | inl two ↦ let four : (i == 4) ≡ false = ground arith in rw (two, four) (_, refl, refl, refl)
  | inr not_two ↦ elim (Bool-cases (i == 4)) [
    | inl four ↦ rw (not_two, four) (_, refl, refl, refl)
    | inr not_four ↦ rw (not_two, not_four) (_, refl, refl, refl)
  ]
]

packets_from-delivers :
    (left i : ℕ) (events : List Event)
    → (events' : List Event) × (packets_from left i events ≡ some events')
      × (delivered events' ≡ numbered left i (delivered events))
      × (confirmed events' ≡ numbered left i (confirmed events))
unfolding packets_from numbered
packets_from-delivers zero i events = (events, refl, refl, refl)
packets_from-delivers (suc left) i events =
    let (sent, e, d, c) = send_fuel-delivers i events in
    let (end, e', d', c') = packets_from-delivers left (i + 1) sent in
    rw (packets_from, e) (end, e', rw d at d', rw c at c')

-- The simulation ends for any number of packets; the receiver has then accepted the payload of each
-- packet once, in order, and each is acknowledged once.
pub simulate_stop_and_wait-delivers :
    (total_frames : ℕ)
    → (end : List Event) × (simulate_stop_and_wait total_frames ≡ some end)
      × (delivered end ≡ numbered total_frames 1 [])
      × (confirmed end ≡ numbered total_frames 1 [])
unfolding simulate_stop_and_wait delivered confirmed
simulate_stop_and_wait-delivers total_frames = packets_from-delivers total_frames 1 []
