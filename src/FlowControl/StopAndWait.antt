-- ===== src/FlowControl/StopAndWait.antt =====
-- STCN/Session1/Lab_Session_1/Exp07_Flow_Control/stop_and_wait.c, for any number of frames in place of
-- 5. What the simulation prints is a list of events, the newest first; a payload is known by the
-- number of its packet.
pub mod Delivery
mod Tests
use study_in_tezpur_universi.Common.{
  ℕ, zero, suc, ◌+◌, ◌%◌, List, [], ◌∷◌, Option, none, some, Bool, true, false, ◌&&◌, ltb, ◌==◌,
  if◌then◌else◌,
}

pub data Event : Type 0 where
  transmitting : (frame_seq attempts : ℕ) → Event
  frame_lost received : (frame_seq : ℕ) → Event
  accepted duplicate : (packet : ℕ) → Event
  ack_lost : (ack_seq : ℕ) → Event
  acknowledged : (packet ack_seq : ℕ) → Event

-- One attempt to send packet `i`: whether it was delivered, and the events.
pub attempt : ℕ → ℕ → List Event → Bool × List Event
attempt i attempts events =
    let frame_seq = i % 2 in
    let ack_seq = (frame_seq + 1) % 2 in
    let sent = transmitting frame_seq attempts ∷ events in
    let arrived = received frame_seq ∷ sent in
    if i == 2 && attempts == 1
    then (false, frame_lost frame_seq ∷ sent)
    else if i == 4 && attempts == 1
    then (false, ack_lost ack_seq ∷ accepted i ∷ arrived)
    else if i == 4 && ltb 1 attempts
    then (true, acknowledged i ack_seq ∷ duplicate i ∷ arrived)
    else (true, acknowledged i ack_seq ∷ accepted i ∷ arrived)

-- `while (!frame_delivered)`; `none` where the rounds were not enough.
pub send_fuel : ℕ → ℕ → ℕ → List Event → Option (List Event)
unfolding attempt
send_fuel zero i attempts events = none
send_fuel (suc fuel) i attempts events =
    let (frame_delivered, events') = attempt i (attempts + 1) events in
    let again = send_fuel fuel i (attempts + 1) events' in
    if frame_delivered then some events' else again

-- The loop over the packets, from number `i` on. No packet takes more than two attempts.
pub packets_from : ℕ → ℕ → List Event → Option (List Event)
unfolding send_fuel
packets_from zero i events = some events
packets_from (suc left) i events = elim (send_fuel 2 i 0 events) [
  | none ↦ none
  | some events' ↦ packets_from left (i + 1) events'
]

pub simulate_stop_and_wait : ℕ → Option (List Event)
unfolding packets_from
simulate_stop_and_wait total_frames = packets_from total_frames 1 []
