-- ===== src/FlowControl/GoBackN.antt =====
-- STCN/Session1/Lab_Session_1/Exp07_Flow_Control/go_back_n.c, for any size of the window and any
-- number of frames in place of 4 and 8. What the simulation prints is a list of events, the newest
-- first.
pub mod Delivery
mod Tests
use study_in_tezpur_universi.Common.{
  ℕ, zero, suc, ◌+◌, ◌-◌, List, [], ◌∷◌, Option, none, some, Bool, true, false, ◌&&◌, not, ltb,
  ◌==◌, if◌then◌else◌,
}

pub data Event : Type 0 where
  transmitting accepted lost discarded timeout : ℕ → Event

pub record Simulation : Type 0 where
  pub next_frame_to_send : ℕ
  pub ack_expected : ℕ
  pub error_simulated : Bool
  pub events : List Event

pub start : Simulation
start = record { next_frame_to_send = 0; ack_expected = 0; error_simulated = false; events = [] }

-- One round of the loop that receives: the expected frame is accepted and the window slides.
pub accept : Simulation → Simulation
accept s = record s {
  ack_expected = s.ack_expected + 1;
  events = accepted s.ack_expected ∷ s.events;
}

-- `while (ack_expected < next_frame_to_send)`: each round needs one frame.
pub accept_fuel : ℕ → Simulation → Simulation
unfolding accept
accept_fuel zero s = s
accept_fuel (suc fuel) s =
    let rest = accept_fuel fuel (accept s) in
    if ltb s.ack_expected s.next_frame_to_send then rest else s

-- The loop over the frames from `f` on, which arrive behind a lost frame, with the rounds left.
pub discard_from : ℕ → ℕ → List Event → List Event
discard_from zero f events = events
discard_from (suc left) f events = discard_from left (f + 1) (discarded f ∷ events)

-- The first pass: frame 0 is accepted, frame 1 is lost.
pub first_pass : Simulation → Simulation
unfolding discard_from
first_pass s = record {
  next_frame_to_send = 1;
  ack_expected = 1;
  error_simulated = true;
  events = timeout 1 ∷ discard_from (s.next_frame_to_send - 2) 2 (lost 1 ∷ accepted 0 ∷ s.events);
}

module _ (window_size total_frames : ℕ) where
  pub transmit : Simulation → Simulation
  transmit s = record s {
    next_frame_to_send = s.next_frame_to_send + 1;
    events = transmitting s.next_frame_to_send ∷ s.events;
  }

  -- The loop that fills the window: each round sends one of the frames.
  pub transmit_fuel : ℕ → Simulation → Simulation
  unfolding transmit
  transmit_fuel zero s = s
  transmit_fuel (suc fuel) s =
      let rest = transmit_fuel fuel (transmit s) in
      if ltb s.next_frame_to_send (s.ack_expected + window_size)
        && ltb s.next_frame_to_send total_frames
      then rest
      else s

  -- One round of the outer loop.
  pub round : Simulation → Simulation
  unfolding transmit_fuel first_pass accept_fuel
  round s =
      let sent = transmit_fuel (total_frames - s.next_frame_to_send) s in
      if not sent.error_simulated && (sent.ack_expected == 0)
      then first_pass sent
      else accept_fuel (sent.next_frame_to_send - sent.ack_expected) sent

  -- `none`: the rounds of the outer loop were not enough.
  pub simulate_fuel : ℕ → Simulation → Option Simulation
  unfolding round
  simulate_fuel zero s = if ltb s.ack_expected total_frames then none else some s
  simulate_fuel (suc fuel) s =
      let rest = simulate_fuel fuel (round s) in
      if ltb s.ack_expected total_frames then rest else some s

  -- Each round gets a frame accepted, so that as many rounds as there are frames are enough.
  pub simulate_go_back_n : Option Simulation
  unfolding simulate_fuel start
  simulate_go_back_n = simulate_fuel total_frames start
