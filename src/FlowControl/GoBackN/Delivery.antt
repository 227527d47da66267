-- ===== src/FlowControl/GoBackN/Delivery.antt =====
-- Every frame is delivered, in order, and no frame is sent beyond the window.
use study_in_tezpur_universi.Common.{
  ℕ, zero, suc, ◌+◌, ◌-◌, ◌≤◌, ◌<◌, ◌≡◌, refl, ap, ◌∙◌, List, [], ◌∷◌, some, Bool, true, false,
  if◌then◌else◌, ◌&&◌, not, ltb, ◌==◌, arith, Bool-cases, inl, inr,
}
use study_in_tezpur_universi.FlowControl.GoBackN.{
  Event, transmitting, accepted, lost, discarded, timeout, Simulation, start, accept, accept_fuel,
  discard_from, first_pass, transmit, transmit_fuel, round, simulate_fuel, simulate_go_back_n,
}

-- The frames that the receiver accepted, the newest first.
pub delivered : List Event → List ℕ
delivered [] = []
delivered (accepted f ∷ events) = f ∷ delivered events
delivered (transmitting f ∷ events) = delivered events
delivered (lost f ∷ events) = delivered events
delivered (discarded f ∷ events) = delivered events
delivered (timeout f ∷ events) = delivered events

-- n - 1, …, 0.
pub countdown : ℕ → List ℕ
countdown zero = []
countdown (suc n) = n ∷ countdown n

-- Each transmission is of a frame within the window behind the frames accepted before it. With
-- frames accepted in order, `expected` is the number of the accepted ones.
pub expected : List Event → ℕ
expected [] = 0
expected (accepted f ∷ events) = expected events + 1
expected (transmitting f ∷ events) = expected events
expected (lost f ∷ events) = expected events
expected (discarded f ∷ events) = expected events
expected (timeout f ∷ events) = expected events

pub InWindow : ℕ → List Event → Type 0
unfolding expected
InWindow w [] = Unit
InWindow w (transmitting f ∷ events) = (f < expected events + w) × InWindow w events
InWindow w (accepted f ∷ events) = InWindow w events
InWindow w (lost f ∷ events) = InWindow w events
InWindow w (discarded f ∷ events) = InWindow w events
InWindow w (timeout f ∷ events) = InWindow w events

-- A frame is under way once it is sent, until it is lost or reaches the receiver.
pub under_way : ℕ → List Event → Bool
under_way f [] = false
under_way f (transmitting g ∷ events) = if g == f then true else under_way f events
under_way f (accepted g ∷ events) = if g == f then false else under_way f events
under_way f (lost g ∷ events) = if g == f then false else under_way f events
under_way f (discarded g ∷ events) = if g == f then false else under_way f events
under_way f (timeout g ∷ events) = under_way f events

-- What reaches the receiver was under way.
pub IsSent : List Event → Type 0
unfolding under_way
IsSent [] = Unit
IsSent (accepted f ∷ events) = (under_way f events ≡ true) × IsSent events
IsSent (discarded f ∷ events) = (under_way f events ≡ true) × IsSent events
IsSent (transmitting f ∷ events) = IsSent events
IsSent (lost f ∷ events) = IsSent events
IsSent (timeout f ∷ events) = IsSent events

record Ordered (w : ℕ) (s : Simulation) : Type 0 where
  in_order : delivered s.events ≡ countdown s.ack_expected
  count : expected s.events ≡ s.ack_expected
  sent : s.ack_expected ≤ s.next_frame_to_send
  window : InWindow w s.events
  is_sent : IsSent s.events
  waiting : (f : ℕ) → s.ack_expected ≤ f → f < s.next_frame_to_send → under_way f s.events ≡ true

accept-Ordered :
    (w : ℕ) (s : Simulation)
    → Ordered w s
    → s.ack_expected < s.next_frame_to_send
    → Ordered w (accept s)
unfolding accept delivered countdown expected InWindow under_way IsSent
accept-Ordered w s o more =
    let e : s.ack_expected + 1 ≡ suc s.ack_expected = omega arith in
    record {
      in_order = rw e (ap (◌∷◌ s.ack_expected) o.in_order);
      count = omega (arith, o.count);
      sent = omega arith;
      window = o.window;
      is_sent = (o.waiting s.ack_expected (omega arith) more, o.is_sent);
      waiting = λ f above below. ground (arith, o.waiting f (omega arith) below, above);
    }

-- The loop that receives takes all that was sent.
accept_fuel-Ordered :
    (w fuel : ℕ) (s : Simulation)
    → s.next_frame_to_send ≤ s.ack_expected + fuel
    → Ordered w s
    → Ordered w (accept_fuel fuel s)
      × ((accept_fuel fuel s).ack_expected ≡ s.next_frame_to_send)
      × ((accept_fuel fuel s).next_frame_to_send ≡ s.next_frame_to_send)
unfolding accept_fuel accept
accept_fuel-Ordered w zero s enough o = (o, omega (arith, o.sent), refl)
accept_fuel-Ordered w (suc fuel) s enough o =
    elim (Bool-cases (ltb s.ack_expected s.next_frame_to_send)) [
      | inl more ↦ rw more (
          accept_fuel-Ordered w fuel (accept s) (omega arith) (accept-Ordered w s o (ground arith)))
      | inr done ↦ rw done (o, ground (arith, o.sent), refl)
    ]

discard_from-same :
    (w left f : ℕ) (events : List Event)
    → (delivered (discard_from left f events) ≡ delivered events)
      × (expected (discard_from left f events) ≡ expected events)
      × (InWindow w events → InWindow w (discard_from left f events))
unfolding discard_from delivered expected InWindow
discard_from-same w zero f events = (refl, refl, λ h. h)
discard_from-same w (suc left) f events = discard_from-same w left (f + 1) (discarded f ∷ events)

discard_from-IsSent :
    (left f : ℕ) (events : List Event)
    → ((g : ℕ) → f ≤ g → g < f + left → under_way g events ≡ true)
    → IsSent events
    → IsSent (discard_from left f events)
unfolding discard_from under_way IsSent
discard_from-IsSent zero f events waiting h = h
discard_from-IsSent (suc left) f events waiting h =
    discard_from-IsSent left (f + 1) (discarded f ∷ events)
      (λ g above below. ground (arith, waiting g (omega arith) (omega arith), above))
      (waiting f (omega arith) (omega arith), h)

first_pass-Ordered :
    (w : ℕ) (s : Simulation)
    → s.ack_expected ≡ 0
    → 0 < s.next_frame_to_send
    → Ordered w s
    → Ordered w (first_pass s)
unfolding first_pass delivered countdown expected InWindow under_way IsSent
first_pass-Ordered w s none_yet some_sent o =
    let (same, count, window) =
      discard_from-same w (s.next_frame_to_send - 2) 2 (lost 1 ∷ accepted 0 ∷ s.events) in
    record {
      in_order = same ∙ ap (◌∷◌ 0) (rw none_yet at o.in_order);
      count = omega (arith, count, o.count);
      sent = omega arith;
      window = window o.window;
      is_sent =
          discard_from-IsSent (s.next_frame_to_send - 2) 2 (lost 1 ∷ accepted 0 ∷ s.events)
            (λ g above below. ground (arith, o.waiting g (omega arith) (omega arith), above))
            (o.waiting 0 (omega arith) some_sent, o.is_sent);
      waiting = λ f above below. absurd (omega arith);
    }

module _ (window_size total_frames : ℕ) where
  transmit_fuel-Ordered :
      (fuel : ℕ) (s : Simulation)
      → total_frames ≤ s.next_frame_to_send + fuel
      → s.next_frame_to_send ≤ total_frames
      → Ordered window_size s
      → Ordered window_size (transmit_fuel window_size total_frames fuel s)
        × ((transmit_fuel window_size total_frames fuel s).ack_expected ≡ s.ack_expected)
        × ((transmit_fuel window_size total_frames fuel s).next_frame_to_send ≤ total_frames)
        × ((transmit_fuel window_size total_frames fuel s).error_simulated ≡ s.error_simulated)
        × (0 < window_size
            → s.ack_expected < total_frames
            → s.ack_expected < (transmit_fuel window_size total_frames fuel s).next_frame_to_send)
  unfolding transmit_fuel transmit InWindow expected delivered under_way IsSent
  transmit_fuel-Ordered zero s enough bound o = (o, refl, bound, refl, λ p q. omega arith)
  transmit_fuel-Ordered (suc fuel) s enough bound o =
      elim (Bool-cases (
        ltb s.next_frame_to_send (s.ack_expected + window_size)
        && ltb s.next_frame_to_send total_frames)) [
          | inl more ↦
              let o' : Ordered window_size (transmit window_size total_frames s) = record {
                in_order = o.in_order;
                count = o.count;
                sent = omega (arith, o.sent);
                window = (ground (arith, o.count), o.window);
                is_sent = o.is_sent;
                waiting = λ f above below. ground (arith, o.waiting f above);
              } in
              rw more (
                transmit_fuel-Ordered fuel (transmit window_size total_frames s) (omega arith)
                  (ground arith) o')
          | inr done ↦ rw done (o, refl, bound, refl, λ p q. ground arith)
        ]

  record Running (s : Simulation) : Type 0 where
    ordered : Ordered window_size s
    bound : s.next_frame_to_send ≤ total_frames

  -- A round keeps the order and gets at least one frame accepted.
  round-Running :
      (s : Simulation)
      → 0 < window_size
      → s.ack_expected < total_frames
      → Running s
      → Running (round window_size total_frames s)
        × (s.ack_expected < (round window_size total_frames s).ack_expected)
  unfolding round first_pass
  round-Running s wide more r =
      let sent = transmit_fuel window_size total_frames (total_frames - s.next_frame_to_send) s in
      let (o, same, bound, _, progress) =
        transmit_fuel-Ordered (total_frames - s.next_frame_to_send) s (omega (arith, r.bound))
          r.bound r.ordered in
      let beyond = progress wide more in
      elim (Bool-cases (not sent.error_simulated && (sent.ack_expected == 0))) [
        | inl first ↦
            let z : sent.ack_expected ≡ 0 = ground arith in
            let some_frames : 1 ≤ total_frames = omega arith in
            let one : suc s.ack_expected ≤ 1 = omega arith in
            rw first (
              record {
                ordered = first_pass-Ordered window_size sent z (omega arith) o;
                bound = some_frames;
              },
              one,
            )
        | inr later ↦
            let (o', all, kept) =
              accept_fuel-Ordered window_size (sent.next_frame_to_send - sent.ack_expected) sent
                (omega arith) o in
            rw later (record { ordered = o'; bound = omega arith }, omega arith)
      ]

  simulate_fuel-Ends :
      (fuel : ℕ) (s : Simulation)
      → 0 < window_size
      → total_frames ≤ s.ack_expected + fuel
      → Running s
      → (end : Simulation) × (simulate_fuel window_size total_frames fuel s ≡ some end)
        × (total_frames ≤ end.ack_expected)
        × Running end
  unfolding simulate_fuel
  simulate_fuel-Ends zero s wide enough r =
      let done : ltb s.ack_expected total_frames ≡ false = ground arith in
      rw done (s, refl, ground arith, r)
  simulate_fuel-Ends (suc fuel) s wide enough r =
      elim (Bool-cases (ltb s.ack_expected total_frames)) [
        | inl more ↦
            let (r', progress) = round-Running s wide (ground arith) r in
            rw more
              (simulate_fuel-Ends fuel (round window_size total_frames s) wide (omega arith) r')
        | inr done ↦ rw done (s, refl, ground arith, r)
      ]

  -- With a window of at least one frame the simulation ends. The receiver has then accepted every
  -- frame once, in order; no frame was sent beyond the window; and each frame that was accepted or
  -- discarded had been sent, and not lost, accepted or discarded since.
  pub simulate_go_back_n-delivers :
      0 < window_size
      → (end : Simulation) × (simulate_go_back_n window_size total_frames ≡ some end)
        × (delivered end.events ≡ countdown total_frames)
        × InWindow window_size end.events
        × IsSent end.events
  unfolding simulate_go_back_n start delivered countdown expected InWindow IsSent
  simulate_go_back_n-delivers wide =
      let begin : Running start = record {
        ordered = record {
          in_order = refl;
          count = refl;
          sent = omega arith;
          window = tt;
          is_sent = tt;
          waiting = λ f above below. absurd (omega arith);
        };
        bound = omega arith;
      } in
      let (end, e, all, r) = simulate_fuel-Ends total_frames start wide (omega arith) begin in
      let last : end.ack_expected ≡ total_frames = omega (arith, r.bound, r.ordered.sent) in
      (end, e, rw last at r.ordered.in_order, r.ordered.window, r.ordered.is_sent)
