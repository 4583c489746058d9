-- ===== src/Handlers/Timing.antt =====
-- How `enet_protocol_handle_acknowledge` of src/protocol.c measures the round trip time.
use enet.Base.{ℕ, ◌+◌, ◌^◌, ◌≤◌, ◌<◌, ◌≡◌, ◌⊎◌, false, ap, ◌∙◌, arith, u32, u16}
use enet.State.{Peer}
use enet.Time.{time_difference, elapsed, time_less}
use enet.Handlers.Acknowledge.{restore_sent_time, smooth_round_trip}

restored :
    (sent age : ℕ)
    → sent < 2 ^ 32
    → age < 2 ^ 15
    → restore_sent_time (u32 (sent + age)) (u16 sent) ≡ sent
unfolding restore_sent_time
restored sent age h k = ground arith

-- The sent time travels as its low sixteen bits. If the acknowledgement arrives within 2 ^ 15
-- milliseconds, across a wrap of the clock too, the full sent time is restored from them, it does
-- not count as lying in the future, and its difference to the clock is the time that has passed.
pub restore_sent_time_lem :
    (sent age : ℕ)
    → sent < 2 ^ 32
    → age < 2 ^ 15
    → let service = u32 (sent + age) in
      let found = restore_sent_time service (u16 sent) in
      (found ≡ sent) × (time_less service found ≡ false) × (time_difference service found ≡ age)
restore_sent_time_lem sent age h k =
    let e = restored sent age h k in
    let passed = elapsed sent age h (omega arith) in
    (
      e,
      ap (time_less (u32 (sent + age))) e ∙ passed.0,
      ap (time_difference (u32 (sent + age))) e ∙ passed.2,
    )

-- For times of 32 bits, the smoothed round trip time never leaves the range between the old one and
-- the measured one.
pub smooth_round_trip_lem :
    (rtt : ℕ) (p : Peer)
    → rtt < 2 ^ 32
    → p.round_trip_time < 2 ^ 32
    → ((p.round_trip_time ≤ (smooth_round_trip rtt p).round_trip_time)
        × ((smooth_round_trip rtt p).round_trip_time ≤ rtt))
      ⊎ ((rtt ≤ (smooth_round_trip rtt p).round_trip_time)
          × ((smooth_round_trip rtt p).round_trip_time ≤ p.round_trip_time))
unfolding smooth_round_trip
smooth_round_trip_lem rtt p h k = ground arith
