-- ===== src/Throttle.antt =====
-- `enet_peer_throttle` of src/peer.c: how the packet throttle follows the round trip time.
use enet.Base.{ℕ, ◌+◌, ◌*◌, ◌-◌, ◌^◌, ◌≤◌, ◌<◌, ◌≡◌, ◌⊎◌, ltb, leb, if◌then◌else◌, u32, arith}
use enet.State.{Peer}

-- The results 0, 1 and -1.
pub data Change : Type 0 where
  kept raised lowered : Change

unfoldable pub throttle : Peer → ℕ → Peer × Change
throttle p rtt =
    if leb p.last_round_trip_time p.last_round_trip_time_variance
    then (record p { packet_throttle = p.packet_throttle_limit }, Change.kept)
    else if leb rtt p.last_round_trip_time
    then (
      record p {
        packet_throttle =
            if ltb p.packet_throttle_limit
              (u32 (p.packet_throttle + p.packet_throttle_acceleration))
            then p.packet_throttle_limit
            else u32 (p.packet_throttle + p.packet_throttle_acceleration);
      },
      Change.raised,
    )
    else if ltb (u32 (p.last_round_trip_time + 2 * p.last_round_trip_time_variance)) rtt
    then (
      record p {
        packet_throttle =
            if ltb p.packet_throttle_deceleration p.packet_throttle
            then p.packet_throttle - p.packet_throttle_deceleration
            else 0;
      },
      Change.lowered,
    )
    else (p, Change.kept)

-- Whatever the round trip time and the configured steps, a throttle within its limit stays within
-- it, and the limit itself is left alone.
pub throttle_within_limit :
    (p : Peer) (rtt : ℕ)
    → p.packet_throttle ≤ p.packet_throttle_limit
    → ((throttle p rtt).0.packet_throttle ≤ (throttle p rtt).0.packet_throttle_limit)
      × ((throttle p rtt).0.packet_throttle_limit ≡ p.packet_throttle_limit)
unfolding throttle
throttle_within_limit p rtt h = ground arith

-- Where the step up does not wrap at 2 ^ 32, the result says how the throttle moved: `raised` that
-- it did not fall, `lowered` that it did not rise, `kept` that it stayed or took the limit's value.
pub throttle_direction :
    (p : Peer) (rtt : ℕ)
    → p.packet_throttle ≤ p.packet_throttle_limit
    → p.packet_throttle + p.packet_throttle_acceleration < 2 ^ 32
    → let (q, change) = throttle p rtt in
      ((change ≡ Change.raised) × (p.packet_throttle ≤ q.packet_throttle))
      ⊎ (((change ≡ Change.lowered) × (q.packet_throttle ≤ p.packet_throttle))
          ⊎ ((change ≡ Change.kept)
              × ((q.packet_throttle ≡ p.packet_throttle)
                  ⊎ (q.packet_throttle ≡ p.packet_throttle_limit))))
unfolding throttle
throttle_direction p rtt h w = ground arith
