-- ===== src/Tests/Values.antt =====
-- The theorems on clocks, throttle, addresses, windows and round trip times at concrete values.
use enet.Base.{◌≡◌, ◌≤◌, ◌<◌, ◌≢◌, ◌⊎◌, ◌↔◌, true, false, [], arith}
use enet.Time.{time_less, time_greater_equal, time_difference, elapsed}
use enet.Wire.{Connect, VerifyConnect}
use enet.State.{HostAddress, PeerState, Peer}
use enet.Throttle.{throttle, throttle_within_limit}
use enet.Address.{
  equal, equal_host, is_any, build_any, is_loopback, build_loopback, AddressType, loopback_ipv6,
  equal_iff, is_any_lem, is_loopback_lem, IsSpecific,
}
use enet.Handlers.Connect.{accept_peer, verification, adopt}
use enet.Handlers.Acknowledge.{restore_sent_time, smooth_round_trip}
use enet.Handlers.Bounds.{IsMtu, IsWindow, accept_peer_lem, adopt_lem}
use enet.Handlers.Timing.{restore_sent_time_lem, smooth_round_trip_lem}
use enet.Tests.{localhost, host, peer_in}

abbrev peer : Peer
peer = peer_in PeerState.connected []

-- Over a wrap of the clock.
elapsed_example :
    (time_less 4 4294967290 ≡ false)
    × (time_greater_equal 4 4294967290 ≡ true)
    × (time_difference 4 4294967290 ≡ 10)
    × (time_difference 4294967290 4 ≡ 10)
    × (time_less 4294967290 4 ≡ true)
elapsed_example = elapsed 4294967290 10 (omega arith) (omega arith)

throttle_within_limit_example :
    ((throttle peer 90).0.packet_throttle ≤ (throttle peer 90).0.packet_throttle_limit)
    × ((throttle peer 90).0.packet_throttle_limit ≡ 32)
throttle_within_limit_example = throttle_within_limit peer 90 (omega arith)

equal_iff_example :
    ((equal localhost localhost ≡ true) ↔ (localhost ≡ localhost))
    × ((equal_host localhost localhost ≡ true) ↔ (localhost ≡ localhost))
equal_iff_example = equal_iff localhost localhost

is_any_lem_example :
    ((is_any localhost ≡ true) ↔ IsSpecific localhost.host)
    × (is_any (build_any AddressType.ipv6 localhost) ≡ false)
is_any_lem_example = is_any_lem localhost AddressType.ipv6

is_loopback_lem_example :
    ((is_loopback (record { host = HostAddress.ipv6 loopback_ipv6; port = 7777 }) ≡ true)
      ↔ (loopback_ipv6 ≢ loopback_ipv6))
    × (is_loopback (build_loopback AddressType.ipv6 localhost) ≡ false)
    × (is_loopback (build_loopback AddressType.ipv4 localhost) ≡ true)
is_loopback_lem_example = is_loopback_lem loopback_ipv6 7777 localhost

-- Sent at the end of the clock's range, acknowledged after the wrap.
restore_sent_time_lem_example :
    (restore_sent_time 99 65436 ≡ 4294967196)
    × (time_less 99 (restore_sent_time 99 65436) ≡ false)
    × (time_difference 99 (restore_sent_time 99 65436) ≡ 199)
restore_sent_time_lem_example = restore_sent_time_lem 4294967196 199 (omega arith) (omega arith)

smooth_round_trip_lem_example :
    ((100 ≤ (smooth_round_trip 180 peer).round_trip_time)
      × ((smooth_round_trip 180 peer).round_trip_time ≤ 180))
    ⊎ ((180 ≤ (smooth_round_trip 180 peer).round_trip_time)
        × ((smooth_round_trip 180 peer).round_trip_time ≤ 100))
smooth_round_trip_lem_example = smooth_round_trip_lem 180 peer (omega arith) (omega arith)

abbrev request : Connect
request = record {
  outgoing_peer_id = 0;
  incoming_session_id = 255;
  outgoing_session_id = 255;
  mtu = 100000;
  window_size = 0;
  channel_count = 2;
  incoming_bandwidth = 57600;
  outgoing_bandwidth = 14400;
  packet_throttle_interval = 5000;
  packet_throttle_acceleration = 2;
  packet_throttle_deceleration = 2;
  connect_id = 12345;
  user_data = 0;
}

accept_peer_lem_example :
    let q = accept_peer host request 2 peer in
    IsMtu q.mtu
    × (q.mtu ≤ 1392)
    × IsWindow q.window_size
    × (q.outgoing_session_id < 4)
    × (q.outgoing_session_id ≢ 1)
    × (q.incoming_session_id < 4)
    × (q.incoming_session_id ≢ 2)
    × IsWindow (verification host request q).window_size
accept_peer_lem_example = accept_peer_lem host request 2 peer (omega arith, omega arith)

abbrev answer : VerifyConnect
answer = record {
  outgoing_peer_id = 0;
  incoming_session_id = 0;
  outgoing_session_id = 0;
  mtu = 0;
  window_size = 4294967295;
  channel_count = 255;
  incoming_bandwidth = 0;
  outgoing_bandwidth = 0;
  packet_throttle_interval = 5000;
  packet_throttle_acceleration = 2;
  packet_throttle_deceleration = 2;
  connect_id = 99;
}

adopt_lem_example :
    IsMtu (adopt answer peer).mtu
    × ((adopt answer peer).mtu ≤ 1392)
    × IsWindow (adopt answer peer).window_size
    × ((adopt answer peer).window_size ≤ 32768)
    × ((adopt answer peer).channel_count ≤ 1)
adopt_lem_example = adopt_lem answer peer (omega arith, omega arith) (omega arith, omega arith)
