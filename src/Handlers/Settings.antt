-- ===== src/Handlers/Settings.antt =====
-- The handlers of src/protocol.c for pings, bandwidth limits and the throttle's configuration.
use enet.Base.{
  ℕ, ◌*◌, ◌/◌, Bool, true, false, not, ◌&&◌, ◌||◌, ltb, ◌==◌, if◌then◌else◌, add64, sub64, max, min,
}
use enet.Wire.{minimum_window_size, maximum_window_size}
use enet.State.{Session, is_live}

-- Held between `ENET_PROTOCOL_MINIMUM_WINDOW_SIZE` and `ENET_PROTOCOL_MAXIMUM_WINDOW_SIZE`.
unfoldable pub clamp_window : ℕ → ℕ
clamp_window n =
    if ltb n minimum_window_size
    then minimum_window_size
    else if ltb maximum_window_size n
    then maximum_window_size
    else n

-- `bandwidth / ENET_PEER_WINDOW_SIZE_SCALE * ENET_PROTOCOL_MINIMUM_WINDOW_SIZE`; it cannot wrap.
abbrev pub window_for : ℕ → ℕ
window_for bandwidth = bandwidth / 65536 * minimum_window_size

-- The window of a peer from the bandwidths of the two ends, 0 for no limit.
unfoldable pub peer_window : ℕ → ℕ → ℕ
peer_window a b =
    if a == 0 && b == 0
    then clamp_window maximum_window_size
    else if a == 0 || b == 0
    then clamp_window (window_for (max a b))
    else clamp_window (window_for (min a b))

-- `enet_protocol_handle_ping`
unfoldable pub handle_ping : Session → Bool × Session
handle_ping s = (is_live s.peer.state, s)

-- `enet_protocol_handle_bandwidth_limit`
unfoldable pub handle_bandwidth_limit : ℕ → ℕ → Session → Bool × Session
handle_bandwidth_limit incoming outgoing s =
    let before =
      sub64 s.host.bandwidth_limited_peers (if s.peer.incoming_bandwidth == 0 then 0 else 1) in
    if not (is_live s.peer.state) then (false, s) else (
      true,
      record {
        host = record (s.host) {
          bandwidth_limited_peers = add64 before (if incoming == 0 then 0 else 1);
        };
        peer = record (s.peer) {
          incoming_bandwidth = incoming;
          outgoing_bandwidth = outgoing;
          window_size = peer_window incoming s.host.outgoing_bandwidth;
        };
      },
    )

-- `enet_protocol_handle_throttle_configure`
unfoldable pub handle_throttle_configure : ℕ → ℕ → ℕ → Session → Bool × Session
handle_throttle_configure interval acceleration deceleration s =
    if not (is_live s.peer.state) then (false, s) else (
      true,
      record s {
        peer = record (s.peer) {
          packet_throttle_interval = interval;
          packet_throttle_acceleration = acceleration;
          packet_throttle_deceleration = deceleration;
        };
      },
    )
