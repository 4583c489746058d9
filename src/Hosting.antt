-- ===== src/Hosting.antt =====
-- src/host.c. The host's array of peers is a list. `Create` has creation and destruction, which
-- `Creation` is about, `Connect` connecting and broadcasting, and `Throttle` the bandwidth throttle,
-- which `Rounds` and `Limits` are about.
pub mod Connect
pub mod Create
pub mod Creation
pub mod Throttle
pub mod Rounds
pub mod Limits
use enet.Base.{ℕ, true, ltb, ◌==◌, if◌then◌else◌, ◌||◌}
use enet.Wire.{minimum_channel_count, maximum_channel_count, maximum_peer_id}
use enet.State.{Host}

-- `enet_host_channel_limit`
unfoldable pub channel_limit : ℕ → Host → Host
channel_limit n h = record h {
  channel_limit =
      if n == 0 || ltb maximum_channel_count n
      then maximum_channel_count
      else if ltb n minimum_channel_count
      then minimum_channel_count
      else n;
}

-- `enet_host_bandwidth_limit`
unfoldable pub bandwidth_limit : ℕ → ℕ → Host → Host
bandwidth_limit incoming outgoing h = record h {
  incoming_bandwidth = incoming;
  outgoing_bandwidth = outgoing;
  recalculate_bandwidth_limits = true;
}

-- `enet_host_set_max_duplicate_peers`
unfoldable pub set_max_duplicate_peers : ℕ → Host → Host
set_max_duplicate_peers n h =
    let least = if ltb n 1 then 1 else n in
    record h { duplicate_peers = if ltb maximum_peer_id least then maximum_peer_id else least }
