-- ===== src/Hosting/Create.antt =====
-- `enet_host_create` and `enet_host_destroy` of src/host.c. The sockets, and the number that
-- `enet_host_random_seed` gives, added to the host's address, are the operating system's.
use enet.Base.{
  ℕ, zero, suc, ◌+◌, ◌*◌, ◌/◌, ◌%◌, ◌^◌, Bool, true, false, not, ◌&&◌, ◌||◌, List, [], ◌∷◌, Option,
  none, some, ltb, if◌then◌else◌, u32, replicate,
}
use enet.Wire.{maximum_peer_id}
use enet.State.{Peer, PeerState, Host, Packet, Address, HostAddress}
use enet.Address.{AddressType}
use enet.Packet.{first_allocation, later_allocations}
use enet.Lifecycle.{reset}
use enet.Hosting.{channel_limit}

-- The memory of the process as a new host finds it: the fields of `Host` that are not the host's own.
pub record Memory : Type 0 where
  pub packets : ℕ → Packet
  pub next_block : ℕ
  pub fresh_bytes : ℕ → List ℕ
  pub allocations : List Bool

-- The calls that take something from the system or give it back, in their order.
pub data Call : Type 0 where
  allocate : Call
  free : Call
  open_socket : Call
  close_socket : Call

-- `enet_socket_create`, whether `enet_socket_bind` succeeds, and the seed.
pub record System : Type 0 where
  pub socket_create : AddressType → Bool
  pub socket_bind : Address → Bool
  pub seed : ℕ

abbrev pub type_of : HostAddress → AddressType
type_of HostAddress.any = AddressType.any
type_of (HostAddress.ipv4 bytes) = AddressType.ipv4
type_of (HostAddress.ipv6 words) = AddressType.ipv6

unfoldable pub same_type : AddressType → AddressType → Bool
same_type AddressType.any AddressType.any = true
same_type AddressType.ipv4 AddressType.ipv4 = true
same_type AddressType.ipv6 AddressType.ipv6 = true
same_type _ _ = false

-- Whether the address is one that a host of the type cannot have.
unfoldable pub is_misfit : AddressType → Option Address → Bool
is_misfit type none = false
is_misfit type (some a) =
    not (same_type (type_of a.host) type) && not (same_type type AddressType.any)

-- `(randomSeed << 16) | (randomSeed >> 16)`
unfoldable pub rotate : ℕ → ℕ
rotate n = n % 2 ^ 16 * 2 ^ 16 + n / 2 ^ 16

-- The fields of the new host.
unfoldable pub new_host : ℕ → ℕ → ℕ → ℕ → Memory → Host
new_host seed channels incoming outgoing m = channel_limit channels (record {
  incoming_bandwidth = incoming;
  outgoing_bandwidth = outgoing;
  mtu = 1392;
  random_seed = rotate (u32 seed);
  recalculate_bandwidth_limits = false;
  channel_limit = 0;
  service_time = 0;
  dispatch_queue = [];
  total_queued = 0;
  received_address = record { host = HostAddress.any; port = 0 };
  connected_peers = 0;
  bandwidth_limited_peers = 0;
  duplicate_peers = maximum_peer_id;
  maximum_packet_size = 32 * 1024 * 1024;
  maximum_waiting_data = 32 * 1024 * 1024;
  packets = m.packets;
  next_block = m.next_block;
  fresh_bytes = m.fresh_bytes;
  allocations = m.allocations;
  has_checksum = false;
  bandwidth_throttle_epoch = 0;
  total_sent_data = 0;
  total_sent_packets = 0;
  total_received_data = 0;
  total_received_packets = 0;
})

-- A peer of zeros, which is a disconnected one, with its place in the array.
unfoldable pub blank_peer : ℕ → Peer
blank_peer i = record {
  outgoing_peer_id = 0;
  incoming_peer_id = i;
  connect_id = 0;
  outgoing_session_id = 0xFF;
  incoming_session_id = 0xFF;
  address = record { host = HostAddress.any; port = 0 };
  state = PeerState.disconnected;
  channels = [];
  channel_count = 0;
  incoming_bandwidth = 0;
  outgoing_bandwidth = 0;
  incoming_bandwidth_throttle_epoch = 0;
  outgoing_bandwidth_throttle_epoch = 0;
  incoming_data_total = 0;
  outgoing_data_total = 0;
  last_send_time = 0;
  last_receive_time = 0;
  next_timeout = 0;
  earliest_timeout = 0;
  packet_loss_epoch = 0;
  packets_sent = 0;
  packets_lost = 0;
  packet_loss = 0;
  packet_loss_variance = 0;
  packet_throttle = 0;
  packet_throttle_limit = 0;
  packet_throttle_counter = 0;
  packet_throttle_epoch = 0;
  packet_throttle_acceleration = 0;
  packet_throttle_deceleration = 0;
  packet_throttle_interval = 0;
  ping_interval = 0;
  timeout_limit = 0;
  timeout_minimum = 0;
  timeout_maximum = 0;
  last_round_trip_time = 0;
  lowest_round_trip_time = 0;
  last_round_trip_time_variance = 0;
  highest_round_trip_time_variance = 0;
  round_trip_time = 0;
  round_trip_time_variance = 0;
  mtu = 0;
  window_size = 0;
  reliable_data_in_transit = 0;
  outgoing_reliable_sequence_number = 0;
  acknowledgements = [];
  sent_reliable_commands = [];
  outgoing_send_reliable_commands = [];
  outgoing_commands = [];
  dispatched_commands = [];
  needs_dispatch = false;
  continue_sending = false;
  incoming_unsequenced_group = 0;
  outgoing_unsequenced_group = 0;
  unsequenced_window = replicate 1024 false;
  event_data = 0;
  total_waiting_data = 0;
}

-- The loop over the peers: so many from the place `i` on.
unfoldable pub make_peers : ℕ → ℕ → Host → Host × List Peer
make_peers zero i h = (h, [])
make_peers (suc count) i h =
    let s = reset (record { host = h; peer = blank_peer i }) in
    let (h', ps) = make_peers count (suc i) s.host in (h', s.peer ∷ ps)

abbrev pub later : Memory → Memory
later m = record m { allocations = later_allocations m.allocations }

abbrev pub binds : System → Option Address → Bool
binds sys none = true
binds sys (some a) = sys.socket_bind a

-- `enet_host_create`: the host with its peers, `none` for NULL, and the calls that were made. What
-- `enet_socket_set_option` returns is not looked at.
unfoldable pub create :
    System
    → AddressType
    → Option Address
    → ℕ
    → ℕ
    → ℕ
    → ℕ
    → Memory
    → Option (Host × List Peer) × List Call
create sys type address count channels incoming outgoing m =
    let m₁ = later m in
    let m₂ = later m₁ in
    if ltb maximum_peer_id count || is_misfit type address
    then (none, [])
    else if not (first_allocation m.allocations)
    then (none, [])
    else if not (first_allocation m₁.allocations)
    then (none, allocate ∷ free ∷ [])
    else if not (sys.socket_create type)
    then (none, allocate ∷ allocate ∷ free ∷ free ∷ [])
    else if not (binds sys address)
    then (none, allocate ∷ allocate ∷ open_socket ∷ close_socket ∷ free ∷ free ∷ [])
    else (
      some (make_peers count 0 (new_host sys.seed channels incoming outgoing m₂)),
      allocate ∷ allocate ∷ open_socket ∷ [],
    )

-- The loop that resets the peers.
unfoldable pub reset_all : Host → List Peer → Host
reset_all h [] = h
reset_all h (p ∷ ps) = reset_all (reset (record { host = h; peer = p })).host ps

-- `enet_host_destroy`, but for the callbacks that destroy a compressor and an encryptor: the memory as
-- the host leaves it, and the calls.
unfoldable pub destroy : Host → List Peer → Host × List Call
destroy h peers = (reset_all h peers, close_socket ∷ free ∷ free ∷ [])
