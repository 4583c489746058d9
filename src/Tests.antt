-- ===== src/Tests.antt =====
-- Concrete packets, commands, channels, peers and hosts, and the theorems applied to them.
mod Values
mod Delivery
mod Peers
mod History
mod Repeat
mod Fragments
mod Sending
mod Text
mod Rings
mod Hosts
mod Datagrams
use enet.Base.{ℕ, ◌+◌, Bool, true, false, List, [], ◌∷◌, Option, none, some, replicate}
use enet.Wire.{Body, Protocol}
use enet.State.{
  Packet, OutgoingCommand, IncomingCommand, Channel, PeerState, HostAddress, Address, Peer, Host,
  Session,
}

abbrev localhost : Address
localhost = record { host = HostAddress.ipv4 (127 ∷ 0 ∷ 0 ∷ 1 ∷ []); port = 7777 }

-- A packet of ten bytes with a callback, and so many references.
abbrev packet_with : ℕ → Packet
packet_with n = record {
  reference_count = n;
  flags = 1;
  bytes = some (replicate 10 7);
  data_length = 10;
  free_callback = true;
  acknowledge_callback = false;
  remaining_fragments = 0;
  free_calls = 0;
  acknowledge_calls = 0;
  freed = 0;
}

-- A reliable command of this number on channel 0.
abbrev reliable_command : ℕ → Protocol
reliable_command n = record {
  command = 6 + 128;
  channel_id = 0;
  reliable_sequence_number = n;
  body = Body.send_reliable 10;
}

abbrev incoming : ℕ → IncomingCommand
incoming n = record {
  block = n;
  reliable_sequence_number = n;
  unreliable_sequence_number = 0;
  command = reliable_command n;
  fragment_count = 0;
  fragments_remaining = 0;
  fragments = none;
  packet = some n;
}

-- A group of fragments from this number, none of which is missing.
abbrev assembled : ℕ → ℕ → IncomingCommand
assembled n count = record (incoming n) { fragment_count = count }

abbrev outgoing : ℕ → ℕ → OutgoingCommand
outgoing n packet = record {
  reliable_sequence_number = n;
  unreliable_sequence_number = 0;
  sent_time = 1000;
  round_trip_timeout = 500;
  queue_time = 1;
  fragment_offset = 0;
  fragment_length = 10;
  send_attempts = 1;
  command = reliable_command n;
  packet = some packet;
}

-- A channel that stands at this number, with these commands waiting.
abbrev channel : ℕ → List IncomingCommand → Channel
channel n waiting = record {
  outgoing_reliable_sequence_number = 0;
  outgoing_unreliable_sequence_number = 0;
  used_reliable_windows = replicate 16 false;
  reliable_windows = replicate 16 0;
  incoming_reliable_sequence_number = n;
  incoming_unreliable_sequence_number = 0;
  incoming_reliable_commands = waiting;
  incoming_unreliable_commands = [];
}

abbrev peer_in : PeerState → List Channel → Peer
peer_in state channels = record {
  outgoing_peer_id = 0;
  incoming_peer_id = 4;
  connect_id = 99;
  outgoing_session_id = 1;
  incoming_session_id = 2;
  address = localhost;
  state = state;
  channels = channels;
  channel_count = 1;
  incoming_bandwidth = 100000;
  outgoing_bandwidth = 0;
  incoming_bandwidth_throttle_epoch = 0;
  outgoing_bandwidth_throttle_epoch = 0;
  incoming_data_total = 0;
  outgoing_data_total = 0;
  last_send_time = 0;
  last_receive_time = 900;
  next_timeout = 1500;
  earliest_timeout = 0;
  packet_loss_epoch = 0;
  packets_sent = 0;
  packets_lost = 0;
  packet_loss = 0;
  packet_loss_variance = 0;
  packet_throttle = 30;
  packet_throttle_limit = 32;
  packet_throttle_counter = 0;
  packet_throttle_epoch = 0;
  packet_throttle_acceleration = 2;
  packet_throttle_deceleration = 2;
  packet_throttle_interval = 5000;
  ping_interval = 500;
  timeout_limit = 32;
  timeout_minimum = 5000;
  timeout_maximum = 30000;
  last_round_trip_time = 100;
  lowest_round_trip_time = 100;
  last_round_trip_time_variance = 10;
  highest_round_trip_time_variance = 10;
  round_trip_time = 100;
  round_trip_time_variance = 10;
  mtu = 1392;
  window_size = 32768;
  reliable_data_in_transit = 20;
  outgoing_reliable_sequence_number = 3;
  acknowledgements = [];
  sent_reliable_commands = outgoing 1 1 ∷ outgoing 2 1 ∷ [];
  outgoing_send_reliable_commands = [];
  outgoing_commands = [];
  dispatched_commands = [];
  needs_dispatch = false;
  continue_sending = false;
  incoming_unsequenced_group = 0;
  outgoing_unsequenced_group = 0;
  unsequenced_window = replicate 1024 false;
  event_data = 0;
  total_waiting_data = 0;
}

-- A host with two connected peers, both limited, peer 4 and packets of three references.
abbrev host : Host
host = record {
  incoming_bandwidth = 0;
  outgoing_bandwidth = 0;
  mtu = 1392;
  random_seed = 1;
  recalculate_bandwidth_limits = false;
  channel_limit = 255;
  service_time = 1100;
  dispatch_queue = 4 ∷ [];
  total_queued = 0;
  received_address = localhost;
  connected_peers = 2;
  bandwidth_limited_peers = 2;
  duplicate_peers = 4095;
  maximum_packet_size = 33554432;
  maximum_waiting_data = 33554432;
  packets = λ p. packet_with 3;
  next_block = 100;
  fresh_bytes = λ n. replicate n 0;
  allocations = [];
  has_checksum = false;
  bandwidth_throttle_epoch = 0;
  total_sent_data = 0;
  total_sent_packets = 0;
  total_received_data = 0;
  total_received_packets = 0;
}

abbrev session : List IncomingCommand → Session
session waiting = record {
  host = host;
  peer = peer_in PeerState.connected (channel 1 waiting ∷ []);
}
