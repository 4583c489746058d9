-- ===== src/State/PeerData.antt =====
-- `ENetPeerState`, `ENetAddress` and `ENetPeer`, with the constants of include/enet6/enet.h.
use enet.Base.{ℕ, Bool, true, false, List}
use enet.State.CommandData.{Acknowledgement, OutgoingCommand, IncomingCommand, Channel}

-- `ENetPeerState`
pub data PeerState : Type 0 where
  disconnected connecting acknowledging_connect connection_pending : PeerState
  connection_succeeded connected disconnect_later disconnecting : PeerState
  acknowledging_disconnect zombie timedout : PeerState

-- The value of the enumeration, by which the code compares states with `<` and `>=`.
abbrev pub code : PeerState → ℕ
code PeerState.disconnected = 0
code PeerState.connecting = 1
code PeerState.acknowledging_connect = 2
code PeerState.connection_pending = 3
code PeerState.connection_succeeded = 4
code PeerState.connected = 5
code PeerState.disconnect_later = 6
code PeerState.disconnecting = 7
code PeerState.acknowledging_disconnect = 8
code PeerState.zombie = 9
code PeerState.timedout = 10

-- `state == ENET_PEER_STATE_CONNECTED || state == ENET_PEER_STATE_DISCONNECT_LATER`
abbrev pub is_live : PeerState → Bool
is_live PeerState.connected = true
is_live PeerState.disconnect_later = true
is_live _ = false

-- `ENetAddressType` and the union `host` of `ENetAddress`, as the 4 bytes or the 8 words in use
pub data HostAddress : Type 0 where
  any : HostAddress
  ipv4 : List ℕ → HostAddress
  ipv6 : List ℕ → HostAddress

-- `ENetAddress`
pub record Address : Type 0 where
  pub host : HostAddress
  pub port : ℕ

abbrev pub throttle_scale : ℕ
throttle_scale = 32

abbrev pub default_round_trip_time : ℕ
default_round_trip_time = 500

abbrev pub reliable_windows_count : ℕ
reliable_windows_count = 16

abbrev pub reliable_window_size : ℕ
reliable_window_size = 0x1000

abbrev pub free_reliable_windows : ℕ
free_reliable_windows = 8

abbrev pub unsequenced_window_size : ℕ
unsequenced_window_size = 1024

-- `ENetPeer`. `needs_dispatch` and `continue_sending` are the two bits of `flags`; channels that
-- are not allocated are the empty list; `unsequenced_window` is the bit set, a Bool for each group.
-- The application's `data` and the unused `reserved` are left out.
pub record Peer : Type 0 where
  pub outgoing_peer_id : ℕ
  pub incoming_peer_id : ℕ
  pub connect_id : ℕ
  pub outgoing_session_id : ℕ
  pub incoming_session_id : ℕ
  pub address : Address
  pub state : PeerState
  pub channels : List Channel
  pub channel_count : ℕ
  pub incoming_bandwidth : ℕ
  pub outgoing_bandwidth : ℕ
  pub incoming_bandwidth_throttle_epoch : ℕ
  pub outgoing_bandwidth_throttle_epoch : ℕ
  pub incoming_data_total : ℕ
  pub outgoing_data_total : ℕ
  pub last_send_time : ℕ
  pub last_receive_time : ℕ
  pub next_timeout : ℕ
  pub earliest_timeout : ℕ
  pub packet_loss_epoch : ℕ
  pub packets_sent : ℕ
  pub packets_lost : ℕ
  pub packet_loss : ℕ
  pub packet_loss_variance : ℕ
  pub packet_throttle : ℕ
  pub packet_throttle_limit : ℕ
  pub packet_throttle_counter : ℕ
  pub packet_throttle_epoch : ℕ
  pub packet_throttle_acceleration : ℕ
  pub packet_throttle_deceleration : ℕ
  pub packet_throttle_interval : ℕ
  pub ping_interval : ℕ
  pub timeout_limit : ℕ
  pub timeout_minimum : ℕ
  pub timeout_maximum : ℕ
  pub last_round_trip_time : ℕ
  pub lowest_round_trip_time : ℕ
  pub last_round_trip_time_variance : ℕ
  pub highest_round_trip_time_variance : ℕ
  pub round_trip_time : ℕ
  pub round_trip_time_variance : ℕ
  pub mtu : ℕ
  pub window_size : ℕ
  pub reliable_data_in_transit : ℕ
  pub outgoing_reliable_sequence_number : ℕ
  pub acknowledgements : List Acknowledgement
  pub sent_reliable_commands : List OutgoingCommand
  pub outgoing_send_reliable_commands : List OutgoingCommand
  pub outgoing_commands : List OutgoingCommand
  pub dispatched_commands : List IncomingCommand
  pub needs_dispatch : Bool
  pub continue_sending : Bool
  pub incoming_unsequenced_group : ℕ
  pub outgoing_unsequenced_group : ℕ
  pub unsequenced_window : List Bool
  pub event_data : ℕ
  pub total_waiting_data : ℕ
