-- ===== src/Wire.antt =====
-- include/enet6/protocol.h: the commands of the protocol, their constants and their fields, and the
-- table of command sizes of src/protocol.c. Fields hold their values in host byte order.
pub mod Bytes
use enet.Base.{ℕ, ◌*◌, ◌%◌, Bool, List, [], ◌∷◌, get_or, has_bit}

-- `ENET_PROTOCOL_MINIMUM_MTU` and the constants after it
abbrev pub minimum_mtu : ℕ
minimum_mtu = 576

abbrev pub maximum_mtu : ℕ
maximum_mtu = 4096

abbrev pub minimum_window_size : ℕ
minimum_window_size = 4096

abbrev pub maximum_window_size : ℕ
maximum_window_size = 65536

abbrev pub minimum_channel_count : ℕ
minimum_channel_count = 1

abbrev pub maximum_channel_count : ℕ
maximum_channel_count = 255

abbrev pub maximum_peer_id : ℕ
maximum_peer_id = 0xFFF

abbrev pub maximum_fragment_count : ℕ
maximum_fragment_count = 1024 * 1024

-- `ENetProtocolCommand`; `unknown` is a value of the four bits that is no command.
pub data Kind : Type 0 where
  nothing acknowledge connect verify_connect disconnect ping : Kind
  send_reliable send_unreliable send_fragment send_unsequenced : Kind
  bandwidth_limit throttle_configure send_unreliable_fragment unknown : Kind

abbrev kinds : List Kind
kinds =
    Kind.nothing ∷ Kind.acknowledge ∷ Kind.connect ∷ Kind.verify_connect ∷ Kind.disconnect
    ∷ Kind.ping ∷ Kind.send_reliable ∷ Kind.send_unreliable ∷ Kind.send_fragment
    ∷ Kind.send_unsequenced ∷ Kind.bandwidth_limit ∷ Kind.throttle_configure
    ∷ Kind.send_unreliable_fragment ∷ []

-- `command & ENET_PROTOCOL_COMMAND_MASK`
abbrev pub command_number : ℕ → ℕ
command_number command = command % 16

unfoldable pub kind : ℕ → Kind
kind command = get_or kinds (command_number command) Kind.unknown

-- `command & ENET_PROTOCOL_COMMAND_FLAG_ACKNOWLEDGE`
abbrev pub flag_acknowledge : ℕ → Bool
flag_acknowledge command = has_bit 7 command

-- `command & ENET_PROTOCOL_COMMAND_FLAG_UNSEQUENCED`
abbrev pub flag_unsequenced : ℕ → Bool
flag_unsequenced command = has_bit 6 command

-- `commandSizes`: the sizes of the packed structures
abbrev pub command_sizes : List ℕ
command_sizes = 0 ∷ 8 ∷ 48 ∷ 44 ∷ 8 ∷ 4 ∷ 6 ∷ 8 ∷ 24 ∷ 8 ∷ 12 ∷ 16 ∷ 24 ∷ []

-- `enet_protocol_command_size`. A number past the end of the table is never queued.
unfoldable pub command_size : ℕ → ℕ
command_size command = get_or command_sizes (command_number command) 0

-- `ENetProtocolConnect`, less its header
pub record Connect : Type 0 where
  pub outgoing_peer_id : ℕ
  pub incoming_session_id : ℕ
  pub outgoing_session_id : ℕ
  pub mtu : ℕ
  pub window_size : ℕ
  pub channel_count : ℕ
  pub incoming_bandwidth : ℕ
  pub outgoing_bandwidth : ℕ
  pub packet_throttle_interval : ℕ
  pub packet_throttle_acceleration : ℕ
  pub packet_throttle_deceleration : ℕ
  pub connect_id : ℕ
  pub user_data : ℕ

-- `ENetProtocolVerifyConnect`, less its header
pub record VerifyConnect : Type 0 where
  pub outgoing_peer_id : ℕ
  pub incoming_session_id : ℕ
  pub outgoing_session_id : ℕ
  pub mtu : ℕ
  pub window_size : ℕ
  pub channel_count : ℕ
  pub incoming_bandwidth : ℕ
  pub outgoing_bandwidth : ℕ
  pub packet_throttle_interval : ℕ
  pub packet_throttle_acceleration : ℕ
  pub packet_throttle_deceleration : ℕ
  pub connect_id : ℕ

-- `ENetProtocolSendFragment`, less its header
pub record SendFragment : Type 0 where
  pub start_sequence_number : ℕ
  pub data_length : ℕ
  pub fragment_count : ℕ
  pub fragment_number : ℕ
  pub total_length : ℕ
  pub fragment_offset : ℕ

-- What follows the header in the union `ENetProtocol`.
pub data Body : Type 0 where
  -- the received reliable sequence number and sent time
  acknowledge : ℕ → ℕ → Body
  connect : Connect → Body
  verify_connect : VerifyConnect → Body
  disconnect : ℕ → Body
  ping : Body
  -- the data length
  send_reliable : ℕ → Body
  -- the unreliable sequence number and the data length
  send_unreliable : ℕ → ℕ → Body
  send_fragment : SendFragment → Body
  -- the group and the data length
  send_unsequenced : ℕ → ℕ → Body
  -- incoming and outgoing bandwidth
  bandwidth_limit : ℕ → ℕ → Body
  -- interval, acceleration and deceleration
  throttle_configure : ℕ → ℕ → ℕ → Body

-- `ENetProtocol`: `ENetProtocolCommandHeader` and what follows it
pub record Protocol : Type 0 where
  pub command : ℕ
  pub channel_id : ℕ
  pub reliable_sequence_number : ℕ
  pub body : Body

-- `command -> sendUnreliable.unreliableSequenceNumber`: in a fragment the start sequence number
-- stands at the same place of the union. The other commands are never asked for it.
unfoldable pub unreliable_sequence_number : Body → ℕ
unreliable_sequence_number (send_unreliable n _) = n
unreliable_sequence_number (send_fragment f) = f.start_sequence_number
unreliable_sequence_number _ = 0
