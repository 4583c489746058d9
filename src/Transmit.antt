-- ===== src/Transmit.antt =====
-- src/protocol.c: how the commands of one peer go into a datagram, and what is done about those that
-- are not acknowledged in time. `Acknowledge` has the acknowledgements, `Timeouts` the timeouts,
-- `Walk` and `Choose` the choice of the commands, `Bounds`, `Turns` and `Loop` the size of
-- the datagram; `Resend` is about the timeouts.
pub mod Acknowledge
pub mod Timeouts
pub mod Dispatch
pub mod Gather
pub mod Send
pub mod Walk
pub mod Choose
pub mod Bounds
pub mod Resend
pub mod Turns
pub mod Loop
use enet.Base.{
  ℕ, ◌+◌, Bool, true, List, [], ◌∷◌, ◌++◌, some, add64, length, is_empty, if◌then◌else◌,
}
use enet.Wire.{Protocol}
use enet.State.{Session, OutgoingCommand}
use enet.Packet.{release_sent}

-- What a buffer's `data` points to: the datagram's header, a command, or part of a packet.
pub data Source : Type 0 where
  header : Source
  command : Protocol → Source
  packet : ℕ → ℕ → Source

-- `ENetBuffer`
pub record Buffer : Type 0 where
  pub source : Source
  pub data_length : ℕ

-- The fields of `ENetHost` that hold the datagram in the making: `commandCount`, `buffers` up to
-- `bufferCount`, `packetSize` and the bit `ENET_PROTOCOL_HEADER_FLAG_SENT_TIME` of `headerFlags`.
pub record Datagram : Type 0 where
  pub command_count : ℕ
  pub buffers : List Buffer
  pub packet_size : ℕ
  pub has_sent_time : Bool

-- `sizeof (host -> commands) / sizeof (ENetProtocol)` and the same of `host -> buffers`
abbrev pub maximum_packet_commands : ℕ
maximum_packet_commands = 32

abbrev pub buffer_maximum : ℕ
buffer_maximum = 65

-- A buffer more, counted in the size.
abbrev pub add_buffer : Source → ℕ → Datagram → Datagram
add_buffer source n g = record g {
  buffers = g.buffers ++ (record { source = source; data_length = n } ∷ []);
  packet_size = add64 g.packet_size n;
}
