-- ===== src/State/CommandData.antt =====
-- `ENetAcknowledgement`, `ENetOutgoingCommand`, `ENetIncomingCommand` and `ENetChannel`.
use enet.Base.{ℕ, Bool, List, Option}
use enet.Wire.{Protocol}

-- `ENetAcknowledgement`
pub record Acknowledgement : Type 0 where
  pub sent_time : ℕ
  pub command : Protocol

-- `ENetOutgoingCommand`
pub record OutgoingCommand : Type 0 where
  pub reliable_sequence_number : ℕ
  pub unreliable_sequence_number : ℕ
  pub sent_time : ℕ
  pub round_trip_timeout : ℕ
  pub queue_time : ℕ
  pub fragment_offset : ℕ
  pub fragment_length : ℕ
  pub send_attempts : ℕ
  pub command : Protocol
  pub packet : Option ℕ

-- `ENetIncomingCommand`. `block` tells the structures apart, as their addresses do; `fragments` is
-- the bit set of the fragments that have arrived, a Bool for each (`none` is NULL).
pub record IncomingCommand : Type 0 where
  pub block : ℕ
  pub reliable_sequence_number : ℕ
  pub unreliable_sequence_number : ℕ
  pub command : Protocol
  pub fragment_count : ℕ
  pub fragments_remaining : ℕ
  pub fragments : Option (List Bool)
  pub packet : Option ℕ

-- `ENetChannel`; `used_reliable_windows` is the bit set, a Bool for each of the 16 windows.
pub record Channel : Type 0 where
  pub outgoing_reliable_sequence_number : ℕ
  pub outgoing_unreliable_sequence_number : ℕ
  pub used_reliable_windows : List Bool
  pub reliable_windows : List ℕ
  pub incoming_reliable_sequence_number : ℕ
  pub incoming_unreliable_sequence_number : ℕ
  pub incoming_reliable_commands : List IncomingCommand
  pub incoming_unreliable_commands : List IncomingCommand
