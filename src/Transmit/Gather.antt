-- ===== src/Transmit/Gather.antt =====
-- What `enet_protocol_send_outgoing_commands` of src/protocol.c does for one peer before it sends: the
-- commands and the ping, and the packet loss. Outgoing datagrams are described here.
use enet.Base.{
  ℕ, ◌+◌, ◌-◌, ◌*◌, ◌/◌, ◌^◌, Bool, true, false, ◌&&◌, List, [], ◌∷◌, ◌++◌, Option, none, some, ltb,
  leb, ◌==◌, if◌then◌else◌, u32, sub64, is_empty,
}
use enet.Time.{time_difference}
use enet.State.{Session, Peer, OutgoingCommand, Address}
use enet.Outgoing.{ping}
use enet.Transmit.{Datagram, Buffer, Source}
use enet.Transmit.Choose.{check_outgoing_commands}

-- What follows the header: the buffers, or what the compressor or the encryptor made of them, of a
-- length.
pub data Payload : Type 0 where
  plain : List Buffer → Payload
  compressed : List Buffer → ℕ → Payload
  encrypted : Payload → ℕ → Payload

-- A datagram as it goes to the socket. `peer_id` has the header's flags; `sent_time`, the extended
-- flags and the number that the checksum starts from are there or not.
pub record Outbound : Type 0 where
  pub address : Address
  pub peer_id : ℕ
  pub sent_time : Option ℕ
  pub extended_flags : Option ℕ
  pub checksum_seed : Option ℕ
  pub payload : Payload

-- `hasExtendedHeaders` and the flag ENCRYPTED of `extendedHeaderFlags`, which last for the whole call.
pub record Extended : Type 0 where
  pub has_headers : Bool
  pub is_encrypted : Bool

-- The packet loss of an interval, smoothed.
unfoldable pub measure_loss : ℕ → Peer → Peer
measure_loss now p =
    let loss = u32 (p.packets_lost * 2 ^ 16) / p.packets_sent in
    let difference =
      if ltb loss p.packet_loss then p.packet_loss - loss else loss - p.packet_loss in
    if p.packet_loss_epoch == 0
    then record p { packet_loss_epoch = now }
    else if leb 10000 (time_difference now p.packet_loss_epoch) && ltb 0 p.packets_sent
    then record p {
      packet_loss_variance = u32 (u32 (p.packet_loss_variance * 3) + difference) / 4;
      packet_loss = u32 (u32 (p.packet_loss * 7) + loss) / 8;
      packet_loss_epoch = now;
      packets_sent = 0;
      packets_lost = 0;
    }
    else p

-- The empty datagram: the header's buffer alone.
unfoldable pub new_datagram : Datagram
new_datagram = record {
  command_count = 0;
  buffers = record { source = Source.header; data_length = 4 } ∷ [];
  packet_size = 4;
  has_sent_time = false;
}

-- A peer's commands in its datagram, with the unreliable ones: `none` is a loop that is not over.
abbrev pub Gathered : Type 0
Gathered = Option (Bool × List OutgoingCommand × Datagram × Session)

-- The part that pings a peer which has nothing else on its way.
unfoldable pub gather_ping : List OutgoingCommand → Datagram → Session → Gathered
gather_ping unreliable g s = elim (check_outgoing_commands g (ping s)) [
  | none ↦ none
  | some (silent, more, g', s') ↦ some (silent, unreliable ++ more, g', s')
]

-- Whether a ping is due.
unfoldable pub is_ping_due : Datagram → Session → Bool
is_ping_due g s =
    is_empty s.peer.sent_reliable_commands
    && leb s.peer.ping_interval (time_difference s.host.service_time s.peer.last_receive_time)
    && leb 4 (sub64 s.peer.mtu g.packet_size)

unfoldable pub gather : Datagram → Session → Gathered
gather g s =
    let idle =
      is_empty s.peer.outgoing_commands && is_empty s.peer.outgoing_send_reliable_commands in
    let chosen : Gathered = if idle then some (true, [], g, s) else check_outgoing_commands g s in
    elim chosen [
      | none ↦ none
      | some (can_ping, unreliable, g', s') ↦
          if can_ping && is_ping_due g' s'
          then gather_ping unreliable g' s'
          else some (can_ping, unreliable, g', s')
    ]
