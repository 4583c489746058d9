-- ===== src/Outgoing.antt =====
-- src/peer.c: commands and acknowledgements that a peer queues for sending.
use enet.Base.{
  ℕ, ◌+◌, ◌-◌, ◌/◌, Bool, true, false, not, ◌&&◌, [], ◌∷◌, ◌++◌, Option, none, some, ltb, leb, ◌==◌,
  if◌then◌else◌, u16, u32, add64, get_or, set, replicate,
}
use enet.Wire.{Protocol, Body, Kind, kind, command_size, flag_acknowledge, flag_unsequenced}
use enet.State.{
  Peer, PeerState, Host, Session, Channel, OutgoingCommand, reliable_window_size,
  reliable_windows_count, free_reliable_windows,
}
use enet.Packet.{malloc, packet_at, set_packet}
use enet.Lifecycle.{with_peer}

-- A channel as `enet_host_connect` and `enet_protocol_handle_connect` set it up.
unfoldable pub new_channel : Channel
new_channel = record {
  outgoing_reliable_sequence_number = 0;
  outgoing_unreliable_sequence_number = 0;
  used_reliable_windows = replicate reliable_windows_count false;
  reliable_windows = replicate reliable_windows_count 0;
  incoming_reliable_sequence_number = 0;
  incoming_unreliable_sequence_number = 0;
  incoming_reliable_commands = [];
  incoming_unreliable_commands = [];
}

-- `peer -> channels [id]`. The callers have tested the number against `channelCount`; past the
-- list a read gives a new channel and a write does nothing.
abbrev pub channel_at : Peer → ℕ → Channel
channel_at p id = get_or p.channels id new_channel

abbrev pub set_channel : Peer → ℕ → Channel → Peer
set_channel p id c = record p { channels = set p.channels id c }

-- The sequence numbers that `enet_peer_setup_outgoing_command` gives out, on each of its branches.
unfoldable pub assign_sequence : Peer → OutgoingCommand → Peer × OutgoingCommand
assign_sequence p o =
    let id = o.command.channel_id in
    let c = channel_at p id in
    let next = u16 (c.outgoing_reliable_sequence_number + 1) in
    let unreliable =
      if o.fragment_offset == 0
      then u16 (c.outgoing_unreliable_sequence_number + 1)
      else c.outgoing_unreliable_sequence_number in
    if id == 0xFF
    then (
      record p {
        outgoing_reliable_sequence_number = u16 (p.outgoing_reliable_sequence_number + 1);
      },
      record o {
        reliable_sequence_number = u16 (p.outgoing_reliable_sequence_number + 1);
        unreliable_sequence_number = 0;
      },
    )
    else if flag_acknowledge o.command.command
    then (
      set_channel p id (record c {
        outgoing_reliable_sequence_number = next;
        outgoing_unreliable_sequence_number = 0;
      }),
      record o { reliable_sequence_number = next; unreliable_sequence_number = 0 },
    )
    else if flag_unsequenced o.command.command
    then (
      record p { outgoing_unsequenced_group = u16 (p.outgoing_unsequenced_group + 1) },
      record o { reliable_sequence_number = 0; unreliable_sequence_number = 0 },
    )
    else (
      set_channel p id (record c { outgoing_unreliable_sequence_number = unreliable }),
      record o {
        reliable_sequence_number = c.outgoing_reliable_sequence_number;
        unreliable_sequence_number = unreliable;
      },
    )

-- The `switch` that writes a number into the command's body.
unfoldable pub fill_body : Kind → Peer → OutgoingCommand → Body → Body
fill_body Kind.send_unreliable p o (Body.send_unreliable _ n) =
    Body.send_unreliable o.unreliable_sequence_number n
fill_body Kind.send_unsequenced p o (Body.send_unsequenced _ n) =
    Body.send_unsequenced p.outgoing_unsequenced_group n
fill_body _ p o b = b

unfoldable pub has_packet : Option ℕ → Bool
has_packet none = false
has_packet (some _) = true

-- The command goes to the queue of reliable packets or to the other one.
unfoldable pub enqueue : Peer → OutgoingCommand → Peer
enqueue p o =
    if flag_acknowledge o.command.command && has_packet o.packet
    then record p {
      outgoing_send_reliable_commands = p.outgoing_send_reliable_commands ++ (o ∷ []);
    }
    else record p { outgoing_commands = p.outgoing_commands ++ (o ∷ []) }

-- The fields that are set after the sequence numbers, with the queue time.
unfoldable pub stamp : Peer → ℕ → OutgoingCommand → OutgoingCommand
stamp p queued o = record o {
  send_attempts = 0;
  sent_time = 0;
  round_trip_timeout = 0;
  queue_time = queued;
  command = record (o.command) {
    reliable_sequence_number = o.reliable_sequence_number;
    body = fill_body (kind o.command.command) p o o.command.body;
  };
}

-- `enet_peer_setup_outgoing_command`
unfoldable pub setup_outgoing_command : OutgoingCommand → Session → Session
setup_outgoing_command o s =
    let size = command_size o.command.command + o.fragment_length in
    let p = record (s.peer) { outgoing_data_total = u32 (s.peer.outgoing_data_total + size) } in
    let (p', o') = assign_sequence p o in
    let queued = u32 (s.host.total_queued + 1) in
    record {
      host = record (s.host) { total_queued = queued };
      peer = enqueue p' (stamp p' queued o');
    }

unfoldable pub new_outgoing : Protocol → Option ℕ → ℕ → ℕ → OutgoingCommand
new_outgoing c packet offset size = record {
  reliable_sequence_number = 0;
  unreliable_sequence_number = 0;
  sent_time = 0;
  round_trip_timeout = 0;
  queue_time = 0;
  fragment_offset = offset;
  fragment_length = size;
  send_attempts = 0;
  command = c;
  packet = packet;
}

unfoldable pub refer : Option ℕ → Host → Host
refer none h = h
refer (some p) h =
    let k = packet_at h p in
    set_packet h p (record k { reference_count = add64 k.reference_count 1 })

-- `enet_peer_queue_outgoing_command`: `true` if the result is not NULL. Its length parameter is an
-- `enet_uint16`.
unfoldable pub queue_outgoing_command : Protocol → Option ℕ → ℕ → ℕ → Session → Bool × Session
queue_outgoing_command c packet offset size s =
    let (allocated, h) = malloc s.host in
    if allocated
    then (
      true,
      setup_outgoing_command (new_outgoing c packet offset (u16 size))
          (record s { host = refer packet h }),
    )
    else (false, record s { host = h })

abbrev pub control : ℕ → Body → Protocol
control command body = record {
  command = command;
  channel_id = 0xFF;
  reliable_sequence_number = 0;
  body = body;
}

-- `enet_peer_throttle_configure`
unfoldable pub throttle_configure : ℕ → ℕ → ℕ → Session → Session
throttle_configure interval acceleration deceleration s =
    let p = record (s.peer) {
      packet_throttle_interval = interval;
      packet_throttle_acceleration = acceleration;
      packet_throttle_deceleration = deceleration;
    } in
    (queue_outgoing_command
      (control (11 + 128) (Body.throttle_configure interval acceleration deceleration)) none 0 0
      (with_peer s p)).1

unfoldable pub is_connected : PeerState → Bool
is_connected PeerState.connected = true
is_connected _ = false

-- `enet_peer_ping`
unfoldable pub ping : Session → Session
ping s =
    if is_connected s.peer.state
    then (queue_outgoing_command (control (5 + 128) Body.ping) none 0 0 s).1
    else s

-- A sequence number's window, counted from the current one's round: `reliableWindow` with
-- `ENET_PEER_RELIABLE_WINDOWS` added if the number has wrapped.
unfoldable pub window_of : ℕ → ℕ → ℕ
window_of current n =
    if ltb n current
    then n / reliable_window_size + reliable_windows_count
    else n / reliable_window_size

-- Whether `enet_peer_queue_acknowledgement` refuses: the command lies in the last free windows.
unfoldable pub unacknowledged : Peer → Protocol → Bool
unacknowledged p c =
    let current = (channel_at p c.channel_id).incoming_reliable_sequence_number in
    let window = window_of current c.reliable_sequence_number in
    ltb c.channel_id p.channel_count
    && leb (current / reliable_window_size + free_reliable_windows - 1) window
    && leb window (current / reliable_window_size + free_reliable_windows)

-- `enet_peer_queue_acknowledgement`: `true` if the result is not NULL.
unfoldable pub queue_acknowledgement : Protocol → ℕ → Session → Bool × Session
queue_acknowledgement c sent_time s =
    let (allocated, h) = malloc s.host in
    if unacknowledged s.peer c
    then (false, s)
    else if not allocated
    then (false, record s { host = h })
    else (
      true,
      record {
        host = h;
        peer = record (s.peer) {
          outgoing_data_total = u32 (s.peer.outgoing_data_total + 8);
          acknowledgements =
              s.peer.acknowledgements ++ (record { sent_time = sent_time; command = c } ∷ []);
        };
      },
    )
