-- ===== src/Transmit/Choose.antt =====
-- `enet_protocol_check_outgoing_commands` of src/protocol.c: which of the peer's waiting commands go
-- into the datagram.
use enet.Base.{
  ℕ, zero, suc, ◌+◌, ◌*◌, ◌/◌, ◌%◌, Bool, true, false, not, ◌&&◌, List, [], ◌∷◌, ◌++◌, Option, none,
  some, ltb, ◌==◌, if◌then◌else◌, u16, u32, length, get_or, set, is_empty,
}
use enet.Wire.{flag_acknowledge, command_size}
use enet.State.{
  Session, Peer, PeerState, Host, OutgoingCommand, throttle_scale, reliable_window_size,
}
use enet.Lifecycle.{release_option, has_outgoing_commands}
use enet.Outgoing.{channel_at, set_channel, has_packet}
use enet.Disconnect.{disconnect}
use enet.Transmit.{Datagram, Source, add_buffer}
use enet.Transmit.Walk.{Walk, choose, pass, close_reliable, is_blocked, exceeds_window, lacks_space}

-- The command's window counts one command more when it is sent for the first time.
unfoldable pub enter_reliable_window : OutgoingCommand → Peer → Peer
enter_reliable_window o p =
    let id = o.command.channel_id in
    let c = channel_at p id in
    let window = o.reliable_sequence_number / reliable_window_size in
    if ltb id p.channel_count && ltb o.send_attempts 1
    then set_channel p id (record c {
      used_reliable_windows = set c.used_reliable_windows window true;
      reliable_windows =
          set c.reliable_windows window (u16 (get_or c.reliable_windows window 0 + 1));
    })
    else p

-- A command that is to be acknowledged goes to the sent ones.
unfoldable pub send_acknowledged : OutgoingCommand → Session → Session
send_acknowledged o s =
    let p = enter_reliable_window o s.peer in
    let timeout =
      if o.round_trip_timeout == 0
      then u32 (p.round_trip_time + 4 * p.round_trip_time_variance)
      else o.round_trip_timeout in
    let o' = record o {
      send_attempts = u16 (o.send_attempts + 1);
      round_trip_timeout = timeout;
      sent_time = s.host.service_time;
    } in
    record s {
      peer = record p {
        next_timeout =
            if is_empty p.sent_reliable_commands
            then u32 (s.host.service_time + timeout)
            else p.next_timeout;
        sent_reliable_commands = p.sent_reliable_commands ++ (o' ∷ []);
        reliable_data_in_transit = u32 (p.reliable_data_in_transit + o.fragment_length);
      };
    }

-- The command's buffers, with the number that it has in the datagram.
unfoldable pub write_command : OutgoingCommand → Datagram → Datagram
write_command o g =
    let size = command_size o.command.command in
    let counted = record g { command_count = g.command_count + 1 } in
    let g' = add_buffer (Source.command o.command) size counted in
    elim o.packet [
      | none ↦ g'
      | some p ↦ add_buffer (Source.packet p o.fragment_offset) o.fragment_length g'
    ]

-- Whether the throttle drops the packet, and its counter afterwards.
abbrev pub next_counter : Peer → ℕ
next_counter p = u32 (p.packet_throttle_counter + 7) % throttle_scale

unfoldable pub is_dropped : OutgoingCommand → Peer → Bool
is_dropped o p =
    has_packet o.packet && o.fragment_offset == 0 && ltb p.packet_throttle (next_counter p)

abbrev pub tick : OutgoingCommand → Peer → Peer
tick o p =
    if has_packet o.packet && o.fragment_offset == 0
    then record p { packet_throttle_counter = next_counter p }
    else p

-- The fragments that follow a dropped one are dropped with it: what is left, and the host.
unfoldable pub drop_fragments :
    OutgoingCommand → List OutgoingCommand → Host → List OutgoingCommand × Host
drop_fragments o [] h = ([], h)
drop_fragments o (c ∷ cs) h =
    let rest = drop_fragments o cs (release_option c.packet h) in
    if c.reliable_sequence_number == o.reliable_sequence_number
      && c.unreliable_sequence_number == o.unreliable_sequence_number
    then rest
    else (c ∷ cs, h)

unfoldable pub drop_packet : OutgoingCommand → Walk → Walk
drop_packet o w =
    let (rest, h) = drop_fragments o w.rest (release_option o.packet w.session.host) in
    record w {
      rest = rest;
      session = record (w.session) { host = h; peer = tick o w.session.peer };
    }

-- The command goes into the datagram.
unfoldable pub send_command : OutgoingCommand → Walk → Walk
send_command o w =
    let p = w.session.peer in
    let counted = λ (s : Session). record s {
      peer = record (s.peer) { packets_sent = u32 (s.peer.packets_sent + 1) };
    } in
    let g = write_command o w.datagram in
    if flag_acknowledge o.command.command
    then record w {
      session = counted (send_acknowledged o w.session);
      datagram = record g { has_sent_time = true };
    }
    else record w {
      session = counted (record (w.session) { peer = tick o p });
      unreliable = if has_packet o.packet then w.unreliable ++ (o ∷ []) else w.unreliable;
      datagram = g;
    }

-- How the loop goes on after a command.
pub data Turn : Type 0 where
  onward halt : Walk → Turn

-- The rest of the loop once a command has its turn: room in the datagram, then the throttle.
unfoldable pub place_command : OutgoingCommand → Bool → Walk → Turn
place_command o reliable w =
    let p = w.session.peer in
    let stopped = record (w.session) { peer = record p { continue_sending = true } } in
    if lacks_space p.mtu o w.datagram
    then Turn.halt (pass o reliable (record w { session = stopped }))
    else if not (flag_acknowledge o.command.command) && is_dropped o p
    then Turn.onward (drop_packet o w)
    else Turn.onward (send_command o w)

-- One turn of the loop, of the command that was chosen.
unfoldable pub take_turn : OutgoingCommand → Bool → Walk → Turn
take_turn o reliable w =
    let p = w.session.peer in
    let id = o.command.channel_id in
    let has_channel = ltb id p.channel_count in
    if not (flag_acknowledge o.command.command)
    then place_command o reliable w
    else if has_channel && w.window_wrap
    then Turn.onward (pass o reliable w)
    else if has_channel && is_blocked (channel_at p id) o
    then Turn.onward (close_reliable (pass o reliable (record w { window_wrap = true })))
    else if exceeds_window p o
    then Turn.onward (close_reliable (pass o reliable w))
    else place_command o reliable (record w { can_ping = false })

-- The loop; each turn takes one command at least, and `none` is a loop that is not over.
unfoldable pub choose_all : ℕ → Walk → Option Walk
choose_all zero w = none
choose_all (suc fuel) w = elim (choose w) [
  | none ↦ some w
  | some (o, reliable, w') ↦ elim (take_turn o reliable w') [
    | onward w'' ↦ choose_all fuel w''
    | halt w'' ↦ some w''
  ]
]

abbrev pub is_later : PeerState → Bool
is_later PeerState.disconnect_later = true
is_later _ = false

-- After the loop the queues are what was passed and what is left, and a peer that is to disconnect
-- once all is sent does so. Its state is one in which `enet_peer_disconnect` does not flush.
unfoldable pub finish_walk : Walk → Session
finish_walk w =
    let s = record (w.session) {
      peer = record (w.session.peer) {
        outgoing_commands = w.passed ++ w.rest;
        outgoing_send_reliable_commands = w.reliable_passed ++ w.reliable_rest;
      };
    } in
    if is_later s.peer.state && not (has_outgoing_commands s.peer) && is_empty w.unreliable
    then disconnect (λ t. t) s.peer.event_data s
    else s

-- The state before the first turn.
unfoldable pub start_walk : Datagram → Session → Walk
start_walk g s = record {
  passed = [];
  rest = s.peer.outgoing_commands;
  reliable_passed = [];
  reliable_rest = s.peer.outgoing_send_reliable_commands;
  window_wrap = false;
  can_ping = true;
  unreliable = [];
  datagram = g;
  session = s;
}

-- `enet_protocol_check_outgoing_commands`: whether a ping may be sent, the commands that the caller
-- releases once they are sent, the datagram and the session.
unfoldable pub check_outgoing_commands :
    Datagram → Session → Option (Bool × List OutgoingCommand × Datagram × Session)
check_outgoing_commands g s =
    let fuel = length s.peer.outgoing_commands + length s.peer.outgoing_send_reliable_commands in
    elim (choose_all (suc fuel) (start_walk g s)) [
      | none ↦ none
      | some w ↦ some (w.can_ping, w.unreliable, w.datagram, finish_walk w)
    ]
