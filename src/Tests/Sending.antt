-- ===== src/Tests/Sending.antt =====
-- A peer with an acknowledgement and two commands to send, and one whose sent command is late.
use enet.Base.{
  ◌+◌, ◌<◌, ◌≡◌, refl, Bool, true, false, List, [], ◌∷◌, ◌++◌, none, some, u32, skip, arith,
}
use enet.Wire.{Protocol, Body, command_size, kind}
use enet.Wire.Bytes.{shape, shape_of, encode, decode}
use enet.Wire.Bytes.RoundTrip.{decode-encode}
use enet.State.{Session, PeerState, OutgoingCommand}
use enet.Transmit.{Datagram, Source}
use enet.Transmit.Acknowledge.{send_acknowledgements}
use enet.Transmit.Choose.{check_outgoing_commands}
use enet.Transmit.Timeouts.{check_timeouts, check_each, is_timely, note_timeout, is_lost}
use enet.Transmit.Bounds.{Fits}
use enet.Transmit.Loop.{check_outgoing_commands-Fits}
use enet.Transmit.Resend.{timely, late, late_size, check_timeouts-Resends}
use enet.Time.{time_difference, time_less}
use enet.Tests.{host, peer_in, outgoing, reliable_command, channel}

abbrev sender : Session
sender = record {
  host = host;
  peer = record (peer_in PeerState.connected (channel 1 [] ∷ [])) {
    mtu = 1392;
    acknowledgements = record { sent_time = 900; command = reliable_command 4 } ∷ [];
    outgoing_send_reliable_commands = outgoing 2 7 ∷ outgoing 3 8 ∷ [];
  };
}

-- The datagram with its header alone.
abbrev empty : Datagram
empty = record {
  command_count = 0;
  buffers = record { source = Source.header; data_length = 4 } ∷ [];
  packet_size = 4;
  has_sent_time = false;
}

empty-Fits : Fits 1392 empty
empty-Fits = record {
  size = omega arith;
  counted = refl;
  command_count = omega arith;
  buffer_count = omega arith;
}

check_outgoing_commands-Fits_example :
    let (g, s) = send_acknowledgements empty sender in
    (r : Bool × List OutgoingCommand × Datagram × Session) × (check_outgoing_commands g s ≡ some r)
    × Fits 1392 r.2
check_outgoing_commands-Fits_example =
    check_outgoing_commands-Fits empty sender (omega arith) empty-Fits tt
      (omega arith, (omega arith, tt))

-- One command is late: it was sent at 400, and the time is 1100.
abbrev waiting : Session
waiting = record {
  host = host;
  peer = record (peer_in PeerState.connected (channel 1 [] ∷ [])) {
    reliable_data_in_transit = 20;
    sent_reliable_commands = record (outgoing 2 7) { sent_time = 400 } ∷ outgoing 3 8 ∷ [];
  };
}

held : (check_timeouts none waiting).0 ≡ false
unfolding check_timeouts check_each is_timely note_timeout is_lost time_difference time_less
held = refl

check_timeouts-Resends_example :
    let t = (check_timeouts none waiting).1 in
    let sent = waiting.peer.sent_reliable_commands in
    (t.peer.sent_reliable_commands ≡ timely 1100 sent)
    × (t.peer.outgoing_commands ≡ late 1100 false sent ++ [])
    × (t.peer.outgoing_send_reliable_commands ≡ late 1100 true sent ++ [])
    × (u32 (t.peer.reliable_data_in_transit + late_size 1100 sent) ≡ 20)
check_timeouts-Resends_example =
    check_timeouts-Resends none waiting (omega arith, (omega arith, tt)) held

-- A fragment's command, with two bytes after it.
abbrev piece : Protocol
piece = record {
  command = 8 + 128;
  channel_id = 0;
  reliable_sequence_number = 259;
  body = Body.send_fragment (record {
    start_sequence_number = 259;
    data_length = 2;
    fragment_count = 70000;
    fragment_number = 1;
    total_length = 100000;
    fragment_offset = 2;
  });
}

piece_size : 0 < command_size piece.command
unfolding command_size
piece_size = omega arith

piece_shape : shape (kind piece.command) ≡ shape_of piece.body
unfolding shape kind
piece_shape = refl

decode-encode_example :
    (decode (encode piece (30 ∷ 40 ∷ [])) ≡ piece)
    × (skip (command_size 136) (encode piece (30 ∷ 40 ∷ [])) ≡ 30 ∷ 40 ∷ [])
decode-encode_example = decode-encode piece (30 ∷ 40 ∷ []) piece_size piece_shape
