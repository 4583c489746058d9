-- ===== src/Transmit/Acknowledge.antt =====
-- `enet_protocol_send_acknowledgements` of src/protocol.c.
use enet.Base.{
  ℕ, ◌+◌, Bool, true, false, ◌||◌, List, [], ◌∷◌, ltb, leb, if◌then◌else◌, sub64, u16, length,
}
use enet.Wire.{Protocol, Body, Kind, kind}
use enet.State.{Session, PeerState, Acknowledgement}
use enet.Events.{dispatch_state}
use enet.Transmit.{Datagram, Source, maximum_packet_commands, buffer_maximum, add_buffer}

-- The acknowledgement as it is sent.
unfoldable pub acknowledgement_command : Acknowledgement → Protocol
acknowledgement_command a = record {
  command = 1;
  channel_id = a.command.channel_id;
  reliable_sequence_number = a.command.reliable_sequence_number;
  body = Body.acknowledge a.command.reliable_sequence_number (u16 a.sent_time);
}

-- Whether the datagram has no room for an acknowledgement.
unfoldable pub lacks_room : ℕ → Datagram → Bool
lacks_room mtu g =
    leb maximum_packet_commands g.command_count
    || leb buffer_maximum (length g.buffers)
    || ltb (sub64 mtu g.packet_size) 8

is_disconnect : Kind → Bool
is_disconnect Kind.disconnect = true
is_disconnect _ = false

-- The acknowledgement of a disconnection makes the peer a zombie.
unfoldable pub after_acknowledgement : Acknowledgement → Session → Session
unfolding is_disconnect
after_acknowledgement a s =
    if is_disconnect (kind a.command.command) then dispatch_state PeerState.zombie s else s

abbrev pub set_acknowledgements : List Acknowledgement → Session → Session
set_acknowledgements l s = record s { peer = record (s.peer) { acknowledgements = l } }

-- The loop over the acknowledgements that are left.
unfoldable pub acknowledge_all : List Acknowledgement → Datagram → Session → Datagram × Session
acknowledge_all [] g s = (g, set_acknowledgements [] s)
acknowledge_all (a ∷ rest) g s =
    let g' =
      add_buffer (Source.command (acknowledgement_command a)) 8
        (record g { command_count = g.command_count + 1 }) in
    let sent = acknowledge_all rest g' (after_acknowledgement a s) in
    let waiting = set_acknowledgements (a ∷ rest) s in
    if lacks_room s.peer.mtu g
    then (g, record waiting { peer = record (waiting.peer) { continue_sending = true } })
    else sent

-- `enet_protocol_send_acknowledgements`
unfoldable pub send_acknowledgements : Datagram → Session → Datagram × Session
send_acknowledgements g s = acknowledge_all s.peer.acknowledgements g s
