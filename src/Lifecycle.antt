-- ===== src/Lifecycle.antt =====
-- src/peer.c: how a peer is counted as connected, its queues emptied and itself reset.
pub mod Frame
pub mod Stale
pub mod References
use enet.Base.{
  ℕ, Bool, false, not, ◌&&◌, List, [], ◌∷◌, Option, none, some, ◌==◌, if◌then◌else◌, replicate,
  take, is_empty, add64, sub64, min,
}
use enet.Wire.{maximum_peer_id, maximum_window_size}
use enet.State.{
  Peer, PeerState, Host, Session, Channel, OutgoingCommand, IncomingCommand, is_live,
  throttle_scale, default_round_trip_time, unsequenced_window_size,
}
use enet.Packet.{release, packet_at}

abbrev pub with_peer : Session → Peer → Session
with_peer s p = record s { peer = p }

-- `enet_peer_on_connect`
unfoldable pub on_connect : Session → Session
on_connect s =
    let limited =
      add64 s.host.bandwidth_limited_peers (if s.peer.incoming_bandwidth == 0 then 0 else 1) in
    if is_live s.peer.state then s else record s {
      host = record (s.host) {
        bandwidth_limited_peers = limited;
        connected_peers = add64 s.host.connected_peers 1;
      };
    }

-- `enet_peer_on_disconnect`
unfoldable pub on_disconnect : Session → Session
on_disconnect s =
    let limited =
      sub64 s.host.bandwidth_limited_peers (if s.peer.incoming_bandwidth == 0 then 0 else 1) in
    if is_live s.peer.state
    then record s {
      host = record (s.host) {
        bandwidth_limited_peers = limited;
        connected_peers = sub64 s.host.connected_peers 1;
      };
    }
    else s

abbrev pub release_option : Option ℕ → Host → Host
release_option none h = h
release_option (some p) h = release p h

-- `enet_peer_reset_outgoing_commands`, of the commands of a queue that it leaves empty
unfoldable pub reset_outgoing_commands : List OutgoingCommand → Host → Host
reset_outgoing_commands [] h = h
reset_outgoing_commands (c ∷ cs) h = reset_outgoing_commands cs (release_option c.packet h)

-- `peer -> totalWaitingData -= ENET_MIN (peer -> totalWaitingData, dataLength)` with the packet's
-- length as it stands before the packet is let go
abbrev drop_waiting : Option ℕ → Session → Session
drop_waiting none s = s
drop_waiting (some p) s = record {
  host = release p s.host;
  peer = record (s.peer) {
    total_waiting_data =
        sub64 s.peer.total_waiting_data
          (min s.peer.total_waiting_data (packet_at s.host p).data_length);
  };
}

-- Whether `excludeCommand` (`none` is NULL) is this command.
abbrev pub is_excluded : Option ℕ → IncomingCommand → Bool
is_excluded none c = false
is_excluded (some b) c = c.block == b

-- `enet_peer_remove_incoming_commands`, of the commands from `startCommand` up to `endCommand`:
-- what stays of them, and the session after the others have been let go.
unfoldable pub remove_incoming_commands :
    Option ℕ → List IncomingCommand → Session → List IncomingCommand × Session
remove_incoming_commands exclude [] s = ([], s)
remove_incoming_commands exclude (c ∷ cs) s =
    let dropped =
      remove_incoming_commands exclude cs
        (if is_excluded exclude c then s else drop_waiting c.packet s) in
    (if is_excluded exclude c then c ∷ dropped.0 else dropped.0, dropped.1)

-- `enet_peer_reset_incoming_commands`, of a queue that it leaves empty
unfoldable pub reset_incoming_commands : List IncomingCommand → Session → Session
reset_incoming_commands queue s = (remove_incoming_commands none queue s).1

-- `enet_list_remove` of a peer's node in the dispatch queue
unfoldable pub remove_peer : ℕ → List ℕ → List ℕ
remove_peer id [] = []
remove_peer id (x ∷ xs) = if x == id then xs else x ∷ remove_peer id xs

reset_channels : List Channel → Session → Session
reset_channels [] s = s
reset_channels (c ∷ cs) s = reset_channels cs (
    reset_incoming_commands c.incoming_unreliable_commands
      (reset_incoming_commands c.incoming_reliable_commands s))

-- The part of `enet_peer_reset_queues` before the queues themselves.
unfoldable pub leave_dispatch_queue : Session → Session
leave_dispatch_queue s =
    if s.peer.needs_dispatch
    then record {
      host = record (s.host) {
        dispatch_queue = remove_peer s.peer.incoming_peer_id s.host.dispatch_queue;
      };
      peer = record (s.peer) { needs_dispatch = false };
    }
    else s

-- The packets of the queues are let go in the order of the source.
unfoldable pub reset_outgoing_queues : Session → Session
reset_outgoing_queues s = record {
  host = reset_outgoing_commands s.peer.outgoing_send_reliable_commands (
      reset_outgoing_commands s.peer.outgoing_commands
        (reset_outgoing_commands s.peer.sent_reliable_commands s.host));
  peer = record (s.peer) {
    acknowledgements = [];
    sent_reliable_commands = [];
    outgoing_commands = [];
    outgoing_send_reliable_commands = [];
  };
}

-- Channels past `channelCount` are not looked at.
abbrev pub used_channels : Peer → List Channel
used_channels p = take p.channel_count p.channels

unfoldable pub reset_incoming_queues : Session → Session
unfolding reset_channels
reset_incoming_queues s =
    let s' =
      reset_channels (used_channels s.peer)
        (reset_incoming_commands s.peer.dispatched_commands s) in
    record s' {
      peer = record (s'.peer) { dispatched_commands = []; channels = []; channel_count = 0 };
    }

-- `enet_peer_reset_queues`
unfoldable pub reset_queues : Session → Session
reset_queues s = reset_incoming_queues (reset_outgoing_queues (leave_dispatch_queue s))

-- The fields that `enet_peer_reset` sets, before it empties the queues.
unfoldable pub reset_fields : Session → Peer
reset_fields s = record (s.peer) {
  outgoing_peer_id = maximum_peer_id;
  connect_id = 0;
  state = PeerState.disconnected;
  incoming_bandwidth = 0;
  outgoing_bandwidth = 0;
  incoming_bandwidth_throttle_epoch = 0;
  outgoing_bandwidth_throttle_epoch = 0;
  incoming_data_total = 0;
  outgoing_data_total = 0;
  last_send_time = 0;
  last_receive_time = 0;
  next_timeout = 0;
  earliest_timeout = 0;
  packet_loss_epoch = 0;
  packets_sent = 0;
  packets_lost = 0;
  packet_loss = 0;
  packet_loss_variance = 0;
  packet_throttle = 32;
  packet_throttle_limit = throttle_scale;
  packet_throttle_counter = 0;
  packet_throttle_epoch = 0;
  packet_throttle_acceleration = 2;
  packet_throttle_deceleration = 2;
  packet_throttle_interval = 5000;
  ping_interval = 500;
  timeout_limit = 32;
  timeout_minimum = 5000;
  timeout_maximum = 30000;
  last_round_trip_time = default_round_trip_time;
  lowest_round_trip_time = default_round_trip_time;
  last_round_trip_time_variance = 0;
  highest_round_trip_time_variance = 0;
  round_trip_time = default_round_trip_time;
  round_trip_time_variance = 0;
  mtu = s.host.mtu;
  reliable_data_in_transit = 0;
  outgoing_reliable_sequence_number = 0;
  window_size = maximum_window_size;
  incoming_unsequenced_group = 0;
  outgoing_unsequenced_group = 0;
  event_data = 0;
  total_waiting_data = 0;
  needs_dispatch = false;
  continue_sending = false;
  unsequenced_window = replicate unsequenced_window_size false;
}

-- `enet_peer_reset`
unfoldable pub reset : Session → Session
reset s = let s' = on_disconnect s in reset_queues (with_peer s' (reset_fields s'))

-- `enet_peer_ping_interval`
unfoldable pub set_ping_interval : ℕ → Peer → Peer
set_ping_interval interval p = record p { ping_interval = if interval == 0 then 500 else interval }

-- `enet_peer_timeout`
unfoldable pub set_timeout : ℕ → ℕ → ℕ → Peer → Peer
set_timeout limit minimum maximum p = record p {
  timeout_limit = if limit == 0 then 32 else limit;
  timeout_minimum = if minimum == 0 then 5000 else minimum;
  timeout_maximum = if maximum == 0 then 30000 else maximum;
}

-- `enet_peer_has_outgoing_commands`
unfoldable pub has_outgoing_commands : Peer → Bool
has_outgoing_commands p = not (
    is_empty p.outgoing_commands
    && is_empty p.outgoing_send_reliable_commands
    && is_empty p.sent_reliable_commands)
