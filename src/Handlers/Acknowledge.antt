-- ===== src/Handlers/Acknowledge.antt =====
-- `enet_protocol_handle_acknowledge` of src/protocol.c: the round trip time and what the
-- acknowledgement of a command brings about.
use enet.Base.{
  ℕ, ◌+◌, ◌-◌, ◌*◌, ◌/◌, ◌^◌, Bool, true, false, not, ◌&&◌, ◌||◌, Option, ltb, leb, ◌==◌,
  if◌then◌else◌, u32, sub32, has_bit, max,
}
use enet.Wire.{Kind}
use enet.Time.{time_less, time_difference}
use enet.State.{Peer, PeerState, Session, Event}
use enet.Throttle.{throttle}
use enet.Lifecycle.{has_outgoing_commands}
use enet.Disconnect.{disconnect}
use enet.Events.{notify_connect, notify_disconnect}
use enet.Handlers.Sent.{remove_sent_reliable_command}

-- The full sent time from its low sixteen bits: of the two clock values with these bits around the
-- service time, the one that the top bit of the sixteen points to.
unfoldable pub restore_sent_time : ℕ → ℕ → ℕ
restore_sent_time service received =
    let sent = service / 2 ^ 16 * 2 ^ 16 + received in
    if has_bit 15 received && not (has_bit 15 service) then sub32 sent (2 ^ 16) else sent

-- The states in which an acknowledgement is passed over.
is_over : PeerState → Bool
is_over PeerState.disconnected = true
is_over PeerState.zombie = true
is_over PeerState.timedout = true
is_over _ = false

-- The mean round trip time and its variance after a measured one.
unfoldable pub smooth_round_trip : ℕ → Peer → Peer
smooth_round_trip rtt p =
    let variance = p.round_trip_time_variance - p.round_trip_time_variance / 4 in
    if leb p.round_trip_time rtt
    then record p {
      round_trip_time_variance = u32 (variance + (rtt - p.round_trip_time) / 4);
      round_trip_time = u32 (p.round_trip_time + (rtt - p.round_trip_time) / 8);
    }
    else record p {
      round_trip_time_variance = u32 (variance + (p.round_trip_time - rtt) / 4);
      round_trip_time = p.round_trip_time - (p.round_trip_time - rtt) / 8;
    }

-- The first measurement sets both, the later ones go through the throttle and the mean.
unfoldable pub measure : ℕ → Peer → Peer
measure rtt p =
    if ltb 0 p.last_receive_time
    then smooth_round_trip rtt (throttle p rtt).0
    else record p { round_trip_time = rtt; round_trip_time_variance = u32 (rtt + 1) / 2 }

-- The extremes of the interval.
unfoldable pub track : Peer → Peer
track p = record p {
  lowest_round_trip_time =
      if ltb p.round_trip_time p.lowest_round_trip_time
      then p.round_trip_time
      else p.lowest_round_trip_time;
  highest_round_trip_time_variance =
      if ltb p.highest_round_trip_time_variance p.round_trip_time_variance
      then p.round_trip_time_variance
      else p.highest_round_trip_time_variance;
}

-- The end of a throttle interval.
unfoldable pub close_interval : ℕ → Peer → Peer
close_interval service p =
    if p.packet_throttle_epoch == 0
      || leb p.packet_throttle_interval (time_difference service p.packet_throttle_epoch)
    then record p {
      last_round_trip_time = p.lowest_round_trip_time;
      last_round_trip_time_variance = max p.highest_round_trip_time_variance 1;
      lowest_round_trip_time = p.round_trip_time;
      highest_round_trip_time_variance = p.round_trip_time_variance;
      packet_throttle_epoch = service;
    }
    else p

-- All that the handler does to the peer's clocks.
unfoldable pub receive_time : ℕ → ℕ → Peer → Peer
receive_time service rtt p =
    let q = close_interval service (track (measure rtt p)) in
    record q { last_receive_time = max service 1; earliest_timeout = 0 }

is_kind : Kind → Kind → Bool
is_kind Kind.verify_connect Kind.verify_connect = true
is_kind Kind.disconnect Kind.disconnect = true
is_kind _ _ = false

module _ (flush : Session → Session) where
  -- The `switch` on the state, at the kind of the command that was acknowledged.
  unfoldable pub acknowledged :
      PeerState → Kind → Option Event → Session → Bool × Session × Option Event
  unfolding is_kind
  acknowledged PeerState.acknowledging_connect k event s =
      let (s', event') = notify_connect event s in
      if is_kind k Kind.verify_connect then (true, s', event') else (false, s, event)
  acknowledged PeerState.disconnecting k event s =
      let (s', event') = notify_disconnect event s in
      if is_kind k Kind.disconnect then (true, s', event') else (false, s, event)
  acknowledged PeerState.disconnect_later k event s =
      if has_outgoing_commands s.peer
      then (true, s, event)
      else (true, disconnect flush s.peer.event_data s, event)
  acknowledged _ k event s = (true, s, event)

  -- `enet_protocol_handle_acknowledge`
  unfoldable pub handle_acknowledge :
      ℕ → ℕ → ℕ → Option Event → Session → Bool × Session × Option Event
  unfolding is_over
  handle_acknowledge channel number received event s =
      let service = s.host.service_time in
      let sent = restore_sent_time service received in
      let rtt = max (time_difference service sent) 1 in
      let timed = record s { peer = receive_time service rtt s.peer } in
      let (k, s') = remove_sent_reliable_command number channel timed in
      if is_over s.peer.state
      then (true, s, event)
      else if time_less service sent
      then (true, s, event)
      else acknowledged s'.peer.state k event s'
