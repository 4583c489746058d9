-- ===== src/Transmit/Timeouts.antt =====
-- `enet_protocol_check_timeouts` of src/protocol.c.
use enet.Base.{
  ℕ, ◌+◌, ◌-◌, ◌*◌, ◌^◌, Bool, true, false, not, ◌&&◌, ◌||◌, List, [], ◌∷◌, ◌++◌, Option, ltb, leb,
  ◌==◌, if◌then◌else◌, u32, sub32, is_empty,
}
use enet.Time.{time_less, time_difference}
use enet.State.{Session, Peer, OutgoingCommand, Event}
use enet.Outgoing.{has_packet}
use enet.Events.{notify_disconnect_timeout}

-- The commands that the loop has passed: those that stay, and those that are to be sent again, with
-- a packet or without one.
pub record Passed : Type 0 where
  pub kept : List OutgoingCommand
  pub again : List OutgoingCommand
  pub again_reliable : List OutgoingCommand

-- The peer's queues, with the commands that the loop has not reached.
unfoldable pub put_back : Passed → List OutgoingCommand → Session → Session
put_back w rest s = record s {
  peer = record (s.peer) {
    sent_reliable_commands = w.kept ++ rest;
    outgoing_commands = w.again ++ s.peer.outgoing_commands;
    outgoing_send_reliable_commands = w.again_reliable ++ s.peer.outgoing_send_reliable_commands;
  };
}

unfoldable pub is_timely : ℕ → OutgoingCommand → Bool
is_timely now o = ltb (time_difference now o.sent_time) o.round_trip_timeout

-- `earliestTimeout`
unfoldable pub note_timeout : OutgoingCommand → Peer → Peer
note_timeout o p =
    if p.earliest_timeout == 0 || time_less o.sent_time p.earliest_timeout
    then record p { earliest_timeout = o.sent_time }
    else p

-- Whether the peer is given up. From the 33rd attempt on the shift is undefined in C.
unfoldable pub is_lost : ℕ → OutgoingCommand → Peer → Bool
is_lost now o p =
    let waited = time_difference now p.earliest_timeout in
    not (p.earliest_timeout == 0)
    && (leb p.timeout_maximum waited
        || (leb p.timeout_limit (2 ^ (o.send_attempts - 1)) && leb p.timeout_minimum waited))

-- The command goes back to the queue that it came from, and waits twice as long the next time.
unfoldable pub resend : OutgoingCommand → Passed → Passed
resend o w =
    let o' = record o { round_trip_timeout = u32 (o.round_trip_timeout * 2) } in
    if has_packet o.packet
    then record w { again_reliable = w.again_reliable ++ (o' ∷ []) }
    else record w { again = w.again ++ (o' ∷ []) }

-- If the command was the first one, the timeout of the next one counts.
abbrev pub advance_timeout : Passed → List OutgoingCommand → ℕ → ℕ
advance_timeout w [] t = t
advance_timeout w (o ∷ os) t =
    if is_empty w.kept then u32 (o.sent_time + o.round_trip_timeout) else t

unfoldable pub count_lost : OutgoingCommand → Passed → List OutgoingCommand → Peer → Peer
count_lost o w rest p = record p {
  packets_lost = u32 (p.packets_lost + 1);
  reliable_data_in_transit =
      if has_packet o.packet
      then sub32 p.reliable_data_in_transit o.fragment_length
      else p.reliable_data_in_transit;
  next_timeout = advance_timeout w rest p.next_timeout;
}

-- The loop over the sent commands; the peer's queues are put back where it ends.
unfoldable pub check_each :
    Option Event → List OutgoingCommand → Passed → Session → Bool × Session × Option Event
check_each event [] w s = (false, put_back w [] s, event)
check_each event (o ∷ os) w s =
    let now = s.host.service_time in
    let noted = note_timeout o s.peer in
    let (gone, told) =
      notify_disconnect_timeout event (put_back w (o ∷ os) (record s { peer = noted })) in
    let on_timely = check_each event os (record w { kept = w.kept ++ (o ∷ []) }) s in
    let on_late = check_each event os (resend o w) (record s { peer = count_lost o w os noted }) in
    if is_timely now o
    then on_timely
    else if is_lost now o noted
    then (true, gone, told)
    else on_late

-- `enet_protocol_check_timeouts`: `true` is the result 1, at which the peer is given up.
unfoldable pub check_timeouts : Option Event → Session → Bool × Session × Option Event
check_timeouts event s =
    check_each event s.peer.sent_reliable_commands
      (record { kept = []; again = []; again_reliable = [] }) s
