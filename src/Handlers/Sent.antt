-- ===== src/Handlers/Sent.antt =====
-- `enet_protocol_remove_sent_reliable_command` of src/protocol.c and the search that it uses.
use enet.Base.{
  ℕ, ◌+◌, ◌-◌, ◌/◌, Bool, true, false, not, ◌&&◌, List, [], ◌∷◌, Option, none, some, ltb, ◌==◌,
  if◌then◌else◌, u32, sub32, get_or, set,
}
use enet.Wire.{Kind, kind, flag_acknowledge}
use enet.State.{Peer, Session, Host, OutgoingCommand, reliable_window_size}
use enet.Packet.{packet_at, set_packet, release_sent}
use enet.Outgoing.{channel_at, set_channel}

-- A command found in a queue, and the queue without it.
abbrev pub Found : Type 0
Found = Option (OutgoingCommand × List OutgoingCommand)

abbrev pub is_numbered : ℕ → ℕ → OutgoingCommand → Bool
is_numbered number channel o =
    o.reliable_sequence_number == number && o.command.channel_id == channel

abbrev pub keep_before : OutgoingCommand → Found → Found
keep_before o none = none
keep_before o (some (found, rest)) = some (found, o ∷ rest)

-- The search through the sent commands, from the front.
unfoldable pub find_sent : ℕ → ℕ → List OutgoingCommand → Found
find_sent number channel [] = none
find_sent number channel (o ∷ os) =
    if is_numbered number channel o
    then some (o, os)
    else keep_before o (find_sent number channel os)

-- `enet_protocol_find_sent_reliable_command`: past commands that want no acknowledgement, up to
-- the first that was never sent.
unfoldable pub find_resent : ℕ → ℕ → List OutgoingCommand → Found
find_resent number channel [] = none
find_resent number channel (o ∷ os) =
    let rest = keep_before o (find_resent number channel os) in
    if not (flag_acknowledge o.command.command)
    then rest
    else if ltb o.send_attempts 1
    then none
    else if is_numbered number channel o
    then some (o, os)
    else rest

-- Where the command was found: its queue without it is put back.
unfoldable pub locate : ℕ → ℕ → Peer → Option (Bool × OutgoingCommand × Peer)
locate number channel p = elim (find_sent number channel p.sent_reliable_commands) [
  | some (o, rest) ↦ some (true, o, record p { sent_reliable_commands = rest })
  | none ↦ elim (find_resent number channel p.outgoing_commands) [
    | some (o, rest) ↦ some (false, o, record p { outgoing_commands = rest })
    | none ↦ elim (find_resent number channel p.outgoing_send_reliable_commands) [
      | some (o, rest) ↦ some (false, o, record p { outgoing_send_reliable_commands = rest })
      | none ↦ none
    ]
  ]
]

-- One command less in the window of its number.
unfoldable pub leave_window : ℕ → ℕ → Peer → Peer
leave_window number channel p =
    let c = channel_at p channel in
    let w = number / reliable_window_size in
    let count = get_or c.reliable_windows w 0 in
    if ltb channel p.channel_count && ltb 0 count
    then set_channel p channel (record c {
      reliable_windows = set c.reliable_windows w (count - 1);
      used_reliable_windows =
          if count - 1 == 0 then set c.used_reliable_windows w false else c.used_reliable_windows;
    })
    else p

-- The packet's part: one fragment fewer to be acknowledged, if the command was sent, and one
-- reference fewer.
unfoldable pub settle_packet : Bool → Option ℕ → Host → Host
settle_packet was_sent none h = h
settle_packet was_sent (some q) h =
    let k = packet_at h q in
    let remaining = sub32 k.remaining_fragments 1 in
    let settled = record k {
      remaining_fragments = remaining;
      acknowledge_calls =
          if remaining == 0 && k.acknowledge_callback
          then k.acknowledge_calls + 1
          else k.acknowledge_calls;
    } in
    release_sent q (if was_sent then set_packet h q settled else h)

in_transit : Bool → Option ℕ → ℕ → ℕ → ℕ
in_transit true (some q) total size = sub32 total size
in_transit _ _ total size = total

next_timeout : List OutgoingCommand → ℕ → ℕ
next_timeout [] t = t
next_timeout (o ∷ os) t = u32 (o.sent_time + o.round_trip_timeout)

-- `enet_protocol_remove_sent_reliable_command`, with the kind of the command that it removed.
unfoldable pub remove_sent_reliable_command : ℕ → ℕ → Session → Kind × Session
unfolding in_transit next_timeout
remove_sent_reliable_command number channel s = elim (locate number channel s.peer) [
  | none ↦ (Kind.nothing, s)
  | some (was_sent, o, found) ↦
      let p = leave_window number channel found in
      (
        kind o.command.command,
        record {
          host = settle_packet was_sent o.packet s.host;
          peer = record p {
            reliable_data_in_transit =
                in_transit was_sent o.packet p.reliable_data_in_transit o.fragment_length;
            next_timeout = next_timeout p.sent_reliable_commands p.next_timeout;
          };
        },
      )
]
