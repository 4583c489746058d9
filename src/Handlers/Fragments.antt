-- ===== src/Handlers/Fragments.antt =====
-- The handlers of src/protocol.c for fragments. `bytes` is what follows the command in the
-- datagram, up to its end.
use enet.Base.{
  ℕ, zero, suc, ◌+◌, ◌-◌, Bool, true, false, not, ◌&&◌, ◌||◌, List, [], ◌∷◌, Option, none, some,
  ltb, leb, ◌==◌, if◌then◌else◌, u32, sub32, take, length, get_or, set,
}
use enet.Wire.{Protocol, SendFragment, Kind, kind, maximum_fragment_count}
use enet.State.{Session, Host, Packet, IncomingCommand, is_live}
use enet.Packet.{packet_at, set_packet}
use enet.Outgoing.{channel_at, set_channel}
use enet.Incoming.Search.{outside_window, Verdict, judge_reliable, judge_unreliable}
use enet.Incoming.Dispatch.{dispatch_reliable, dispatch_unreliable}
use enet.Incoming.Queue.{Outcome, queued, discarded, failed, queue_incoming_command}

-- The tests at the start of both handlers.
unfoldable pub accepts_fragment : Protocol → SendFragment → List ℕ → Session → Bool
accepts_fragment c f bytes s = not (
    leb s.peer.channel_count c.channel_id
    || not (is_live s.peer.state)
    || f.data_length == 0
    || ltb s.host.maximum_packet_size f.data_length
    || ltb (length bytes) f.data_length)

-- The tests on what the fragment says of the packet and of its own place in it.
unfoldable pub is_placed : SendFragment → Host → Bool
is_placed f h = not (
    ltb maximum_fragment_count f.fragment_count
    || leb f.fragment_count f.fragment_number
    || ltb h.maximum_packet_size f.total_length
    || ltb f.total_length f.fragment_count
    || leb f.total_length f.fragment_offset
    || ltb (f.total_length - f.fragment_offset) f.data_length)

-- How the search for the packet's first fragment ends, backwards from the end of the queue: past
-- the front, before it, or at a command with its number.
pub data Sought : Type 0 where
  unfound passed : Sought
  found : IncomingCommand → Sought

abbrev pub at_candidate : Verdict → IncomingCommand → Sought
at_candidate Verdict.skip c = Sought.unfound
at_candidate Verdict.stop c = Sought.passed
at_candidate Verdict.discard c = Sought.found c

-- The loop makes the tests of `enet_peer_queue_incoming_command`, and takes the command at which
-- that one discards.
unfoldable pub find_start : (IncomingCommand → Verdict) → List IncomingCommand → Sought
find_start judge [] = Sought.unfound
find_start judge (c ∷ cs) = elim (find_start judge cs) [
  | Sought.unfound ↦ at_candidate (judge c) c
  | Sought.passed ↦ Sought.passed
  | Sought.found d ↦ Sought.found d
]

-- `memcpy` into a block of bytes, at an offset
abbrev pub overlay : List ℕ → ℕ → List ℕ → List ℕ
overlay [] offset source = []
overlay (x ∷ xs) (suc offset) source = x ∷ overlay xs offset source
overlay (x ∷ xs) zero [] = x ∷ xs
overlay (x ∷ xs) zero (y ∷ ys) = y ∷ overlay xs zero ys

-- Whether a fragment of the command has arrived: its bit is set.
abbrev pub has_fragment : IncomingCommand → ℕ → Bool
has_fragment c i = elim c.fragments [ none ↦ false | some l ↦ get_or l i false ]

-- The bit is set, and one fragment less is awaited.
abbrev pub mark_fragment : ℕ → IncomingCommand → IncomingCommand
mark_fragment i c = record c {
  fragments_remaining = sub32 c.fragments_remaining 1;
  fragments = elim c.fragments [ none ↦ none | some l ↦ some (set l i true) ];
}

-- The fragment's bytes go to their place in the packet, cut at its end.
unfoldable pub fill_fragment : SendFragment → List ℕ → Packet → Packet
fill_fragment f bytes k =
    let size =
      if ltb k.data_length (u32 (f.fragment_offset + f.data_length))
      then u32 (k.data_length - f.fragment_offset)
      else f.data_length in
    record k {
      bytes = elim k.bytes [
        | none ↦ none
        | some old ↦ some (overlay old f.fragment_offset (take size bytes))
      ];
    }

-- A write through the pointer to a queued command: `block` tells which one it is.
abbrev pub change_command :
    ℕ → (IncomingCommand → IncomingCommand) → List IncomingCommand → List IncomingCommand
change_command block change [] = []
change_command block change (c ∷ cs) =
    (if c.block == block then change c else c) ∷ change_command block change cs

abbrev pub fill_packet : SendFragment → List ℕ → Option ℕ → Host → Host
fill_packet f bytes none h = h
fill_packet f bytes (some p) h = set_packet h p (fill_fragment f bytes (packet_at h p))

abbrev pub length_of : Option ℕ → Host → ℕ
length_of none h = 0
length_of (some p) h = (packet_at h p).data_length

-- Whether a command found in the queue has this packet's kind, length and number of fragments.
unfoldable pub matches : Kind → SendFragment → IncomingCommand → Host → Bool
matches k f d h =
    is_kind k (kind d.command.command)
    && f.total_length == length_of d.packet h
    && f.fragment_count == d.fragment_count
  where
    is_kind : Kind → Kind → Bool
    is_kind Kind.send_fragment Kind.send_fragment = true
    is_kind Kind.send_unreliable_fragment Kind.send_unreliable_fragment = true
    is_kind _ _ = false

-- The last part of `enet_protocol_handle_send_fragment`: a fragment that has arrived before changes
-- nothing, and the last one that was missing makes the packet ready.
unfoldable pub store_fragment : ℕ → SendFragment → List ℕ → IncomingCommand → Session → Session
store_fragment id f bytes d s =
    let c = channel_at s.peer id in
    let stored : Session = record {
      host = fill_packet f bytes d.packet s.host;
      peer = set_channel s.peer id (record c {
        incoming_reliable_commands =
            change_command d.block (mark_fragment f.fragment_number) c.incoming_reliable_commands;
      });
    } in
    if has_fragment d f.fragment_number
    then s
    else if sub32 d.fragments_remaining 1 == 0
    then dispatch_reliable id none stored
    else stored

-- The last part of `enet_protocol_handle_send_unreliable_fragment`, on the other queue
unfoldable pub store_unreliable_fragment :
    ℕ → SendFragment → List ℕ → IncomingCommand → Session → Session
store_unreliable_fragment id f bytes d s =
    let c = channel_at s.peer id in
    let stored : Session = record {
      host = fill_packet f bytes d.packet s.host;
      peer = set_channel s.peer id (record c {
        incoming_unreliable_commands =
            change_command d.block (mark_fragment f.fragment_number) c.incoming_unreliable_commands;
      });
    } in
    if has_fragment d f.fragment_number
    then s
    else if sub32 d.fragments_remaining 1 == 0
    then dispatch_unreliable id none stored
    else stored

-- The result of queueing the first fragment that arrives: NULL is an error. A fragment is never
-- answered by the dummy command, which stands for a discarded command without fragments.
abbrev pub begin_packet : (IncomingCommand → Session → Session) → Outcome × Session → Bool × Session
begin_packet store (queued d, s) = (true, store d s)
begin_packet store (discarded, s) = (false, s)
begin_packet store (failed, s) = (false, s)

-- `enet_protocol_handle_send_fragment`
unfoldable pub handle_send_fragment : Protocol → SendFragment → List ℕ → Session → Bool × Session
handle_send_fragment c f bytes s =
    let id = c.channel_id in
    let channel = channel_at s.peer id in
    let current = channel.incoming_reliable_sequence_number in
    let start = f.start_sequence_number in
    let first = record c { reliable_sequence_number = start } in
    let begun =
      begin_packet (store_fragment id f bytes)
        (queue_incoming_command first none f.total_length 1 f.fragment_count s) in
    let judge = λ (o : IncomingCommand). judge_reliable current start o.reliable_sequence_number in
    let sought : Bool × Session = elim (find_start judge channel.incoming_reliable_commands) [
      | Sought.found d ↦
          if matches Kind.send_fragment f d s.host
          then (true, store_fragment id f bytes d s)
          else (false, s)
      | _ ↦ begun
    ] in
    if not (accepts_fragment c f bytes s)
    then (false, s)
    else if outside_window current start
    then (true, s)
    else if not (is_placed f s.host)
    then (false, s)
    else sought

-- `enet_protocol_handle_send_unreliable_fragment`
unfoldable pub handle_send_unreliable_fragment :
    Protocol → SendFragment → List ℕ → Session → Bool × Session
handle_send_unreliable_fragment c f bytes s =
    let id = c.channel_id in
    let channel = channel_at s.peer id in
    let current = channel.incoming_reliable_sequence_number in
    let reliable = c.reliable_sequence_number in
    let start = f.start_sequence_number in
    let begun =
      begin_packet (store_unreliable_fragment id f bytes)
        (queue_incoming_command c none f.total_length 8 f.fragment_count s) in
    let judge = λ (o : IncomingCommand).
      judge_unreliable current reliable start o.reliable_sequence_number
        o.unreliable_sequence_number in
    let sought : Bool × Session = elim (find_start judge channel.incoming_unreliable_commands) [
      | Sought.found d ↦
          if matches Kind.send_unreliable_fragment f d s.host
          then (true, store_unreliable_fragment id f bytes d s)
          else (false, s)
      | _ ↦ begun
    ] in
    if not (accepts_fragment c f bytes s)
    then (false, s)
    else if outside_window current reliable
    then (true, s)
    else if reliable == current && leb start channel.incoming_unreliable_sequence_number
    then (true, s)
    else if not (is_placed f s.host)
    then (false, s)
    else sought
