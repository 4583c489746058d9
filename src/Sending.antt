-- ===== src/Sending.antt =====
-- `enet_peer_send` of src/peer.c: a packet goes into one command, or is cut into fragments.
-- `Cut` is about the cut, `Failure` about a call that is refused.
pub mod Cut
pub mod Failure
use enet.Base.{
  ℕ, zero, suc, ◌+◌, ◌-◌, ◌/◌, ◌^◌, Bool, true, false, not, ◌&&◌, ◌||◌, List, [], ◌∷◌, some, ltb,
  leb, if◌then◌else◌, u16, u32, add64, sub64, length,
}
use enet.Wire.{Protocol, Body, maximum_fragment_count}
use enet.State.{
  Packet, Host, Session, Peer, OutgoingCommand, flag_reliable, flag_unsequenced_packet,
  flag_unreliable_fragment,
}
use enet.Packet.{malloc, packet_at, set_packet}
use enet.Outgoing.{
  channel_at, setup_outgoing_command, new_outgoing, queue_outgoing_command, is_connected,
}

-- The largest fragment: the peer's mtu less the headers of the datagram and of a fragment, and less
-- the checksum if there is one.
unfoldable pub fragment_length : Session → ℕ
fragment_length s =
    let length = sub64 s.peer.mtu 28 in if s.host.has_checksum then sub64 length 4 else length

-- What the fragments of a packet have in common.
pub record Plan : Type 0 where
  pub command : ℕ
  pub channel_id : ℕ
  pub start_sequence_number : ℕ
  pub fragment_count : ℕ
  pub total_length : ℕ
  pub packet : ℕ

-- A fragment as the loop fills it in, at its number, offset and length.
unfoldable pub fragment : Plan → ℕ → ℕ → ℕ → OutgoingCommand
fragment plan number offset length =
    new_outgoing
      (record {
        command = plan.command;
        channel_id = plan.channel_id;
        reliable_sequence_number = 0;
        body = Body.send_fragment (record {
          start_sequence_number = plan.start_sequence_number;
          data_length = u16 length;
          fragment_count = plan.fragment_count;
          fragment_number = number;
          total_length = u32 plan.total_length;
          fragment_offset = offset;
        });
      })
      (some plan.packet) offset (u16 length)

-- How the loop ends: without memory, with the fragments, or not within the fuel.
pub data Cutting : Type 0 where
  no_memory exhausted : Cutting
  fragments : List OutgoingCommand → Cutting

abbrev pub add_fragment : OutgoingCommand → Cutting → Cutting
add_fragment o (fragments l) = Cutting.fragments (o ∷ l)
add_fragment o no_memory = Cutting.no_memory
add_fragment o exhausted = Cutting.exhausted

-- The length of the coming fragment: the last one is shorter, and the length stays so.
abbrev pub piece_length : ℕ → ℕ → ℕ → ℕ
piece_length total offset length = if ltb (total - offset) length then total - offset else length

-- The loop that allocates the fragments from a number and an offset on. `no_memory` is the branch
-- that frees those before it.
unfoldable pub cut : ℕ → Plan → ℕ → ℕ → ℕ → Host → Cutting × Host
unfolding malloc
cut zero plan length number offset h =
    if ltb offset plan.total_length then (Cutting.exhausted, h) else (Cutting.fragments [], h)
cut (suc fuel) plan length number offset h =
    let size = piece_length plan.total_length offset length in
    let (allocated, h') = malloc h in
    let (rest, h'') = cut fuel plan size (u32 (number + 1)) (u32 (offset + size)) h' in
    if not (ltb offset plan.total_length)
    then (Cutting.fragments [], h)
    else if not allocated
    then (Cutting.no_memory, h')
    else (add_fragment (fragment plan number offset size) rest, h'')

-- `ENET_PROTOCOL_COMMAND_SEND_UNRELIABLE_FRAGMENT` or `…_SEND_FRAGMENT` with the flag to acknowledge
unfoldable pub plan_fragments : ℕ → ℕ → ℕ → Session → Plan
plan_fragments id p count s =
    let k = packet_at s.host p in
    let c = channel_at s.peer id in
    let unreliable =
      not (flag_reliable k.flags)
      && flag_unreliable_fragment k.flags
      && ltb c.outgoing_unreliable_sequence_number 0xFFFF in
    record {
      command = if unreliable then 12 else 8 + 128;
      channel_id = id;
      start_sequence_number = u16 (
          if unreliable
          then c.outgoing_unreliable_sequence_number + 1
          else c.outgoing_reliable_sequence_number + 1);
      fragment_count = count;
      total_length = k.data_length;
      packet = p;
    }

unfoldable pub setup_all : List OutgoingCommand → Session → Session
setup_all [] s = s
setup_all (o ∷ os) s = setup_all os (setup_outgoing_command o s)

-- `packet -> remainingFragments = n`
abbrev pub expect : ℕ → ℕ → Host → Host
expect p n h = set_packet h p (record (packet_at h p) { remaining_fragments = n })

-- `packet -> referenceCount += fragmentNumber`
abbrev pub refer_times : ℕ → ℕ → Host → Host
refer_times p n h =
    let k = packet_at h p in
    set_packet h p (record k { reference_count = add64 k.reference_count n })

-- `fragmentCount`, an `enet_uint32`
unfoldable pub count_fragments : ℕ → ℕ → ℕ
count_fragments total length = u32 (sub64 (add64 total length) 1 / length)

-- The branch that cuts. A packet of n bytes needs at most n rounds.
unfoldable pub send_fragments : ℕ → ℕ → ℕ → Session → Bool × Session
send_fragments id p limit s =
    let total = (packet_at s.host p).data_length in
    let count = count_fragments total limit in
    let plan = plan_fragments id p count s in
    let (cutting, h) = cut total plan limit 0 0 (expect p count s.host) in
    if ltb maximum_fragment_count count then (false, s) else elim cutting [
      | Cutting.fragments l ↦
          (true, setup_all l (record s { host = refer_times p (u32 (length l)) h }))
      | _ ↦ (false, record s { host = h })
    ]

abbrev pub data_command : ℕ → ℕ → Body → Protocol
data_command id command body = record {
  command = command;
  channel_id = id;
  reliable_sequence_number = 0;
  body = body;
}

-- The command of a packet that fits into one.
unfoldable pub whole_command : ℕ → Packet → Peer → Protocol
whole_command id k peer =
    let size = u16 k.data_length in
    let unreliable = (channel_at peer id).outgoing_unreliable_sequence_number in
    if not (flag_reliable k.flags) && flag_unsequenced_packet k.flags
    then data_command id (9 + 64) (Body.send_unsequenced 0 size)
    else if flag_reliable k.flags || leb 0xFFFF unreliable
    then data_command id (6 + 128) (Body.send_reliable size)
    else data_command id 7 (Body.send_unreliable 0 size)

-- `enet_peer_send`: `true` is the result 0, `false` is -1.
unfoldable pub send : ℕ → ℕ → Session → Bool × Session
send id p s =
    let k = packet_at s.host p in
    let command = whole_command id k s.peer in
    let whole =
      queue_outgoing_command command (some p) 0 k.data_length
        (record s { host = expect p 1 s.host }) in
    if not (is_connected s.peer.state)
      || leb s.peer.channel_count id
      || ltb s.host.maximum_packet_size k.data_length
    then (false, s)
    else if ltb (fragment_length s) k.data_length
    then send_fragments id p (fragment_length s) s
    else whole
