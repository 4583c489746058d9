-- ===== src/Incoming/Queue.antt =====
-- `enet_peer_queue_incoming_command` and `enet_peer_receive` of src/peer.c.
use enet.Base.{
  ℕ, Bool, true, false, not, ◌&&◌, ◌||◌, List, [], ◌∷◌, Option, none, some, ltb, leb, ◌==◌,
  if◌then◌else◌, u16, add64, sub64, replicate, min,
}
use enet.Wire.{Protocol, Kind, kind, unreliable_sequence_number, maximum_fragment_count}
use enet.State.{PeerState, Host, Session, Channel, IncomingCommand}
use enet.Packet.{malloc, packet_create, packet_destroy, packet_at, set_packet, take_block}
use enet.Outgoing.{channel_at, set_channel}
use enet.Incoming.Search.{
  outside_window, judge_reliable, judge_unreliable, Place, front, duplicate, placed, search_back,
}
use enet.Incoming.Dispatch.{dispatch_reliable, dispatch_unreliable}

-- The result: the dummy command, NULL, or the queued command.
pub data Outcome : Type 0 where
  discarded failed : Outcome
  queued : IncomingCommand → Outcome

-- Where a command of this kind goes: the reliable queue, the unreliable one or its end.
pub data Route : Type 0 where
  reliable unreliable unsequenced nowhere : Route

unfoldable pub route : Kind → Route
route Kind.send_fragment = Route.reliable
route Kind.send_reliable = Route.reliable
route Kind.send_unreliable = Route.unreliable
route Kind.send_unreliable_fragment = Route.unreliable
route Kind.send_unsequenced = Route.unsequenced
route _ = Route.nowhere

-- The queue with the new command in its place: `none` where it is to be discarded.
finish_search : IncomingCommand → List IncomingCommand → Place → Option (List IncomingCommand)
finish_search new queue front = some (new ∷ queue)
finish_search new queue duplicate = none
finish_search new queue (placed l) = some l

-- The reliable queue with the command, unless it is the channel's current one or a duplicate.
unfoldable pub insert_reliable : Channel → IncomingCommand → Option Channel
unfolding finish_search
insert_reliable c new =
    let current = c.incoming_reliable_sequence_number in
    let judge = λ (o : IncomingCommand).
      judge_reliable current new.reliable_sequence_number o.reliable_sequence_number in
    let found =
      finish_search new c.incoming_reliable_commands
        (search_back judge new c.incoming_reliable_commands) in
    if new.reliable_sequence_number == current
    then none
    else elim found [ none ↦ none | some l ↦ some (record c { incoming_reliable_commands = l }) ]

-- The unreliable queue with the command, unless its number has passed or is a duplicate.
unfoldable pub insert_unreliable : Channel → IncomingCommand → Option Channel
unfolding finish_search
insert_unreliable c new =
    let current = c.incoming_reliable_sequence_number in
    let judge = λ (o : IncomingCommand).
      judge_unreliable current new.reliable_sequence_number new.unreliable_sequence_number
        o.reliable_sequence_number o.unreliable_sequence_number in
    let found =
      finish_search new c.incoming_unreliable_commands
        (search_back judge new c.incoming_unreliable_commands) in
    if new.reliable_sequence_number == current
      && leb new.unreliable_sequence_number c.incoming_unreliable_sequence_number
    then none
    else elim found [ none ↦ none | some l ↦ some (record c { incoming_unreliable_commands = l }) ]

-- An unsequenced command is inserted behind the end mark: at the front of the queue.
unfoldable pub insert : Route → Channel → IncomingCommand → Option Channel
insert Route.reliable c new = insert_reliable c new
insert Route.unreliable c new = insert_unreliable c new
insert Route.unsequenced c new =
    some (record c { incoming_unreliable_commands = new ∷ c.incoming_unreliable_commands })
insert Route.nowhere c new = none

is_ending : PeerState → Bool
is_ending PeerState.disconnect_later = true
is_ending _ = false

is_sequenced : Route → Bool
is_sequenced Route.unsequenced = false
is_sequenced _ = true

-- The new command's own fields; those of its memory are set once that is allocated.
unfoldable pub new_incoming : Protocol → Route → ℕ → IncomingCommand
new_incoming c r fragment_count = record {
  block = 0;
  reliable_sequence_number = c.reliable_sequence_number;
  unreliable_sequence_number = number r;
  command = c;
  fragment_count = fragment_count;
  fragments_remaining = fragment_count;
  fragments = none;
  packet = none;
}
  where
    number : Route → ℕ
    number Route.unreliable = u16 (unreliable_sequence_number c.body)
    number _ = 0

-- A packet, the number of the command's own memory and the bit set of its fragments.
abbrev pub Memory : Type 0
Memory = ℕ × ℕ × Option (List Bool)

-- The memory of the command once it has its packet: itself and its bit set. `none` is an allocation
-- that failed, at which the packet is destroyed.
obtain_command : ℕ → ℕ → Host → Option Memory × Host
unfolding malloc packet_destroy
obtain_command fragment_count p h =
    let (command_ok, h₁) = malloc h in
    let (fragments_ok, h₂) = malloc h₁ in
    let plain = take_block h₁ in
    let fragmented = take_block h₂ in
    if not command_ok
    then (none, packet_destroy p h₁)
    else if fragment_count == 0
    then (some (p, plain.0, none), plain.1)
    else if ltb maximum_fragment_count fragment_count
    then (none, packet_destroy p h₁)
    else if not fragments_ok
    then (none, packet_destroy p h₂)
    else (some (p, fragmented.0, some (replicate fragment_count false)), fragmented.1)

-- The packet first; `none` is an allocation that failed.
unfoldable pub obtain : Option (List ℕ) → ℕ → ℕ → ℕ → Host → Option Memory × Host
unfolding obtain_command
obtain bytes size flags fragment_count h =
    let (packet, h') = packet_create bytes size flags h in
    elim packet [ none ↦ (none, h') | some p ↦ obtain_command fragment_count p h' ]

-- The last part: the command is in its queue, and what has become ready is dispatched.
unfoldable pub settle : ℕ → Route → IncomingCommand → ℕ → Channel → Session → Session
settle id r new p c s =
    let k = packet_at s.host p in
    let s' : Session = record {
      host = set_packet s.host p (record k { reference_count = add64 k.reference_count 1 });
      peer = record (set_channel s.peer id c) {
        total_waiting_data = add64 s.peer.total_waiting_data k.data_length;
      };
    } in
    elim r [
      | Route.reliable ↦ dispatch_reliable id (some new.block) s'
      | _ ↦ dispatch_unreliable id (some new.block) s'
    ]

-- `goto discardCommand`: an error for a fragment.
abbrev discard_as : ℕ → Outcome
discard_as fragment_count = if fragment_count == 0 then Outcome.discarded else Outcome.failed

-- The command with the memory that it was given.
abbrev pub equip : IncomingCommand → Memory → IncomingCommand
equip new m = record new { block = m.1; fragments = m.2; packet = some m.0 }

-- The part after the search: the limit on waiting data, the memory, and the place in the queue
-- that the search has found.
unfoldable pub admit :
    ℕ → Route → IncomingCommand → Option (List ℕ) → ℕ → ℕ → Session → Outcome × Session
admit id r new bytes size flags s =
    let (memory, h) = obtain bytes size flags new.fragment_count s.host in
    let channel = channel_at s.peer id in
    let given : Outcome × Session = elim memory [
      | none ↦ (Outcome.failed, record s { host = h })
      | some m ↦ elim (insert r channel (equip new m)) [
        | none ↦ (discard_as new.fragment_count, s)
        | some channel' ↦ (
          Outcome.queued (equip new m),
          settle id r (equip new m) m.0 channel' (record s { host = h }),
        )
      ]
    ] in
    if leb s.host.maximum_waiting_data s.peer.total_waiting_data then (Outcome.failed, s) else given

-- `enet_peer_queue_incoming_command`
unfoldable pub queue_incoming_command :
    Protocol → Option (List ℕ) → ℕ → ℕ → ℕ → Session → Outcome × Session
unfolding is_ending is_sequenced
queue_incoming_command c bytes size flags fragment_count s =
    let channel = channel_at s.peer c.channel_id in
    let r = route (kind c.command) in
    let new = new_incoming c r fragment_count in
    let current = channel.incoming_reliable_sequence_number in
    let discarded : Outcome × Session = (discard_as fragment_count, s) in
    if is_ending s.peer.state
      || (is_sequenced r && outside_window current c.reliable_sequence_number)
    then discarded
    else elim (insert r channel new) [
      | none ↦ discarded
      | some _ ↦ admit c.channel_id r new bytes size flags s
    ]

-- `enet_peer_receive`: the packet and its channel, `none` if nothing is waiting.
unfoldable pub receive : Session → Option (Option ℕ × ℕ) × Session
receive s = elim s.peer.dispatched_commands [
  | [] ↦ (none, s)
  | c ∷ cs ↦
      let s' = record s { peer = record (s.peer) { dispatched_commands = cs } } in
      (some (c.packet, c.command.channel_id), hand_out c.packet s')
]
  where
    hand_out : Option ℕ → Session → Session
    hand_out none t = t
    hand_out (some p) t =
        let k = packet_at t.host p in
        record {
          host = set_packet t.host p (record k { reference_count = sub64 k.reference_count 1 });
          peer = record (t.peer) {
            total_waiting_data =
                sub64 t.peer.total_waiting_data (min t.peer.total_waiting_data k.data_length);
          };
        }
