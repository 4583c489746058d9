-- ===== src/Handlers/Data.antt =====
-- The handlers of src/protocol.c for whole data commands. `bytes` is what follows the command in
-- the datagram, up to its end.
use enet.Base.{
  ℕ, ◌+◌, ◌-◌, ◌*◌, ◌%◌, ◌^◌, Bool, true, false, not, ◌||◌, List, some, ltb, leb, ◌==◌,
  if◌then◌else◌, take, length, get_or, set, replicate,
}
use enet.Wire.{Protocol}
use enet.State.{Session, Peer, is_live, unsequenced_window_size}
use enet.Incoming.Queue.{Outcome, queue_incoming_command}

-- `ENET_PEER_FREE_UNSEQUENCED_WINDOWS`
abbrev pub free_unsequenced_windows : ℕ
free_unsequenced_windows = 32

-- The two tests at the start of each handler: on the channel and the state, and on the length.
unfoldable pub is_acceptable : Protocol → ℕ → List ℕ → Session → Bool
is_acceptable c size bytes s = not (
    leb s.peer.channel_count c.channel_id
    || not (is_live s.peer.state)
    || ltb s.host.maximum_packet_size size
    || ltb (length bytes) size)

-- Whether a command was queued or discarded: the result is not NULL.
unfoldable pub is_success : Outcome → Bool
is_success Outcome.failed = false
is_success _ = true

-- The bytes of the command go into a packet.
abbrev pub deliver : Protocol → ℕ → ℕ → List ℕ → Session → Outcome × Session
deliver c size flags bytes s = queue_incoming_command c (some (take size bytes)) size flags 0 s

-- `enet_protocol_handle_send_reliable`
unfoldable pub handle_send_reliable : Protocol → ℕ → List ℕ → Session → Bool × Session
handle_send_reliable c size bytes s =
    let (outcome, s') = deliver c size 1 bytes s in
    if is_acceptable c size bytes s then (is_success outcome, s') else (false, s)

-- `enet_protocol_handle_send_unreliable`
unfoldable pub handle_send_unreliable : Protocol → ℕ → List ℕ → Session → Bool × Session
handle_send_unreliable c size bytes s =
    let (outcome, s') = deliver c size 0 bytes s in
    if is_acceptable c size bytes s then (is_success outcome, s') else (false, s)

-- Whether a group lies too far ahead of the peer's, counted with the wrap of its sixteen bits.
unfoldable pub is_stale_group : ℕ → ℕ → Bool
is_stale_group current group =
    leb (current + free_unsequenced_windows * unsequenced_window_size)
      (if ltb group current then group + 2 ^ 16 else group)

-- A group of another window starts that window afresh.
unfoldable pub enter_window : ℕ → Peer → Peer
enter_window group p =
    let base = group - group % unsequenced_window_size in
    if base == p.incoming_unsequenced_group then p else record p {
      incoming_unsequenced_group = base;
      unsequenced_window = replicate unsequenced_window_size false;
    }

unfoldable pub mark_group : ℕ → Peer → Peer
mark_group group p = record p {
  unsequenced_window = set p.unsequenced_window (group % unsequenced_window_size) true;
}

-- `enet_protocol_handle_send_unsequenced`, of the command's group
unfoldable pub handle_send_unsequenced : Protocol → ℕ → ℕ → List ℕ → Session → Bool × Session
handle_send_unsequenced c group size bytes s =
    let entered = record s { peer = enter_window group s.peer } in
    let (outcome, s') = deliver c size 2 bytes entered in
    if not (is_acceptable c size bytes s)
    then (false, s)
    else if is_stale_group s.peer.incoming_unsequenced_group group
    then (true, s)
    else if get_or entered.peer.unsequenced_window (group % unsequenced_window_size) false
    then (true, s)
    else if is_success outcome
    then (true, record s' { peer = mark_group group s'.peer })
    else (false, s')
