-- ===== src/Handlers/Connect.antt =====
-- `enet_protocol_handle_connect` and `enet_protocol_handle_verify_connect` of src/protocol.c: the
-- two ends of the handshake.
use enet.Base.{
  ℕ, ◌+◌, ◌%◌, Bool, true, false, not, ◌&&◌, List, [], ◌∷◌, Option, none, some, ltb, leb, ◌==◌,
  if◌then◌else◌, get_or, set, replicate,
}
use enet.Wire.{
  Connect, VerifyConnect, Body, minimum_mtu, maximum_mtu, minimum_channel_count,
  maximum_channel_count, maximum_window_size,
}
use enet.State.{Peer, PeerState, Host, Session, Event, Address}
use enet.Address.{equal_host}
use enet.Packet.{malloc}
use enet.Lifecycle.{with_peer}
use enet.Outgoing.{queue_outgoing_command, control, new_channel}
use enet.Disconnect.{is_disconnected}
use enet.Events.{dispatch_state, notify_connect, set_event_data}
use enet.Handlers.Settings.{clamp_window, peer_window, window_for}
use enet.Handlers.Sent.{remove_sent_reliable_command}

-- Held between `ENET_PROTOCOL_MINIMUM_MTU` and `ENET_PROTOCOL_MAXIMUM_MTU`, and not above `own`.
unfoldable pub agree_mtu : ℕ → ℕ → ℕ
agree_mtu own n =
    let m =
      if ltb n minimum_mtu then minimum_mtu else if ltb maximum_mtu n then maximum_mtu else n in
    if ltb m own then m else own

unfoldable pub valid_channel_count : ℕ → Bool
valid_channel_count n = leb minimum_channel_count n && leb n maximum_channel_count

-- The next session number: of two bits, and not the one in use.
unfoldable pub next_session : ℕ → ℕ → ℕ
next_session received current =
    let n = ((if received == 0xFF then current else received) + 1) % 4 in
    if n == current then (n + 1) % 4 else n

is_connecting_peer : PeerState → Bool
is_connecting_peer PeerState.connecting = true
is_connecting_peer _ = false

-- The walk over the peers, from the index `i`: `none` if the connection exists already, otherwise
-- the first free peer (`free` is the one found so far) and the number of peers at the address.
unfoldable pub survey : Address → ℕ → List Peer → ℕ → Option ℕ → ℕ → Option (Option ℕ × ℕ)
unfolding is_connecting_peer
survey from id [] i free duplicates = some (free, duplicates)
survey from id (p ∷ ps) i free duplicates =
    let found : Option ℕ = elim free [ none ↦ some i | some j ↦ some j ] in
    let same = not (is_connecting_peer p.state) && equal_host p.address from in
    let on_free = survey from id ps (i + 1) found duplicates in
    let on_same = survey from id ps (i + 1) free (duplicates + 1) in
    let on_other = survey from id ps (i + 1) free duplicates in
    if is_disconnected p.state
    then on_free
    else if same
    then (if p.address.port == from.port && p.connect_id == id then none else on_same)
    else on_other

-- The window that the peer is told to use: what it asked for, within the host's bandwidth.
unfoldable pub own_window : ℕ → ℕ → ℕ
own_window bandwidth asked =
    let n = if bandwidth == 0 then maximum_window_size else window_for bandwidth in
    clamp_window (if ltb asked n then asked else n)

-- What the chosen peer becomes, its channels allocated.
unfoldable pub accept_peer : Host → Connect → ℕ → Peer → Peer
accept_peer h c channels p = record p {
  channels = replicate channels new_channel;
  channel_count = channels;
  state = PeerState.acknowledging_connect;
  connect_id = c.connect_id;
  address = h.received_address;
  mtu = agree_mtu h.mtu c.mtu;
  outgoing_peer_id = c.outgoing_peer_id;
  incoming_bandwidth = c.incoming_bandwidth;
  outgoing_bandwidth = c.outgoing_bandwidth;
  packet_throttle_interval = c.packet_throttle_interval;
  packet_throttle_acceleration = c.packet_throttle_acceleration;
  packet_throttle_deceleration = c.packet_throttle_deceleration;
  event_data = c.user_data;
  outgoing_session_id = next_session c.incoming_session_id p.outgoing_session_id;
  incoming_session_id = next_session c.outgoing_session_id p.incoming_session_id;
  window_size = peer_window h.outgoing_bandwidth c.incoming_bandwidth;
}

-- The answer to the peer.
unfoldable pub verification : Host → Connect → Peer → VerifyConnect
verification h c p = record {
  outgoing_peer_id = p.incoming_peer_id;
  incoming_session_id = p.outgoing_session_id;
  outgoing_session_id = p.incoming_session_id;
  mtu = p.mtu;
  window_size = own_window h.incoming_bandwidth c.window_size;
  channel_count = p.channel_count;
  incoming_bandwidth = h.incoming_bandwidth;
  outgoing_bandwidth = h.outgoing_bandwidth;
  packet_throttle_interval = p.packet_throttle_interval;
  packet_throttle_acceleration = p.packet_throttle_acceleration;
  packet_throttle_deceleration = p.packet_throttle_deceleration;
  connect_id = p.connect_id;
}

-- The handler once a free peer has been chosen: `false` if its channels cannot be allocated.
unfoldable pub accept : Connect → Session → Bool × Session
accept c s =
    let (allocated, h) = malloc s.host in
    let limited =
      if ltb h.channel_limit c.channel_count then h.channel_limit else c.channel_count in
    let p = accept_peer h c limited s.peer in
    if allocated
    then (
      true,
      (queue_outgoing_command (control (3 + 128) (Body.verify_connect (verification h c p))) none 0
          0 (record { host = h; peer = p })).1,
    )
    else (false, record s { host = h })

-- `enet_protocol_handle_connect` over the host's peers: the index of the accepted peer (`none` is
-- NULL), the host and the peers. `nobody` stands for a peer past the array, which is never read.
unfoldable pub handle_connect : Peer → Connect → Host → List Peer → Option ℕ × Host × List Peer
handle_connect nobody c h peers =
    let refused : Option ℕ × Host × List Peer = (none, h, peers) in
    if not (valid_channel_count c.channel_count)
    then refused
    else elim (survey h.received_address c.connect_id peers 0 none 0) [
      | none ↦ refused
      | some (none, duplicates) ↦ refused
      | some (some i, duplicates) ↦
          let (accepted, s) = accept c (record { host = h; peer = get_or peers i nobody }) in
          if leb h.duplicate_peers duplicates
          then refused
          else if accepted
          then (some i, s.host, set peers i s.peer)
          else (none, s.host, peers)
    ]

-- Whether the answer fits the request that the peer sent.
unfoldable pub verifies : VerifyConnect → Peer → Bool
verifies v p =
    valid_channel_count v.channel_count
    && v.packet_throttle_interval == p.packet_throttle_interval
    && v.packet_throttle_acceleration == p.packet_throttle_acceleration
    && v.packet_throttle_deceleration == p.packet_throttle_deceleration
    && v.connect_id == p.connect_id

-- What the peer takes over from the answer.
unfoldable pub adopt : VerifyConnect → Peer → Peer
adopt v p =
    let window = clamp_window v.window_size in
    record p {
      channel_count =
          if ltb v.channel_count p.channel_count then v.channel_count else p.channel_count;
      outgoing_peer_id = v.outgoing_peer_id;
      incoming_session_id = v.incoming_session_id;
      outgoing_session_id = v.outgoing_session_id;
      mtu = agree_mtu p.mtu v.mtu;
      window_size = if ltb window p.window_size then window else p.window_size;
      incoming_bandwidth = v.incoming_bandwidth;
      outgoing_bandwidth = v.outgoing_bandwidth;
    }

-- `enet_protocol_handle_verify_connect`
unfoldable pub handle_verify_connect :
    VerifyConnect → Option Event → Session → Bool × Session × Option Event
unfolding is_connecting_peer
handle_verify_connect v event s =
    let found = (remove_sent_reliable_command 1 0xFF s).1 in
    let (s', event') = notify_connect event (with_peer found (adopt v found.peer)) in
    if not (is_connecting_peer s.peer.state)
    then (true, s, event)
    else if verifies v s.peer
    then (true, s', event')
    else (false, dispatch_state PeerState.zombie (set_event_data 0 s), event)
