-- ===== src/Hosting/Connect.antt =====
-- `enet_host_random`, `enet_host_connect` and `enet_host_broadcast` of src/host.c.
use Prim.Native.Nat.{bit_xor, bit_or}
use enet.Base.{
  ℕ, suc, ◌+◌, ◌*◌, ◌/◌, ◌^◌, Bool, true, false, List, [], ◌∷◌, Option, none, some, ltb, ◌==◌,
  if◌then◌else◌, u32, get_or, set, replicate,
}
use enet.Wire.{Connect, Body, minimum_channel_count, maximum_channel_count, maximum_window_size}
use enet.State.{Peer, PeerState, Host, Session, Address}
use enet.Packet.{malloc, packet_at, packet_destroy}
use enet.Outgoing.{new_channel, queue_outgoing_command, control, is_connected}
use enet.Disconnect.{is_disconnected}
use enet.Sending.{send}
use enet.Handlers.Settings.{clamp_window, window_for}

-- `enet_host_random`, on 32 bits
unfoldable pub random : Host → ℕ × Host
random h =
    let seed = u32 (h.random_seed + 0x6D2B79F5) in
    let n = u32 (bit_xor seed (seed / 2 ^ 15) * bit_or seed 1) in
    let m = bit_xor n (u32 (n + u32 (bit_xor n (n / 2 ^ 7) * bit_or n 61))) in
    (bit_xor m (m / 2 ^ 14), record h { random_seed = seed })

-- The place of the first peer that is free.
unfoldable pub free_peer : List Peer → Option ℕ
free_peer [] = none
free_peer (p ∷ ps) =
    let later : Option ℕ = elim (free_peer ps) [ none ↦ none | some i ↦ some (suc i) ] in
    if is_disconnected p.state then some 0 else later

-- What the free peer becomes, its channels allocated.
unfoldable pub start_peer : Host → Address → ℕ → ℕ → Peer → Peer
start_peer h address channels id p = record p {
  channels = replicate channels new_channel;
  channel_count = channels;
  state = PeerState.connecting;
  address = address;
  connect_id = id;
  mtu = h.mtu;
  window_size =
      clamp_window (
        if h.outgoing_bandwidth == 0 then maximum_window_size else window_for h.outgoing_bandwidth);
}

-- The request that the peer sends.
unfoldable pub connect_request : Host → ℕ → Peer → Connect
connect_request h user_data p = record {
  outgoing_peer_id = p.incoming_peer_id;
  incoming_session_id = p.incoming_session_id;
  outgoing_session_id = p.outgoing_session_id;
  mtu = p.mtu;
  window_size = p.window_size;
  channel_count = p.channel_count;
  incoming_bandwidth = h.incoming_bandwidth;
  outgoing_bandwidth = h.outgoing_bandwidth;
  packet_throttle_interval = p.packet_throttle_interval;
  packet_throttle_acceleration = p.packet_throttle_acceleration;
  packet_throttle_deceleration = p.packet_throttle_deceleration;
  connect_id = p.connect_id;
  user_data = user_data;
}

unfoldable pub limit_channels : ℕ → ℕ
limit_channels n =
    if ltb n minimum_channel_count
    then minimum_channel_count
    else if ltb maximum_channel_count n
    then maximum_channel_count
    else n

-- `enet_host_connect` once a peer is chosen: `false` if its channels cannot be allocated. The
-- result of queueing the request is not looked at.
unfoldable pub begin_connect : Address → ℕ → ℕ → Session → Bool × Session
begin_connect address channels user_data s =
    let (allocated, h) = malloc s.host in
    let (id, h') = random h in
    let p = start_peer h' address channels id s.peer in
    if allocated
    then (
      true,
      (queue_outgoing_command (control (2 + 128) (Body.connect (connect_request h' user_data p)))
          none 0 0 (record { host = h'; peer = p })).1,
    )
    else (false, record s { host = h })

-- `enet_host_connect`: the place of the peer, `none` for NULL, the host and its peers. `nobody`
-- stands for a peer past the array, which is never read.
unfoldable pub connect : Peer → Address → ℕ → ℕ → Host → List Peer → Option ℕ × Host × List Peer
connect nobody address channels user_data h peers = elim (free_peer peers) [
  | none ↦ (none, h, peers)
  | some i ↦
      let (started, s) =
        begin_connect address (limit_channels channels) user_data
          (record { host = h; peer = get_or peers i nobody }) in
      if started then (some i, s.host, set peers i s.peer) else (none, s.host, peers)
]

-- The loop of `enet_host_broadcast`: the results of the sends are not looked at.
unfoldable pub send_all : ℕ → ℕ → Host → List Peer → Host × List Peer
send_all id p h [] = (h, [])
send_all id p h (peer ∷ peers) =
    let s = (send id p (record { host = h; peer = peer })).1 in
    let (h₁, passed) = send_all id p h peers in
    let (h₂, sent) = send_all id p s.host peers in
    if is_connected peer.state then (h₂, s.peer ∷ sent) else (h₁, peer ∷ passed)

-- `enet_host_broadcast`: a packet that nothing refers to afterwards is destroyed.
unfoldable pub broadcast : ℕ → ℕ → Host → List Peer → Host × List Peer
broadcast id p h peers =
    let (h', sent) = send_all id p h peers in
    if (packet_at h' p).reference_count == 0 then (packet_destroy p h', sent) else (h', sent)
