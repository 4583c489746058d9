-- ===== src/Handlers/Bounds.antt =====
-- What the handshake and the bandwidth messages (src/protocol.c) may set a peer's mtu, window and
-- session numbers to, whatever the other end sends.
use enet.Base.{ℕ, ◌≤◌, ◌<◌, ◌≡◌, ◌≢◌, ◌⊎◌, true, false, arith}
use enet.Wire.{
  Connect, VerifyConnect, minimum_mtu, maximum_mtu, minimum_window_size, maximum_window_size,
}
use enet.State.{Peer, Host, Session, is_live}
use enet.Handlers.Settings.{clamp_window, peer_window, handle_bandwidth_limit}
use enet.Handlers.Connect.{agree_mtu, next_session, own_window, accept_peer, verification, adopt}

-- The limits on windows and on the unit of transmission.
abbrev pub IsWindow : ℕ → Type 0
IsWindow n = (minimum_window_size ≤ n) × (n ≤ maximum_window_size)

abbrev pub IsMtu : ℕ → Type 0
IsMtu n = (minimum_mtu ≤ n) × (n ≤ maximum_mtu)

clamp_window-IsWindow : (n : ℕ) → IsWindow (clamp_window n)
unfolding clamp_window
clamp_window-IsWindow n = ground arith

pub peer_window-IsWindow : (a b : ℕ) → IsWindow (peer_window a b)
unfolding peer_window clamp_window
peer_window-IsWindow a b = ground arith

own_window-IsWindow : (a b : ℕ) → IsWindow (own_window a b)
unfolding own_window clamp_window
own_window-IsWindow a b = ground arith

agree_mtu_bounds : (own n : ℕ) → IsMtu own → IsMtu (agree_mtu own n) × (agree_mtu own n ≤ own)
unfolding agree_mtu
agree_mtu_bounds own n h = ground arith

next_session_bounds : (r c : ℕ) → (next_session r c < 4) × (next_session r c ≢ c)
unfolding next_session
next_session_bounds r c = ground arith

-- However the request of a connection is filled in, if the host's mtu is valid: the accepted peer
-- has a valid mtu not above the host's, a valid window, and two session numbers of two bits that
-- differ from those of the slot's last connection; the window that the answer names is valid too.
pub accept_peer_lem :
    (h : Host) (c : Connect) (channels : ℕ) (p : Peer)
    → IsMtu h.mtu
    → let q = accept_peer h c channels p in
      IsMtu q.mtu
      × (q.mtu ≤ h.mtu)
      × IsWindow q.window_size
      × (q.outgoing_session_id < 4)
      × (q.outgoing_session_id ≢ p.outgoing_session_id)
      × (q.incoming_session_id < 4)
      × (q.incoming_session_id ≢ p.incoming_session_id)
      × IsWindow (verification h c q).window_size
unfolding accept_peer verification
accept_peer_lem h c channels p m = (
  (agree_mtu_bounds h.mtu c.mtu m).0,
  (agree_mtu_bounds h.mtu c.mtu m).1,
  peer_window-IsWindow h.outgoing_bandwidth c.incoming_bandwidth,
  (next_session_bounds c.incoming_session_id p.outgoing_session_id).0,
  (next_session_bounds c.incoming_session_id p.outgoing_session_id).1,
  (next_session_bounds c.outgoing_session_id p.incoming_session_id).0,
  (next_session_bounds c.outgoing_session_id p.incoming_session_id).1,
  own_window-IsWindow h.incoming_bandwidth c.window_size,
)

-- However the answer to a connection request is filled in, for a peer whose mtu and window are
-- within their limits it neither raises the peer's mtu,
-- window or number of channels nor takes the mtu or the window out of their limits.
pub adopt_lem :
    (v : VerifyConnect) (p : Peer)
    → IsMtu p.mtu
    → IsWindow p.window_size
    → IsMtu (adopt v p).mtu
      × ((adopt v p).mtu ≤ p.mtu)
      × IsWindow (adopt v p).window_size
      × ((adopt v p).window_size ≤ p.window_size)
      × ((adopt v p).channel_count ≤ p.channel_count)
unfolding adopt
adopt_lem v p m w = (
  (agree_mtu_bounds p.mtu v.mtu m).0,
  (agree_mtu_bounds p.mtu v.mtu m).1,
  ground (arith, clamp_window-IsWindow v.window_size),
  ground arith,
  ground arith,
)

-- A bandwidth limit message is accepted, exactly from a peer that is connected, and leaves it a
-- window within the limits, or it is refused and changes nothing.
pub handle_bandwidth_limit_lem :
    (incoming outgoing : ℕ) (s : Session)
    → let (accepted, t) = handle_bandwidth_limit incoming outgoing s in
      (accepted ≡ is_live s.peer.state)
      × (((accepted ≡ true) × IsWindow t.peer.window_size) ⊎ ((accepted ≡ false) × (t ≡ s)))
unfolding handle_bandwidth_limit
handle_bandwidth_limit_lem incoming outgoing s =
    ground (arith, peer_window-IsWindow incoming s.host.outgoing_bandwidth)
