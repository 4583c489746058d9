-- ===== src/Accounting/Steps.antt =====
-- Each change of a peer's state in src/peer.c and src/protocol.c keeps the host's counts right.
use enet.Base.{
  ℕ, ◌+◌, ◌≡◌, ◌⊎◌, refl, Bool, true, false, Option, none, some, if◌then◌else◌, arith, Bool-cases,
  inl, inr, leb,
}
use enet.Wire.{Protocol, Body, flag_acknowledge}
use enet.State.{PeerState, Session, Event, is_live, code}
use enet.Lifecycle.{
  on_connect, on_disconnect, reset, reset_queues, reset_fields, with_peer, has_outgoing_commands,
}
use enet.Outgoing.{queue_outgoing_command, control}
use enet.Disconnect.{disconnect, disconnect_later, set_state, is_leaving, is_disconnected}
use enet.Events.{
  change_state, dispatch_state, enter_dispatch_queue, notify_connect, notify_gone, recalculate,
  set_event_data, is_unannounced,
}
use enet.Handlers.Settings.{handle_bandwidth_limit}
use enet.Handlers.Leave.{
  handle_disconnect, take_leave, keep_reason, is_gone, is_awaited, is_pending,
}
use enet.Accounting.Frame.{
  IsCounted, Quiet-IsCounted, reset_queues-Quiet, queue_outgoing_command-Quiet,
}

live-stays : (st : PeerState) → is_live st ≡ true → is_leaving st ≡ false
unfolding is_leaving
live-stays PeerState.connected e = refl
live-stays PeerState.disconnect_later e = refl
live-stays _ e = cc

module _ {n m : ℕ} where
  -- `enet_protocol_change_state` keeps the host's counts of connected and of bandwidth-limited
  -- peers right, whatever the two states, if they were and count fewer than 4096 other peers.
  pub change_state-IsCounted :
      (st : PeerState) (s : Session) → IsCounted n m s → IsCounted n m (change_state st s)
  unfolding change_state on_connect on_disconnect
  change_state-IsCounted PeerState.connected s v = ground arith
  change_state-IsCounted PeerState.disconnect_later s v = ground arith
  change_state-IsCounted _ s v = ground arith

  enter_dispatch_queue-IsCounted :
      (s : Session) → IsCounted n m s → IsCounted n m (enter_dispatch_queue s)
  unfolding enter_dispatch_queue
  enter_dispatch_queue-IsCounted s v = ground arith

  pub dispatch_state-IsCounted :
      (st : PeerState) (s : Session) → IsCounted n m s → IsCounted n m (dispatch_state st s)
  unfolding dispatch_state
  dispatch_state-IsCounted st s v =
      enter_dispatch_queue-IsCounted (change_state st s) (change_state-IsCounted st s v)

  reset_fields-IsCounted :
      (s : Session)
      → IsCounted n m s
      → IsCounted n m (with_peer (on_disconnect s) (reset_fields (on_disconnect s)))
  unfolding on_disconnect reset_fields
  reset_fields-IsCounted s v = ground arith

  -- `enet_peer_reset` keeps the host's counts right, with fewer than 4096 other peers counted,
  -- whatever the peer's state was.
  pub reset-IsCounted : (s : Session) → IsCounted n m s → IsCounted n m (reset s)
  unfolding reset
  reset-IsCounted s v =
      let t = with_peer (on_disconnect s) (reset_fields (on_disconnect s)) in
      Quiet-IsCounted t (reset_queues t) (reset_queues-Quiet t) (reset_fields-IsCounted s v)

  recalculate-IsCounted :
      (b : Bool) (s : Session) → IsCounted n m s → IsCounted n m (recalculate b s)
  recalculate-IsCounted b s v = ground arith

  set_event_data-IsCounted :
      (k : ℕ) (s : Session) → IsCounted n m s → IsCounted n m (set_event_data k s)
  set_event_data-IsCounted k s v = ground arith

  -- `enet_protocol_notify_connect` keeps the host's counts right, with fewer than 4096 other peers
  -- counted, with an event or without.
  pub notify_connect-IsCounted :
      (event : Option Event) (s : Session)
      → IsCounted n m s
      → IsCounted n m (notify_connect event s).0
  unfolding notify_connect
  notify_connect-IsCounted none s v =
      dispatch_state-IsCounted _ (recalculate true s) (recalculate-IsCounted true s v)
  notify_connect-IsCounted (some e) s v =
      change_state-IsCounted PeerState.connected (recalculate true s)
        (recalculate-IsCounted true s v)

  -- The notifications of a disconnection and of a timeout keep the host's counts right, with fewer
  -- than 4096 other peers counted, with an event or without.
  pub notify_gone-IsCounted :
      (st : PeerState) (tell : ℕ → ℕ → Event) (event : Option Event) (s : Session)
      → IsCounted n m s
      → IsCounted n m (notify_gone st tell event s).0
  unfolding notify_gone
  notify_gone-IsCounted st tell none s v =
      let b = leb (code PeerState.connection_pending) (code s.peer.state) in
      let w = recalculate-IsCounted b s v in
      elim (Bool-cases (is_unannounced s.peer.state)) [
        | inl u ↦ rw u (reset-IsCounted (recalculate b s) w)
        | inr u ↦ rw u (
            dispatch_state-IsCounted st (set_event_data 0 (recalculate b s))
              (set_event_data-IsCounted 0 (recalculate b s) w))
      ]
  notify_gone-IsCounted st tell (some e) s v =
      let b = leb (code PeerState.connection_pending) (code s.peer.state) in
      let w = reset-IsCounted (recalculate b s) (recalculate-IsCounted b s v) in
      elim (Bool-cases (is_unannounced s.peer.state)) [ inl u ↦ rw u w | inr u ↦ rw u w ]

  -- `enet_protocol_handle_bandwidth_limit` keeps the host's counts right, with fewer than 4096
  -- other peers counted, accepted or refused.
  pub handle_bandwidth_limit-IsCounted :
      (incoming outgoing : ℕ) (s : Session)
      → IsCounted n m s
      → IsCounted n m (handle_bandwidth_limit incoming outgoing s).1
  unfolding handle_bandwidth_limit
  handle_bandwidth_limit-IsCounted incoming outgoing s v = ground arith

  queued-IsCounted :
      (number : ℕ) (reason : ℕ) (s : Session)
      → IsCounted n m s
      → IsCounted n m
          (queue_outgoing_command
            (control number (Body.disconnect reason))
            none
            0
            0
            (reset_queues s)).1
  queued-IsCounted number reason s v =
      Quiet-IsCounted (reset_queues s) _
        (queue_outgoing_command-Quiet (control number (Body.disconnect reason)) none 0 0
          (reset_queues s))
        (Quiet-IsCounted s (reset_queues s) (reset_queues-Quiet s) v)

  leave-IsCounted :
      (s : Session)
      → IsCounted n m s
      → IsCounted n m (set_state PeerState.disconnecting (on_disconnect s))
  unfolding on_disconnect
  leave-IsCounted s v = ground arith

  if-IsCounted :
      (b : Bool) (s t : Session)
      → IsCounted n m s
      → IsCounted n m t
      → IsCounted n m (if b then s else t)
  if-IsCounted true s t v w = v
  if-IsCounted false s t v w = w

  take_leave-IsCounted :
      (c : Protocol) (s : Session) → IsCounted n m s → IsCounted n m (take_leave c s)
  unfolding take_leave
  take_leave-IsCounted c s v =
      let zombie = dispatch_state-IsCounted PeerState.zombie s v in
      let told = change_state-IsCounted PeerState.acknowledging_disconnect s v in
      let b = is_pending s.peer.state in
      if-IsCounted (is_awaited s.peer.state) _ _ zombie (
        if-IsCounted (is_live s.peer.state) _ _
          (if-IsCounted (flag_acknowledge c.command) _ _ told zombie)
          (reset-IsCounted (recalculate b s) (recalculate-IsCounted b s v)))

  keep_reason-IsCounted :
      (reason : ℕ) (s : Session) → IsCounted n m s → IsCounted n m (keep_reason reason s)
  unfolding keep_reason
  keep_reason-IsCounted reason s v =
      if-IsCounted (is_disconnected s.peer.state) _ _ v (set_event_data-IsCounted reason s v)

  -- `enet_protocol_handle_disconnect` keeps the host's counts right, with fewer than 4096 other
  -- peers counted, in every state of the peer.
  pub handle_disconnect-IsCounted :
      (c : Protocol) (reason : ℕ) (s : Session)
      → IsCounted n m s
      → IsCounted n m (handle_disconnect c reason s)
  unfolding handle_disconnect
  handle_disconnect-IsCounted c reason s v = if-IsCounted (is_gone s.peer.state) _ _ v (
      keep_reason-IsCounted reason _
        (take_leave-IsCounted c _ (Quiet-IsCounted s (reset_queues s) (reset_queues-Quiet s) v)))

  left :
      (reason : ℕ) (s : Session)
      → is_live s.peer.state ≡ true
      → IsCounted n m s
      → let q =
          (queue_outgoing_command
            (control (4 + 128) (Body.disconnect reason))
            none
            0
            0
            (reset_queues s)).1 in
        let t = set_state PeerState.disconnecting (on_disconnect q) in
        IsCounted n m t
        × (t.peer.state ≡ PeerState.disconnecting)
        × (t.host.connected_peers ≡ n)
        × (t.host.bandwidth_limited_peers ≡ m)
  left reason s l v =
      let w = leave-IsCounted _ (queued-IsCounted (4 + 128) reason s v) in
      (w, refl, ground (arith, w), ground (arith, w))

  -- The application disconnects a connected peer, one in the state `connected` or `disconnect_later`,
  -- where the host counts its connected and its bandwidth-limited peers right, fewer than 4096 of
  -- them others. `enet_peer_disconnect` takes the peer out of both counts, whatever a flush of the
  -- host would do, and leaves it disconnecting. `enet_peer_disconnect_later` does the same if nothing
  -- is left to send to the peer; otherwise the peer stays counted, is to be disconnected later, and
  -- keeps the reason.
  pub disconnect_live-IsCounted :
      (flush : Session → Session) (reason : ℕ) (s : Session)
      → is_live s.peer.state ≡ true
      → IsCounted n m s
      → let t = disconnect flush reason s in
        let u = disconnect_later flush reason s in
        (IsCounted n m t
          × (t.peer.state ≡ PeerState.disconnecting)
          × (t.host.connected_peers ≡ n)
          × (t.host.bandwidth_limited_peers ≡ m))
        × (((has_outgoing_commands s.peer ≡ false) × (u ≡ t))
            ⊎ ((has_outgoing_commands s.peer ≡ true)
                × IsCounted n m u
                × (u.peer.state ≡ PeerState.disconnect_later)
                × (u.peer.event_data ≡ reason)
                × (u.host.connected_peers ≡ n + 1)))
  unfolding disconnect disconnect_later
  disconnect_live-IsCounted flush reason s l v =
      let not_leaving : is_leaving s.peer.state ≡ false = live-stays s.peer.state l in
      (
        rw (not_leaving, disconnect) (rw l (left reason s l v)),
        elim (Bool-cases (has_outgoing_commands s.peer)) [
          | inr e ↦ inl (e, rw (l, disconnect_later) (rw e refl))
          | inl e ↦
              rw (l, disconnect_later)
                (rw e (inr (refl, ground arith, refl, refl, ground (arith, v))))
        ],
      )
