-- ===== src/Disconnect.antt =====
-- src/peer.c: the three ways in which the application disconnects a peer.
-- The session's flush, `enet_host_flush` of src/protocol.c, is an argument: it services every peer.
use enet.Base.{ℕ, ◌+◌, Bool, true, false, ◌&&◌, none, if◌then◌else◌}
use enet.Wire.{Body}
use enet.State.{PeerState, Session, is_live}
use enet.Lifecycle.{reset, reset_queues, on_disconnect, has_outgoing_commands, with_peer}
use enet.Outgoing.{queue_outgoing_command, control}

-- The states in which `enet_peer_disconnect` returns at once.
unfoldable pub is_leaving : PeerState → Bool
is_leaving PeerState.disconnecting = true
is_leaving PeerState.disconnected = true
is_leaving PeerState.acknowledging_disconnect = true
is_leaving PeerState.zombie = true
is_leaving _ = false

-- The states in which `enet_peer_disconnect_now` sends no command.
unfoldable pub is_silent : PeerState → Bool
is_silent PeerState.zombie = true
is_silent PeerState.timedout = true
is_silent PeerState.disconnecting = true
is_silent _ = false

unfoldable pub is_disconnected : PeerState → Bool
is_disconnected PeerState.disconnected = true
is_disconnected _ = false

abbrev pub set_state : PeerState → Session → Session
set_state st s = record s { peer = record (s.peer) { state = st } }

module _ (flush : Session → Session) where
  -- `enet_peer_disconnect_now`
  unfoldable pub disconnect_now : ℕ → Session → Session
  disconnect_now reason s =
      if is_disconnected s.peer.state
      then s
      else if is_silent s.peer.state
      then reset s
      else reset (
          flush
            (queue_outgoing_command (control (4 + 64) (Body.disconnect reason)) none 0 0
              (reset_queues s)).1)

  -- `enet_peer_disconnect`
  unfoldable pub disconnect : ℕ → Session → Session
  disconnect reason s =
      let number : ℕ = if is_live s.peer.state then 4 + 128 else 4 + 64 in
      let queued =
        (queue_outgoing_command (control number (Body.disconnect reason)) none 0 0
          (reset_queues s)).1 in
      if is_leaving s.peer.state
      then s
      else if is_live s.peer.state
      then set_state PeerState.disconnecting (on_disconnect queued)
      else reset (flush queued)

  -- `enet_peer_disconnect_later`
  unfoldable pub disconnect_later : ℕ → Session → Session
  disconnect_later reason s =
      if is_live s.peer.state && has_outgoing_commands s.peer
      then with_peer s (record (s.peer) { state = PeerState.disconnect_later; event_data = reason })
      else disconnect reason s
