-- ===== src/Handlers/Leave.antt =====
-- `enet_protocol_handle_disconnect` of src/protocol.c.
use enet.Base.{ℕ, Bool, true, false, if◌then◌else◌}
use enet.Wire.{Protocol, flag_acknowledge}
use enet.State.{PeerState, Session, is_live}
use enet.Lifecycle.{reset, reset_queues}
use enet.Disconnect.{is_disconnected}
use enet.Events.{change_state, dispatch_state, recalculate, set_event_data}

-- The states in which the command is passed over.
unfoldable pub is_gone : PeerState → Bool
is_gone PeerState.disconnected = true
is_gone PeerState.zombie = true
is_gone PeerState.timedout = true
is_gone PeerState.acknowledging_disconnect = true
is_gone _ = false

-- The states whose peer the application still has to be told of, or is waiting for.
unfoldable pub is_awaited : PeerState → Bool
is_awaited PeerState.connection_succeeded = true
is_awaited PeerState.disconnecting = true
is_awaited PeerState.connecting = true
is_awaited _ = false

unfoldable pub is_pending : PeerState → Bool
is_pending PeerState.connection_pending = true
is_pending _ = false

-- The branches on the state, after the queues have been emptied.
unfoldable pub take_leave : Protocol → Session → Session
take_leave c s =
    if is_awaited s.peer.state
    then dispatch_state PeerState.zombie s
    else if is_live s.peer.state
    then (if flag_acknowledge c.command
        then change_state PeerState.acknowledging_disconnect s
        else dispatch_state PeerState.zombie s)
    else reset (recalculate (is_pending s.peer.state) s)

-- The reason is kept for the event that is still to come.
unfoldable pub keep_reason : ℕ → Session → Session
keep_reason reason s = if is_disconnected s.peer.state then s else set_event_data reason s

-- `enet_protocol_handle_disconnect`, which always returns 0.
unfoldable pub handle_disconnect : Protocol → ℕ → Session → Session
handle_disconnect c reason s =
    if is_gone s.peer.state then s else keep_reason reason (take_leave c (reset_queues s))
