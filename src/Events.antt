-- ===== src/Events.antt =====
-- src/protocol.c: changes of a peer's state, and how the application is told of them.
-- The argument of type `Option Event` is the pointer `event`: `none` is NULL, and the event that
-- the application gets stands in the result.
use enet.Base.{
  ℕ, Bool, true, false, not, ◌&&◌, ◌||◌, [], ◌∷◌, ◌++◌, Option, none, some, ltb, leb, if◌then◌else◌,
}
use enet.State.{PeerState, Session, Event, is_live, code}
use enet.Lifecycle.{on_connect, on_disconnect, reset}
use enet.Disconnect.{set_state}

-- `enet_protocol_change_state`
unfoldable pub change_state : PeerState → Session → Session
change_state st s = set_state st (if is_live st then on_connect s else on_disconnect s)

-- `if (! (peer -> flags & ENET_PEER_FLAG_NEEDS_DISPATCH)) …`
unfoldable pub enter_dispatch_queue : Session → Session
enter_dispatch_queue s = if s.peer.needs_dispatch then s else record {
  host = record (s.host) {
    dispatch_queue = s.host.dispatch_queue ++ (s.peer.incoming_peer_id ∷ []);
  };
  peer = record (s.peer) { needs_dispatch = true };
}

-- `enet_protocol_dispatch_state`
unfoldable pub dispatch_state : PeerState → Session → Session
dispatch_state st s = enter_dispatch_queue (change_state st s)

abbrev pub recalculate : Bool → Session → Session
recalculate b s = record s {
  host = record (s.host) {
    recalculate_bandwidth_limits = b || s.host.recalculate_bandwidth_limits;
  };
}

abbrev pub set_event_data : ℕ → Session → Session
set_event_data n s = record s { peer = record (s.peer) { event_data = n } }

is_connecting : PeerState → Bool
is_connecting PeerState.connecting = true
is_connecting _ = false

-- `enet_protocol_notify_connect`
unfoldable pub notify_connect : Option Event → Session → Session × Option Event
unfolding is_connecting
notify_connect none s = (
  dispatch_state
      (if is_connecting s.peer.state
        then PeerState.connection_succeeded
        else PeerState.connection_pending)
      (recalculate true s),
  none,
)
notify_connect (some _) s =
    let s' = change_state PeerState.connected (recalculate true s) in
    (s', some (Event.connect s'.peer.incoming_peer_id s'.peer.event_data))

-- The test on the state that both notifications of a disconnection make: nobody knows the peer yet.
unfoldable pub is_unannounced : PeerState → Bool
unfolding is_connecting
is_unannounced st = not (is_connecting st) && ltb (code st) (code PeerState.connection_succeeded)

-- The common body of `enet_protocol_notify_disconnect` and `…_timeout`: they differ in the state
-- and in the event.
unfoldable pub notify_gone :
    PeerState → (ℕ → ℕ → Event) → Option Event → Session → Session × Option Event
notify_gone st tell event s =
    let s' = recalculate (leb (code PeerState.connection_pending) (code s.peer.state)) s in
    let told : Session × Option Event = elim event [
      | none ↦ (dispatch_state st (set_event_data 0 s'), none)
      | some _ ↦ (reset s', some (tell s.peer.incoming_peer_id 0))
    ] in
    if is_unannounced s.peer.state then (reset s', event) else told

-- `enet_protocol_notify_disconnect`
unfoldable pub notify_disconnect : Option Event → Session → Session × Option Event
notify_disconnect = notify_gone PeerState.zombie Event.disconnect

-- `enet_protocol_notify_disconnect_timeout`
unfoldable pub notify_disconnect_timeout : Option Event → Session → Session × Option Event
notify_disconnect_timeout = notify_gone PeerState.timedout Event.disconnect_timeout
