-- ===== src/Transmit/Dispatch.antt =====
-- `enet_protocol_remove_sent_unreliable_commands` and `enet_protocol_dispatch_incoming_commands` of
-- src/protocol.c.
use enet.Base.{
  ℕ, true, false, not, ◌&&◌, List, [], ◌∷◌, Option, none, some, if◌then◌else◌, is_empty, get_or,
  set,
}
use enet.State.{Session, Peer, PeerState, Host, OutgoingCommand, Event}
use enet.Packet.{release_sent}
use enet.Lifecycle.{has_outgoing_commands, reset}
use enet.Disconnect.{disconnect}
use enet.Events.{change_state, recalculate, enter_dispatch_queue}
use enet.Incoming.Queue.{receive}
use enet.Transmit.Choose.{is_later}

-- The loop over the commands, each of which lets go of its packet.
unfoldable pub release_all : List OutgoingCommand → Host → Host
release_all [] h = h
release_all (o ∷ os) h = release_all os (elim o.packet [ none ↦ h | some p ↦ release_sent p h ])

-- `enet_protocol_remove_sent_unreliable_commands`. The peer disconnects in a state in which
-- `enet_peer_disconnect` does not flush.
unfoldable pub remove_sent_unreliable_commands : List OutgoingCommand → Session → Session
remove_sent_unreliable_commands l s =
    let s' = record s { host = release_all l s.host } in
    if is_empty l
    then s
    else if is_later s.peer.state && not (has_outgoing_commands s.peer)
    then disconnect (λ t. t) s.peer.event_data s'
    else s'

-- What becomes of a peer that is taken from the dispatch queue, its flag down, and the event, if there is one.
unfoldable pub dispatch_peer : Session → Option Event × Session
dispatch_peer s = elim s.peer.state [
  | PeerState.connection_pending ↦ connected
  | PeerState.connection_succeeded ↦ connected
  | PeerState.timedout ↦
      (some (Event.disconnect_timeout s.peer.incoming_peer_id s.peer.event_data), gone)
  | PeerState.zombie ↦ (some (Event.disconnect s.peer.incoming_peer_id s.peer.event_data), gone)
  | PeerState.connected ↦ (if is_empty s.peer.dispatched_commands then (none, s) else received)
  | _ ↦ (none, s)
]
  where
    connected : Option Event × Session
    connected =
        let s' = change_state PeerState.connected s in
        (some (Event.connect s'.peer.incoming_peer_id s'.peer.event_data), s')

    gone : Session
    gone = reset (recalculate true s)

    queue_again : Session → Session
    queue_again t = if is_empty t.peer.dispatched_commands then t else enter_dispatch_queue t

    received : Option Event × Session
    received =
        let (given, s') = receive s in
        elim given [
          | some (some packet, channel) ↦
              (some (Event.receive s'.peer.incoming_peer_id channel packet), queue_again s')
          | _ ↦ (none, s')
        ]

-- `enet_protocol_dispatch_incoming_commands`: the first event of the peers in the dispatch queue, if
-- there is one, the host and the peers, which stand at the places that the queue names. `nobody`
-- stands for a peer past the array, which is never read. The queue of a session is the host's less
-- the peers taken from it.
unfoldable pub dispatch_each : Peer → List ℕ → Host → List Peer → Option Event × Host × List Peer
dispatch_each nobody [] h peers = (none, record h { dispatch_queue = [] }, peers)
dispatch_each nobody (i ∷ is) h peers =
    let taken = record (get_or peers i nobody) { needs_dispatch = false } in
    let (event, s) =
      dispatch_peer (record { host = record h { dispatch_queue = is }; peer = taken }) in
    let peers' = set peers i s.peer in
    let rest = dispatch_each nobody is s.host peers' in
    elim event [ none ↦ rest | some e ↦ (some e, s.host, peers') ]

unfoldable pub dispatch_incoming_commands :
    Peer → Host → List Peer → Option Event × Host × List Peer
dispatch_incoming_commands nobody h peers = dispatch_each nobody h.dispatch_queue h peers
