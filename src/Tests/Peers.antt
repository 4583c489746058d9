-- ===== src/Tests/Peers.antt =====
-- The theorems on the host's counts and on a peer's reset at a connected peer with two commands
-- that are not acknowledged.
use enet.Base.{◌+◌, ◌≡◌, ◌⊎◌, refl, [], ◌∷◌, none, true, false, arith}
use enet.Wire.{Protocol, Body}
use enet.State.{PeerState, Session, Event}
use enet.Packet.{packet_at}
use enet.Lifecycle.{reset, reset_queues, has_outgoing_commands}
use enet.Lifecycle.Frame.{Empties, reset_queues-Empties}
use enet.Lifecycle.Stale.{reset_lem}
use enet.Lifecycle.References.{GivesBack, reset_queues-GivesBack}
use enet.Outgoing.{control}
use enet.Disconnect.{disconnect, disconnect_later}
use enet.Events.{change_state, notify_gone}
use enet.Handlers.Leave.{handle_disconnect}
use enet.Accounting.Frame.{IsCounted}
use enet.Accounting.Steps.{
  change_state-IsCounted, notify_gone-IsCounted, handle_disconnect-IsCounted,
  disconnect_live-IsCounted,
}
use enet.Tests.{session, incoming}

-- One command of packet 1 waits for the application beside the two that were sent.
abbrev start : Session
start = session (incoming 1 ∷ [])

-- One other peer is connected, and limited.
counted : IsCounted 1 1 start
counted = ground arith

reset_queues-Empties_example : Empties start (reset_queues start)
reset_queues-Empties_example = reset_queues-Empties start

-- All three references of packet 1 are in the queues.
reset_queues-GivesBack_example :
    GivesBack 3 (packet_at start.host 1) (packet_at (reset_queues start).host 1)
reset_queues-GivesBack_example = reset_queues-GivesBack 1 start (omega arith) (omega arith)

-- Peer 4 is in the dispatch queue, and stays there.
reset_lem_example :
    ((reset start).peer.state ≡ PeerState.disconnected)
    × ((reset start).peer.incoming_peer_id ≡ 4)
    × ((reset start).peer.channels ≡ [])
    × ((reset start).peer.dispatched_commands ≡ [])
    × ((reset start).peer.sent_reliable_commands ≡ [])
    × ((reset start).peer.outgoing_commands ≡ [])
    × ((reset start).peer.outgoing_send_reliable_commands ≡ [])
    × ((reset start).peer.acknowledgements ≡ [])
    × ((reset start).peer.needs_dispatch ≡ false)
    × ((reset start).host.dispatch_queue ≡ 4 ∷ [])
reset_lem_example = reset_lem start

change_state-IsCounted_example : IsCounted 1 1 (change_state PeerState.zombie start)
change_state-IsCounted_example = change_state-IsCounted PeerState.zombie start counted

notify_gone-IsCounted_example :
    IsCounted 1 1 (notify_gone PeerState.zombie Event.disconnect none start).0
notify_gone-IsCounted_example =
    notify_gone-IsCounted PeerState.zombie Event.disconnect none start counted

abbrev farewell : Protocol
farewell = control (4 + 128) (Body.disconnect 7)

handle_disconnect-IsCounted_example : IsCounted 1 1 (handle_disconnect farewell 7 start)
handle_disconnect-IsCounted_example = handle_disconnect-IsCounted farewell 7 start counted

-- A host with nothing to send or to receive: the flush changes nothing.
abbrev flush : Session → Session
flush s = s

disconnect_live-IsCounted_example :
    let t = disconnect flush 7 start in
    let u = disconnect_later flush 7 start in
    (IsCounted 1 1 t
      × (t.peer.state ≡ PeerState.disconnecting)
      × (t.host.connected_peers ≡ 1)
      × (t.host.bandwidth_limited_peers ≡ 1))
    × (((has_outgoing_commands start.peer ≡ false) × (u ≡ t))
        ⊎ ((has_outgoing_commands start.peer ≡ true)
            × IsCounted 1 1 u
            × (u.peer.state ≡ PeerState.disconnect_later)
            × (u.peer.event_data ≡ 7)
            × (u.host.connected_peers ≡ 2)))
disconnect_live-IsCounted_example = disconnect_live-IsCounted flush 7 start refl counted
