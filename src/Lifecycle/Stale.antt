-- ===== src/Lifecycle/Stale.antt =====
-- `enet_peer_reset` of src/peer.c and the queue of peers that wait for `enet_host_check_events`.
use enet.Base.{◌≡◌, ap, ◌∙◌, false, [], arith}
use enet.State.{Peer, PeerState, Session}
use enet.Lifecycle.{on_disconnect, reset_fields, reset, with_peer}
use enet.Lifecycle.Frame.{reset_queues-Empties}

start-lem :
    (s : Session)
    → let t = with_peer (on_disconnect s) (reset_fields (on_disconnect s)) in
      (t.host.dispatch_queue ≡ s.host.dispatch_queue)
      × (t.peer.needs_dispatch ≡ false)
      × (t.peer.state ≡ PeerState.disconnected)
      × (t.peer.incoming_peer_id ≡ s.peer.incoming_peer_id)
unfolding on_disconnect reset_fields
start-lem s = (ground arith, ground arith, ground arith, ground arith)

-- `enet_peer_reset` leaves the peer disconnected, without channels, waiting commands or commands to
-- send, and with its slot number. It clears the dispatch flag before the queues are emptied, so it
-- never takes the peer out of the dispatch queue: a peer that stands there stays, with the flag
-- that says so down.
pub reset_lem :
    (s : Session)
    → ((reset s).peer.state ≡ PeerState.disconnected)
      × ((reset s).peer.incoming_peer_id ≡ s.peer.incoming_peer_id)
      × ((reset s).peer.channels ≡ [])
      × ((reset s).peer.dispatched_commands ≡ [])
      × ((reset s).peer.sent_reliable_commands ≡ [])
      × ((reset s).peer.outgoing_commands ≡ [])
      × ((reset s).peer.outgoing_send_reliable_commands ≡ [])
      × ((reset s).peer.acknowledgements ≡ [])
      × ((reset s).peer.needs_dispatch ≡ false)
      × ((reset s).host.dispatch_queue ≡ s.host.dispatch_queue)
unfolding reset
reset_lem s =
    let t = with_peer (on_disconnect s) (reset_fields (on_disconnect s)) in
    let e = reset_queues-Empties t in
    let b = start-lem s in
    (
      ap (λ (p : Peer). p.state) e.peer ∙ b.2,
      ap (λ (p : Peer). p.incoming_peer_id) e.peer ∙ b.3,
      ap (λ (p : Peer). p.channels) e.peer,
      ap (λ (p : Peer). p.dispatched_commands) e.peer,
      ap (λ (p : Peer). p.sent_reliable_commands) e.peer,
      ap (λ (p : Peer). p.outgoing_commands) e.peer,
      ap (λ (p : Peer). p.outgoing_send_reliable_commands) e.peer,
      ap (λ (p : Peer). p.acknowledgements) e.peer,
      ap (λ (p : Peer). p.needs_dispatch) e.peer,
      ground (arith, e.dispatch_queue, b),
    )
