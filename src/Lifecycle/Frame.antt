-- ===== src/Lifecycle/Frame.antt =====
-- What emptying a peer's queues (src/peer.c) leaves alone.
use enet.Base.{
  ℕ, ◌≡◌, refl, false, List, [], ◌∷◌, Option, none, some, if◌then◌else◌, arith, Bool-cases, inl,
  inr, ◌∙◌, ap,
}
use enet.State.{Peer, Host, Session, Channel, OutgoingCommand, IncomingCommand}
use enet.Packet.{release, packet_destroy}
use enet.Lifecycle.{
  reset_outgoing_commands, remove_incoming_commands, reset_incoming_commands, reset_channels,
  leave_dispatch_queue, reset_outgoing_queues, reset_incoming_queues, reset_queues, drop_waiting,
  release_option, is_excluded, remove_peer, used_channels,
}

-- `k` is `h` but for the packets.
pub record SameHost (h k : Host) : Type 0 where
  pub connected_peers : k.connected_peers ≡ h.connected_peers
  pub bandwidth_limited_peers : k.bandwidth_limited_peers ≡ h.bandwidth_limited_peers
  pub dispatch_queue : k.dispatch_queue ≡ h.dispatch_queue
  pub incoming_bandwidth : k.incoming_bandwidth ≡ h.incoming_bandwidth
  pub outgoing_bandwidth : k.outgoing_bandwidth ≡ h.outgoing_bandwidth
  pub mtu : k.mtu ≡ h.mtu
  pub maximum_packet_size : k.maximum_packet_size ≡ h.maximum_packet_size

release-SameHost : (p : ℕ) (h : Host) → SameHost h (release p h)
unfolding release packet_destroy
release-SameHost p h = ground arith

SameHost-trans : (h k l : Host) → SameHost h k → SameHost k l → SameHost h l
SameHost-trans h k l a b = ground arith

release_option-SameHost : (o : Option ℕ) (h : Host) → SameHost h (release_option o h)
release_option-SameHost none h = ground arith
release_option-SameHost (some p) h = release-SameHost p h

pub reset_outgoing-SameHost :
    (cs : List OutgoingCommand) (h : Host) → SameHost h (reset_outgoing_commands cs h)
unfolding reset_outgoing_commands
reset_outgoing-SameHost [] h = ground arith
reset_outgoing-SameHost (c ∷ cs) h =
    SameHost-trans h (release_option c.packet h) _ (release_option-SameHost c.packet h)
      (reset_outgoing-SameHost cs (release_option c.packet h))

-- `t` is `s` but for the packets and the peer's waiting data.
pub record Drops (s t : Session) : Type 0 where
  pub host : SameHost s.host t.host
  pub peer : t.peer ≡ record (s.peer) { total_waiting_data = t.peer.total_waiting_data }

drop_waiting-Drops : (o : Option ℕ) (s : Session) → Drops s (drop_waiting o s)
drop_waiting-Drops none s = record { host = ground arith; peer = refl }
drop_waiting-Drops (some p) s = record { host = release-SameHost p s.host; peer = refl }

Drops-trans : (s t u : Session) → Drops s t → Drops t u → Drops s u
Drops-trans s t u a b = record {
  host = SameHost-trans s.host t.host u.host a.host b.host;
  peer = ground (arith, a.peer, b.peer);
}

pub remove_incoming-Drops :
    (x : Option ℕ) (cs : List IncomingCommand) (s : Session)
    → Drops s (remove_incoming_commands x cs s).1
unfolding remove_incoming_commands
remove_incoming-Drops x [] s = record { host = ground arith; peer = refl }
remove_incoming-Drops x (c ∷ cs) s = elim (Bool-cases (is_excluded x c)) [
  | inl e ↦ rw e (remove_incoming-Drops x cs s)
  | inr e ↦ rw e (
      Drops-trans s (drop_waiting c.packet s) _ (drop_waiting-Drops c.packet s)
        (remove_incoming-Drops x cs (drop_waiting c.packet s)))
]

reset_incoming-Drops :
    (cs : List IncomingCommand) (s : Session) → Drops s (reset_incoming_commands cs s)
unfolding reset_incoming_commands
reset_incoming-Drops cs s = remove_incoming-Drops none cs s

reset_channels-Drops : (cs : List Channel) (s : Session) → Drops s (reset_channels cs s)
unfolding reset_channels
reset_channels-Drops [] s = record { host = ground arith; peer = refl }
reset_channels-Drops (c ∷ cs) s =
    let s' = reset_incoming_commands c.incoming_reliable_commands s in
    let s'' = reset_incoming_commands c.incoming_unreliable_commands s' in
    Drops-trans s s'' _
      (Drops-trans s s' s'' (reset_incoming-Drops c.incoming_reliable_commands s)
        (reset_incoming-Drops c.incoming_unreliable_commands s'))
      (reset_channels-Drops cs s'')

-- `t` is `s` but for the packets, the dispatch queue, the queues and channels, which are empty, the
-- peer's waiting data and its dispatch flag.
pub record Empties (s t : Session) : Type 0 where
  pub connected_peers : t.host.connected_peers ≡ s.host.connected_peers
  pub bandwidth_limited_peers : t.host.bandwidth_limited_peers ≡ s.host.bandwidth_limited_peers
  pub dispatch_queue : t.host.dispatch_queue ≡ (
      if s.peer.needs_dispatch
      then remove_peer s.peer.incoming_peer_id s.host.dispatch_queue
      else s.host.dispatch_queue)
  pub peer : t.peer ≡ record (s.peer) {
    total_waiting_data = t.peer.total_waiting_data;
    needs_dispatch = false;
    acknowledgements = [];
    sent_reliable_commands = [];
    outgoing_commands = [];
    outgoing_send_reliable_commands = [];
    dispatched_commands = [];
    channels = [];
    channel_count = 0;
  }

reset_outgoing_queues-SameHost : (s : Session) → SameHost s.host (reset_outgoing_queues s).host
unfolding reset_outgoing_queues
reset_outgoing_queues-SameHost s =
    SameHost-trans s.host h₂ _
      (SameHost-trans s.host h₁ h₂ (reset_outgoing-SameHost sent s.host)
        (reset_outgoing-SameHost others h₁))
      (reset_outgoing-SameHost reliable h₂)
  where
    open (s.peer) use {
      sent_reliable_commands as sent, outgoing_commands as others,
      outgoing_send_reliable_commands as reliable,
    }

    h₁ : Host
    h₁ = reset_outgoing_commands sent s.host

    h₂ : Host
    h₂ = reset_outgoing_commands others h₁

abbrev without_outgoing : Peer → Peer
without_outgoing p = record p {
  acknowledgements = [];
  sent_reliable_commands = [];
  outgoing_commands = [];
  outgoing_send_reliable_commands = [];
}

abbrev without_incoming : ℕ → Peer → Peer
without_incoming waiting p = record p {
  total_waiting_data = waiting;
  dispatched_commands = [];
  channels = [];
  channel_count = 0;
}

reset_outgoing_queues-peer :
    (s : Session) → (reset_outgoing_queues s).peer ≡ without_outgoing s.peer
unfolding reset_outgoing_queues
reset_outgoing_queues-peer s = refl

dropped : Session → Session
dropped s =
    reset_channels (used_channels s.peer) (reset_incoming_commands s.peer.dispatched_commands s)

dropped-Drops : (s : Session) → Drops s (dropped s)
unfolding dropped
dropped-Drops s =
    Drops-trans s (reset_incoming_commands s.peer.dispatched_commands s) _
      (reset_incoming-Drops s.peer.dispatched_commands s)
      (reset_channels-Drops (used_channels s.peer) _)

reset_incoming_queues-lem :
    (s : Session)
    → SameHost s.host (reset_incoming_queues s).host
      × ((reset_incoming_queues s).peer
          ≡ without_incoming (reset_incoming_queues s).peer.total_waiting_data s.peer)
unfolding reset_incoming_queues dropped
reset_incoming_queues-lem s = (
  (dropped-Drops s).host,
  ap (without_incoming (dropped s).peer.total_waiting_data) (dropped-Drops s).peer,
)

leave_lem :
    (s : Session)
    → ((leave_dispatch_queue s).host.connected_peers ≡ s.host.connected_peers)
      × ((leave_dispatch_queue s).host.bandwidth_limited_peers ≡ s.host.bandwidth_limited_peers)
      × ((leave_dispatch_queue s).host.dispatch_queue ≡ (
          if s.peer.needs_dispatch
          then remove_peer s.peer.incoming_peer_id s.host.dispatch_queue
          else s.host.dispatch_queue))
      × ((leave_dispatch_queue s).peer ≡ record (s.peer) { needs_dispatch = false })
unfolding leave_dispatch_queue
leave_lem s = (ground arith, ground arith, ground arith, ground arith)

-- `enet_peer_reset_queues` empties every queue of the peer and takes it out of the dispatch queue if
-- its flag says that it is there. Of the peer nothing else changes but its waiting data, and the
-- host's two counts stay.
pub reset_queues-Empties : (s : Session) → Empties s (reset_queues s)
unfolding reset_queues
reset_queues-Empties s =
    let a = leave_dispatch_queue s in
    let b = reset_outgoing_queues a in
    let d = reset_incoming_queues-lem b in
    record {
      connected_peers = ground (arith, leave_lem s, reset_outgoing_queues-SameHost a, d.0);
      bandwidth_limited_peers = ground (arith, leave_lem s, reset_outgoing_queues-SameHost a, d.0);
      dispatch_queue =
          d.0.dispatch_queue ∙ (reset_outgoing_queues-SameHost a).dispatch_queue ∙ (leave_lem s).2;
      peer =
          d.1
          ∙ ap (without_incoming (reset_incoming_queues b).peer.total_waiting_data)
              (reset_outgoing_queues-peer a ∙ ap without_outgoing (leave_lem s).3);
    }
