-- ===== src/Accounting/Frame.antt =====
-- The counts of `ENetHost`, and the operations that leave them alone.
use enet.Base.{ℕ, ◌+◌, ◌<◌, ◌≡◌, Option, none, some, ◌==◌, if◌then◌else◌, arith, refl, u16, u32}
use enet.Wire.{Protocol, command_size}
use enet.State.{Peer, Host, Session, OutgoingCommand, is_live}
use enet.Packet.{malloc}
use enet.Lifecycle.{reset_queues}
use enet.Lifecycle.Frame.{reset_queues-Empties}
use enet.Outgoing.{
  assign_sequence, enqueue, stamp, setup_outgoing_command, queue_outgoing_command, refer,
  new_outgoing,
}

-- What a peer adds to `connectedPeers`.
abbrev pub live_count : Peer → ℕ
live_count p = if is_live p.state then 1 else 0

-- What a peer adds to `bandwidthLimitedPeers`.
abbrev pub limited_count : Peer → ℕ
limited_count p = if is_live p.state then (if p.incoming_bandwidth == 0 then 0 else 1) else 0

-- The host counts this peer, beside `others` connected and `limited` limited ones.
pub record IsCounted (others limited : ℕ) (s : Session) : Type 0 where
  pub connected : s.host.connected_peers ≡ others + live_count s.peer
  pub bandwidth : s.host.bandwidth_limited_peers ≡ limited + limited_count s.peer
  pub others_small : others < 4096
  pub limited_small : limited < 4096

-- The step changes neither the counts nor what the peer adds to them.
pub record Quiet (s t : Session) : Type 0 where
  pub connected_peers : t.host.connected_peers ≡ s.host.connected_peers
  pub bandwidth_limited_peers : t.host.bandwidth_limited_peers ≡ s.host.bandwidth_limited_peers
  pub state : t.peer.state ≡ s.peer.state
  pub incoming_bandwidth : t.peer.incoming_bandwidth ≡ s.peer.incoming_bandwidth

pub Quiet-IsCounted : {n m : ℕ} (s t : Session) → Quiet s t → IsCounted n m s → IsCounted n m t
Quiet-IsCounted s t q v = ground arith

pub reset_queues-Quiet : (s : Session) → Quiet s (reset_queues s)
reset_queues-Quiet s = ground (arith, reset_queues-Empties s)

assign_sequence-keeps :
    (p : Peer) (o : OutgoingCommand)
    → ((assign_sequence p o).0.state ≡ p.state)
      × ((assign_sequence p o).0.incoming_bandwidth ≡ p.incoming_bandwidth)
unfolding assign_sequence
assign_sequence-keeps p o = (ground arith, ground arith)

enqueue-keeps :
    (p : Peer) (o : OutgoingCommand)
    → ((enqueue p o).state ≡ p.state) × ((enqueue p o).incoming_bandwidth ≡ p.incoming_bandwidth)
unfolding enqueue
enqueue-keeps p o = (ground arith, ground arith)

setup_outgoing_command-Quiet :
    (o : OutgoingCommand) (s : Session) → Quiet s (setup_outgoing_command o s)
unfolding setup_outgoing_command
setup_outgoing_command-Quiet o s =
    let size = command_size o.command.command + o.fragment_length in
    let p = record (s.peer) { outgoing_data_total = u32 (s.peer.outgoing_data_total + size) } in
    let (p', o') = assign_sequence p o in
    ground (
      arith,
      assign_sequence-keeps p o,
      enqueue-keeps p' (stamp p' (u32 (s.host.total_queued + 1)) o'),
    )

refer-keeps :
    (packet : Option ℕ) (h : Host)
    → ((refer packet h).connected_peers ≡ h.connected_peers)
      × ((refer packet h).bandwidth_limited_peers ≡ h.bandwidth_limited_peers)
unfolding refer
refer-keeps none h = (refl, refl)
refer-keeps (some p) h = (refl, refl)

pub malloc-keeps :
    (h : Host)
    → ((malloc h).1.connected_peers ≡ h.connected_peers)
      × ((malloc h).1.bandwidth_limited_peers ≡ h.bandwidth_limited_peers)
unfolding malloc
malloc-keeps h = (refl, refl)

pub queue_outgoing_command-Quiet :
    (c : Protocol) (packet : Option ℕ) (offset size : ℕ) (s : Session)
    → Quiet s (queue_outgoing_command c packet offset size s).1
unfolding queue_outgoing_command
queue_outgoing_command-Quiet c packet offset size s =
    let h = (malloc s.host).1 in
    ground (
      arith,
      malloc-keeps s.host,
      refer-keeps packet h,
      setup_outgoing_command-Quiet (new_outgoing c packet offset (u16 size))
          (record s { host = refer packet h }),
    )
