-- ===== src/State/HostData.antt =====
-- `ENetHost` and `ENetEvent` of include/enet6/enet.h, and the memory that the host's code uses.
use enet.Base.{ℕ, Bool, List, ◌==◌, if◌then◌else◌}
use enet.State.PacketData.{Packet}
use enet.State.PeerData.{Peer, Address}

-- The fields of `ENetHost` that the modelled code reads or writes.
-- `packets` is the store of packets by number, and `next_block` the first number that `enet_malloc`
-- has not given out. `fresh_bytes n` is what an allocated block of n bytes holds before a write.
-- `has_checksum` says whether the `checksum` callback is set.
-- `allocations` says of the coming calls of `enet_malloc` which succeed; past its end all do.
pub record Host : Type 0 where
  pub incoming_bandwidth : ℕ
  pub outgoing_bandwidth : ℕ
  pub mtu : ℕ
  pub random_seed : ℕ
  pub recalculate_bandwidth_limits : Bool
  pub channel_limit : ℕ
  pub service_time : ℕ
  pub dispatch_queue : List ℕ
  pub total_queued : ℕ
  pub received_address : Address
  pub connected_peers : ℕ
  pub bandwidth_limited_peers : ℕ
  pub duplicate_peers : ℕ
  pub maximum_packet_size : ℕ
  pub maximum_waiting_data : ℕ
  pub packets : ℕ → Packet
  pub next_block : ℕ
  pub fresh_bytes : ℕ → List ℕ
  pub allocations : List Bool
  pub has_checksum : Bool
  pub bandwidth_throttle_epoch : ℕ
  pub total_sent_data : ℕ
  pub total_sent_packets : ℕ
  pub total_received_data : ℕ
  pub total_received_packets : ℕ

-- A peer and the host that it belongs to: what the functions on a peer change.
pub record Session : Type 0 where
  pub host : Host
  pub peer : Peer

-- `ENetEvent`, for the events that tell of a peer's connection
pub data Event : Type 0 where
  quiet : Event
  connect : ℕ → ℕ → Event
  disconnect : ℕ → ℕ → Event
  disconnect_timeout : ℕ → ℕ → Event
  receive : ℕ → ℕ → ℕ → Event

abbrev pub update {ℓ} : {A : Type ℓ} → (ℕ → A) → ℕ → A → ℕ → A
update f i v j = if i == j then v else f j
