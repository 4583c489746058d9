-- ===== src/State.antt =====
-- The data of include/enet6/enet.h: packets, queued commands, channels, peers and the host.
-- A pointer to a packet is its number in the host's store; the linked lists of list.h are lists,
-- front first; a peer in the dispatch queue is named by its `incoming_peer_id`.
mod PacketData
mod CommandData
mod PeerData
mod HostData
pub use PacketData.*
pub use CommandData.*
pub use PeerData.*
pub use HostData.*
