-- ===== src/Incoming.antt =====
-- src/peer.c: how received commands wait in their channel until they can be given to the
-- application, reliable ones in sequence. `Search` has the place of a command in its queue,
-- `Dispatch` the hand-over and `Queue` the whole of `enet_peer_queue_incoming_command`; `Order`,
-- `Delivery`, `Positions`, `History`, `InOrder` and `Arrival` are about the reliable queue.
pub mod Search
pub mod Dispatch
pub mod Queue
pub mod Order
pub mod Delivery
pub mod Positions
pub mod History
pub mod InOrder
pub mod Arrival
