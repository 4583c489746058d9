-- ===== src/Accounting.antt =====
-- The host's counts of connected and of bandwidth-limited peers, which src/peer.c and
-- src/protocol.c keep by hand at every change of a peer's state.
pub mod Frame
pub mod Steps
