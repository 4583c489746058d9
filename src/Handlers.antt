-- ===== src/Handlers.antt =====
-- src/protocol.c: what each received command does to its peer. `true` is the result 0, and `false`
-- is -1, at which the rest of the datagram is dropped.
pub mod Settings
pub mod Leave
pub mod Sent
pub mod Acknowledge
pub mod Connect
pub mod Data
pub mod Fragments
pub mod Assembly
pub mod Frame
pub mod Repeat
pub mod Bounds
pub mod Timing
