-- ===== src/Lib.antt =====
-- A model of ENet6 (src/, include/enet6/), the reliable datagram library, and theorems on it.
--
-- A host serves peers. A peer queues commands for sending and gives them sequence numbers (src/peer.c);
-- the protocol (src/protocol.c) sends them in datagrams, and hands each received command to a handler,
-- which changes the peer's state or queues the command in its channel until it can be delivered in
-- order. Packets (src/packet.c) carry the application's bytes and are counted by the commands that
-- refer to them.
--
-- Numbers are natural numbers with the wrap-around of the C type written out (`u16`, `u32`,
-- `sub32`, `add64`, `sub64`). Structures are records with the names of their fields in C, in this
-- spelling: `incomingReliableSequenceNumber` is `incoming_reliable_sequence_number`. A function on
-- a peer takes a `Session`, the peer with its host, and gives the changed one. The linked lists are
-- lists; what the operations of src/list.c do on links is in Links. A pointer to a packet is its
-- number in the host's store. `enet_malloc` succeeds or fails as the host's list `allocations` says,
-- so every allocation may fail. The loops
-- are recursions over lists, but for those that run on fuel: the cut of a packet into fragments,
-- which gets as many rounds as the packet has bytes, the choice of the commands for a datagram,
-- which gets one more than there are commands, the loop over the commands of a datagram, which gets
-- one more than it has bytes, the two loops of the bandwidth throttle, which get one more than
-- there are peers, and the groups and digits of an address, of which there are at most eight groups,
-- and fewer digits than the number and one. A fragment has a byte at least, a turn of the choice
-- takes a command off a queue, a command has four bytes at least, and a walk of the throttle that is
-- repeated marks a peer. At most 256 datagrams are received in a row, as in the source. The passes
-- over the peers, the rounds of `enet_host_service` and its waits, which the clock and the network
-- end, and the walk of `enet_list_size` get fuel from the caller.
--
-- The modules:
--   Base          shared names, Boolean tests, lists by native numbers, machine words
--   Time          include/enet6/time.h
--   Links         src/list.c: rings of nodes, and the lists of nodes that they hold
--   Wire          include/enet6/protocol.h and the command sizes of src/protocol.c; Bytes has the layout
--   State         the structures of include/enet6/enet.h
--   Packet        src/packet.c, `enet_malloc` of src/callbacks.c; Checksum is `enet_crc32`
--   Throttle      `enet_peer_throttle` of src/peer.c
--   Lifecycle     src/peer.c: counting of connected peers, emptying of the queues, `enet_peer_reset`
--   Address       src/address.c: the tests and builders; Parse and Print are the text form, on lists
--                 of characters
--   Outgoing      src/peer.c: sequence numbers and queues of outgoing commands, acknowledgements
--   Sending       src/peer.c: `enet_peer_send` with the cut into fragments
--   Disconnect    src/peer.c: `enet_peer_disconnect`, `…_now` and `…_later`
--   Events        src/protocol.c: changes of state and notifications
--   Incoming      src/peer.c: `enet_peer_queue_incoming_command` and the dispatch of its queues; a
--                 reliable channel is described by positions in the sender's stream (Positions,
--                 History, InOrder), and Arrival ties that description to the function
--   Handlers      src/protocol.c: the handlers of received commands; Assembly is about the fragments of
--                 a packet, from the sender's cut to the receiver's bytes
--   Transmit      src/protocol.c: the commands and acknowledgements of a peer that go into a datagram,
--                 timeouts, the walk over the peers, the events that are handed out
--   Receive       src/protocol.c: the loop over the commands of a datagram; Header has the checks
--                 before it, Arrivals the loop over datagrams, Service `enet_host_service`
--   Hosting       src/host.c: connecting, broadcasting, limits, the bandwidth throttle; Create has
--                 creation and destruction
--   Accounting    the host's counts under every change of state
--   Tests         concrete values and the theorems applied to them
--
-- The disconnecting operations of a peer take `enet_host_flush`, which serves every peer of the
-- host, as an argument. The compressor, the encryptor, the checksum and the intercept callback are
-- arguments, which may be absent; so are the socket, the clock, the waiting and the seed of a host.
-- `enet_host_service` takes the sending of datagrams, `enet_protocol_send_outgoing_commands`, as an
-- argument. The texts of addresses are without the terminating 0, and what the parser's local array
-- holds before it is written is an argument.
--
-- Not modelled: src/compress.c, the setters of callbacks, the getters, and the bytes of the header
-- of a datagram that is sent. Sockets (src/unix.c, src/win32.c), the C# binding and the examples are
-- left out: they are calls of the operating system and glue.
pub mod Base
pub mod Time
pub mod Links
pub mod Wire
pub mod State
pub mod Packet
pub mod Throttle
pub mod Lifecycle
pub mod Address
pub mod Outgoing
pub mod Sending
pub mod Disconnect
pub mod Events
pub mod Incoming
pub mod Handlers
pub mod Receive
pub mod Transmit
pub mod Hosting
pub mod Accounting
pub mod Tests
