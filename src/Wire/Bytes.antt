-- ===== src/Wire/Bytes.antt =====
-- include/enet6/protocol.h: the packed structures as bytes. Fields of two and four bytes go in network
-- order; `connectID` is copied as it is, and read here like the others. What is written of a field is
-- bytes if the field is within its width. `RoundTrip` is about the two directions.
pub mod RoundTrip
use enet.Base.{ℕ, ◌+◌, ◌*◌, ◌/◌, ◌%◌, ◌^◌, List, [], ◌∷◌, get_or, skip}
use enet.Wire.{
  Kind, kind, Protocol, Body, Connect, VerifyConnect, SendFragment, acknowledge, connect,
  verify_connect, disconnect, ping, send_reliable, send_unreliable, send_fragment, send_unsequenced,
  bandwidth_limit, throttle_configure,
}

-- The members of the union `ENetProtocol`.
pub data Shape : Type 0 where
  acknowledgement request answer reason bare reliable_data unreliable_data : Shape
  fragment_data unsequenced_data limits throttle_settings : Shape

-- The member that the handler of a command reads.
unfoldable pub shape : Kind → Shape
shape Kind.acknowledge = Shape.acknowledgement
shape Kind.connect = Shape.request
shape Kind.verify_connect = Shape.answer
shape Kind.disconnect = Shape.reason
shape Kind.send_reliable = Shape.reliable_data
shape Kind.send_unreliable = Shape.unreliable_data
shape Kind.send_fragment = Shape.fragment_data
shape Kind.send_unreliable_fragment = Shape.fragment_data
shape Kind.send_unsequenced = Shape.unsequenced_data
shape Kind.bandwidth_limit = Shape.limits
shape Kind.throttle_configure = Shape.throttle_settings
shape _ = Shape.bare

abbrev pub bytes16 : ℕ → List ℕ → List ℕ
bytes16 n l = n / 256 ∷ n % 256 ∷ l

abbrev pub bytes32 : ℕ → List ℕ → List ℕ
bytes32 n l = n / 2 ^ 24 ∷ n / 2 ^ 16 % 256 ∷ n / 256 % 256 ∷ n % 256 ∷ l

-- The fields of two and four bytes at a place.
abbrev pub word16 : ℕ → List ℕ → ℕ
word16 i l = get_or l i 0 * 256 + get_or l (i + 1) 0

abbrev pub word32 : ℕ → List ℕ → ℕ
word32 i l =
    get_or l i 0 * 2 ^ 24
    + get_or l (i + 1) 0 * 2 ^ 16
    + get_or l (i + 2) 0 * 256
    + get_or l (i + 3) 0

-- What follows the header, before the bytes `l`.
unfoldable pub encode_body : Body → List ℕ → List ℕ
encode_body (acknowledge n t) l = bytes16 n (bytes16 t l)
encode_body (connect c) l = bytes16 c.outgoing_peer_id (
    c.incoming_session_id
    ∷ c.outgoing_session_id
    ∷ bytes32 c.mtu (
        bytes32 c.window_size (
          bytes32 c.channel_count (
            bytes32 c.incoming_bandwidth (
              bytes32 c.outgoing_bandwidth (
                bytes32 c.packet_throttle_interval (
                  bytes32 c.packet_throttle_acceleration (
                    bytes32 c.packet_throttle_deceleration
                      (bytes32 c.connect_id (bytes32 c.user_data l))))))))))
encode_body (verify_connect c) l = bytes16 c.outgoing_peer_id (
    c.incoming_session_id
    ∷ c.outgoing_session_id
    ∷ bytes32 c.mtu (
        bytes32 c.window_size (
          bytes32 c.channel_count (
            bytes32 c.incoming_bandwidth (
              bytes32 c.outgoing_bandwidth (
                bytes32 c.packet_throttle_interval (
                  bytes32 c.packet_throttle_acceleration
                    (bytes32 c.packet_throttle_deceleration (bytes32 c.connect_id l)))))))))
encode_body (disconnect n) l = bytes32 n l
encode_body ping l = l
encode_body (send_reliable n) l = bytes16 n l
encode_body (send_unreliable i n) l = bytes16 i (bytes16 n l)
encode_body (send_fragment f) l = bytes16 f.start_sequence_number (
    bytes16 f.data_length (
      bytes32 f.fragment_count
        (bytes32 f.fragment_number (bytes32 f.total_length (bytes32 f.fragment_offset l)))))
encode_body (send_unsequenced g n) l = bytes16 g (bytes16 n l)
encode_body (bandwidth_limit i o) l = bytes32 i (bytes32 o l)
encode_body (throttle_configure i a d) l = bytes32 i (bytes32 a (bytes32 d l))

unfoldable pub encode : Protocol → List ℕ → List ℕ
encode c l = c.command ∷ c.channel_id ∷ bytes16 c.reliable_sequence_number (encode_body c.body l)

-- The body of a command, from the bytes after its header.
unfoldable pub decode_body : Shape → List ℕ → Body
decode_body Shape.acknowledgement l = Body.acknowledge (word16 0 l) (word16 2 l)
decode_body Shape.request l = Body.connect (record {
  outgoing_peer_id = word16 0 l;
  incoming_session_id = get_or l 2 0;
  outgoing_session_id = get_or l 3 0;
  mtu = word32 4 l;
  window_size = word32 8 l;
  channel_count = word32 12 l;
  incoming_bandwidth = word32 16 l;
  outgoing_bandwidth = word32 20 l;
  packet_throttle_interval = word32 24 l;
  packet_throttle_acceleration = word32 28 l;
  packet_throttle_deceleration = word32 32 l;
  connect_id = word32 36 l;
  user_data = word32 40 l;
})
decode_body Shape.answer l = Body.verify_connect (record {
  outgoing_peer_id = word16 0 l;
  incoming_session_id = get_or l 2 0;
  outgoing_session_id = get_or l 3 0;
  mtu = word32 4 l;
  window_size = word32 8 l;
  channel_count = word32 12 l;
  incoming_bandwidth = word32 16 l;
  outgoing_bandwidth = word32 20 l;
  packet_throttle_interval = word32 24 l;
  packet_throttle_acceleration = word32 28 l;
  packet_throttle_deceleration = word32 32 l;
  connect_id = word32 36 l;
})
decode_body Shape.reason l = Body.disconnect (word32 0 l)
decode_body Shape.bare l = Body.ping
decode_body Shape.reliable_data l = Body.send_reliable (word16 0 l)
decode_body Shape.unreliable_data l = Body.send_unreliable (word16 0 l) (word16 2 l)
decode_body Shape.fragment_data l = Body.send_fragment (record {
  start_sequence_number = word16 0 l;
  data_length = word16 2 l;
  fragment_count = word32 4 l;
  fragment_number = word32 8 l;
  total_length = word32 12 l;
  fragment_offset = word32 16 l;
})
decode_body Shape.unsequenced_data l = Body.send_unsequenced (word16 0 l) (word16 2 l)
decode_body Shape.limits l = Body.bandwidth_limit (word32 0 l) (word32 4 l)
decode_body Shape.throttle_settings l =
    Body.throttle_configure (word32 0 l) (word32 4 l) (word32 8 l)

-- A command at the start of some bytes.
unfoldable pub decode : List ℕ → Protocol
decode l = record {
  command = get_or l 0 0;
  channel_id = get_or l 1 0;
  reliable_sequence_number = word16 2 l;
  body = decode_body (shape (kind (get_or l 0 0))) (skip 4 l);
}

-- The member that a body is of.
abbrev pub shape_of : Body → Shape
shape_of (acknowledge _ _) = Shape.acknowledgement
shape_of (connect _) = Shape.request
shape_of (verify_connect _) = Shape.answer
shape_of (disconnect _) = Shape.reason
shape_of ping = Shape.bare
shape_of (send_reliable _) = Shape.reliable_data
shape_of (send_unreliable _ _) = Shape.unreliable_data
shape_of (send_fragment _) = Shape.fragment_data
shape_of (send_unsequenced _ _) = Shape.unsequenced_data
shape_of (bandwidth_limit _ _) = Shape.limits
shape_of (throttle_configure _ _ _) = Shape.throttle_settings
