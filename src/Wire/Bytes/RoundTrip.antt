-- ===== src/Wire/Bytes/RoundTrip.antt =====
-- Commands as bytes (include/enet6/protocol.h) and the table of their sizes (src/protocol.c).
use enet.Base.{
  ℕ, zero, suc, ◌+◌, ◌*◌, ◌/◌, ◌%◌, ◌^◌, ◌<◌, ◌≡◌, refl, ap, ◌∙◌, List, [], ◌∷◌, map, get_or, skip,
  arith,
}
use enet.Wire.{
  Kind, kind, kinds, command_size, Protocol, Body, acknowledge, connect, verify_connect, disconnect,
  ping, send_reliable, send_unreliable, send_fragment, send_unsequenced, bandwidth_limit,
  throttle_configure,
}
use enet.Wire.Bytes.{Shape, shape, shape_of, encode_body, encode, decode_body, decode}

word16_of : (n : ℕ) → n / 256 * 256 + n % 256 ≡ n
word16_of n = omega arith

word32_of :
    (n : ℕ) → n / 2 ^ 24 * 2 ^ 24 + n / 2 ^ 16 % 256 * 2 ^ 16 + n / 256 % 256 * 256 + n % 256 ≡ n
word32_of n = omega arith

decode_body-encode_body : (b : Body) (l : List ℕ) → decode_body (shape_of b) (encode_body b l) ≡ b
unfolding decode_body encode_body
decode_body-encode_body (acknowledge n t) l = ground (arith, word16_of n, word16_of t)
decode_body-encode_body (connect c) l = ground (
  arith,
  word16_of c.outgoing_peer_id,
  word32_of c.mtu,
  word32_of c.window_size,
  word32_of c.channel_count,
  word32_of c.incoming_bandwidth,
  word32_of c.outgoing_bandwidth,
  word32_of c.packet_throttle_interval,
  word32_of c.packet_throttle_acceleration,
  word32_of c.packet_throttle_deceleration,
  word32_of c.connect_id,
  word32_of c.user_data,
)
decode_body-encode_body (verify_connect c) l = ground (
  arith,
  word16_of c.outgoing_peer_id,
  word32_of c.mtu,
  word32_of c.window_size,
  word32_of c.channel_count,
  word32_of c.incoming_bandwidth,
  word32_of c.outgoing_bandwidth,
  word32_of c.packet_throttle_interval,
  word32_of c.packet_throttle_acceleration,
  word32_of c.packet_throttle_deceleration,
  word32_of c.connect_id,
)
decode_body-encode_body (disconnect n) l = ground (arith, word32_of n)
decode_body-encode_body ping l = refl
decode_body-encode_body (send_reliable n) l = ground (arith, word16_of n)
decode_body-encode_body (send_unreliable i n) l = ground (arith, word16_of i, word16_of n)
decode_body-encode_body (send_fragment f) l = ground (
  arith,
  word16_of f.start_sequence_number,
  word16_of f.data_length,
  word32_of f.fragment_count,
  word32_of f.fragment_number,
  word32_of f.total_length,
  word32_of f.fragment_offset,
)
decode_body-encode_body (send_unsequenced g n) l = ground (arith, word16_of g, word16_of n)
decode_body-encode_body (bandwidth_limit i o) l = ground (arith, word32_of i, word32_of o)
decode_body-encode_body (throttle_configure i a d) l =
    ground (arith, word32_of i, word32_of a, word32_of d)

get_or-map :
    (f : Kind → ℕ) (l : List Kind) (i : ℕ) (d : Kind) → get_or (map f l) i (f d) ≡ f (get_or l i d)
get_or-map f [] i d = refl
get_or-map f (k ∷ ks) zero d = refl
get_or-map f (k ∷ ks) (suc i) d = get_or-map f ks i d

-- The sizes of the bodies and of the commands.
abbrev body_size : Shape → ℕ
body_size Shape.acknowledgement = 4
body_size Shape.request = 44
body_size Shape.answer = 40
body_size Shape.reason = 4
body_size Shape.bare = 0
body_size Shape.reliable_data = 2
body_size Shape.unreliable_data = 4
body_size Shape.fragment_data = 20
body_size Shape.unsequenced_data = 4
body_size Shape.limits = 8
body_size Shape.throttle_settings = 12

abbrev size_of : Kind → ℕ
size_of Kind.nothing = 0
size_of Kind.unknown = 0
size_of Kind.acknowledge = 8
size_of Kind.connect = 48
size_of Kind.verify_connect = 44
size_of Kind.disconnect = 8
size_of Kind.ping = 4
size_of Kind.send_reliable = 6
size_of Kind.send_unreliable = 8
size_of Kind.send_fragment = 24
size_of Kind.send_unsequenced = 8
size_of Kind.bandwidth_limit = 12
size_of Kind.throttle_configure = 16
size_of Kind.send_unreliable_fragment = 24

-- `sizeof (ENetProtocolCommandHeader)` is 4.
abbrev past_header : ℕ → ℕ
past_header n = suc (suc (suc (suc n)))

command_size-kind : (n : ℕ) → command_size n ≡ size_of (kind n)
unfolding command_size kind
command_size-kind n = get_or-map size_of kinds (n % 16) Kind.unknown

size_of-shape : (k : Kind) → 0 < size_of k → size_of k ≡ past_header (body_size (shape k))
unfolding shape
size_of-shape Kind.nothing h = absurd (omega (arith, h))
size_of-shape Kind.unknown h = absurd (omega (arith, h))
size_of-shape Kind.acknowledge h = refl
size_of-shape Kind.connect h = refl
size_of-shape Kind.verify_connect h = refl
size_of-shape Kind.disconnect h = refl
size_of-shape Kind.ping h = refl
size_of-shape Kind.send_reliable h = refl
size_of-shape Kind.send_unreliable h = refl
size_of-shape Kind.send_fragment h = refl
size_of-shape Kind.send_unsequenced h = refl
size_of-shape Kind.bandwidth_limit h = refl
size_of-shape Kind.throttle_configure h = refl
size_of-shape Kind.send_unreliable_fragment h = refl

skip-encode_body : (b : Body) (l : List ℕ) → skip (body_size (shape_of b)) (encode_body b l) ≡ l
unfolding encode_body
skip-encode_body (acknowledge n t) l = refl
skip-encode_body (connect c) l = refl
skip-encode_body (verify_connect c) l = refl
skip-encode_body (disconnect n) l = refl
skip-encode_body ping l = refl
skip-encode_body (send_reliable n) l = refl
skip-encode_body (send_unreliable i n) l = refl
skip-encode_body (send_fragment f) l = refl
skip-encode_body (send_unsequenced g n) l = refl
skip-encode_body (bandwidth_limit i o) l = refl
skip-encode_body (throttle_configure i a d) l = refl

-- A command of one of the protocol's kinds, with the body that belongs to its kind, comes back as it
-- was when its bytes are read, whatever follows them; and the size that `commandSizes` has for it
-- leads exactly to what follows.
pub decode-encode :
    (c : Protocol) (l : List ℕ)
    → 0 < command_size c.command
    → shape (kind c.command) ≡ shape_of c.body
    → (decode (encode c l) ≡ c) × (skip (command_size c.command) (encode c l) ≡ l)
unfolding decode encode
decode-encode c l h e =
    let body : decode_body (shape (kind c.command)) (encode_body c.body l) ≡ c.body =
      ap (λ s. decode_body s (encode_body c.body l)) e ∙ decode_body-encode_body c.body l in
    let positive : 0 < size_of (kind c.command) = rw (command_size-kind c.command) at h in
    let size : command_size c.command ≡ past_header (body_size (shape_of c.body)) =
      command_size-kind c.command
      ∙ (size_of-shape (kind c.command) positive ∙ ap (λ s. past_header (body_size s)) e) in
    (
      ground (arith, body, word16_of c.reliable_sequence_number),
      ap (λ n. skip n (encode c l)) size ∙ skip-encode_body c.body l,
    )
