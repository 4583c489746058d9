-- ===== src/Receive/Header.antt =====
-- `enet_protocol_handle_incoming_commands` of src/protocol.c: the header of a datagram and its checks,
-- before the loop over the commands. The bytes are those of the array `packetData`, of which the first
-- `size` were received. The decryptor, the decompressor and the checksum are the application's.
use enet.Base.{
  ℕ, ◌+◌, ◌-◌, ◌/◌, ◌%◌, ◌^◌, Bool, true, false, not, ◌&&◌, ◌||◌, List, ◌++◌, Option, none, some,
  ltb, leb, ◌==◌, if◌then◌else◌, u32, sub64, has_bit, length, get_or, set, take, skip, is_empty,
}
use enet.Wire.{maximum_peer_id, maximum_mtu}
use enet.Wire.Bytes.{word16}
use enet.State.{Session, Peer, PeerState, Event, quiet, HostAddress, Address}
use enet.Address.{equal, is_broadcast, same}
use enet.Receive.{Reception, handle_datagram}

-- The first word of the header.
pub record Header : Type 0 where
  pub peer_id : ℕ
  pub session : ℕ
  pub is_compressed : Bool
  pub has_sent_time : Bool

unfoldable pub read_header : List ℕ → Header
read_header bytes =
    let word = word16 0 bytes in
    record {
      peer_id = word % 2 ^ 12;
      session = word / 2 ^ 12 % 4;
      is_compressed = has_bit 14 word;
      has_sent_time = has_bit 15 word;
    }

-- `headerSize`
unfoldable pub header_size : Header → Bool → Bool → ℕ
header_size header has_checksum extended =
    (if header.has_sent_time then 4 else 2)
    + (if has_checksum then 4 else 0)
    + (if extended then 2 else 0)

-- The states of a peer that takes no datagrams.
unfoldable pub is_deaf : PeerState → Bool
is_deaf PeerState.disconnected = true
is_deaf PeerState.timedout = true
is_deaf PeerState.zombie = true
is_deaf _ = false

-- Whether a datagram that names this peer is refused.
unfoldable pub is_refused : Header → Address → Peer → Bool
is_refused header from p =
    is_deaf p.state
    || not (equal from p.address) && not (is_broadcast p.address)
    || ltb p.outgoing_peer_id maximum_peer_id && not (header.session == p.incoming_session_id)

-- The sender's peer: `none` is a datagram that is refused, `some none` one from nobody known.
unfoldable pub find_peer : Header → Address → List Peer → Peer → Option (Option ℕ)
find_peer header from peers nobody =
    if header.peer_id == maximum_peer_id
    then some none
    else if leb (length peers) header.peer_id
    then none
    else if is_refused header from (get_or peers header.peer_id nobody)
    then none
    else some (some header.peer_id)

-- A datagram in the array, and how many of its bytes count.
pub record Received : Type 0 where
  pub bytes : List ℕ
  pub size : ℕ

abbrev extended_flags : ℕ → Bool → List ℕ → ℕ
extended_flags n has_checksum bytes = word16 (n - 2 - (if has_checksum then 4 else 0)) bytes

-- The header with the bytes that a callback has written behind it, if these are some.
unfoldable pub unpacked : ℕ → List ℕ → List ℕ → Received
unpacked n bytes out = record { bytes = take n bytes ++ out; size = n + length out }

-- The four bytes in front of the commands, replaced.
abbrev put_checksum : ℕ → List ℕ → List ℕ → List ℕ
put_checksum n four bytes = take (n - 4) bytes ++ four ++ skip n bytes

-- A copy of the union `host`: the type of the peer's address stays. `view` gives the four bytes at the
-- front of eight words in memory.
unfoldable pub copy_host : (List ℕ → List ℕ) → HostAddress → HostAddress → HostAddress
copy_host view (HostAddress.ipv4 old) (HostAddress.ipv6 words) = HostAddress.ipv4 (view words)
copy_host view old new = new

-- The peer that has sent a datagram.
unfoldable pub note_sender : (List ℕ → List ℕ) → Address → ℕ → Peer → Peer
note_sender view from size p = record p {
  address = record { host = copy_host view p.address.host from.host; port = from.port };
  incoming_data_total = u32 (p.incoming_data_total + size);
}

-- `event != NULL && event -> type != ENET_EVENT_TYPE_NONE`
unfoldable pub has_event : Option Event → Bool
has_event none = false
has_event (some quiet) = false
has_event (some _) = true

-- The application's callbacks and what the machine does with words in memory. `decrypt` and
-- `decompress` take the bytes behind the header, the length that is given for them and the room, and
-- give the bytes that they have written; `none` is no callback.
pub record Callbacks : Type 0 where
  pub decrypt : Option (Option ℕ → List ℕ → ℕ → ℕ → List ℕ)
  pub decompress : Option (List ℕ → ℕ → ℕ → List ℕ)
  pub checksum : Option (List ℕ → List ℕ)
  pub stored32 : ℕ → List ℕ
  pub view : List ℕ → List ℕ

abbrev pub is_set {ℓ} : {A : Type ℓ} → Option A → Bool
is_set none = false
is_set (some a) = true

module _ (c : Callbacks) where
  -- The decrypted datagram, if the extended flags ask for it: `none` is a datagram that is refused.
  unfoldable pub decrypted : ℕ → Option ℕ → Received → Option Received
  decrypted n peer g =
      let asked = has_bit 4 (extended_flags n (is_set c.checksum) g.bytes) in
      elim c.decrypt [
        | none ↦ some g
        | some f ↦
            let out = f peer (skip n g.bytes) (sub64 g.size n) (maximum_mtu - n) in
            if not asked
            then some g
            else if is_empty out
            then none
            else some (unpacked n g.bytes out)
      ]

  unfoldable pub decompressed : ℕ → Bool → Received → Option Received
  decompressed n is_compressed g =
      let done : Option Received = elim c.decompress [
        | none ↦ none
        | some f ↦
            let out = f (skip n g.bytes) (sub64 g.size n) (maximum_mtu - n) in
            if is_empty out || ltb (maximum_mtu - n) (length out)
            then none
            else some (unpacked n g.bytes out)
      ] in
      if is_compressed then done else some g

  -- The checksum, which is taken with the peer's number in its place; the number stays there.
  unfoldable pub verified : ℕ → ℕ → Received → Option Received
  verified n connect_id g = elim c.checksum [
    | none ↦ some g
    | some f ↦
        let seeded = put_checksum n (c.stored32 connect_id) g.bytes in
        if same (f (take g.size seeded)) (take 4 (skip (n - 4) g.bytes))
        then some (record g { bytes = seeded })
        else none
  ]

  -- The datagram made plain and checked.
  unfoldable pub opened : Header → ℕ → Option ℕ → ℕ → Received → Option Received
  opened header n peer connect_id g = elim (decrypted n peer g) [
    | none ↦ none
    | some g₁ ↦ elim (decompressed n header.is_compressed g₁) [
      | none ↦ none
      | some g₂ ↦ verified n connect_id g₂
    ]
  ]

  module _ (flush : Session → Session) (nobody : Peer) where
    abbrev pub connect_id_of : Option ℕ → List Peer → ℕ
    connect_id_of none peers = 0
    connect_id_of (some i) peers = (get_or peers i nobody).connect_id

    abbrev note_at : Option ℕ → Address → ℕ → List Peer → List Peer
    note_at none from size peers = peers
    note_at (some i) from size peers =
        set peers i (note_sender c.view from size (get_or peers i nobody))

    -- What follows the checks: the sender is noted and the commands are handled.
    unfoldable pub accept : Header → ℕ → Option ℕ → Received → Reception → Option Reception
    accept header n peer g r =
        handle_datagram flush nobody
          (if header.has_sent_time then some (word16 2 g.bytes) else none)
          (skip n (take g.size g.bytes))
          (record r { peers = note_at peer r.host.received_address g.size r.peers; peer = peer })

    -- The datagram with its peer found.
    unfoldable pub admit : Header → Option ℕ → Received → Reception → Option Reception
    admit header peer g r =
        let n = header_size header (is_set c.checksum) (is_set c.decrypt) in
        elim (opened header n peer (connect_id_of peer r.peers) g) [
          | none ↦ some r
          | some g' ↦ accept header n peer g' r
        ]

    -- `enet_protocol_handle_incoming_commands`; the result 1 is `has_event` of the event.
    unfoldable pub handle_incoming_commands : Received → Reception → Option Reception
    handle_incoming_commands g r =
        let header = read_header g.bytes in
        let found : Option Reception =
          elim (find_peer header r.host.received_address r.peers nobody) [
            | none ↦ some r
            | some peer ↦ admit header peer g r
          ] in
        if ltb g.size 2 then some r else found
