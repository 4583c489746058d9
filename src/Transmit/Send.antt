-- ===== src/Transmit/Send.antt =====
-- `enet_protocol_send_outgoing_commands` and `enet_host_flush` of src/protocol.c. The compressor, the
-- encryptor, the checksum and the socket are the application's and the operating system's.
use Prim.Native.Nat.{bit_or}
use enet.Base.{
  ℕ, zero, suc, ◌+◌, ◌*◌, ◌^◌, Bool, true, false, not, ◌&&◌, ◌||◌, List, [], ◌∷◌, Option, none,
  some, ltb, ◌==◌, if◌then◌else◌, u16, u32, sub64, is_empty,
}
use enet.Time.{time_greater_equal}
use enet.Wire.{maximum_peer_id}
use enet.State.{Session, Peer, PeerState, Host, OutgoingCommand, Event, quiet}
use enet.Transmit.{Datagram, Buffer}
use enet.Transmit.Acknowledge.{send_acknowledgements}
use enet.Transmit.Timeouts.{check_timeouts}
use enet.Transmit.Dispatch.{remove_sent_unreliable_commands}
use enet.Transmit.Gather.{Payload, Outbound, Extended, measure_loss, new_datagram, gather}

-- The peers that the walk passes over: gone ones and, after the first pass, those that are done.
unfoldable pub is_passed_over : Bool → Peer → Bool
is_passed_over is_first p = is_gone p.state || (not is_first && not p.continue_sending)
  where
    is_gone : PeerState → Bool
    is_gone PeerState.disconnected = true
    is_gone PeerState.timedout = true
    is_gone PeerState.zombie = true
    is_gone _ = false

-- How a peer's turn ends: with the next one, with an event for the application, or with an error.
pub data Served : Type 0 where
  next reported failed : Session → Option Event → Extended → Served

-- How the walk over the peers ends: at the end of the array, with an event or with an error; with the
-- host, the peers, the event, the extended flags, and whether a peer has more to send.
pub record Walked : Type 0 where
  pub host : Host
  pub peers : List Peer
  pub event : Option Event
  pub extended : Extended
  pub continues : Bool

pub data Round : Type 0 where
  done told broken : Walked → Round

-- The peer that had its turn stands before the others.
abbrev put_before : Peer → Round → Round
put_before p (done w) = Round.done (record w { peers = p ∷ w.peers })
put_before p (told w) = Round.told (record w { peers = p ∷ w.peers })
put_before p (broken w) = Round.broken (record w { peers = p ∷ w.peers })

module _ (compress : Option (List Buffer → ℕ → ℕ)) (encrypt : Option (Payload → ℕ → ℕ))
    (socket_send : Outbound → Option ℕ) where
  -- The compressor's result counts if it is shorter; `true` is the flag COMPRESSED.
  unfoldable pub compressed_payload : List Buffer → ℕ → Payload × ℕ × Bool
  compressed_payload buffers size = elim compress [
    | none ↦ (Payload.plain buffers, size, false)
    | some f ↦
        let n = f buffers size in
        if ltb 0 n && ltb n size
        then (Payload.compressed buffers n, n, true)
        else (Payload.plain buffers, size, false)
  ]

  -- The encryptor's result counts if it is not empty; the flags stay for the peers that follow.
  unfoldable pub encrypted_payload : Payload → ℕ → Extended → Payload × Extended
  encrypted_payload payload size x = elim encrypt [
    | none ↦ (payload, x)
    | some f ↦
        let n = f payload size in
        if ltb 0 n
        then (Payload.encrypted payload n, record { has_headers = true; is_encrypted = true })
        else (payload, record x { has_headers = true })
  ]

  -- The datagram with its header.
  unfoldable pub outbound : Datagram → Session → Extended → Outbound × Extended
  outbound g s x =
      let p = s.peer in
      let known = ltb p.outgoing_peer_id maximum_peer_id in
      let content = contents g.buffers in
      let (payload, size, is_compressed) = compressed_payload content (sub64 g.packet_size 4) in
      let (payload', x') = encrypted_payload payload size x in
      let flags = (if is_compressed then 2 ^ 14 else 0) + (if g.has_sent_time then 2 ^ 15 else 0) in
      let in_session =
        if known then u16 (bit_or flags (p.outgoing_session_id * 2 ^ 12)) else flags in
      (
        record {
          address = p.address;
          peer_id = u16 (bit_or p.outgoing_peer_id in_session);
          sent_time = if g.has_sent_time then some (u16 s.host.service_time) else none;
          extended_flags =
              if x'.has_headers then some (if x'.is_encrypted then 16 else 0) else none;
          checksum_seed =
              if s.host.has_checksum then some (if known then p.connect_id else 0) else none;
          payload = payload';
        },
        x',
      )
    where
      contents : List Buffer → List Buffer
      contents [] = []
      contents (b ∷ bs) = bs

  -- The part that sends: the loss is measured, the header made, the socket called, and the
  -- unreliable commands let go of.
  unfoldable pub transmit :
      Option Event → Extended → List OutgoingCommand → Datagram → Session → Served
  transmit event x unreliable g s =
      let now = s.host.service_time in
      let measured = record s { peer = measure_loss now s.peer } in
      let (datagram, x') = outbound g measured x in
      let s' =
        remove_sent_unreliable_commands unreliable
          (record measured { peer = record (measured.peer) { last_send_time = now } }) in
      elim (socket_send datagram) [
        | none ↦ Served.failed s' event x'
        | some n ↦
            Served.next
              (record s' {
                host = record (s'.host) {
                  total_sent_data = u32 (s'.host.total_sent_data + n);
                  total_sent_packets = u32 (s'.host.total_sent_packets + 1);
                };
              })
              event x'
      ]

  -- What follows the timeouts in a peer's turn.
  unfoldable pub serve_outgoing : Option Event → Extended → Datagram → Session → Option Served
  serve_outgoing event x g s = elim (gather g s) [
    | none ↦ none
    | some (_, unreliable, g', s') ↦ some (
        if g'.command_count == 0 then Served.next s' event x else transmit event x unreliable g' s')
  ]

  -- Whether the application is told at once: `event -> type != ENET_EVENT_TYPE_NONE`.
  has_event : Option Event → Bool
  has_event none = false
  has_event (some quiet) = false
  has_event (some _) = true

  -- A peer's turn.
  unfoldable pub serve_peer : Bool → Option Event → Extended → Session → Option Served
  unfolding has_event
  serve_peer check_for_timeouts event x s =
      let started = record s { peer = record (s.peer) { continue_sending = false } } in
      let (g, s') =
        if is_empty s.peer.acknowledgements
        then (new_datagram, started)
        else send_acknowledgements new_datagram started in
      let (gone, lost, given) = check_timeouts event s' in
      let due =
        check_for_timeouts
        && not (is_empty s'.peer.sent_reliable_commands)
        && time_greater_equal s'.host.service_time s'.peer.next_timeout in
      if not due
      then serve_outgoing event x g s'
      else if not gone
      then serve_outgoing given x g lost
      else some (if has_event given then Served.reported lost given x else Served.next lost given x)

  -- The walk over the peers of one pass; `continues` tells of the peers before.
  unfoldable pub serve_all :
      Bool → Bool → Bool → Option Event → Extended → Host → List Peer → Option Round
  serve_all is_first check continues event x h [] = some (
      Round.done
        (record { host = h; peers = []; event = event; extended = x; continues = continues }))
  serve_all is_first check continues event x h (p ∷ ps) = elim (is_passed_over is_first p) [
    | true ↦ put_option p (serve_all is_first check continues event x h ps)
    | false ↦ elim (serve_peer check event x (record { host = h; peer = p })) [
      | none ↦ none
      | some (next s e y) ↦
          put_option s.peer
            (serve_all is_first check (continues || s.peer.continue_sending) e y s.host ps)
      | some (reported s e y) ↦ some (Round.told (ended s e y))
      | some (failed s e y) ↦ some (Round.broken (ended s e y))
    ]
  ]
    where
      put_option : Peer → Option Round → Option Round
      put_option q none = none
      put_option q (some r) = some (put_before q r)

      ended : Session → Option Event → Extended → Walked
      ended s e y = record {
        host = s.host;
        peers = s.peer ∷ ps;
        event = e;
        extended = y;
        continues = continues;
      }

  -- The passes: another one follows as long as a peer has more to send. `none` is a call that is not
  -- over within this many passes.
  unfoldable pub serve_passes :
      ℕ → Bool → Bool → Option Event → Extended → Host → List Peer → Option Round
  serve_passes zero is_first check event x h peers = none
  serve_passes (suc fuel) is_first check event x h peers =
      elim (serve_all is_first check false event x h peers) [
        | none ↦ none
        | some (done w) ↦ elim w.continues [
          | false ↦ some (Round.done w)
          | true ↦ serve_passes fuel false check w.event w.extended w.host w.peers
        ]
        | some (told w) ↦ some (Round.told w)
        | some (broken w) ↦ some (Round.broken w)
      ]

  -- `enet_protocol_send_outgoing_commands`: `told` is the result 1, `broken` is -1.
  unfoldable pub send_outgoing_commands : ℕ → Bool → Option Event → Host → List Peer → Option Round
  send_outgoing_commands fuel check event h peers =
      serve_passes fuel true check event (record { has_headers = false; is_encrypted = false }) h
        peers

  -- `enet_host_flush` at the time `now`
  unfoldable pub flush : ℕ → ℕ → Host → List Peer → Option Round
  flush fuel now h peers =
      send_outgoing_commands fuel false none (record h { service_time = now }) peers
