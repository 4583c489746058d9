-- ===== src/Tests/Datagrams.antt =====
-- The theorems on received datagrams at a host with one connected peer and a datagram with a ping.
use enet.Base.{refl, false, ◌≡◌, List, [], ◌∷◌, none, some, replicate}
use enet.State.{Session, Peer, PeerState, quiet}
use enet.Receive.{Reception}
use enet.Receive.Header.{Received, Callbacks, has_event, read_header, handle_incoming_commands}
use enet.Receive.Arrivals.{Arrival, nothing, datagram, Result, receive_incoming_commands}
use enet.Receive.Guard.{Outcome, handle_incoming_commands-Outcome}
use enet.Receive.Rounds.{IsEnd, receive_incoming_commands-IsEnd}
use enet.Tests.{localhost, host, peer_in, channel}

abbrev nobody : Peer
nobody = peer_in PeerState.disconnected []

abbrev flush : Session → Session
flush s = s

-- No compressor, encryptor or checksum.
abbrev callbacks : Callbacks
callbacks = record {
  decrypt = none;
  decompress = none;
  checksum = none;
  stored32 = λ n. replicate 4 0;
  view = λ words. replicate 4 0;
}

abbrev reception : Reception
reception = record {
  host = host;
  peers = record (peer_in PeerState.connected (channel 1 [] ∷ [])) { incoming_peer_id = 0 } ∷ [];
  peer = none;
  event = some quiet;
}

-- For peer 0 in session 2: a ping, whose command has number 1 on channel 255.
abbrev ping : Received
ping = record { bytes = 0x20 ∷ 0 ∷ 5 ∷ 255 ∷ 0 ∷ 1 ∷ []; size = 6 }

handle_incoming_commands-Outcome_example :
    (r' : Reception) × (handle_incoming_commands callbacks flush nobody ping reception ≡ some r')
    × Outcome callbacks flush nobody (read_header ping.bytes) reception r'
handle_incoming_commands-Outcome_example =
    handle_incoming_commands-Outcome callbacks flush nobody ping reception

-- What the socket still has to give.
abbrev take_next : List Arrival → Arrival × List Arrival
take_next [] = (nothing, [])
take_next (a ∷ w) = (a, w)

no_event : has_event reception.event ≡ false
unfolding has_event
no_event = refl

receive_incoming_commands-IsEnd_example :
    (result : Result) × (r' : Reception) × (w' : List Arrival) × (receive_incoming_commands
        take_next none callbacks flush nobody reception
        (datagram localhost ping ∷ [])
      ≡ some (result, r', w'))
    × IsEnd take_next 256 (datagram localhost ping ∷ []) result (has_event r'.event) w'
receive_incoming_commands-IsEnd_example =
    receive_incoming_commands-IsEnd take_next callbacks flush nobody reception
      (datagram localhost ping ∷ []) no_event
