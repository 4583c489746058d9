-- ===== src/Tests/Fragments.antt =====
-- A packet of five bytes that goes in three fragments, and a host whose bandwidth is shared out.
use enet.Base.{ℕ, ◌+◌, ◌<◌, ◌≡◌, refl, true, false, List, [], ◌∷◌, some, replicate, arith}
use enet.Wire.{SendFragment}
use enet.State.{IncomingCommand, OutgoingCommand, Packet, Peer, PeerState, Session, Host}
use enet.Outgoing.{channel_at}
use enet.Sending.{Plan, fragment, cut, send}
use enet.Sending.Cut.{Tiles, IsCut, cut_lem}
use enet.Sending.Failure.{IsFair, send-IsFair}
use enet.Handlers.Fragments.{store_fragment}
use enet.Handlers.Assembly.{Awaits, AllBelow, member, arrive_all}
use enet.Handlers.Assembly.Complete.{arrive_all_sound}
use enet.Handlers.Assembly.Delivery.{carried_by, arrive_all-Tiles, Tiles-IsCutting}
use enet.Handlers.Assembly.Stored.{IsWaiting, IsStored, store_fragment_lem}
use enet.Hosting.Throttle.{bandwidth_throttle}
use enet.Hosting.Rounds.{bandwidth_throttle_total}
use enet.Hosting.Limits.{AllThrottled, bandwidth_throttle-AllThrottled}
use enet.Tests.{packet_with, incoming, peer_in, host, session}

abbrev plan : Plan
plan = record {
  command = 8 + 128;
  channel_id = 0;
  start_sequence_number = 2;
  fragment_count = 3;
  total_length = 5;
  packet = 7;
}

abbrev three : List OutgoingCommand
three = fragment plan 0 0 2 ∷ fragment plan 1 2 2 ∷ fragment plan 2 4 1 ∷ []

tiles : Tiles plan 2 0 0 three
tiles = (omega arith, refl, (omega arith, refl, (omega arith, refl, refl)))

abbrev bytes : List ℕ
bytes = 10 ∷ 20 ∷ 30 ∷ 40 ∷ 50 ∷ []

abbrev waiting : IncomingCommand
waiting = record (incoming 2) {
  fragment_count = 3;
  fragments_remaining = 3;
  fragments = some (replicate 3 false);
}

abbrev blank : Packet
blank = record (packet_with 1) { bytes = some (replicate 5 0); data_length = 5 }

awaits : Awaits 5 3 waiting blank
awaits = record {
  fragments = refl;
  fragments_remaining = refl;
  data_length = refl;
  old = replicate 5 0;
  bytes = refl;
  length-old = refl;
}

abbrev arrivals : List ℕ
arrivals = 2 ∷ 0 ∷ 2 ∷ 1 ∷ []

arrivals_below : AllBelow 3 arrivals
arrivals_below = (omega arith, (omega arith, (omega arith, (omega arith, tt))))

arrivals_all : (i : ℕ) → i < 3 → member i arrivals ≡ true
arrivals_all i h = ground arith

cut_lem_example : IsCut plan 2 0 0 [] (cut 5 plan 2 0 0 host).0
cut_lem_example = cut_lem plan 2 host (omega arith) (omega arith)

send-IsFair_example : IsFair 7 (session []) (send 0 7 (session []))
send-IsFair_example = send-IsFair 0 7 (session [])

arrive_all-Tiles_example :
    let (d, k) = arrive_all bytes (carried_by plan three) arrivals waiting blank in
    (d.fragments_remaining ≡ 0) × (k.bytes ≡ some bytes)
arrive_all-Tiles_example =
    arrive_all-Tiles plan 2 three bytes arrivals waiting blank (omega arith) (omega arith) refl
      (omega arith) (omega arith) tiles awaits arrivals_below arrivals_all

last_missing :
    (arrive_all bytes (carried_by plan three) arrivals waiting blank).0.fragments_remaining ≡ 0
unfolding arrive_all fragment enet.Outgoing.new_outgoing
last_missing = refl

arrive_all_sound_example :
    (member 1 arrivals ≡ true)
    × ((arrive_all bytes (carried_by plan three) arrivals waiting blank).1.bytes ≡ some bytes)
arrive_all_sound_example =
    arrive_all_sound bytes 3 (carried_by plan three) arrivals waiting blank 1
      (Tiles-IsCutting plan 2 three bytes (omega arith) (omega arith) refl tiles) (omega arith)
      (omega arith) awaits arrivals_below (omega arith) last_missing

abbrev second : SendFragment
second = record {
  start_sequence_number = 2;
  data_length = 2;
  fragment_count = 3;
  fragment_number = 1;
  total_length = 5;
  fragment_offset = 2;
}

-- The fragment in the middle is the only one that is missing, and the command is the next one.
abbrev almost : IncomingCommand
almost = record waiting { fragments_remaining = 1; fragments = some (true ∷ false ∷ true ∷ []) }

abbrev halves : Packet
halves = record (packet_with 1) { bytes = some (10 ∷ 20 ∷ 0 ∷ 0 ∷ 50 ∷ []); data_length = 5 }

abbrev receiving : Session
receiving = record (session (almost ∷ [])) { host = record host { packets = λ p. halves } }

is_waiting :
    IsWaiting 0 2 second
      (30 ∷ 40 ∷ [])
      almost
      []
      []
      (true ∷ false ∷ true ∷ [])
      (10 ∷ 20 ∷ 0 ∷ 0 ∷ 50 ∷ [])
      receiving
is_waiting = record {
  in_use = omega arith;
  queue = refl;
  nowhere_before = tt;
  nowhere_after = tt;
  no_unreliable = refl;
  packet = refl;
  flags = refl;
  content = refl;
  size = refl;
  small = omega arith;
  inside = omega arith;
  carried = omega arith;
  missing = omega arith;
  countable = omega arith;
}

store_fragment_lem_example :
    IsStored 0 2 second
      (30 ∷ 40 ∷ [])
      almost
      []
      []
      (true ∷ false ∷ true ∷ [])
      (10 ∷ 20 ∷ 0 ∷ 0 ∷ 50 ∷ [])
      receiving
      (store_fragment 0 second (30 ∷ 40 ∷ []) almost receiving)
store_fragment_lem_example =
    store_fragment_lem 0 2 second (30 ∷ 40 ∷ []) almost [] [] (true ∷ false ∷ true ∷ [])
      (10 ∷ 20 ∷ 0 ∷ 0 ∷ 50 ∷ []) receiving is_waiting

-- Two peers, of which the second has sent far more than its bandwidth allows.
abbrev two : List Peer
two =
    peer_in PeerState.connected []
    ∷ record (peer_in PeerState.connected []) { outgoing_data_total = 900000 }
    ∷ []

abbrev sharing : Host
sharing = record host { outgoing_bandwidth = 50000; incoming_bandwidth = 60000 }

bandwidth_throttle_total_example :
    (r : Host × List Peer) × (bandwidth_throttle 2000 sharing two ≡ some r)
bandwidth_throttle_total_example = bandwidth_throttle_total 2000 sharing two

shared : (r : Host × List Peer) × (bandwidth_throttle 2000 sharing two ≡ some r)
shared = bandwidth_throttle_total 2000 sharing two

bandwidth_throttle-AllThrottled_example : AllThrottled shared.0.1
bandwidth_throttle-AllThrottled_example =
    bandwidth_throttle-AllThrottled 2000 sharing two shared.0
      ((omega arith, omega arith), ((omega arith, omega arith), tt)) shared.1
