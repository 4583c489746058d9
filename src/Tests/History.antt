-- ===== src/Tests/History.antt =====
-- The history of a channel over a wrap of the sequence numbers: position 65536, with the number 0,
-- arrives before position 65535, and once more after it.
use enet.Base.{ℕ, ◌+◌, ◌<◌, ◌≤◌, ◌≡◌, true, [], ◌∷◌, ◌++◌, List, some, refl, arith, u16, length}
use enet.State.{IncomingCommand, Channel, Session}
use enet.Outgoing.{channel_at, window_of}
use enet.Incoming.Search.{outside_window, judge_reliable, search_back}
use enet.Incoming.Dispatch.{number_after, is_next, split_ready}
use enet.Incoming.Queue.{insert_reliable, queue_incoming_command}
use enet.Incoming.Positions.{range, has}
use enet.Incoming.History.{arrive, IsStream, pick}
use enet.Incoming.InOrder.{Life, Life-in_order, Life-complete}
use enet.Wire.{kind}
use enet.Incoming.Arrival.{IsRegular, received, queue_incoming_command_lem}
use enet.Tests.{channel, incoming, session, reliable_command}

abbrev sent : ℕ → IncomingCommand
sent i = incoming (u16 i)

sent-IsStream : IsStream sent
sent-IsStream = record {
  number = λ i. refl;
  fragment_count = λ i. refl;
  fragments_remaining = λ i. refl;
}

abbrev first : List IncomingCommand × Channel
first = arrive (channel 65534 []) (sent 65536)

abbrev second : List IncomingCommand × Channel
second = arrive first.1 (sent 65535)

abbrev third : List IncomingCommand × Channel
third = arrive second.1 (sent 65536)

abbrev seen : List ℕ
seen = 65536 ∷ 65535 ∷ 65536 ∷ []

abbrev out : List IncomingCommand
out = (first.0 ++ second.0) ++ third.0

life : Life sent 65534 third.1 seen out
unfolding arrive outside_window window_of judge_reliable search_back number_after is_next
    split_ready insert_reliable
life =
    Life.more
      (Life.more
        (Life.more (Life.begin (channel 65534 []) refl refl) 65536 (omega arith, omega arith)) 65535
        (omega arith, omega arith))
      65536 (omega arith, omega arith)

-- Both are handed over, in the sender's order, and neither twice.
out_test : out ≡ sent 65535 ∷ sent 65536 ∷ []
unfolding arrive outside_window window_of judge_reliable search_back number_after is_next
    split_ready insert_reliable
out_test = refl

Life-in_order_example :
    (out ≡ pick sent (range 65535 (length out)))
    × (third.1.incoming_reliable_sequence_number ≡ u16 (65534 + length out))
Life-in_order_example = Life-in_order sent sent-IsStream 65534 life

seen_all : (i : ℕ) → 65534 < i → i ≤ 65534 + 2 → has i seen ≡ true
seen_all i a b = ground arith

Life-complete_example : 2 ≤ length out
Life-complete_example = Life-complete sent sent-IsStream 65534 life 2 seen_all

-- Command 3 waits for command 2, which arrives.
abbrev before : Session
before = session (incoming 3 ∷ [])

regular : IsRegular (reliable_command 2) before
unfolding kind
regular = record {
  command = refl;
  state = refl;
  channel = omega arith;
  unreliable = refl;
  room = omega arith;
  memory = refl;
}

queue_incoming_command_lem_example :
    let t = (queue_incoming_command (reliable_command 2) (some []) 10 1 0 before).1 in
    let (ready, lane) =
      arrive (channel 1 (incoming 3 ∷ [])) (received (reliable_command 2) before) in
    (t.peer.dispatched_commands ≡ ready)
    × ((channel_at t.peer 0).incoming_reliable_commands ≡ lane.incoming_reliable_commands)
    × ((channel_at t.peer 0).incoming_reliable_sequence_number
        ≡ lane.incoming_reliable_sequence_number)
queue_incoming_command_lem_example =
    queue_incoming_command_lem (reliable_command 2) (some []) 10 1 before regular
