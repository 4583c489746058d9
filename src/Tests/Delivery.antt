-- ===== src/Tests/Delivery.antt =====
-- The theorems on a channel's reliable queue at concrete commands.
use enet.Base.{◌≡◌, ◌<◌, ◌^◌, [], ◌∷◌, List, none, some, true, refl, arith}
use enet.State.{IncomingCommand, Channel}
use enet.Outgoing.{channel_at}
use enet.Incoming.Dispatch.{split_ready, dispatch_reliable, number_after, is_next}
use enet.Incoming.Queue.{insert_reliable}
use enet.Incoming.Order.{
  Ordered, insert_ordered, holds, insert_reliable_lem, insert_reliable-Ordered,
}
use enet.Incoming.Delivery.{Splits, Spaced, split_ready_lem, dispatch_reliable_lem}
use enet.Tests.{channel, incoming, assembled, session}

-- The channel stands before the wrap, and a command from before it comes after one from behind it.
abbrev wrapping : Channel
wrapping = channel 65530 (incoming 65532 ∷ incoming 3 ∷ [])

abbrev widened : Channel
widened = channel 65530 (incoming 65532 ∷ incoming 65535 ∷ incoming 3 ∷ [])

insert_reliable_lem_example : insert_reliable wrapping (incoming 65535) ≡ some widened
unfolding insert_ordered holds
insert_reliable_lem_example =
    insert_reliable_lem wrapping (incoming 65535) (omega arith) (omega arith)
      (omega arith, omega arith, (omega arith, omega arith, tt))

abbrev second : Channel
second = channel 1 (incoming 2 ∷ [])

second_found : insert_reliable (channel 1 []) (incoming 2) ≡ some second
unfolding insert_reliable insert_ordered holds
second_found = insert_reliable_lem (channel 1 []) (incoming 2) (omega arith) (omega arith) tt

insert_reliable-Ordered_example : Ordered 1 0 (incoming 2 ∷ [])
insert_reliable-Ordered_example =
    insert_reliable-Ordered (channel 1 []) second (incoming 2) (omega arith) (omega arith) tt
      second_found

-- A group of three fragments, the command after it, and one that has to wait.
abbrev waiting : List IncomingCommand
waiting = assembled 2 3 ∷ incoming 5 ∷ incoming 8 ∷ []

spaced : Spaced 1 0 waiting
spaced = ground arith

split_ready_lem_example :
    let (ready, rest, reached) = split_ready 1 waiting in
    Splits 1 waiting ready rest reached × (reached < 2 ^ 16) × Spaced reached 0 rest
split_ready_lem_example = split_ready_lem 1 waiting (omega arith) spaced

-- The first two are handed over.
split_ready_test : split_ready 1 waiting ≡ (assembled 2 3 ∷ incoming 5 ∷ [], incoming 8 ∷ [], 5)
unfolding split_ready number_after is_next
split_ready_test = refl

dispatch_reliable_lem_example :
    let (ready, rest, reached) = split_ready 1 waiting in
    let t = dispatch_reliable 0 none (session waiting) in
    (t.peer.dispatched_commands ≡ ready)
    × ((channel_at t.peer 0).incoming_reliable_commands ≡ rest)
    × ((channel_at t.peer 0).incoming_reliable_sequence_number ≡ reached)
    × (t.peer.needs_dispatch ≡ true)
unfolding split_ready number_after is_next
dispatch_reliable_lem_example = dispatch_reliable_lem 0 none (session waiting) (omega arith) refl
