-- ===== src/Incoming/History.antt =====
-- A reliable channel over its whole life (src/peer.c, the window test, the queue and the hand-over
-- of `enet_peer_queue_incoming_command`): the commands of one sender, given to it in any order and
-- any number of times.
use enet.Base.{
  ℕ, suc, ◌+◌, ◌-◌, ◌*◌, ◌^◌, ◌<◌, ◌≤◌, ◌≡◌, inl, inr, refl, true, false, List, [], ◌∷◌, none, some,
  leb, ◌==◌, if◌then◌else◌, arith, Bool-cases, u16,
}
use enet.State.{IncomingCommand, Channel}
use enet.Incoming.Search.{outside_window}
use enet.Outgoing.{window_of}
use enet.Incoming.Dispatch.{number_after, is_next, split_ready}
use enet.Incoming.Queue.{insert_reliable}
use enet.Incoming.Positions.{
  Ascending, Below, has, put, range, run, advance, Stops, put-Ascending, put-Below,
}
use enet.Incoming.Order.{distance, Ordered, insert_ordered, holds, insert_reliable_lem}

-- What a reliable command does to its channel: refused outside the window or as one that is there,
-- otherwise queued, and the run that is ready leaves the queue.
unfoldable pub arrive : Channel → IncomingCommand → List IncomingCommand × Channel
arrive c new =
    let current = c.incoming_reliable_sequence_number in
    if outside_window current new.reliable_sequence_number
    then ([], c)
    else elim (insert_reliable c new) [
      | none ↦ ([], c)
      | some c' ↦
          let (ready, rest, reached) = split_ready current c'.incoming_reliable_commands in
          (
            ready,
            record c' {
              incoming_reliable_sequence_number = reached;
              incoming_reliable_commands = rest;
            },
          )
    ]

abbrev pub pick : (ℕ → IncomingCommand) → List ℕ → List IncomingCommand
pick sent [] = []
pick sent (i ∷ w) = sent i ∷ pick sent w

-- The sender's reliable commands by their position: numbered in sequence, and none in fragments.
pub record IsStream (sent : ℕ → IncomingCommand) : Type 0 where
  pub number : (i : ℕ) → (sent i).reliable_sequence_number ≡ u16 i
  pub fragment_count : (i : ℕ) → (sent i).fragment_count ≡ 0
  pub fragments_remaining : (i : ℕ) → (sent i).fragments_remaining ≡ 0

-- How far a command may lie from the last one that was handed over.
abbrev pub IsTimely : ℕ → ℕ → Type 0
IsTimely j i = (i ≤ j + 6 * 4096) × (j ≤ i + 8 * 4096)

-- An arrival as the positions tell it.
abbrev pub after : (ℕ → IncomingCommand) → Channel → ℕ → List ℕ → ℕ → List IncomingCommand × Channel
after sent c j w i =
    let (n, rest) = advance j w i in
    (
      pick sent (range (suc j) n),
      record c {
        incoming_reliable_sequence_number = u16 (j + n);
        incoming_reliable_commands = pick sent rest;
      },
    )

ahead : (j i : ℕ) → j ≤ i → i < j + 2 ^ 16 → distance (u16 j) (u16 i) ≡ i - j
ahead j i h k = ground arith

alike : (i q j : ℕ) → j ≤ i → j ≤ q → i < j + 2 ^ 16 → q < j + 2 ^ 16 → u16 i ≡ u16 q → i ≡ q
alike i q j a b c d e = ground arith

outside-old : (j i : ℕ) → i < j → j ≤ i + 8 * 4096 → outside_window (u16 j) (u16 i) ≡ true
unfolding outside_window window_of
outside-old j i h k = ground arith

outside-new : (j i : ℕ) → j < i → i ≤ j + 6 * 4096 → outside_window (u16 j) (u16 i) ≡ false
unfolding outside_window window_of
outside-new j i h k = ground arith

insert-current :
    (c : Channel) (new : IncomingCommand)
    → new.reliable_sequence_number ≡ c.incoming_reliable_sequence_number
    → insert_reliable c new ≡ none
unfolding insert_reliable
insert-current c new e = ground arith

module _ (sent : ℕ → IncomingCommand) (stream : IsStream sent) where
  pick-Ordered :
      (j low : ℕ) (w : List ℕ)
      → j ≤ low
      → Ascending low w
      → Below (j + 6 * 4096) w
      → Ordered (u16 j) (low - j) (pick sent w)
  pick-Ordered j low [] h a b = tt
  pick-Ordered j low (i ∷ w) h a b =
      let e = stream.number i in
      let d = ahead j i (omega arith) (omega arith) in
      rw e (rw d (omega arith, omega arith, pick-Ordered j i w (omega arith) a.1 b.1))

  pick-holds :
      (j i low : ℕ) (w : List ℕ)
      → j ≤ low
      → j < i
      → i ≤ j + 6 * 4096
      → Ascending low w
      → Below (j + 6 * 4096) w
      → holds (u16 i) (pick sent w) ≡ has i w
  unfolding holds
  pick-holds j i low [] h k l a b = refl
  pick-holds j i low (q ∷ w) h k l a b =
      ground (arith, stream.number q, pick-holds j i q w (omega arith) k l a.1 b.1, alike i q j)

  pick-insert :
      (j i low : ℕ) (w : List ℕ)
      → j ≤ low
      → j < i
      → i ≤ j + 6 * 4096
      → Ascending low w
      → Below (j + 6 * 4096) w
      → insert_ordered (u16 j) (sent i) (pick sent w) ≡ pick sent (put i w)
  unfolding insert_ordered
  pick-insert j i low [] h k l a b = refl
  pick-insert j i low (q ∷ w) h k l a b = ground (
    arith,
    stream.number q,
    stream.number i,
    ahead j i (omega arith) (omega arith),
    ahead j q (omega arith) (omega arith),
    pick-insert j i q w (omega arith) k l a.1 b.1,
  )

  is_next-pick : (j q : ℕ) → j < q → q < j + 2 ^ 16 → is_next (u16 j) (sent q) ≡ (q == j + 1)
  unfolding is_next
  is_next-pick j q h k =
      ground (arith, stream.number q, stream.fragments_remaining q, alike q (j + 1) j)

  number_after-pick : (q : ℕ) → number_after (sent q) ≡ u16 q
  unfolding number_after
  number_after-pick q = ground (arith, stream.number q, stream.fragment_count q)

  pick-split :
      (j bound : ℕ) (w : List ℕ)
      → bound < j + 2 ^ 16
      → Ascending j w
      → Below bound w
      → split_ready (u16 j) (pick sent w)
        ≡ (pick sent (range (suc j) (run j w).0), pick sent (run j w).1, u16 (j + (run j w).0))
  unfolding split_ready
  pick-split j bound [] h a b = ground arith
  pick-split j bound (q ∷ w) h a b =
      let e = is_next-pick j q (omega arith) (omega arith) in
      let ih = pick-split q bound w (omega arith) a.1 b.1 in
      ground (arith, e, ih, number_after-pick q)

  module _ (c : Channel) (j i : ℕ) (w : List ℕ) (timely : IsTimely j i)
      (stops : Stops (j + 6 * 4096) j w) (number : c.incoming_reliable_sequence_number ≡ u16 j)
      (queue : c.incoming_reliable_commands ≡ pick sent w) where
    ordered : Ordered c.incoming_reliable_sequence_number 0 c.incoming_reliable_commands
    ordered =
        let zero_distance : j - j ≡ 0 = omega arith in
        rw number (
          rw queue
            (rw zero_distance at (pick-Ordered j j w (omega arith) stops.ascending stops.below)))

    inserted :
        j < i
        → insert_reliable c (sent i) ≡ (
            if has i w
            then none
            else some (record c { incoming_reliable_commands = pick sent (put i w) }))
    inserted h =
        let e =
          insert_reliable_lem c (sent i) (ground (arith, number)) (ground (arith, stream.number i))
            ordered in
        ground (
          arith,
          e,
          number,
          queue,
          stream.number i,
          alike i j j,
          pick-holds j i j w (omega arith) h timely.0 stops.ascending stops.below,
          pick-insert j i j w (omega arith) h timely.0 stops.ascending stops.below,
        )

    arrive-old : i ≤ j → arrive c (sent i) ≡ ([], c)
    unfolding arrive
    arrive-old h =
        ground (arith, number, stream.number i, outside-old j i, insert-current c (sent i))

    arrive-new : j < i → arrive c (sent i) ≡ after sent c j w i
    unfolding arrive
    arrive-new h = elim (Bool-cases (has i w)) [
      | inl t ↦ ground (arith, number, queue, stream.number i, outside-new j i, inserted h)
      | inr t ↦ ground (
        arith,
        number,
        stream.number i,
        outside-new j i,
        inserted h,
        pick-split j (j + 6 * 4096) (put i w) (omega arith)
            (put-Ascending j i w h t stops.ascending)
            (put-Below (j + 6 * 4096) i w timely.0 stops.below),
      )
    ]

    pub arrive-lem : arrive c (sent i) ≡ after sent c j w i
    arrive-lem = elim (Bool-cases (leb i j)) [
      | inl t ↦ ground (arith, arrive-old (ground arith), number, queue)
      | inr t ↦ arrive-new (ground arith)
    ]
