-- ===== src/Incoming/InOrder.antt =====
-- Delivery in order: what a channel has handed over after any history of arrivals (src/peer.c).
use enet.Base.{
  ℕ, zero, suc, ◌+◌, ◌*◌, ◌<◌, ◌≤◌, ◌≡◌, ◌⊎◌, inl, inr, refl, ap, ◌∙◌, true, List, [], ◌∷◌, ◌++◌,
  leb, arith, Bool-cases, length, u16, length-append,
}
use enet.State.{IncomingCommand, Channel}
use enet.Incoming.Positions.{has, range, advance, Stops, advance-Stops, advance-has}
use enet.Incoming.History.{arrive, arrive-lem, after, IsStream, IsTimely, pick}

-- The histories of a channel that stood at position `start`: the positions that have arrived so
-- far, the last one first, and the commands handed over, the first one first.
pub data Life (sent : ℕ → IncomingCommand) (start : ℕ)
    : Channel → List ℕ → List IncomingCommand → Type 0 where
  begin :
      (c : Channel)
      → c.incoming_reliable_sequence_number ≡ u16 start
      → c.incoming_reliable_commands ≡ []
      → Life sent start c [] []
  more :
      {c : Channel} {seen : List ℕ} {out : List IncomingCommand}
      → Life sent start c seen out
      → (i : ℕ) → IsTimely (start + length out) i
      → Life sent start (arrive c (sent i)).1 (i ∷ seen) (out ++ (arrive c (sent i)).0)

length-pick : (sent : ℕ → IncomingCommand) (i n : ℕ) → length (pick sent (range i n)) ≡ n
length-pick sent i zero = refl
length-pick sent i (suc n) = ap suc (length-pick sent (suc i) n)

pick-range :
    (sent : ℕ → IncomingCommand) (i n m : ℕ)
    → pick sent (range i n) ++ pick sent (range (i + n) m) ≡ pick sent (range i (n + m))
pick-range sent i zero m = ground arith
pick-range sent i (suc n) m =
    let past : i + suc n ≡ suc i + n = omega arith in
    let total : suc n + m ≡ suc (n + m) = omega arith in
    rw past (rw total (ap (◌∷◌ (sent i)) (pick-range sent (suc i) n m)))

-- What is kept along a history.
record Kept (sent : ℕ → IncomingCommand) (start : ℕ) (c : Channel) (seen : List ℕ)
    (out : List IncomingCommand) : Type 0 where
  waiting : List ℕ
  stops : Stops (start + length out + 6 * 4096) (start + length out) waiting
  number : c.incoming_reliable_sequence_number ≡ u16 (start + length out)
  queue : c.incoming_reliable_commands ≡ pick sent waiting
  delivered : out ≡ pick sent (range (suc start) (length out))
  arrived : (k : ℕ) → has k seen ≡ true → (k ≤ start + length out) ⊎ (has k waiting ≡ true)

module _ (sent : ℕ → IncomingCommand) (stream : IsStream sent) (start : ℕ) where
  after-Kept :
      (c : Channel) (seen : List ℕ) (out : List IncomingCommand) (i : ℕ)
      (k : Kept sent start c seen out)
      → IsTimely (start + length out) i
      → Kept sent start
          (after sent c (start + length out) k.waiting i).1
          (i ∷ seen)
          (out ++ (after sent c (start + length out) k.waiting i).0)
  after-Kept c seen out i k timely =
      let j = start + length out in
      let (n, rest) = advance j k.waiting i in
      let new = pick sent (range (suc j) n) in
      let size : length (out ++ new) ≡ length out + n =
        length-append out new ∙ ap (◌+◌ (length out)) (length-pick sent (suc j) n) in
      let reach : start + length (out ++ new) ≡ j + n = omega (arith, size) in
      let past : suc start + length out ≡ suc j = omega arith in
      record {
        waiting = rest;
        stops = rw reach (advance-Stops j i k.waiting timely.0 k.stops);
        number = rw reach refl;
        queue = refl;
        delivered = rw size (
            ap (λ l. l ++ new) k.delivered
            ∙ (rw past at (pick-range sent (suc start) (length out) n)));
        arrived = λ q e. rw reach (advance-has j i q k.waiting (ground (arith, k.arrived q)));
      }

  Life-Kept :
      {c : Channel} {seen : List ℕ} {out : List IncomingCommand}
      → Life sent start c seen out
      → Kept sent start c seen out
  Life-Kept (begin c number queue) = record {
    waiting = [];
    stops = record { ascending = tt; below = tt; gap = refl };
    number = ground (arith, number);
    queue = queue;
    delivered = refl;
    arrived = λ k e. cc;
  }
  Life-Kept (more {c} {seen} {out} life i timely) =
      let k = Life-Kept life in
      let e =
        arrive-lem sent stream c (start + length out) i k.waiting timely k.stops k.number k.queue in
      rw e (after-Kept c seen out i k timely)

-- A sender numbers its commands in sequence, and none is a fragment. The channel starts with an
-- empty queue at the number of position `start`. Whatever then arrives, in any order and any number
-- of times, but no position more than six windows ahead of the last one handed over or eight behind
-- it: what has been handed over are the sender's commands from the first one after `start` on, each
-- once and in the sender's order, and the channel's number is that of the last of them.
pub Life-in_order :
    (sent : ℕ → IncomingCommand)
    → IsStream sent
    → (start : ℕ) {c : Channel} {seen : List ℕ} {out : List IncomingCommand}
    → Life sent start c seen out
    → (out ≡ pick sent (range (suc start) (length out)))
      × (c.incoming_reliable_sequence_number ≡ u16 (start + length out))
Life-in_order sent stream start life =
    let k = Life-Kept sent stream start life in (k.delivered, k.number)

-- A sender numbers its commands in sequence, none a fragment, a channel starts at one of them with
-- an empty queue, and commands arrive in any order, none more than six windows ahead of the last one
-- handed over or eight behind it: if the next `count` commands after the start have all arrived,
-- then at least so many have been handed over.
pub Life-complete :
    (sent : ℕ → IncomingCommand)
    → IsStream sent
    → (start : ℕ) {c : Channel} {seen : List ℕ} {out : List IncomingCommand}
    → Life sent start c seen out
    → (count : ℕ) → ((i : ℕ) → start < i → i ≤ start + count → has i seen ≡ true)
    → count ≤ length out
Life-complete sent stream start {out = out} life count all =
    let k = Life-Kept sent stream start life in
    let j = start + length out in
    elim (Bool-cases (leb count (length out))) [
      | inl t ↦ ground arith
      | inr t ↦ absurd (
          ground
            (arith, k.stops.gap, k.arrived (suc j) (all (suc j) (ground arith) (ground arith))))
    ]
