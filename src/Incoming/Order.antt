-- ===== src/Incoming/Order.antt =====
-- The reliable queue of a channel (src/peer.c) is kept in the order of the sequence numbers,
-- counted from the channel's current number round 2 ^ 16.
use enet.Base.{
  ℕ, ◌+◌, ◌-◌, ◌%◌, ◌^◌, ◌<◌, ◌≤◌, ◌≡◌, refl, Bool, true, false, ◌||◌, List, [], ◌∷◌, none, some,
  ltb, ◌==◌, if◌then◌else◌, arith, inl, inr, ◌⊎◌,
}
use enet.State.{IncomingCommand, Channel}
use enet.Incoming.Search.{judge_reliable, Verdict, Place, search_back}
use enet.Incoming.Queue.{insert_reliable}

-- How far a number lies ahead of the current one.
abbrev pub distance : ℕ → ℕ → ℕ
distance current n = (n + 2 ^ 16 - current) % 2 ^ 16

-- Each command lies further ahead than `low` and the one before it.
abbrev pub Ordered : ℕ → ℕ → List IncomingCommand → Type 0
Ordered current low [] = Unit {0}
Ordered current low (c ∷ cs) =
    (low < distance current c.reliable_sequence_number)
    × (c.reliable_sequence_number < 2 ^ 16)
    × Ordered current (distance current c.reliable_sequence_number) cs

-- The reference: insertion into an ordered list, from its front.
unfoldable pub insert_ordered : ℕ → IncomingCommand → List IncomingCommand → List IncomingCommand
insert_ordered current new [] = new ∷ []
insert_ordered current new (c ∷ cs) =
    if ltb (distance current c.reliable_sequence_number)
      (distance current new.reliable_sequence_number)
    then c ∷ insert_ordered current new cs
    else new ∷ c ∷ cs

-- Whether a command of this number is in the list.
unfoldable pub holds : ℕ → List IncomingCommand → Bool
holds n [] = false
holds n (c ∷ cs) = c.reliable_sequence_number == n || holds n cs

abbrev precedes : ℕ → IncomingCommand → List IncomingCommand → Bool
precedes current new [] = true
precedes current new (c ∷ cs) =
    ltb (distance current new.reliable_sequence_number)
      (distance current c.reliable_sequence_number)

module _ (current : ℕ) (small : current < 2 ^ 16) where
  judge-stop :
      (n q : ℕ)
      → n < 2 ^ 16
      → q < 2 ^ 16
      → distance current q < distance current n
      → judge_reliable current n q ≡ Verdict.stop
  unfolding judge_reliable
  judge-stop n q hn hq h = ground arith

  judge-skip :
      (n q : ℕ)
      → n < 2 ^ 16
      → q < 2 ^ 16
      → distance current n < distance current q
      → judge_reliable current n q ≡ Verdict.skip
  unfolding judge_reliable
  judge-skip n q hn hq h = ground arith

  judge-discard : (n : ℕ) → judge_reliable current n n ≡ Verdict.discard
  unfolding judge_reliable
  judge-discard n = ground arith

  -- What the search comes to, by the reference.
  place_of : IncomingCommand → List IncomingCommand → Place
  place_of new l =
      if holds new.reliable_sequence_number l
      then Place.duplicate
      else if precedes current new l
      then Place.front
      else Place.placed (insert_ordered current new l)

  module _ (new : IncomingCommand) (fits : new.reliable_sequence_number < 2 ^ 16) where
    abbrev judge : IncomingCommand → Verdict
    judge o = judge_reliable current new.reliable_sequence_number o.reliable_sequence_number

    later :
        (low : ℕ) (l : List IncomingCommand)
        → Ordered current low l
        → precedes current new l ≡ false
        → low < distance current new.reliable_sequence_number
    later low [] o e = cc
    later low (c ∷ cs) o e = ground arith

    insert-precedes :
        (l : List IncomingCommand)
        → precedes current new l ≡ true
        → insert_ordered current new l ≡ new ∷ l
    unfolding insert_ordered
    insert-precedes [] e = refl
    insert-precedes (c ∷ cs) e = ground arith

    holds_far :
        (low : ℕ) (l : List IncomingCommand)
        → Ordered current low l
        → distance current new.reliable_sequence_number ≤ low
        → holds new.reliable_sequence_number l ≡ false
    unfolding holds
    holds_far low [] o h = refl
    holds_far low (c ∷ cs) o h =
        ground (arith, holds_far (distance current c.reliable_sequence_number) cs)

    precedes_near :
        (low : ℕ) (l : List IncomingCommand)
        → Ordered current low l
        → distance current new.reliable_sequence_number ≤ low
        → precedes current new l ≡ true
    precedes_near low [] o h = refl
    precedes_near low (c ∷ cs) o h = ground arith

    -- One command of the queue, by how far it and the new one lie ahead.
    module _ (c : IncomingCommand) (cs : List IncomingCommand)
        (o : Ordered current (distance current c.reliable_sequence_number) cs)
        (fits_c : c.reliable_sequence_number < 2 ^ 16)
        (rest : search_back judge new cs ≡ place_of new cs) where
      step_nearer :
          distance current c.reliable_sequence_number
            < distance current new.reliable_sequence_number
          → search_back judge new (c ∷ cs) ≡ place_of new (c ∷ cs)
      unfolding search_back place_of holds insert_ordered
      step_nearer h = ground (
        arith,
        rest,
        insert-precedes cs,
        judge-stop new.reliable_sequence_number c.reliable_sequence_number,
      )

      step_farther :
          distance current new.reliable_sequence_number
            < distance current c.reliable_sequence_number
          → search_back judge new (c ∷ cs) ≡ place_of new (c ∷ cs)
      unfolding search_back place_of holds insert_ordered
      step_farther h = ground (
        arith,
        rest,
        holds_far (distance current c.reliable_sequence_number) cs,
        precedes_near (distance current c.reliable_sequence_number) cs,
        judge-skip new.reliable_sequence_number c.reliable_sequence_number,
      )

      step_same :
          new.reliable_sequence_number ≡ c.reliable_sequence_number
          → search_back judge new (c ∷ cs) ≡ place_of new (c ∷ cs)
      unfolding search_back place_of holds insert_ordered
      step_same h = ground (
        arith,
        rest,
        holds_far (distance current c.reliable_sequence_number) cs,
        precedes_near (distance current c.reliable_sequence_number) cs,
        judge-discard c.reliable_sequence_number,
      )

    distances :
        (q : ℕ)
        → q < 2 ^ 16
        → (distance current q < distance current new.reliable_sequence_number)
          ⊎ ((distance current new.reliable_sequence_number < distance current q)
              ⊎ (new.reliable_sequence_number ≡ q))
    distances q h = grind arith

    search-place_of :
        (low : ℕ) (l : List IncomingCommand)
        → Ordered current low l
        → search_back judge new l ≡ place_of new l
    unfolding search_back place_of holds insert_ordered
    search-place_of low [] o = refl
    search-place_of low (c ∷ cs) o =
        let rest = search-place_of (distance current c.reliable_sequence_number) cs o.2 in
        elim (distances c.reliable_sequence_number o.1) [
          | inl h ↦ step_nearer c cs o.2 o.1 rest h
          | inr (inl h) ↦ step_farther c cs o.2 o.1 rest h
          | inr (inr h) ↦ step_same c cs o.2 o.1 rest h
        ]

    insert-Ordered :
        (low : ℕ) (l : List IncomingCommand)
        → Ordered current low l
        → low < distance current new.reliable_sequence_number
        → holds new.reliable_sequence_number l ≡ false
        → Ordered current low (insert_ordered current new l)
    unfolding insert_ordered holds
    insert-Ordered low [] o h e = (h, fits, tt)
    insert-Ordered low (c ∷ cs) o h e = elim (distances c.reliable_sequence_number o.1) [
      | inl k ↦
          ground (arith, insert-Ordered (distance current c.reliable_sequence_number) cs o.2 k)
      | inr (inl k) ↦ ground arith
      | inr (inr k) ↦ absurd (ground arith)
    ]

-- With numbers of sixteen bits, on an ordered queue: the backward search and insertion of
-- `enet_peer_queue_incoming_command` do what insertion in the order of the distances does: the
-- current number and a number that is queued already are discarded, and any other command gets its
-- place.
pub insert_reliable_lem :
    (c : Channel) (new : IncomingCommand)
    → c.incoming_reliable_sequence_number < 2 ^ 16
    → new.reliable_sequence_number < 2 ^ 16
    → Ordered c.incoming_reliable_sequence_number 0 c.incoming_reliable_commands
    → insert_reliable c new ≡ (
        if new.reliable_sequence_number == c.incoming_reliable_sequence_number
          || holds new.reliable_sequence_number c.incoming_reliable_commands
        then none
        else some (record c {
          incoming_reliable_commands =
              insert_ordered c.incoming_reliable_sequence_number new c.incoming_reliable_commands;
        }))
unfolding insert_reliable place_of
insert_reliable_lem c new small fits o = ground (
  arith,
  search-place_of c.incoming_reliable_sequence_number small new fits 0 c.incoming_reliable_commands
      o,
  insert-precedes c.incoming_reliable_sequence_number small new fits c.incoming_reliable_commands,
)

-- With numbers of sixteen bits, a queue in order stays in order when a command is inserted.
pub insert_reliable-Ordered :
    (c c' : Channel) (new : IncomingCommand)
    → c.incoming_reliable_sequence_number < 2 ^ 16
    → new.reliable_sequence_number < 2 ^ 16
    → Ordered c.incoming_reliable_sequence_number 0 c.incoming_reliable_commands
    → insert_reliable c new ≡ some c'
    → Ordered c'.incoming_reliable_sequence_number 0 c'.incoming_reliable_commands
insert_reliable-Ordered c c' new small fits o e = ground (
  arith,
  insert_reliable_lem c new small fits o,
  insert-Ordered c.incoming_reliable_sequence_number small new fits 0 c.incoming_reliable_commands
      o,
)
