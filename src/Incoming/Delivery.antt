-- ===== src/Incoming/Delivery.antt =====
-- Reliable commands are handed over in sequence, each once (src/peer.c,
-- `enet_peer_dispatch_incoming_reliable_commands`).
use enet.Base.{
  ℕ, ◌+◌, ◌-◌, ◌^◌, ◌%◌, ◌==◌, ◌<◌, ◌≤◌, ◌≡◌, refl, ap, true, false, List, [], ◌∷◌, ◌++◌, Option,
  if◌then◌else◌, arith, Bool-cases, inl, inr, u16, length, get_or, get_or-set_self, is_empty,
  append-nil, ◌∙◌, subst,
}
use enet.State.{IncomingCommand, Channel, Session}
use enet.Outgoing.{channel_at, new_channel}
use enet.Events.{enter_dispatch_queue}
use enet.Incoming.Dispatch.{number_after, is_next, split_ready, dispatch_reliable, hand_ready}
use enet.Incoming.Order.{distance}

-- How many numbers a command takes in the sender's sequence: one, or one for each fragment.
abbrev pub width : IncomingCommand → ℕ
width c = if c.fragment_count == 0 then 1 else c.fragment_count

-- The commands follow one another from the number `current`, are complete, and lead to `reached`.
abbrev pub Runs : ℕ → List IncomingCommand → ℕ → Type 0
Runs current [] reached = reached ≡ current
Runs current (c ∷ cs) reached =
    (c.reliable_sequence_number ≡ (current + 1) % 2 ^ 16)
    × (c.fragments_remaining ≡ 0)
    × Runs ((current + width c) % 2 ^ 16) cs reached

-- The first command of the list is not the next one, or not complete.
abbrev pub IsBlocked : ℕ → List IncomingCommand → Type 0
IsBlocked current [] = Unit {0}
IsBlocked current (c ∷ cs) =
    (c.reliable_sequence_number ≡ (current + 1) % 2 ^ 16) × (c.fragments_remaining ≡ 0) → ⊥

pub record Splits (current : ℕ) (l ready rest : List IncomingCommand) (reached : ℕ) : Type 0 where
  pub whole : l ≡ ready ++ rest
  pub runs : Runs current ready reached
  pub blocked : IsBlocked reached rest

is_next_parts :
    (current : ℕ) (c : IncomingCommand)
    → is_next current c ≡ true
    → (c.reliable_sequence_number ≡ u16 (current + 1)) × (c.fragments_remaining ≡ 0)
unfolding is_next
is_next_parts current c e = ground arith

is_next_misses :
    (current : ℕ) (c : IncomingCommand)
    → is_next current c ≡ false
    → (c.reliable_sequence_number ≡ u16 (current + 1)) × (c.fragments_remaining ≡ 0)
    → ⊥
unfolding is_next
is_next_misses current c e (p, q) = ground arith

-- A command that follows on `current` leads past the numbers it takes.
number_after-width :
    (current : ℕ) (c : IncomingCommand)
    → c.reliable_sequence_number ≡ u16 (current + 1)
    → number_after c ≡ (current + width c) % 2 ^ 16
unfolding number_after
number_after-width current c e = ground arith

split_ready-Splits :
    (current : ℕ) (l : List IncomingCommand)
    → Splits current l (split_ready current l).0 (split_ready current l).1 (split_ready current l).2
unfolding split_ready
split_ready-Splits current [] = record { whole = refl; runs = refl; blocked = tt }
split_ready-Splits current (c ∷ cs) =
    let ih = split_ready-Splits (number_after c) cs in
    elim (Bool-cases (is_next current c)) [
      | inl e ↦ rw e (record {
        whole = ap (◌∷◌ c) ih.whole;
        runs = (
          (is_next_parts current c e).0,
          (is_next_parts current c e).1,
          subst
              (λ x. Runs x (split_ready (number_after c) cs).0 (split_ready (number_after c) cs).2)
              (number_after-width current c (is_next_parts current c e).0) ih.runs,
        );
        blocked = ih.blocked;
      })
      | inr e ↦ rw e (record { whole = refl; runs = refl; blocked = is_next_misses current c e })
    ]

-- An honest queue: in the order of the distances, and no command starts within the fragments of
-- the one before it.
abbrev pub Spaced : ℕ → ℕ → List IncomingCommand → Type 0
Spaced current low [] = Unit {0}
Spaced current low (c ∷ cs) =
    (low < distance current c.reliable_sequence_number)
    × (c.reliable_sequence_number < 2 ^ 16)
    × (distance current c.reliable_sequence_number + c.fragment_count < 2 ^ 16)
    × Spaced current (distance current c.reliable_sequence_number + width c - 1) cs

-- The distances counted from a later number.
rebase :
    (current base n : ℕ)
    → current < 2 ^ 16
    → base < 2 ^ 16
    → n < 2 ^ 16
    → distance current base ≤ distance current n
    → distance base n ≡ distance current n - distance current base
rebase current base n hc hb hn h = grind arith

number_after-lt :
    (c : IncomingCommand) → c.reliable_sequence_number < 2 ^ 16 → number_after c < 2 ^ 16
unfolding number_after
number_after-lt c h = ground arith

-- How far the last number of a command is.
number_after-distance :
    (current : ℕ) (c : IncomingCommand)
    → current < 2 ^ 16
    → c.reliable_sequence_number < 2 ^ 16
    → distance current c.reliable_sequence_number + c.fragment_count < 2 ^ 16
    → distance current (number_after c) ≡ distance current c.reliable_sequence_number + width c - 1
unfolding number_after
number_after-distance current c hc hn h = ground arith

Spaced-rebase :
    (current base low : ℕ) (l : List IncomingCommand)
    → current < 2 ^ 16
    → base < 2 ^ 16
    → distance current base ≤ low
    → Spaced current low l
    → Spaced base (low - distance current base) l
Spaced-rebase current base low [] hc hb h o = tt
Spaced-rebase current base low (c ∷ cs) hc hb h o =
    let r = rebase current base c.reliable_sequence_number hc hb o.1 (omega arith) in
    let last = distance current c.reliable_sequence_number + width c - 1 in
    let ih = Spaced-rebase current base last cs hc hb (ground arith) o.3 in
    (omega (arith, r), o.1, omega (arith, r), subst (λ x. Spaced base x cs) (ground (arith, r)) ih)

split_ready-Spaced :
    (current : ℕ) (l : List IncomingCommand)
    → current < 2 ^ 16
    → Spaced current 0 l
    → ((split_ready current l).2 < 2 ^ 16)
      × Spaced (split_ready current l).2 0 (split_ready current l).1
unfolding split_ready
split_ready-Spaced current [] h o = (h, tt)
split_ready-Spaced current (c ∷ cs) h o = elim (Bool-cases (is_next current c)) [
  | inl e ↦ rw e (
      split_ready-Spaced (number_after c) cs (number_after-lt c o.1) (
        subst (λ x. Spaced (number_after c) x cs) (omega (arith, reach))
          (Spaced-rebase current (number_after c) last cs h (number_after-lt c o.1)
            (omega (arith, reach)) o.3)))
  | inr e ↦ rw e (h, o)
]
  where
    last : ℕ
    last = distance current c.reliable_sequence_number + width c - 1

    reach : distance current (number_after c) ≡ last
    reach = number_after-distance current c h o.1 o.2

-- What `enet_peer_dispatch_incoming_reliable_commands` does to the queue of its channel, whose
-- number has sixteen bits and in which no command lies within the fragments of another: it takes
-- from the front the longest run of complete commands that follow one another from the channel's
-- current number, where a command takes one number, or one for each of its fragments, and the number
-- reached is the last one taken. The rest keeps that order, counted from the number reached.
pub split_ready_lem :
    (current : ℕ) (l : List IncomingCommand)
    → current < 2 ^ 16
    → Spaced current 0 l
    → let (ready, rest, reached) = split_ready current l in
      Splits current l ready rest reached × (reached < 2 ^ 16) × Spaced reached 0 rest
split_ready_lem current l h o = (
  split_ready-Splits current l,
  (split_ready-Spaced current l h o).0,
  (split_ready-Spaced current l h o).1,
)

enter_dispatch_queue_lem :
    (s : Session)
    → ((enter_dispatch_queue s).peer.dispatched_commands ≡ s.peer.dispatched_commands)
      × ((enter_dispatch_queue s).peer.channels ≡ s.peer.channels)
      × ((enter_dispatch_queue s).peer.needs_dispatch ≡ true)
unfolding enter_dispatch_queue
enter_dispatch_queue_lem s = (ground arith, ground arith, ground arith)

hand_ready_lem :
    (id : ℕ) (ready rest : List IncomingCommand) (reached : ℕ) (s : Session)
    → id < length s.peer.channels
    → let t = enter_dispatch_queue (hand_ready id ready rest reached s) in
      (t.peer.dispatched_commands ≡ s.peer.dispatched_commands ++ ready)
      × ((channel_at t.peer id).incoming_reliable_commands ≡ rest)
      × ((channel_at t.peer id).incoming_reliable_sequence_number ≡ reached)
      × (t.peer.needs_dispatch ≡ true)
unfolding hand_ready
hand_ready_lem id ready rest reached s h =
    let t = hand_ready id ready rest reached s in
    let q = enter_dispatch_queue_lem t in
    let c = record (channel_at s.peer id) {
      incoming_reliable_sequence_number = reached;
      incoming_unreliable_sequence_number = 0;
      incoming_reliable_commands = rest;
    } in
    let found =
      ap (λ l. get_or l id new_channel) q.1 ∙ get_or-set_self s.peer.channels id c new_channel h in
    (
      q.0,
      ap (λ (k : Channel). k.incoming_reliable_commands) found,
      ap (λ (k : Channel). k.incoming_reliable_sequence_number) found,
      q.2,
    )

-- `enet_peer_dispatch_incoming_reliable_commands` on an allocated channel without waiting
-- unreliable commands: the run of ready commands goes, in order, behind the commands that the
-- application has still to fetch, the rest stays, the channel's number is the one reached, and the
-- peer is marked for dispatch exactly if it was or something was handed over.
pub dispatch_reliable_lem :
    (id : ℕ) (exclude : Option ℕ) (s : Session)
    → id < length s.peer.channels
    → (channel_at s.peer id).incoming_unreliable_commands ≡ []
    → let c = channel_at s.peer id in
      let (ready, rest, reached) =
        split_ready c.incoming_reliable_sequence_number c.incoming_reliable_commands in
      let t = dispatch_reliable id exclude s in
      (t.peer.dispatched_commands ≡ s.peer.dispatched_commands ++ ready)
      × ((channel_at t.peer id).incoming_reliable_commands ≡ rest)
      × ((channel_at t.peer id).incoming_reliable_sequence_number ≡ reached)
      × (t.peer.needs_dispatch ≡ (if is_empty ready then s.peer.needs_dispatch else true))
unfolding dispatch_reliable
dispatch_reliable_lem id exclude s h e =
    let c = channel_at s.peer id in
    let (ready, rest, reached) =
      split_ready c.incoming_reliable_sequence_number c.incoming_reliable_commands in
    ground (
      arith,
      split_ready-Splits c.incoming_reliable_sequence_number c.incoming_reliable_commands,
      append-nil s.peer.dispatched_commands,
      hand_ready_lem id ready rest reached s h,
    )
