-- ===== src/Incoming/Arrival.antt =====
-- `enet_peer_queue_incoming_command` of src/peer.c on a reliable command does to the channel what
-- the short description of an arrival says.
use enet.Base.{
  ℕ, ◌+◌, ◌<◌, ◌≡◌, inl, inr, refl, ap, ◌∙◌, sym, true, false, List, [], ◌∷◌, ◌++◌, Option, none,
  some, arith, Bool-cases, Option-cases, length, length-set, get_or-set_self, append-nil,
}
use enet.Wire.{Protocol, Kind, kind}
use enet.State.{PeerState, Host, Session, IncomingCommand, Channel}
use enet.Packet.{malloc, packet_create}
use enet.Outgoing.{channel_at, set_channel, new_channel}
use enet.Incoming.Search.{Verdict, Place, search_back, judge_reliable, outside_window}
use enet.Incoming.Dispatch.{dispatch_reliable, split_ready}
use enet.Incoming.Queue.{
  insert_reliable, queue_incoming_command, admit, obtain, settle, new_incoming, route, insert,
  Route,
}
use enet.Incoming.Delivery.{dispatch_reliable_lem}
use enet.Incoming.History.{arrive}

shape : Place → ℕ
shape Place.front = 0
shape Place.duplicate = 1
shape (Place.placed _) = 2

shape-search_back :
    (judge : IncomingCommand → Verdict) (a b : IncomingCommand) (l : List IncomingCommand)
    → shape (search_back judge a l) ≡ shape (search_back judge b l)
unfolding search_back shape
shape-search_back judge a b [] = refl
shape-search_back judge a b (c ∷ cs) = ground (arith, shape-search_back judge a b cs)

insert_reliable-none :
    (c : Channel) (a b : IncomingCommand)
    → a.reliable_sequence_number ≡ b.reliable_sequence_number
    → insert_reliable c a ≡ none
    → insert_reliable c b ≡ none
unfolding insert_reliable shape
insert_reliable-none c a b e n =
    let judge = λ (o : IncomingCommand).
      judge_reliable c.incoming_reliable_sequence_number a.reliable_sequence_number
        o.reliable_sequence_number in
    rw (sym e) (ground (arith, n, shape-search_back judge a b c.incoming_reliable_commands))

insert_reliable-keeps :
    (c c' : Channel) (new : IncomingCommand)
    → insert_reliable c new ≡ some c'
    → (c'.incoming_reliable_sequence_number ≡ c.incoming_reliable_sequence_number)
      × (c'.incoming_unreliable_commands ≡ c.incoming_unreliable_commands)
unfolding insert_reliable
insert_reliable-keeps c c' new e = ground arith

obtain-lem :
    (bytes : Option (List ℕ)) (size flags : ℕ) (h : Host)
    → h.allocations ≡ []
    → (obtain bytes size flags 0 h).0 ≡ some (h.next_block, h.next_block + 1, none)
unfolding obtain malloc packet_create
obtain-lem bytes size flags h e = ground arith

-- The command as it is queued.
abbrev pub received : Protocol → Session → IncomingCommand
received c s = record {
  block = s.host.next_block + 1;
  reliable_sequence_number = c.reliable_sequence_number;
  unreliable_sequence_number = 0;
  command = c;
  fragment_count = 0;
  fragments_remaining = 0;
  fragments = none;
  packet = some s.host.next_block;
}

-- A whole reliable command for a channel in use of a connected peer, with memory for it and no
-- unreliable commands waiting.
pub record IsRegular (c : Protocol) (s : Session) : Type 0 where
  pub command : kind c.command ≡ Kind.send_reliable
  pub state : s.peer.state ≡ PeerState.connected
  pub channel : c.channel_id < length s.peer.channels
  pub unreliable : (channel_at s.peer c.channel_id).incoming_unreliable_commands ≡ []
  pub room : s.peer.total_waiting_data < s.host.maximum_waiting_data
  pub memory : s.host.allocations ≡ []

new_number :
    (c : Protocol)
    → (new_incoming c Route.reliable 0).reliable_sequence_number ≡ c.reliable_sequence_number
unfolding new_incoming
new_number c = refl

module _ (c : Protocol) (bytes : Option (List ℕ)) (size flags : ℕ) (s : Session)
    (regular : IsRegular c s) where
  abbrev target : Channel
  target = channel_at s.peer c.channel_id

  -- What there is to compare.
  abbrev Agrees : Session → List IncomingCommand × Channel → Type 0
  Agrees t (ready, channel) =
      (t.peer.dispatched_commands ≡ s.peer.dispatched_commands ++ ready)
      × ((channel_at t.peer c.channel_id).incoming_reliable_commands
          ≡ channel.incoming_reliable_commands)
      × ((channel_at t.peer c.channel_id).incoming_reliable_sequence_number
          ≡ channel.incoming_reliable_sequence_number)

  same-Agrees : Agrees s ([], target)
  same-Agrees = (sym (append-nil s.peer.dispatched_commands), refl, refl)

  abbrev with_channel : Host → ℕ → Channel → Session
  with_channel h waiting c' = record {
    host = h;
    peer = record (set_channel s.peer c.channel_id c') { total_waiting_data = waiting };
  }

  arrive-placed :
      (c' : Channel)
      → insert_reliable target (received c s) ≡ some c'
      → outside_window target.incoming_reliable_sequence_number c.reliable_sequence_number ≡ false
      → let (ready, rest, reached) =
          split_ready c'.incoming_reliable_sequence_number c'.incoming_reliable_commands in
        arrive target (received c s) ≡ (
          ready,
          record c' {
            incoming_reliable_sequence_number = reached;
            incoming_reliable_commands = rest;
          },
        )
  unfolding arrive
  arrive-placed c' e o = ground (arith, e, o, insert_reliable-keeps target c' (received c s) e)

  placed-Agrees :
      (h : Host) (waiting : ℕ) (exclude : Option ℕ) (c' : Channel)
      → insert_reliable target (received c s) ≡ some c'
      → outside_window target.incoming_reliable_sequence_number c.reliable_sequence_number ≡ false
      → Agrees
          (dispatch_reliable c.channel_id exclude (with_channel h waiting c'))
          (arrive target (received c s))
  placed-Agrees h waiting exclude c' e o =
      let keeps = insert_reliable-keeps target c' (received c s) e in
      let found = get_or-set_self s.peer.channels c.channel_id c' new_channel regular.channel in
      let d =
        dispatch_reliable_lem c.channel_id exclude (with_channel h waiting c')
          (rw (length-set s.peer.channels c.channel_id c') regular.channel)
          (ap (λ (k : Channel). k.incoming_unreliable_commands) found
            ∙ keeps.1
            ∙ regular.unreliable) in
      rw (arrive-placed c' e o) (rw found at d.0, rw found at d.1, rw found at d.2)

  abbrev result : Session
  result = (queue_incoming_command c bytes size flags 0 s).1

  refused :
      outside_window target.incoming_reliable_sequence_number c.reliable_sequence_number ≡ true
      → (result ≡ s) × (arrive target (received c s) ≡ ([], target))
  unfolding queue_incoming_command arrive route
  refused o = (ground (arith, o, regular), ground (arith, o))

  duplicate :
      insert_reliable target (received c s) ≡ none
      → (result ≡ s) × (arrive target (received c s) ≡ ([], target))
  unfolding queue_incoming_command arrive route insert new_incoming
  duplicate n =
      let none_before =
        insert_reliable-none target (received c s) (new_incoming c Route.reliable 0) refl n in
      (ground (arith, none_before, regular), ground (arith, n))

  abbrev allocated : Session
  allocated = record s { host = (obtain bytes size flags 0 s.host).1 }

  admitted :
      (c' : Channel)
      → insert_reliable target (received c s) ≡ some c'
      → (admit c.channel_id Route.reliable (new_incoming c Route.reliable 0) bytes size flags s).1
        ≡ settle c.channel_id Route.reliable (received c s) s.host.next_block c' allocated
  unfolding admit new_incoming insert
  admitted c' e = ground (arith, e, obtain-lem bytes size flags s.host regular.memory, regular.room)

  queued :
      (c' : Channel)
      → insert_reliable target (received c s) ≡ some c'
      → outside_window target.incoming_reliable_sequence_number c.reliable_sequence_number ≡ false
      → result ≡ settle c.channel_id Route.reliable (received c s) s.host.next_block c' allocated
  unfolding queue_incoming_command route insert
  queued c' e o =
      let new = new_incoming c Route.reliable 0 in
      elim (Option-cases (insert_reliable target new)) [
        | inl n ↦
            absurd
              (ground (arith, e, insert_reliable-none target new (received c s) (new_number c) n))
        | inr (q, n) ↦ ground (arith, regular, n, o, admitted c' e)
      ]

  refused-Agrees :
      (result ≡ s) × (arrive target (received c s) ≡ ([], target))
      → Agrees result (arrive target (received c s))
  refused-Agrees h = rw h.0 (rw h.1 same-Agrees)

  placed_in-Agrees :
      (c' : Channel)
      → insert_reliable target (received c s) ≡ some c'
      → outside_window target.incoming_reliable_sequence_number c.reliable_sequence_number ≡ false
      → Agrees
          (settle c.channel_id Route.reliable (received c s) s.host.next_block c' allocated)
          (arrive target (received c s))
  unfolding settle
  placed_in-Agrees c' e o = placed-Agrees _ _ (some (s.host.next_block + 1)) c' e o

  result-Agrees : Agrees result (arrive target (received c s))
  result-Agrees =
      elim (Bool-cases
        (outside_window target.incoming_reliable_sequence_number c.reliable_sequence_number)) [
          | inl o ↦ refused-Agrees (refused o)
          | inr o ↦ elim (Option-cases (insert_reliable target (received c s))) [
            | inl n ↦ refused-Agrees (duplicate n)
            | inr (c', e) ↦ rw (queued c' e o) (placed_in-Agrees c' e o)
          ]
        ]

-- `enet_peer_queue_incoming_command` on a whole reliable command for a channel in use of a
-- connected peer, with memory for it and no unreliable commands waiting: what becomes ready goes
-- behind the commands that the application has still to fetch, and the channel's queue and number
-- are those of an arrival.
pub queue_incoming_command_lem :
    (c : Protocol) (bytes : Option (List ℕ)) (size flags : ℕ) (s : Session)
    → IsRegular c s
    → let t = (queue_incoming_command c bytes size flags 0 s).1 in
      let (ready, channel) = arrive (channel_at s.peer c.channel_id) (received c s) in
      (t.peer.dispatched_commands ≡ s.peer.dispatched_commands ++ ready)
      × ((channel_at t.peer c.channel_id).incoming_reliable_commands
          ≡ channel.incoming_reliable_commands)
      × ((channel_at t.peer c.channel_id).incoming_reliable_sequence_number
          ≡ channel.incoming_reliable_sequence_number)
queue_incoming_command_lem c bytes size flags s regular = result-Agrees c bytes size flags s regular
