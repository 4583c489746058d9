-- ===== src/Handlers/Assembly/Stored.antt =====
-- What a fragment does to the queued command, its packet and the channel (src/protocol.c,
-- `store_fragment` of the handlers of fragments).
use enet.Base.{
  ℕ, ◌+◌, ◌^◌, ◌≤◌, ◌<◌, ◌≡◌, ◌⊎◌, refl, sym, ap, ◌∙◌, inl, inr, Bool, true, false, List, [], ◌∷◌,
  ◌++◌, some, sub32, ◌==◌, length, take, get_or, length-set, none, arith, Bool-cases,
  get_or-set_self,
}
use enet.Wire.{SendFragment}
use enet.State.{Session, IncomingCommand, Channel, Packet}
use enet.Packet.{packet_at}
use enet.Outgoing.{channel_at, set_channel, new_channel}
use enet.Handlers.Fragments.{
  store_fragment, change_command, has_fragment, mark_fragment, fill_fragment, fill_packet,
}
use enet.Incoming.Dispatch.{split_ready}
use enet.Handlers.Assembly.{arrive_fragment}
use enet.Handlers.Assembly.Written.{
  IsNowhere, change_once, splice, with_bit, fill_fragment_lem, mark_fragment_lem, dispatch_queue,
}

-- The command `d` waits in the reliable queue of a channel in use, between `before` and `after`, for
-- fragments of packet `p`, whose bytes are `old`; `bits` tells which have arrived. The fragment `f`
-- lies within the packet, and `bytes` begins with what it carries.
pub record IsWaiting (id p : ℕ) (f : SendFragment) (bytes : List ℕ) (d : IncomingCommand)
    (before after : List IncomingCommand) (bits : List Bool) (old : List ℕ) (s : Session)
    : Type 0 where
  pub in_use : id < length s.peer.channels
  pub queue : (channel_at s.peer id).incoming_reliable_commands ≡ before ++ (d ∷ after)
  pub nowhere_before : IsNowhere d.block before
  pub nowhere_after : IsNowhere d.block after
  pub no_unreliable : (channel_at s.peer id).incoming_unreliable_commands ≡ []
  pub packet : d.packet ≡ some p
  pub flags : d.fragments ≡ some bits
  pub content : (packet_at s.host p).bytes ≡ some old
  pub size : (packet_at s.host p).data_length ≡ length old
  pub small : length old < 2 ^ 32
  pub inside : f.fragment_offset + f.data_length ≤ length old
  pub carried : f.data_length ≤ length bytes
  pub missing : 0 < d.fragments_remaining
  pub countable : d.fragments_remaining < 2 ^ 32

-- What the channel's queue, its number and the commands for the application are after a fragment:
-- the command waits on, or it was the last fragment and what is ready is handed over.
abbrev pub IsQueued : ℕ → IncomingCommand → List IncomingCommand → Session → Session → Type 0
IsQueued id d queue s t =
    let c = channel_at s.peer id in
    let c' = channel_at t.peer id in
    let (ready, rest, reached) = split_ready c.incoming_reliable_sequence_number queue in
    ((1 < d.fragments_remaining)
      × (c'.incoming_reliable_commands ≡ queue)
      × (c'.incoming_reliable_sequence_number ≡ c.incoming_reliable_sequence_number)
      × (t.peer.dispatched_commands ≡ s.peer.dispatched_commands))
    ⊎ ((d.fragments_remaining ≡ 1)
        × (c'.incoming_reliable_commands ≡ rest)
        × (c'.incoming_reliable_sequence_number ≡ reached)
        × (t.peer.dispatched_commands ≡ s.peer.dispatched_commands ++ ready))

-- What a fragment does.
abbrev pub IsStored :
    ℕ
    → ℕ
    → SendFragment
    → List ℕ
    → IncomingCommand
    → List IncomingCommand
    → List IncomingCommand
    → List Bool
    → List ℕ
    → Session
    → Session
    → Type 0
IsStored id p f bytes d before after bits old s t =
    ((get_or bits f.fragment_number false ≡ true) × (t ≡ s))
    ⊎ ((get_or bits f.fragment_number false ≡ false)
        × (packet_at t.host p ≡ record (packet_at s.host p) {
          bytes = some (splice old f.fragment_offset (take f.data_length bytes));
        })
        × IsQueued id d (before ++ (with_bit f.fragment_number bits d ∷ after)) s t)

module _ (id p : ℕ) (f : SendFragment) (bytes : List ℕ) (d : IncomingCommand)
    (before after : List IncomingCommand) (bits : List Bool) (old : List ℕ) (s : Session)
    (w : IsWaiting id p f bytes d before after bits old s) where
  abbrev c : Channel
  c = channel_at s.peer id

  -- The queue with the changed command.
  abbrev queue : List IncomingCommand
  queue = before ++ (with_bit f.fragment_number bits d ∷ after)

  abbrev filled : Packet
  filled = record (packet_at s.host p) {
    bytes = some (splice old f.fragment_offset (take f.data_length bytes));
  }

  changed-queue :
      change_command d.block (mark_fragment f.fragment_number) c.incoming_reliable_commands ≡ queue
  changed-queue =
      ap (change_command d.block (mark_fragment f.fragment_number)) w.queue
      ∙ change_once d.block (mark_fragment f.fragment_number) d before after refl w.nowhere_before
          w.nowhere_after
      ∙ ap (λ x. before ++ (x ∷ after))
          (mark_fragment_lem f.fragment_number bits d w.flags w.missing w.countable)

  -- The session with the fragment in its place.
  abbrev stored : Session
  stored = record {
    host = fill_packet f bytes d.packet s.host;
    peer = set_channel s.peer id (record c {
      incoming_reliable_commands =
          change_command d.block (mark_fragment f.fragment_number) c.incoming_reliable_commands;
    });
  }

  stored-packet : packet_at stored.host p ≡ filled
  stored-packet =
      ap (λ o. packet_at (fill_packet f bytes o s.host) p) w.packet
      ∙ ground arith
      ∙ fill_fragment_lem f bytes old (packet_at s.host p) w.content w.size w.small w.inside
          w.carried

  stored-channel : channel_at stored.peer id ≡ record c { incoming_reliable_commands = queue }
  stored-channel =
      get_or-set_self s.peer.channels id _ new_channel w.in_use
      ∙ ap (λ l. record c { incoming_reliable_commands = l }) changed-queue

  bit : has_fragment d f.fragment_number ≡ get_or bits f.fragment_number false
  bit =
      ap (λ o. elim o as (λ _. Bool) [ none ↦ false | some l ↦ get_or l f.fragment_number false ])
        w.flags

  last_one : (sub32 d.fragments_remaining 1 == 0) ≡ true → d.fragments_remaining ≡ 1
  last_one t = ground (arith, t, w.missing, w.countable)

  not_last : (sub32 d.fragments_remaining 1 == 0) ≡ false → 1 < d.fragments_remaining
  not_last t = ground (arith, t, w.missing, w.countable)

  -- The last part of `enet_protocol_handle_send_fragment`, for a fragment within its packet, whose
  -- command waits in the reliable queue of a channel without unreliable commands. A fragment that has
  -- arrived before changes nothing. Another one's bytes are in the packet from its offset on, the
  -- others as they were. Its bit is set in the command, which awaits one fragment less. If more are
  -- missing, the command stays at its place in the queue, which is otherwise as it was, like the
  -- channel's number and the commands for the application. If this was the last one, the commands at
  -- the front of that queue that are ready now go behind those for the application, in order, the
  -- others stay, and the channel has the number reached.
  pub store_fragment_lem :
      IsStored id p f bytes d before after bits old s (store_fragment id f bytes d s)
  unfolding store_fragment
  store_fragment_lem = elim (Bool-cases (has_fragment d f.fragment_number)) [
    | inl t ↦ rw (t, store_fragment) (inl (sym bit ∙ t, refl))
    | inr t ↦ elim (Bool-cases (sub32 d.fragments_remaining 1 == 0)) [
      | inl z ↦
          let (same, kept, reached, handed) =
            dispatch_queue id p stored c queue in_place stored-channel w.no_unreliable in
          rw (t, store_fragment)
            (rw z
              (inr (sym bit ∙ t, same ∙ stored-packet, inr (last_one z, kept, reached, handed))))
      | inr z ↦
          rw (t, store_fragment)
            (rw z (
              inr (
                sym bit ∙ t,
                stored-packet,
                inl (
                  not_last z,
                  ap (λ (x : Channel). x.incoming_reliable_commands) stored-channel,
                  ap (λ (x : Channel). x.incoming_reliable_sequence_number) stored-channel,
                  refl,
                ),
              )))
    ]
  ]
    where
      in_place : id < length stored.peer.channels
      in_place = rw (length-set s.peer.channels id _) w.in_use

  -- So `arrive_fragment` makes of the two what `store_fragment` does.
  arrive_fragment-missing :
      get_or bits f.fragment_number false ≡ false
      → arrive_fragment f bytes d (packet_at s.host p) ≡ (with_bit f.fragment_number bits d, filled)
  arrive_fragment-missing missing = rw (bit ∙ missing) (
      ap (λ x. (x, fill_fragment f bytes (packet_at s.host p)))
        (mark_fragment_lem f.fragment_number bits d w.flags w.missing w.countable)
      ∙ ap (λ k. (with_bit f.fragment_number bits d, k))
          (fill_fragment_lem f bytes old (packet_at s.host p) w.content w.size w.small w.inside
            w.carried))
