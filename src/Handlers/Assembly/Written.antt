-- ===== src/Handlers/Assembly/Written.antt =====
-- The parts of `store_fragment` (src/protocol.c, the handlers of fragments): the write through the
-- pointer to the queued command, the bytes in the packet, and the dispatch that may follow.
use enet.Base.{
  ℕ, zero, suc, ◌+◌, ◌-◌, ◌^◌, ◌≤◌, ◌<◌, ◌≡◌, refl, ap, ◌∙◌, inl, inr, Bool, true, false, List, [],
  ◌∷◌, ◌++◌, some, sub32, u32, ltb, Option, ◌==◌, length, take, skip, set, none, arith, Bool-cases,
  if◌then◌else◌, is_empty,
}
use enet.Wire.{SendFragment}
use enet.State.{Session, IncomingCommand, Channel, Packet}
use enet.Packet.{packet_at}
use enet.Outgoing.{channel_at}
use enet.Handlers.Fragments.{change_command, mark_fragment, fill_fragment, overlay}
use enet.Incoming.Dispatch.{split_ready, dispatch_reliable, hand_ready}
use enet.Incoming.Delivery.{dispatch_reliable_lem}
use enet.Events.{enter_dispatch_queue}

-- The blocks of queued commands are distinct, so a write through a pointer changes one command.
abbrev pub IsNowhere : ℕ → List IncomingCommand → Type 0
IsNowhere block [] = Unit {0}
IsNowhere block (c ∷ cs) = ((c.block == block) ≡ false) × IsNowhere block cs

change_nowhere :
    (block : ℕ) (change : IncomingCommand → IncomingCommand) (l : List IncomingCommand)
    → IsNowhere block l
    → change_command block change l ≡ l
change_nowhere block change [] h = refl
change_nowhere block change (c ∷ cs) (e, h) =
    rw e (ap (λ l. c ∷ l) (change_nowhere block change cs h))

pub change_once :
    (block : ℕ) (change : IncomingCommand → IncomingCommand) (d : IncomingCommand)
    (before after : List IncomingCommand)
    → d.block ≡ block
    → IsNowhere block before
    → IsNowhere block after
    → change_command block change (before ++ (d ∷ after)) ≡ before ++ (change d ∷ after)
change_once block change d [] after e m n =
    let same : (d.block == block) ≡ true = ground arith in
    rw same (ap (λ l. change d ∷ l) (change_nowhere block change after n))
change_once block change d (c ∷ cs) after e (t, m) n =
    rw t (ap (λ l. c ∷ l) (change_once block change d cs after e m n))

-- The bytes with others in their place from an offset on.
abbrev pub splice : List ℕ → ℕ → List ℕ → List ℕ
splice old offset source = take offset old ++ (source ++ skip (length source) (skip offset old))

overlay-splice :
    (old : List ℕ) (offset : ℕ) (source : List ℕ)
    → offset + length source ≤ length old
    → overlay old offset source ≡ splice old offset source
overlay-splice [] zero [] h = refl
overlay-splice [] zero (y ∷ ys) h = absurd (omega (arith, h))
overlay-splice [] (suc offset) source h = absurd (omega (arith, h))
overlay-splice (x ∷ xs) (suc offset) source h =
    ap (λ l. x ∷ l) (overlay-splice xs offset source (omega (arith, h)))
overlay-splice (x ∷ xs) zero [] h = refl
overlay-splice (x ∷ xs) zero (y ∷ ys) h =
    ap (λ l. y ∷ l) (overlay-splice xs zero ys (omega (arith, h)))

-- The command with the bit of a fragment set, and one fragment less to wait for.
abbrev pub with_bit : ℕ → List Bool → IncomingCommand → IncomingCommand
with_bit i bits d = record d {
  fragments_remaining = d.fragments_remaining - 1;
  fragments = some (set bits i true);
}

length-take : (n : ℕ) (l : List ℕ) → n ≤ length l → length (take n l) ≡ n
length-take zero l h = refl
length-take (suc n) [] h = absurd (omega (arith, h))
length-take (suc n) (x ∷ xs) h = ap suc (length-take n xs (omega (arith, h)))

pub fill_fragment_lem :
    (f : SendFragment) (bytes old : List ℕ) (k : Packet)
    → k.bytes ≡ some old
    → k.data_length ≡ length old
    → length old < 2 ^ 32
    → f.fragment_offset + f.data_length ≤ length old
    → f.data_length ≤ length bytes
    → fill_fragment f bytes k
      ≡ record k { bytes = some (splice old f.fragment_offset (take f.data_length bytes)) }
unfolding fill_fragment
fill_fragment_lem f bytes old k e l lt fits enough =
    let whole : (if ltb k.data_length (u32 (f.fragment_offset + f.data_length))
          then u32 (k.data_length - f.fragment_offset)
          else f.data_length)
        ≡ f.data_length =
      ground (arith, l, lt, fits) in
    let laid =
      overlay-splice old f.fragment_offset (take f.data_length bytes)
        (rw (length-take f.data_length bytes enough) fits) in
    ap
      (λ n. record k {
        bytes = elim k.bytes [
          | none ↦ none
          | some l ↦ some (overlay l f.fragment_offset (take n bytes))
        ];
      })
      whole
    ∙ ap
        (λ o. record k {
          bytes = elim o as (λ _. Option (List ℕ)) [
            | none ↦ none
            | some l ↦ some (overlay l f.fragment_offset (take f.data_length bytes))
          ];
        })
        e
    ∙ ap (λ l. record k { bytes = some l }) laid

pub mark_fragment_lem :
    (i : ℕ) (bits : List Bool) (d : IncomingCommand)
    → d.fragments ≡ some bits
    → 0 < d.fragments_remaining
    → d.fragments_remaining < 2 ^ 32
    → mark_fragment i d ≡ with_bit i bits d
mark_fragment_lem i bits d e lo hi =
    let one_less : sub32 d.fragments_remaining 1 ≡ d.fragments_remaining - 1 =
      ground (arith, lo, hi) in
    ap
      (λ n. record d {
        fragments_remaining = n;
        fragments = elim d.fragments [ none ↦ none | some l ↦ some (set l i true) ];
      })
      one_less
    ∙ ap
        (λ o. record d {
          fragments_remaining = d.fragments_remaining - 1;
          fragments = elim o as (λ _. Option (List Bool)) [
            | none ↦ none
            | some l ↦ some (set l i true)
          ];
        })
        e

enter_dispatch_queue-packets :
    (s : Session) (p : ℕ) → packet_at (enter_dispatch_queue s).host p ≡ packet_at s.host p
unfolding enter_dispatch_queue
enter_dispatch_queue-packets s p = ground arith

hand_ready-packets :
    (id : ℕ) (ready rest : List IncomingCommand) (reached p : ℕ) (s : Session)
    → packet_at (hand_ready id ready rest reached s).host p ≡ packet_at s.host p
unfolding hand_ready
hand_ready-packets id ready rest reached p s = refl

-- The dispatch of a channel without unreliable commands leaves the packets alone.
dispatch_reliable-packets :
    (id p : ℕ) (s : Session)
    → (channel_at s.peer id).incoming_unreliable_commands ≡ []
    → packet_at (dispatch_reliable id none s).host p ≡ packet_at s.host p
unfolding dispatch_reliable
dispatch_reliable-packets id p s e =
    let c = channel_at s.peer id in
    let (ready, rest, reached) =
      split_ready c.incoming_reliable_sequence_number c.incoming_reliable_commands in
    let entered =
      enter_dispatch_queue-packets (hand_ready id ready rest reached s) p
      ∙ hand_ready-packets id ready rest reached p s in
    let empty : is_empty c.incoming_unreliable_commands ≡ true = ap is_empty e in
    elim (Bool-cases (is_empty ready)) [
      | inl t ↦ rw (t, dispatch_reliable) refl
      | inr t ↦ rw (t, dispatch_reliable) (rw empty entered)
    ]

-- The dispatch of a channel whose queue is known.
pub dispatch_queue :
    (id p : ℕ) (t : Session) (c : Channel) (queue : List IncomingCommand)
    → id < length t.peer.channels
    → channel_at t.peer id ≡ record c { incoming_reliable_commands = queue }
    → c.incoming_unreliable_commands ≡ []
    → let (ready, rest, reached) = split_ready c.incoming_reliable_sequence_number queue in
      let t' = dispatch_reliable id none t in
      (packet_at t'.host p ≡ packet_at t.host p)
      × ((channel_at t'.peer id).incoming_reliable_commands ≡ rest)
      × ((channel_at t'.peer id).incoming_reliable_sequence_number ≡ reached)
      × (t'.peer.dispatched_commands ≡ t.peer.dispatched_commands ++ ready)
dispatch_queue id p t c queue h e u =
    let empty : (channel_at t.peer id).incoming_unreliable_commands ≡ [] =
      ap (λ (x : Channel). x.incoming_unreliable_commands) e ∙ u in
    let (handed, kept, reached, _) = rw e at (dispatch_reliable_lem id none t h empty) in
    (dispatch_reliable-packets id p t empty, kept, reached, handed)
