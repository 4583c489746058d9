-- ===== src/Transmit/Bounds.antt =====
-- The datagram that src/protocol.c makes for a peer, against the peer's mtu and the host's two arrays.
use enet.Base.{
  ℕ, zero, suc, ◌+◌, ◌-◌, ◌^◌, ◌<◌, ◌≤◌, ◌≡◌, refl, ◌∙◌, inl, inr, true, false, List, [], ◌∷◌, ◌++◌,
  sub64, length, length-append, get_or, ◌%◌, arith, Bool-cases, Option-cases,
}
use enet.Wire.{command_sizes, command_size}
use enet.State.{Session, OutgoingCommand, Acknowledgement}
use enet.Outgoing.{has_packet}
use enet.Events.{dispatch_state, change_state, enter_dispatch_queue}
use enet.Lifecycle.{on_connect, on_disconnect}
use enet.Transmit.{Datagram, Buffer, Source, add_buffer}
use enet.Transmit.Acknowledge.{
  lacks_room, after_acknowledgement, acknowledge_all, acknowledgement_command,
}
use enet.Transmit.Walk.{lacks_space}
use enet.Transmit.Choose.{write_command}

abbrev pub total_size : List Buffer → ℕ
total_size [] = 0
total_size (b ∷ bs) = b.data_length + total_size bs

-- The buffers' sizes are counted, and the datagram is within the mtu and the two arrays.
pub record Fits (mtu : ℕ) (g : Datagram) : Type 0 where
  pub size : g.packet_size ≤ mtu
  pub counted : g.packet_size ≡ total_size g.buffers
  pub command_count : g.command_count ≤ 32
  pub buffer_count : length g.buffers ≤ 65

-- The command's bytes and its part of the packet are few enough to be added without a wrap.
abbrev pub IsShort : OutgoingCommand → Type 0
IsShort o = o.fragment_length + 48 < 2 ^ 16

abbrev pub AllShort : List OutgoingCommand → Type 0
AllShort [] = Unit {0}
AllShort (o ∷ os) = IsShort o × AllShort os

total_size-append :
    (bs : List Buffer) (b : Buffer) → total_size (bs ++ (b ∷ [])) ≡ total_size bs + b.data_length
total_size-append [] b = omega arith
total_size-append (c ∷ bs) b = omega (arith, total_size-append bs b)

add_buffer-Fits :
    (mtu n : ℕ) (source : Source) (g : Datagram)
    → mtu < 2 ^ 16
    → Fits mtu g
    → g.packet_size + n ≤ mtu
    → length g.buffers < 65
    → Fits mtu (add_buffer source n g)
add_buffer-Fits mtu n source g small v room space =
    let b : Buffer = record { source = source; data_length = n } in
    record {
      size = omega arith;
      counted = omega (arith, v.counted, total_size-append g.buffers b);
      command_count = v.command_count;
      buffer_count = omega (arith, length-append g.buffers (b ∷ []));
    }

abbrev AtMost : ℕ → List ℕ → Type 0
AtMost bound [] = Unit {0}
AtMost bound (x ∷ xs) = (x ≤ bound) × AtMost bound xs

get_or-AtMost : (bound i : ℕ) (xs : List ℕ) → AtMost bound xs → get_or xs i 0 ≤ bound
get_or-AtMost bound i [] h = omega arith
get_or-AtMost bound zero (x ∷ xs) h = h.0
get_or-AtMost bound (suc i) (x ∷ xs) h = get_or-AtMost bound i xs h.1

command_size-le : (n : ℕ) → command_size n ≤ 48
unfolding command_size
command_size-le n = get_or-AtMost 48 (n % 16) command_sizes (ground arith)

pub write_command-Fits :
    (mtu : ℕ) (o : OutgoingCommand) (g : Datagram)
    → mtu < 2 ^ 16
    → IsShort o
    → Fits mtu g
    → lacks_space mtu o g ≡ false
    → Fits mtu (write_command o g)
unfolding write_command lacks_space has_packet
write_command-Fits mtu o g small short v e =
    let size = command_size o.command.command in
    let bound = command_size-le o.command.command in
    let room : sub64 mtu g.packet_size ≡ mtu - g.packet_size = omega (arith, v.size) in
    let counted = record g { command_count = g.command_count + 1 } in
    let fits : Fits mtu counted = record {
      size = v.size;
      counted = v.counted;
      command_count = ground (arith, e);
      buffer_count = v.buffer_count;
    } in
    let first : Fits mtu (add_buffer (Source.command o.command) size counted) =
      add_buffer-Fits mtu size (Source.command o.command) counted small fits
        (ground (arith, e, room, v.size, bound)) (ground (arith, e)) in
    elim (Option-cases o.packet) [
      | inl q ↦ rw q first
      | inr (p, q) ↦
          let has : has_packet o.packet ≡ true = rw q refl in
          let after = add_buffer (Source.command o.command) size counted in
          let more =
            length-append g.buffers
              (record { source = Source.command o.command; data_length = size } ∷ []) in
          rw q (
            add_buffer-Fits mtu o.fragment_length (Source.packet p o.fragment_offset) after small
              first (ground (arith, e, has, room, v.size, bound, short)) (ground (arith, e, more)))
    ]

-- Acknowledgements leave the peer's mtu alone.
pub after_acknowledgement-mtu :
    (a : Acknowledgement) (s : Session) → (after_acknowledgement a s).peer.mtu ≡ s.peer.mtu
unfolding after_acknowledgement dispatch_state change_state enter_dispatch_queue on_connect
    on_disconnect
after_acknowledgement-mtu a s = ground arith

pub acknowledge_all-Fits :
    (mtu : ℕ) (l : List Acknowledgement) (g : Datagram) (s : Session)
    → mtu < 2 ^ 16
    → s.peer.mtu ≡ mtu
    → Fits mtu g
    → Fits mtu (acknowledge_all l g s).0
unfolding acknowledge_all lacks_room
acknowledge_all-Fits mtu [] g s small e v = v
acknowledge_all-Fits mtu (a ∷ rest) g s small e v =
    let source = Source.command (acknowledgement_command a) in
    let counted = record g { command_count = g.command_count + 1 } in
    elim (Bool-cases (lacks_room s.peer.mtu g)) [
      | inl t ↦ rw t v
      | inr t ↦
          let room : sub64 mtu g.packet_size ≡ mtu - g.packet_size = omega (arith, v.size) in
          let fits : Fits mtu counted = record {
            size = v.size;
            counted = v.counted;
            command_count = ground (arith, t);
            buffer_count = v.buffer_count;
          } in
          let added : Fits mtu (add_buffer source 8 counted) =
            add_buffer-Fits mtu 8 source counted small fits (ground (arith, t, e, room, v.size))
              (ground (arith, t)) in
          rw t (
            acknowledge_all-Fits mtu rest (add_buffer source 8 counted) (after_acknowledgement a s)
              small (after_acknowledgement-mtu a s ∙ e) added)
    ]
