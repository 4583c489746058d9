-- ===== src/Transmit/Turns.antt =====
-- A turn of the loop of `enet_protocol_check_outgoing_commands` (src/protocol.c): the datagram and the
-- commands still to come.
use enet.Base.{
  ℕ, ◌+◌, ◌^◌, ◌<◌, ◌≤◌, ◌≡◌, sym, ap, ◌∙◌, inl, inr, Bool, true, false, not, ◌&&◌, List, [], ◌∷◌,
  ltb, ◌==◌, if◌then◌else◌, length, arith, Bool-cases,
}
use enet.Wire.{flag_acknowledge}
use enet.State.{Session, Host, OutgoingCommand}
use enet.Outgoing.{channel_at}
use enet.Lifecycle.{release_option}
use enet.Transmit.Walk.{Walk, pass, close_reliable, is_blocked, exceeds_window, lacks_space}
use enet.Transmit.Choose.{
  drop_fragments, drop_packet, send_acknowledged, send_command, enter_reliable_window, Turn, onward,
  halt, is_dropped, place_command, take_turn,
}
use enet.Transmit.Bounds.{Fits, IsShort, AllShort, write_command-Fits}

-- The state of the loop: the peer's mtu, the datagram, and the commands that are to come, no more of
-- them than `n`.
pub record Walks (mtu n : ℕ) (w : Walk) : Type 0 where
  pub same_mtu : w.session.peer.mtu ≡ mtu
  pub fits : Fits mtu w.datagram
  pub rest : AllShort w.rest
  pub reliable_rest : AllShort w.reliable_rest
  pub left : length w.rest + length w.reliable_rest ≤ n

abbrev pub TurnWalks : ℕ → ℕ → Turn → Type 0
TurnWalks mtu n (onward w) = Walks mtu n w
TurnWalks mtu n (halt w) = Fits mtu w.datagram

pub either-Walks :
    (mtu n : ℕ) (b : Bool) (x y : Turn)
    → TurnWalks mtu n x
    → TurnWalks mtu n y
    → TurnWalks mtu n (if b then x else y)
either-Walks mtu n true x y p q = p
either-Walks mtu n false x y p q = q

pub pass-Walks :
    (mtu n : ℕ) (o : OutgoingCommand) (reliable : Bool) (w : Walk)
    → Walks mtu n w
    → Walks mtu n (pass o reliable w)
unfolding pass
pass-Walks mtu n o true w v = record {
  same_mtu = v.same_mtu;
  fits = v.fits;
  rest = v.rest;
  reliable_rest = v.reliable_rest;
  left = v.left;
}
pass-Walks mtu n o false w v = record {
  same_mtu = v.same_mtu;
  fits = v.fits;
  rest = v.rest;
  reliable_rest = v.reliable_rest;
  left = v.left;
}

close-Walks : (mtu n : ℕ) (w : Walk) → Walks mtu n w → Walks mtu n (close_reliable w)
close-Walks mtu n w v = record {
  same_mtu = v.same_mtu;
  fits = v.fits;
  rest = v.rest;
  reliable_rest = tt;
  left = omega (arith, v.left);
}

drop_fragments-left :
    (o : OutgoingCommand) (l : List OutgoingCommand) (h : Host)
    → AllShort l
    → AllShort (drop_fragments o l h).0 × (length (drop_fragments o l h).0 ≤ length l)
unfolding drop_fragments
drop_fragments-left o [] h v = (tt, omega arith)
drop_fragments-left o (c ∷ cs) h v =
    let (short, left) = drop_fragments-left o cs (release_option c.packet h) v.1 in
    elim (Bool-cases (
      c.reliable_sequence_number == o.reliable_sequence_number
      && c.unreliable_sequence_number == o.unreliable_sequence_number)) [
        | inl t ↦ rw t (short, omega (arith, left))
        | inr t ↦ rw t (v, omega arith)
      ]

drop_packet-Walks :
    (mtu n : ℕ) (o : OutgoingCommand) (w : Walk) → Walks mtu n w → Walks mtu n (drop_packet o w)
unfolding drop_packet
drop_packet-Walks mtu n o w v =
    let h = release_option o.packet w.session.host in
    let (short, left) = drop_fragments-left o w.rest h v.rest in
    record {
      same_mtu = ground (arith, v.same_mtu);
      fits = v.fits;
      rest = short;
      reliable_rest = v.reliable_rest;
      left = omega (arith, left, v.left);
    }

send_acknowledged-mtu :
    (o : OutgoingCommand) (s : Session) → (send_acknowledged o s).peer.mtu ≡ s.peer.mtu
unfolding send_acknowledged enter_reliable_window
send_acknowledged-mtu o s = ground arith

send_command-Walks :
    (mtu n : ℕ) (o : OutgoingCommand) (w : Walk)
    → mtu < 2 ^ 16
    → IsShort o
    → lacks_space mtu o w.datagram ≡ false
    → Walks mtu n w
    → Walks mtu n (send_command o w)
unfolding send_command
send_command-Walks mtu n o w small short e v =
    let written = write_command-Fits mtu o w.datagram small short v.fits e in
    elim (Bool-cases (flag_acknowledge o.command.command)) [
      | inl t ↦ rw t (record {
        same_mtu = send_acknowledged-mtu o w.session ∙ v.same_mtu;
        fits = record {
          size = written.size;
          counted = written.counted;
          command_count = written.command_count;
          buffer_count = written.buffer_count;
        };
        rest = v.rest;
        reliable_rest = v.reliable_rest;
        left = v.left;
      })
      | inr t ↦ rw t (record {
        same_mtu = ground (arith, v.same_mtu);
        fits = written;
        rest = v.rest;
        reliable_rest = v.reliable_rest;
        left = v.left;
      })
    ]

place_command-Walks :
    (mtu n : ℕ) (o : OutgoingCommand) (reliable : Bool) (w : Walk)
    → mtu < 2 ^ 16
    → IsShort o
    → Walks mtu n w
    → TurnWalks mtu n (place_command o reliable w)
unfolding place_command pass
place_command-Walks mtu n o reliable w small short v =
    let same : lacks_space w.session.peer.mtu o w.datagram ≡ lacks_space mtu o w.datagram =
      ap (λ m. lacks_space m o w.datagram) v.same_mtu in
    elim (Bool-cases (lacks_space w.session.peer.mtu o w.datagram)) [
      | inl t ↦ rw t (ground (arith, v.fits))
      | inr t ↦
          rw t
            (elim (Bool-cases
              (not (flag_acknowledge o.command.command) && is_dropped o w.session.peer)) [
                | inl q ↦ rw q (drop_packet-Walks mtu n o w v)
                | inr q ↦ rw q (send_command-Walks mtu n o w small short (sym same ∙ t) v)
              ])
    ]

pub take_turn-Walks :
    (mtu n : ℕ) (o : OutgoingCommand) (reliable : Bool) (w : Walk)
    → mtu < 2 ^ 16
    → IsShort o
    → Walks mtu n w
    → TurnWalks mtu n (take_turn o reliable w)
unfolding take_turn
take_turn-Walks mtu n o reliable w small short v =
    let id = o.command.channel_id in
    let p = w.session.peer in
    let wrapped = record w { window_wrap = true } in
    let silent = record w { can_ping = false } in
    let wrapped_walks : Walks mtu n wrapped = record {
      same_mtu = v.same_mtu;
      fits = v.fits;
      rest = v.rest;
      reliable_rest = v.reliable_rest;
      left = v.left;
    } in
    let silent_walks : Walks mtu n silent = record {
      same_mtu = v.same_mtu;
      fits = v.fits;
      rest = v.rest;
      reliable_rest = v.reliable_rest;
      left = v.left;
    } in
    either-Walks mtu n (not (flag_acknowledge o.command.command)) _ _
      (place_command-Walks mtu n o reliable w small short v)
      (either-Walks mtu n (ltb id p.channel_count && w.window_wrap) _ _
        (pass-Walks mtu n o reliable w v)
        (either-Walks mtu n (ltb id p.channel_count && is_blocked (channel_at p id) o) _ _
          (close-Walks mtu n (pass o reliable wrapped)
            (pass-Walks mtu n o reliable wrapped wrapped_walks))
          (either-Walks mtu n (exceeds_window p o) _ _
            (close-Walks mtu n (pass o reliable w) (pass-Walks mtu n o reliable w v))
            (place_command-Walks mtu n o reliable silent small short silent_walks))))
