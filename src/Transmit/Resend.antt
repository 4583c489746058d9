-- ===== src/Transmit/Resend.antt =====
-- `enet_protocol_check_timeouts` of src/protocol.c, described by the commands that are in time and
-- those that are late.
use enet.Base.{
  ℕ, ◌+◌, ◌*◌, ◌^◌, ◌<◌, ◌≡◌, refl, sym, ap, ◌∙◌, inl, inr, Bool, true, false, not, List, [], ◌∷◌,
  ◌++◌, append_assoc, append-nil, Option, if◌then◌else◌, u32, sub32, arith, Bool-cases,
}
use enet.State.{Session, Peer, OutgoingCommand, Event}
use enet.Outgoing.{has_packet}
use enet.Transmit.Bounds.{AllShort}
use enet.Transmit.Timeouts.{
  Passed, put_back, is_timely, is_lost, note_timeout, resend, count_lost, check_each,
  check_timeouts,
}

-- The sent commands that are still in time.
abbrev pub timely : ℕ → List OutgoingCommand → List OutgoingCommand
timely now [] = []
timely now (o ∷ os) = if is_timely now o then o ∷ timely now os else timely now os

-- The late ones with a packet or without one, each to wait twice as long as before.
abbrev pub late : ℕ → Bool → List OutgoingCommand → List OutgoingCommand
late now packet [] = []
late now packet (o ∷ os) =
    let rest = late now packet os in
    let again = record o { round_trip_timeout = u32 (o.round_trip_timeout * 2) } in
    let mine = if has_packet o.packet then packet else not packet in
    if is_timely now o then rest else if mine then again ∷ rest else rest

-- The bytes of the late ones with a packet.
abbrev pub late_size : ℕ → List OutgoingCommand → ℕ
late_size now [] = 0
late_size now (o ∷ os) =
    let rest = late_size now os in
    if is_timely now o then rest else if has_packet o.packet then o.fragment_length + rest else rest

-- What the loop leaves, from the commands that it has passed and those to come.
abbrev pub Resends : ℕ → List OutgoingCommand → Passed → Session → Session → Type 0
Resends now l w s t =
    (t.peer.sent_reliable_commands ≡ w.kept ++ timely now l)
    × (t.peer.outgoing_commands ≡ (w.again ++ late now false l) ++ s.peer.outgoing_commands)
    × (t.peer.outgoing_send_reliable_commands
        ≡ (w.again_reliable ++ late now true l) ++ s.peer.outgoing_send_reliable_commands)
    × (u32 (t.peer.reliable_data_in_transit + late_size now l)
        ≡ u32 s.peer.reliable_data_in_transit)

-- Numbers of 32 bits: what is taken away and added again is as before.
put_in_again :
    (t x f n : ℕ) → f < 2 ^ 16 → u32 (t + n) ≡ u32 (sub32 x f) → u32 (t + (f + n)) ≡ u32 x
put_in_again t x f n h e = omega arith

note_timeout-queues :
    (o : OutgoingCommand) (w : Passed) (os : List OutgoingCommand) (p : Peer)
    → let q = count_lost o w os (note_timeout o p) in
      (q.outgoing_commands ≡ p.outgoing_commands)
      × (q.outgoing_send_reliable_commands ≡ p.outgoing_send_reliable_commands)
      × (q.reliable_data_in_transit ≡ (
          if has_packet o.packet
          then sub32 p.reliable_data_in_transit o.fragment_length
          else p.reliable_data_in_transit))
unfolding count_lost note_timeout
note_timeout-queues o w os p = (ground arith, ground arith, ground arith)

Resends-timely :
    (now : ℕ) (o : OutgoingCommand) (os : List OutgoingCommand) (w : Passed) (s t : Session)
    → is_timely now o ≡ true
    → Resends now os (record w { kept = w.kept ++ (o ∷ []) }) s t
    → Resends now (o ∷ os) w s t
Resends-timely now o os w s t e (a, b, c, d) =
    rw e (a ∙ append_assoc w.kept (o ∷ []) (timely now os), b, c, d)

Resends-late :
    (now : ℕ) (o : OutgoingCommand) (os : List OutgoingCommand) (w : Passed) (s u t : Session)
    → is_timely now o ≡ false
    → o.fragment_length < 2 ^ 16
    → u.peer.outgoing_commands ≡ s.peer.outgoing_commands
    → u.peer.outgoing_send_reliable_commands ≡ s.peer.outgoing_send_reliable_commands
    → u.peer.reliable_data_in_transit ≡ (
        if has_packet o.packet
        then sub32 s.peer.reliable_data_in_transit o.fragment_length
        else s.peer.reliable_data_in_transit)
    → Resends now os (resend o w) u t
    → Resends now (o ∷ os) w s t
unfolding resend
Resends-late now o os w s u t e short plain reliable size (a, b, c, d) =
    let again = record o { round_trip_timeout = u32 (o.round_trip_timeout * 2) } in
    elim (Bool-cases (has_packet o.packet)) [
      | inl p ↦ rw e (
          rw p (
            ground (arith, p, a),
            ground (arith, p, b, plain),
            ground (
              arith,
              p,
              c,
              reliable,
              append_assoc w.again_reliable (again ∷ []) (late now true os),
            ),
            ground (
              arith,
              p,
              d,
              size,
              put_in_again t.peer.reliable_data_in_transit s.peer.reliable_data_in_transit
                  o.fragment_length (late_size now os) short,
            ),
          ))
      | inr p ↦ rw e (
          rw p (
            ground (arith, p, a),
            ground (arith, p, b, plain, append_assoc w.again (again ∷ []) (late now false os)),
            ground (arith, p, c, reliable),
            ground (arith, p, d, size),
          ))
    ]

check_each-Resends :
    (event : Option Event) (l : List OutgoingCommand) (w : Passed) (s : Session)
    → AllShort l
    → (check_each event l w s).0 ≡ false
    → Resends s.host.service_time l w s (check_each event l w s).1
unfolding check_each put_back
check_each-Resends event [] w s v e = (
  refl,
  ap (λ x. x ++ s.peer.outgoing_commands) (sym (append-nil w.again)),
  ap (λ x. x ++ s.peer.outgoing_send_reliable_commands) (sym (append-nil w.again_reliable)),
  omega arith,
)
check_each-Resends event (o ∷ os) w s v e =
    let now = s.host.service_time in
    let noted = note_timeout o s.peer in
    elim (Bool-cases (is_timely now o)) [
      | inl t ↦
          let stays = record w { kept = w.kept ++ (o ∷ []) } in
          let same : check_each event (o ∷ os) w s ≡ check_each event os stays s =
            rw (t, check_each) refl in
          let over : (check_each event os stays s).0 ≡ false = rw same at e in
          rw same (
            Resends-timely now o os w s (check_each event os stays s).1 t
              (check_each-Resends event os stays s v.1 over))
      | inr t ↦ elim (Bool-cases (is_lost now o noted)) [
        | inl q ↦ absurd (cc (rw q at (rw t at e)))
        | inr q ↦
            let u = record s { peer = count_lost o w os noted } in
            let same : check_each event (o ∷ os) w s ≡ check_each event os (resend o w) u =
              rw (t, check_each) (rw q refl) in
            let over : (check_each event os (resend o w) u).0 ≡ false = rw same at e in
            let (plain, reliable, size) = note_timeout-queues o w os s.peer in
            rw same (
              Resends-late now o os w s u (check_each event os (resend o w) u).1 t
                (omega (arith, v.0)) plain reliable size
                (check_each-Resends event os (resend o w) u v.1 over))
      ]
    ]

-- When `enet_protocol_check_timeouts` does not give the peer up, it loses no command. Of sent commands
-- with lengths of sixteen bits: those in time stay sent, in their order; the late ones, their timeouts
-- doubled, stand in their order before what waited already, with a packet in the queue of reliable
-- packets, without one in the other; and the data in transit falls by the bytes of the late ones
-- with a packet, counted in 32 bits.
pub check_timeouts-Resends :
    (event : Option Event) (s : Session)
    → AllShort s.peer.sent_reliable_commands
    → (check_timeouts event s).0 ≡ false
    → let t = (check_timeouts event s).1 in
      let now = s.host.service_time in
      let sent = s.peer.sent_reliable_commands in
      (t.peer.sent_reliable_commands ≡ timely now sent)
      × (t.peer.outgoing_commands ≡ late now false sent ++ s.peer.outgoing_commands)
      × (t.peer.outgoing_send_reliable_commands
          ≡ late now true sent ++ s.peer.outgoing_send_reliable_commands)
      × (u32 (t.peer.reliable_data_in_transit + late_size now sent)
          ≡ u32 s.peer.reliable_data_in_transit)
unfolding check_timeouts
check_timeouts-Resends event s v e =
    check_each-Resends event s.peer.sent_reliable_commands
      (record { kept = []; again = []; again_reliable = [] }) s v e
