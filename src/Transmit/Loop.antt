-- ===== src/Transmit/Loop.antt =====
-- The loop of `enet_protocol_check_outgoing_commands` (src/protocol.c): its end and the datagram that
-- it leaves.
use enet.Base.{
  ℕ, zero, suc, ◌+◌, ◌^◌, ◌<◌, ◌≤◌, ◌≡◌, ◌⊎◌, refl, ◌∙◌, inl, inr, Bool, true, false, List, [], ◌∷◌,
  Option, some, none, if◌then◌else◌, length, arith, Bool-cases,
}
use enet.State.{Session, OutgoingCommand, Acknowledgement}
use enet.Time.{time_less}
use enet.Events.{dispatch_state, change_state, enter_dispatch_queue}
use enet.Lifecycle.{on_connect, on_disconnect}
use enet.Transmit.{Datagram, Source, add_buffer}
use enet.Transmit.Acknowledge.{
  lacks_room, after_acknowledgement, acknowledge_all, send_acknowledgements,
  acknowledgement_command,
}
use enet.Transmit.Walk.{Walk, choose}
use enet.Transmit.Choose.{
  Turn, onward, halt, take_turn, choose_all, start_walk, check_outgoing_commands,
}
use enet.Transmit.Bounds.{Fits, IsShort, after_acknowledgement-mtu, AllShort, acknowledge_all-Fits}
use enet.Transmit.Turns.{Walks, TurnWalks, take_turn-Walks}

-- What is left once a command is chosen.
abbrev ChosenWalks : ℕ → ℕ → Option (OutgoingCommand × Bool × Walk) → Type 0
ChosenWalks mtu n none = Unit {0}
ChosenWalks mtu n (some r) = IsShort r.0 × Walks mtu n r.2

either-Chosen :
    (mtu n : ℕ) (b : Bool) (x y : Option (OutgoingCommand × Bool × Walk))
    → ChosenWalks mtu n x
    → ChosenWalks mtu n y
    → ChosenWalks mtu n (if b then x else y)
either-Chosen mtu n true x y p q = p
either-Chosen mtu n false x y p q = q

List-cases :
    (l : List OutgoingCommand)
    → (l ≡ []) ⊎ ((x : OutgoingCommand) × (xs : List OutgoingCommand) × (l ≡ x ∷ xs))
List-cases [] = inl refl
List-cases (x ∷ xs) = inr (x, xs, refl)

module _ (mtu n : ℕ) (w : Walk) (v : Walks mtu (suc n) w) where
  take_rest :
      (o : OutgoingCommand) (os : List OutgoingCommand)
      → w.rest ≡ o ∷ os
      → IsShort o × Walks mtu n (record w { rest = os })
  take_rest o os e =
      let short : AllShort (o ∷ os) = rw e at v.rest in
      let left : length (o ∷ os) + length w.reliable_rest ≤ suc n = rw e at v.left in
      (
        short.0,
        record {
          same_mtu = v.same_mtu;
          fits = v.fits;
          rest = short.1;
          reliable_rest = v.reliable_rest;
          left = omega (arith, left);
        },
      )

  take_reliable :
      (o : OutgoingCommand) (os : List OutgoingCommand)
      → w.reliable_rest ≡ o ∷ os
      → IsShort o × Walks mtu n (record w { reliable_rest = os })
  take_reliable o os e =
      let short : AllShort (o ∷ os) = rw e at v.reliable_rest in
      let left : length w.rest + length (o ∷ os) ≤ suc n = rw e at v.left in
      (
        short.0,
        record {
          same_mtu = v.same_mtu;
          fits = v.fits;
          rest = v.rest;
          reliable_rest = short.1;
          left = omega (arith, left);
        },
      )

  choose-Walks : ChosenWalks mtu n (choose w)
  unfolding choose
  choose-Walks = elim (List-cases w.rest) [
    | inl a ↦ elim (List-cases w.reliable_rest) [
      | inl b ↦ rw (a, choose) (rw b tt)
      | inr (r, rs, b) ↦ rw (a, choose) (rw b (take_reliable r rs b))
    ]
    | inr (o, os, a) ↦ elim (List-cases w.reliable_rest) [
      | inl b ↦ rw (a, choose) (rw b (take_rest o os a))
      | inr (r, rs, b) ↦
          rw (a, choose)
            (rw b (
              either-Chosen mtu n (time_less r.queue_time o.queue_time) _ _ (take_reliable r rs b)
                (take_rest o os a)))
    ]
  ]

choose-nothing : (mtu : ℕ) (w : Walk) → Walks mtu 0 w → choose w ≡ none
unfolding choose
choose-nothing mtu w v = elim (List-cases w.rest) [
  | inr (o, os, a) ↦
      let left : length (o ∷ os) + length w.reliable_rest ≤ 0 = rw a at v.left in
      absurd (omega (arith, left))
  | inl a ↦ elim (List-cases w.reliable_rest) [
    | inl b ↦ rw (a, choose) (rw b refl)
    | inr (r, rs, b) ↦
        let left : length w.rest + length (r ∷ rs) ≤ 0 = rw b at v.left in
        absurd (omega (arith, left))
  ]
]

-- How the loop ends.
abbrev EndsWell : ℕ → Option Walk → Type 0
EndsWell mtu o = (w : Walk) × (o ≡ some w) × Fits mtu w.datagram

module _ (mtu n : ℕ)
    (again : (q : Walk) → Walks mtu n q → EndsWell mtu (choose_all (suc n) q)) where
  after_turn :
      (t : Turn)
      → TurnWalks mtu n t
      → EndsWell mtu (elim t [ onward q ↦ choose_all (suc n) q | halt q ↦ some q ])
  after_turn (onward q) k = again q k
  after_turn (halt q) k = (q, refl, k)

  after_choice :
      (w : Walk) (c : Option (OutgoingCommand × Bool × Walk))
      → mtu < 2 ^ 16
      → Fits mtu w.datagram
      → ChosenWalks mtu n c
      → EndsWell mtu (elim c [
        | none ↦ some w
        | some (o, reliable, w₁) ↦ elim (take_turn o reliable w₁) [
          | onward q ↦ choose_all (suc n) q
          | halt q ↦ some q
        ]
      ])
  after_choice w none small v k = (w, refl, v)
  after_choice w (some r) small v k =
      after_turn (take_turn r.0 r.1 r.2) (take_turn-Walks mtu n r.0 r.1 r.2 small k.0 k.1)

choose_all-EndsWell :
    (mtu n : ℕ) (w : Walk) → mtu < 2 ^ 16 → Walks mtu n w → EndsWell mtu (choose_all (suc n) w)
unfolding choose_all
choose_all-EndsWell mtu zero w small v = rw (choose-nothing mtu w v, choose_all) (w, refl, v.fits)
choose_all-EndsWell mtu (suc n) w small v =
    after_choice mtu n (λ q k. choose_all-EndsWell mtu n q small k) w (choose w) small v.fits
      (choose-Walks mtu n w v)

-- The acknowledgements leave the waiting commands alone.
after_acknowledgement-queues :
    (a : Acknowledgement) (s : Session)
    → ((after_acknowledgement a s).peer.outgoing_commands ≡ s.peer.outgoing_commands)
      × ((after_acknowledgement a s).peer.outgoing_send_reliable_commands
          ≡ s.peer.outgoing_send_reliable_commands)
unfolding after_acknowledgement dispatch_state change_state enter_dispatch_queue on_connect
    on_disconnect
after_acknowledgement-queues a s = (ground arith, ground arith)

abbrev Same : Session → Session → Type 0
Same s t =
    (t.peer.mtu ≡ s.peer.mtu)
    × (t.peer.outgoing_commands ≡ s.peer.outgoing_commands)
    × (t.peer.outgoing_send_reliable_commands ≡ s.peer.outgoing_send_reliable_commands)

acknowledge_all-Same :
    (l : List Acknowledgement) (g : Datagram) (s : Session) → Same s (acknowledge_all l g s).1
unfolding acknowledge_all
acknowledge_all-Same [] g s = (refl, refl, refl)
acknowledge_all-Same (a ∷ rest) g s =
    let g' =
      add_buffer (Source.command (acknowledgement_command a)) 8
        (record g { command_count = g.command_count + 1 }) in
    let later = acknowledge_all-Same rest g' (after_acknowledgement a s) in
    let queues = after_acknowledgement-queues a s in
    elim (Bool-cases (lacks_room s.peer.mtu g)) [
      | inl t ↦ rw t (refl, refl, refl)
      | inr t ↦
          rw t (later.0 ∙ after_acknowledgement-mtu a s, later.1 ∙ queues.0, later.2 ∙ queues.1)
    ]

-- What `enet_protocol_send_acknowledgements` and then `enet_protocol_check_outgoing_commands` put into
-- a datagram, of a peer with an mtu below 2 ^ 16 whose waiting commands are each short enough to be
-- counted in sixteen bits: the choice comes to an end, and the datagram's buffers, whose sizes are
-- counted, are together no longer than the mtu; it has at most 32 commands in 65 buffers, whatever
-- was waiting.
pub check_outgoing_commands-Fits :
    (g : Datagram) (s : Session)
    → s.peer.mtu < 2 ^ 16
    → Fits s.peer.mtu g
    → AllShort s.peer.outgoing_commands
    → AllShort s.peer.outgoing_send_reliable_commands
    → let (g', s') = send_acknowledgements g s in
      (r : Bool × List OutgoingCommand × Datagram × Session) × (check_outgoing_commands g' s'
        ≡ some r)
      × Fits s.peer.mtu r.2
unfolding check_outgoing_commands send_acknowledgements start_walk
check_outgoing_commands-Fits g s small v short reliable =
    let (g', s') = send_acknowledgements g s in
    let (mtu, queue, queue_reliable) = acknowledge_all-Same s.peer.acknowledgements g s in
    let fits = acknowledge_all-Fits s.peer.mtu s.peer.acknowledgements g s small refl v in
    let left = length s'.peer.outgoing_commands + length s'.peer.outgoing_send_reliable_commands in
    let start : Walks s.peer.mtu left (start_walk g' s') = record {
      same_mtu = mtu;
      fits = fits;
      rest = rw queue short;
      reliable_rest = rw queue_reliable reliable;
      left = omega arith;
    } in
    let (w, e, last) = choose_all-EndsWell s.peer.mtu left (start_walk g' s') small start in
    rw (e, check_outgoing_commands) (_, refl, last)
