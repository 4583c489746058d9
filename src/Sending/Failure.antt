-- ===== src/Sending/Failure.antt =====
-- `enet_peer_send` of src/peer.c: the packet's references and the commands queued, in success and in
-- failure.
use enet.Base.{
  ℕ, ◌+◌, ◌≡◌, ◌⊎◌, inl, inr, refl, ap, Bool, true, false, List, [], ◌∷◌, some, ltb, u16, u32,
  add64, length, ◌∙◌, length-append, arith, Bool-cases, zero, suc,
}
use enet.Wire.{command_size, Protocol, maximum_fragment_count}
use enet.State.{Peer, Host, Session, OutgoingCommand}
use enet.Packet.{malloc, packet_at}
use enet.Outgoing.{
  setup_outgoing_command, queue_outgoing_command, enqueue, stamp, assign_sequence, refer,
  new_outgoing,
}
use enet.Sending.{
  Plan, Cutting, no_memory, exhausted, fragments, cut, send, send_fragments, setup_all,
  fragment_length, plan_fragments, count_fragments, expect, piece_length, refer_times,
  whole_command,
}

abbrev pub queued_total : Peer → ℕ
queued_total p = length p.outgoing_send_reliable_commands + length p.outgoing_commands

enqueue-total : (p : Peer) (o : OutgoingCommand) → queued_total (enqueue p o) ≡ queued_total p + 1
unfolding enqueue
enqueue-total p o = ground (
  arith,
  length-append p.outgoing_send_reliable_commands (o ∷ []),
  length-append p.outgoing_commands (o ∷ []),
)

assign_sequence-total :
    (p : Peer) (o : OutgoingCommand) → queued_total (assign_sequence p o).0 ≡ queued_total p
unfolding assign_sequence
assign_sequence-total p o = ground arith

setup-total :
    (o : OutgoingCommand) (s : Session)
    → (queued_total (setup_outgoing_command o s).peer ≡ queued_total s.peer + 1)
      × ((setup_outgoing_command o s).host.packets ≡ s.host.packets)
unfolding setup_outgoing_command
setup-total o s =
    let size = command_size o.command.command + o.fragment_length in
    let p = record (s.peer) { outgoing_data_total = u32 (s.peer.outgoing_data_total + size) } in
    let (p', o') = assign_sequence p o in
    let last = stamp p' (u32 (s.host.total_queued + 1)) o' in
    (omega (arith, enqueue-total p' last, assign_sequence-total p o), refl)

setup_all-total :
    (l : List OutgoingCommand) (s : Session)
    → (queued_total (setup_all l s).peer ≡ queued_total s.peer + length l)
      × ((setup_all l s).host.packets ≡ s.host.packets)
unfolding setup_all
setup_all-total [] s = (omega arith, refl)
setup_all-total (o ∷ os) s =
    let rest = setup_all-total os (setup_outgoing_command o s) in
    let first = setup-total o s in (omega (arith, rest.0, first.0), rest.1 ∙ first.1)

cut-packets :
    (fuel : ℕ) (plan : Plan) (long number offset : ℕ) (h : Host)
    → (cut fuel plan long number offset h).1.packets ≡ h.packets
unfolding cut malloc
cut-packets zero plan long number offset h = ground arith
cut-packets (suc fuel) plan long number offset h =
    let size = piece_length plan.total_length offset long in
    ground (arith, cut-packets fuel plan size (u32 (number + 1)) (u32 (offset + size)) (malloc h).1)

-- What a call leaves behind: the packet's count has grown by the number of commands queued, or
-- nothing is queued and the count is the same.
abbrev pub IsFair : ℕ → Session → Bool × Session → Type 0
IsFair p s (sent, t) =
    ((sent ≡ false)
      × (t.peer ≡ s.peer)
      × ((packet_at t.host p).reference_count ≡ (packet_at s.host p).reference_count))
    ⊎ ((sent ≡ true)
        × ((n : ℕ) × (queued_total t.peer ≡ queued_total s.peer + n)
            × ((packet_at t.host p).reference_count
                ≡ add64 (packet_at s.host p).reference_count (u32 n))))

fragments-IsFair : (id p limit : ℕ) (s : Session) → IsFair p s (send_fragments id p limit s)
unfolding send_fragments
fragments-IsFair id p limit s =
    let total = (packet_at s.host p).data_length in
    let count = count_fragments total limit in
    let plan = plan_fragments id p count s in
    let start = expect p count s.host in
    let r = cut total plan limit 0 0 start in
    let same = cut-packets total plan limit 0 0 start in
    let expected : (packet_at start p).reference_count ≡ (packet_at s.host p).reference_count =
      ground arith in
    elim (Bool-cases (ltb maximum_fragment_count count)) [
      | inl t ↦ rw t (inl (refl, refl, refl))
      | inr t ↦ rw t (ended r (ap (λ f. (f p).reference_count) same ∙ expected))
    ]
  where
    ended :
        (r : Cutting × Host)
        → (packet_at r.1 p).reference_count ≡ (packet_at s.host p).reference_count
        → IsFair p s (elim r.0 [
          | Cutting.fragments l ↦
              (true, setup_all l (record s { host = refer_times p (u32 (length l)) r.1 }))
          | _ ↦ (false, record s { host = r.1 })
        ])
    ended (no_memory, h) e = inl (refl, refl, e)
    ended (exhausted, h) e = inl (refl, refl, e)
    ended (fragments l, h) e = inr (
      refl,
      (
        length l,
        (setup_all-total l (record s { host = refer_times p (u32 (length l)) h })).0,
        ground (arith, e, setup_all-total l (record s { host = refer_times p (u32 (length l)) h })),
      ),
    )

whole-IsFair :
    (c : Protocol) (p n : ℕ) (s : Session)
    → IsFair p s (queue_outgoing_command c (some p) 0 n (record s { host = expect p 1 s.host }))
unfolding queue_outgoing_command refer malloc
whole-IsFair c p n s =
    let h = (malloc (expect p 1 s.host)).1 in
    let o = new_outgoing c (some p) 0 (u16 n) in
    let t = record s { host = refer (some p) h } in
    elim (Bool-cases (malloc (expect p 1 s.host)).0) [
      | inl e ↦ rw e (inr (refl, (1, (setup-total o t).0, ground (arith, setup-total o t))))
      | inr e ↦ rw e (inl (refl, refl, ground arith))
    ]

-- `enet_peer_send` either returns 0, has queued some number of commands, and the packet's count has
-- grown by that number; or it returns -1, and then neither the peer nor the packet's count has
-- changed, whatever made it fail: the state, the channel, the packet's size, the number of
-- fragments, or an allocation after any number of fragments.
pub send-IsFair : (id p : ℕ) (s : Session) → IsFair p s (send id p s)
unfolding send
send-IsFair id p s =
    let k = packet_at s.host p in
    ground (
      arith,
      fragments-IsFair id p (fragment_length s) s,
      whole-IsFair (whole_command id k s.peer) p k.data_length s,
    )
