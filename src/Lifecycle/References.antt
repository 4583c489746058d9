-- ===== src/Lifecycle/References.antt =====
-- Reference counts of packets (src/packet.c, src/peer.c): emptying a queue gives back exactly the
-- references that the queue's commands hold.
use enet.Base.{
  ℕ, ◌+◌, ◌-◌, ◌^◌, ◌<◌, ◌≤◌, ◌≡◌, refl, false, ◌&&◌, List, [], ◌∷◌, Option, none, some, ltb, ◌==◌,
  if◌then◌else◌, arith, ap,
}
use enet.State.{Packet, Peer, Host, Session, Channel, OutgoingCommand, IncomingCommand}
use enet.Packet.{release, packet_destroy, packet_at}
use enet.Lifecycle.{
  reset_outgoing_commands, release_option, drop_waiting, remove_incoming_commands,
  reset_incoming_commands, reset_channels, leave_dispatch_queue, reset_outgoing_queues,
  reset_incoming_queues, reset_queues, used_channels,
}

-- 1 for a command with this packet.
abbrev pub refers : ℕ → Option ℕ → ℕ
refers p none = 0
refers p (some q) = if q == p then 1 else 0

-- How many commands of a queue have this packet.
abbrev pub references : ℕ → List OutgoingCommand → ℕ
references p [] = 0
references p (c ∷ cs) = refers p c.packet + references p cs

-- `k` is `j` with so many references given back, destroyed if these were the last.
pub record GivesBack (n : ℕ) (j k : Packet) : Type 0 where
  pub reference_count : k.reference_count ≡ j.reference_count - n
  pub freed : k.freed ≡ j.freed + (if ltb 0 n && n == j.reference_count then 1 else 0)
  pub free_callback : k.free_callback ≡ j.free_callback
  pub free_calls :
      k.free_calls
      ≡ j.free_calls
        + (if ltb 0 n && n == j.reference_count then (if j.free_callback then 1 else 0) else 0)

release_option-GivesBack :
    (o : Option ℕ) (p : ℕ) (h : Host)
    → refers p o ≤ (packet_at h p).reference_count
    → (packet_at h p).reference_count < 2 ^ 64
    → GivesBack (refers p o) (packet_at h p) (packet_at (release_option o h) p)
unfolding release packet_destroy
release_option-GivesBack none p h a b = ground arith
release_option-GivesBack (some q) p h a b = ground arith

GivesBack-trans :
    (n m : ℕ) (i j k : Packet)
    → n + m ≤ i.reference_count
    → GivesBack n i j
    → GivesBack m j k
    → GivesBack (n + m) i k
GivesBack-trans n m i j k h a b = ground arith

reset_outgoing_commands-GivesBack :
    (cs : List OutgoingCommand) (p : ℕ) (h : Host)
    → references p cs ≤ (packet_at h p).reference_count
    → (packet_at h p).reference_count < 2 ^ 64
    → GivesBack (references p cs) (packet_at h p) (packet_at (reset_outgoing_commands cs h) p)
unfolding reset_outgoing_commands
reset_outgoing_commands-GivesBack [] p h a b = ground arith
reset_outgoing_commands-GivesBack (c ∷ cs) p h a b =
    let h' = release_option c.packet h in
    let first = release_option-GivesBack c.packet p h (omega arith) b in
    let e = first.reference_count in
    GivesBack-trans (refers p c.packet) (references p cs) (packet_at h p) (packet_at h' p) _ a first
      (reset_outgoing_commands-GivesBack cs p h' (omega arith) (omega arith))

-- The same for received commands.
abbrev pub waiting_references : ℕ → List IncomingCommand → ℕ
waiting_references p [] = 0
waiting_references p (c ∷ cs) = refers p c.packet + waiting_references p cs

abbrev pub channel_references : ℕ → List Channel → ℕ
channel_references p [] = 0
channel_references p (c ∷ cs) =
    waiting_references p c.incoming_reliable_commands
    + waiting_references p c.incoming_unreliable_commands
    + channel_references p cs

-- What a step does to every packet of which it gives back no more references than it counts.
abbrev Gives : ℕ → ℕ → Host → Host → Type 0
Gives p n h k = GivesBack n (packet_at h p) (packet_at k p)

drop_waiting-GivesBack :
    (o : Option ℕ) (p : ℕ) (s : Session)
    → refers p o ≤ (packet_at s.host p).reference_count
    → (packet_at s.host p).reference_count < 2 ^ 64
    → Gives p (refers p o) s.host (drop_waiting o s).host
drop_waiting-GivesBack none p s a b = ground arith
drop_waiting-GivesBack (some q) p s a b = release_option-GivesBack (some q) p s.host a b

reset_incoming_commands-GivesBack :
    (cs : List IncomingCommand) (p : ℕ) (s : Session)
    → waiting_references p cs ≤ (packet_at s.host p).reference_count
    → (packet_at s.host p).reference_count < 2 ^ 64
    → Gives p (waiting_references p cs) s.host (reset_incoming_commands cs s).host
unfolding reset_incoming_commands remove_incoming_commands
reset_incoming_commands-GivesBack [] p s a b = ground arith
reset_incoming_commands-GivesBack (c ∷ cs) p s a b =
    let s' = drop_waiting c.packet s in
    let first = drop_waiting-GivesBack c.packet p s (omega arith) b in
    let e = first.reference_count in
    GivesBack-trans (refers p c.packet) (waiting_references p cs) (packet_at s.host p)
      (packet_at s'.host p) _ a first
      (reset_incoming_commands-GivesBack cs p s' (omega arith) (omega arith))

reset_channels-GivesBack :
    (cs : List Channel) (p : ℕ) (s : Session)
    → channel_references p cs ≤ (packet_at s.host p).reference_count
    → (packet_at s.host p).reference_count < 2 ^ 64
    → Gives p (channel_references p cs) s.host (reset_channels cs s).host
unfolding reset_channels
reset_channels-GivesBack [] p s a b = ground arith
reset_channels-GivesBack (c ∷ cs) p s a b =
    let n = waiting_references p c.incoming_reliable_commands in
    let m = waiting_references p c.incoming_unreliable_commands in
    let s₁ = reset_incoming_commands c.incoming_reliable_commands s in
    let s₂ = reset_incoming_commands c.incoming_unreliable_commands s₁ in
    let first =
      reset_incoming_commands-GivesBack c.incoming_reliable_commands p s (omega arith) b in
    let e = first.reference_count in
    let second =
      reset_incoming_commands-GivesBack c.incoming_unreliable_commands p s₁ (omega arith)
        (omega arith) in
    let e' = second.reference_count in
    let both =
      GivesBack-trans n m (packet_at s.host p) (packet_at s₁.host p) (packet_at s₂.host p)
        (omega arith) first second in
    GivesBack-trans (n + m) (channel_references p cs) (packet_at s.host p) (packet_at s₂.host p) _ a
      both (reset_channels-GivesBack cs p s₂ (omega arith) (omega arith))

abbrev pub outgoing_references : ℕ → Peer → ℕ
outgoing_references p q =
    references p q.sent_reliable_commands
    + references p q.outgoing_commands
    + references p q.outgoing_send_reliable_commands

abbrev pub incoming_references : ℕ → Peer → ℕ
incoming_references p q =
    waiting_references p q.dispatched_commands + channel_references p (used_channels q)

reset_outgoing_queues-GivesBack :
    (p : ℕ) (s : Session)
    → outgoing_references p s.peer ≤ (packet_at s.host p).reference_count
    → (packet_at s.host p).reference_count < 2 ^ 64
    → Gives p (outgoing_references p s.peer) s.host (reset_outgoing_queues s).host
unfolding reset_outgoing_queues
reset_outgoing_queues-GivesBack p s a b =
    let h₁ = reset_outgoing_commands s.peer.sent_reliable_commands s.host in
    let h₂ = reset_outgoing_commands s.peer.outgoing_commands h₁ in
    let n = references p s.peer.sent_reliable_commands in
    let m = references p s.peer.outgoing_commands in
    let first =
      reset_outgoing_commands-GivesBack s.peer.sent_reliable_commands p s.host (omega arith) b in
    let e = first.reference_count in
    let second =
      reset_outgoing_commands-GivesBack s.peer.outgoing_commands p h₁ (omega arith) (omega arith) in
    let e' = second.reference_count in
    let both =
      GivesBack-trans n m (packet_at s.host p) (packet_at h₁ p) (packet_at h₂ p) (omega arith) first
        second in
    GivesBack-trans (n + m) (references p s.peer.outgoing_send_reliable_commands)
      (packet_at s.host p) (packet_at h₂ p) _ a both
      (reset_outgoing_commands-GivesBack s.peer.outgoing_send_reliable_commands p h₂ (omega arith)
        (omega arith))

reset_incoming_queues-GivesBack :
    (p : ℕ) (s : Session)
    → incoming_references p s.peer ≤ (packet_at s.host p).reference_count
    → (packet_at s.host p).reference_count < 2 ^ 64
    → Gives p (incoming_references p s.peer) s.host (reset_incoming_queues s).host
unfolding reset_incoming_queues
reset_incoming_queues-GivesBack p s a b =
    let s' = reset_incoming_commands s.peer.dispatched_commands s in
    let first = reset_incoming_commands-GivesBack s.peer.dispatched_commands p s (omega arith) b in
    let e = first.reference_count in
    GivesBack-trans (waiting_references p s.peer.dispatched_commands)
      (channel_references p (used_channels s.peer)) (packet_at s.host p) (packet_at s'.host p) _ a
      first (reset_channels-GivesBack (used_channels s.peer) p s' (omega arith) (omega arith))

leave_dispatch_queue-same :
    (s : Session)
    → ((leave_dispatch_queue s).host.packets ≡ s.host.packets)
      × ((leave_dispatch_queue s).peer ≡ record (s.peer) { needs_dispatch = false })
unfolding leave_dispatch_queue
leave_dispatch_queue-same s = (ground arith, ground arith)

reset_outgoing_queues-incoming :
    (p : ℕ) (s : Session)
    → incoming_references p (reset_outgoing_queues s).peer ≡ incoming_references p s.peer
unfolding reset_outgoing_queues
reset_outgoing_queues-incoming p s = refl

queues-GivesBack :
    (p : ℕ) (s : Session)
    → outgoing_references p s.peer + incoming_references p s.peer
      ≤ (packet_at s.host p).reference_count
    → (packet_at s.host p).reference_count < 2 ^ 64
    → Gives p
        (outgoing_references p s.peer + incoming_references p s.peer)
        s.host
        (reset_incoming_queues (reset_outgoing_queues s)).host
queues-GivesBack p s a b =
    let t = reset_outgoing_queues s in
    let first = reset_outgoing_queues-GivesBack p s (omega arith) b in
    let e = first.reference_count in
    let kept = reset_outgoing_queues-incoming p s in
    GivesBack-trans (outgoing_references p s.peer) (incoming_references p s.peer)
      (packet_at s.host p) (packet_at t.host p) _ a first
      (rw kept at (reset_incoming_queues-GivesBack p t (omega arith) (omega arith)))

-- `enet_peer_reset_queues` on a peer whose queues, those of its channels in use included, hold no
-- more references to a packet than it counts, a number of 64 bits: the packet's count falls by
-- exactly the references that the sent, outgoing, dispatched and waiting commands hold, and it is
-- destroyed, its callback called if it has one, exactly once if these were the last ones, and not
-- at all otherwise.
pub reset_queues-GivesBack :
    (p : ℕ) (s : Session)
    → outgoing_references p s.peer + incoming_references p s.peer
      ≤ (packet_at s.host p).reference_count
    → (packet_at s.host p).reference_count < 2 ^ 64
    → GivesBack
        (outgoing_references p s.peer + incoming_references p s.peer)
        (packet_at s.host p)
        (packet_at (reset_queues s).host p)
unfolding reset_queues
reset_queues-GivesBack p s a b =
    let t = leave_dispatch_queue s in
    let packet = ap (λ (f : ℕ → Packet). f p) (leave_dispatch_queue-same s).0 in
    let outgoing = ap (outgoing_references p) (leave_dispatch_queue-same s).1 in
    let incoming = ap (incoming_references p) (leave_dispatch_queue-same s).1 in
    ground (arith, packet, outgoing, incoming, queues-GivesBack p t)
