-- ===== src/Handlers/Frame.antt =====
-- What queueing a received command (src/peer.c) leaves alone.
use enet.Base.{
  ℕ, ◌≡◌, inl, inr, Bool, true, false, List, Option, some, [], ◌++◌, arith, Option-cases, take,
  is_empty, if◌then◌else◌,
}
use enet.Wire.{Protocol, kind}
use enet.State.{Session, Host, IncomingCommand, Channel}
use enet.Packet.{malloc, packet_create, packet_destroy}
use enet.Lifecycle.{remove_incoming_commands}
use enet.Lifecycle.Frame.{remove_incoming-Drops, Drops}
use enet.Outgoing.{channel_at, set_channel}
use enet.Events.{enter_dispatch_queue}
use enet.Incoming.Dispatch.{
  sweep, Sweep, dispatch_unreliable, dispatch_reliable, hand_ready, split_ready,
}
use enet.Incoming.Queue.{
  Route, queue_incoming_command, admit, settle, obtain, new_incoming, route, insert, equip,
}

-- What the handler tests is the same in both.
pub record Alike (s t : Session) : Type 0 where
  pub group : t.peer.incoming_unsequenced_group ≡ s.peer.incoming_unsequenced_group
  pub window : t.peer.unsequenced_window ≡ s.peer.unsequenced_window
  pub state : t.peer.state ≡ s.peer.state
  pub channel_count : t.peer.channel_count ≡ s.peer.channel_count
  pub size : t.host.maximum_packet_size ≡ s.host.maximum_packet_size

Alike-trans : (s t u : Session) → Alike s t → Alike t u → Alike s u
Alike-trans s t u a b = ground arith

enter-Alike : (s : Session) → Alike s (enter_dispatch_queue s)
unfolding enter_dispatch_queue
enter-Alike s = ground arith

Drops-Alike : (s t : Session) → Drops s t → Alike s t
Drops-Alike s t d = ground (arith, d)

if-Alike : (b : Bool) (s t u : Session) → Alike s t → Alike s u → Alike s (if b then t else u)
if-Alike true s t u a c = a
if-Alike false s t u a c = c

set_channel-Alike :
    (id : ℕ) (c : Channel) (s : Session) → Alike s (record s { peer = set_channel s.peer id c })
set_channel-Alike id c s = ground arith

dispatch_unreliable-Alike :
    (id : ℕ) (x : Option ℕ) (s : Session) → Alike s (dispatch_unreliable id x s)
unfolding dispatch_unreliable
dispatch_unreliable-Alike id x s =
    let c = channel_at s.peer id in
    let start : Sweep = record {
      passed = [];
      pending = [];
      dropped = 0;
      unreliable = c.incoming_unreliable_sequence_number;
      dispatched = [];
    } in
    let w = (sweep c.incoming_reliable_sequence_number c.incoming_unreliable_commands start).0 in
    let s₁ : Session = record s {
      peer = record (s.peer) { dispatched_commands = s.peer.dispatched_commands ++ w.dispatched };
    } in
    let entered =
      if-Alike (is_empty w.dispatched) s₁ s₁ (enter_dispatch_queue s₁) (ground arith)
        (enter-Alike s₁) in
    let queue =
      w.passed
      ++ (sweep c.incoming_reliable_sequence_number c.incoming_unreliable_commands start).1 in
    let s₂ = if is_empty w.dispatched then s₁ else enter_dispatch_queue s₁ in
    let s₃ = (remove_incoming_commands x (take w.dropped queue) s₂).1 in
    Alike-trans s s₁ _ (ground arith) (
      Alike-trans s₁ s₂ _ entered (
        Alike-trans s₂ s₃ _ (Drops-Alike s₂ s₃ (remove_incoming-Drops x (take w.dropped queue) s₂))
          (set_channel-Alike id _ s₃)))

hand_ready-Alike :
    (id : ℕ) (ready rest : List IncomingCommand) (reached : ℕ) (s : Session)
    → Alike s (hand_ready id ready rest reached s)
unfolding hand_ready
hand_ready-Alike id ready rest reached s = ground arith

dispatch_reliable-Alike : (id : ℕ) (x : Option ℕ) (s : Session) → Alike s (dispatch_reliable id x s)
unfolding dispatch_reliable
dispatch_reliable-Alike id x s =
    let c = channel_at s.peer id in
    let (ready, rest, reached) =
      split_ready c.incoming_reliable_sequence_number c.incoming_reliable_commands in
    let handed = hand_ready id ready rest reached s in
    let moved = enter_dispatch_queue handed in
    let a =
      Alike-trans s handed moved (hand_ready-Alike id ready rest reached s) (enter-Alike handed) in
    if-Alike (is_empty ready) s _ _ (ground arith) (
      if-Alike (is_empty c.incoming_unreliable_commands) s _ _ a
        (Alike-trans s moved _ a (dispatch_unreliable-Alike id x moved)))

obtain-size :
    (bytes : Option (List ℕ)) (size flags count : ℕ) (h : Host)
    → (obtain bytes size flags count h).1.maximum_packet_size ≡ h.maximum_packet_size
unfolding obtain malloc packet_create packet_destroy
obtain-size bytes size flags count h = ground arith

settle-Alike :
    (id : ℕ) (r : Route) (new : IncomingCommand) (p : ℕ) (c : Channel) (s : Session)
    → Alike s (settle id r new p c s)
unfolding settle
settle-Alike id Route.reliable new p c s =
    Alike-trans s _ _ (ground arith) (dispatch_reliable-Alike id (some new.block) _)
settle-Alike id Route.unreliable new p c s =
    Alike-trans s _ _ (ground arith) (dispatch_unreliable-Alike id (some new.block) _)
settle-Alike id Route.unsequenced new p c s =
    Alike-trans s _ _ (ground arith) (dispatch_unreliable-Alike id (some new.block) _)
settle-Alike id Route.nowhere new p c s =
    Alike-trans s _ _ (ground arith) (dispatch_unreliable-Alike id (some new.block) _)

admit-Alike :
    (id : ℕ) (r : Route) (new : IncomingCommand) (bytes : Option (List ℕ)) (size flags : ℕ)
    (s : Session)
    → Alike s (admit id r new bytes size flags s).1
unfolding admit
admit-Alike id r new bytes size flags s =
    let h = (obtain bytes size flags new.fragment_count s.host).1 in
    let allocated : Session = record s { host = h } in
    let kept = obtain-size bytes size flags new.fragment_count s.host in
    elim (Option-cases (obtain bytes size flags new.fragment_count s.host).0) [
      | inl n ↦ ground (arith, n, kept)
      | inr (m, e) ↦ elim (Option-cases (insert r (channel_at s.peer id) (equip new m))) [
        | inl n ↦ ground (arith, e, n)
        | inr (c, f) ↦ ground (
          arith,
          e,
          f,
          Alike-trans s allocated _ (ground (arith, kept))
              (settle-Alike id r (equip new m) m.0 c allocated),
        )
      ]
    ]

pub queue-Alike :
    (c : Protocol) (bytes : Option (List ℕ)) (size flags count : ℕ) (s : Session)
    → Alike s (queue_incoming_command c bytes size flags count s).1
unfolding queue_incoming_command
queue-Alike c bytes size flags count s = ground (
  arith,
  admit-Alike c.channel_id (route (kind c.command)) (new_incoming c (route (kind c.command)) count)
      bytes size flags s,
)
