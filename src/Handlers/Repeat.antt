-- ===== src/Handlers/Repeat.antt =====
-- Unsequenced commands of src/protocol.c: a group that comes again is passed over.
use enet.Base.{
  ℕ, ◌-◌, ◌%◌, ◌<◌, ◌≡◌, ◌⊎◌, inl, inr, ap, sym, ◌∙◌, true, false, List, some, arith, length,
  get_or, take, get_or-set_self, length-replicate,
}
use enet.Wire.{Protocol}
use enet.State.{Session, Peer}
use enet.Handlers.Data.{
  handle_send_unsequenced, is_acceptable, enter_window, mark_group, is_stale_group, deliver,
}
use enet.Handlers.Frame.{queue-Alike}

abbrev base : ℕ → ℕ
base group = group - group % 1024

enter_window-lem :
    (group : ℕ) (p : Peer)
    → length p.unsequenced_window ≡ 1024
    → ((enter_window group p).incoming_unsequenced_group ≡ base group)
      × (length (enter_window group p).unsequenced_window ≡ 1024)
      × ((enter_window group p).state ≡ p.state)
      × ((enter_window group p).channel_count ≡ p.channel_count)
unfolding enter_window
enter_window-lem group p fits =
    (ground arith, ground (arith, length-replicate 1024 false), ground arith, ground arith)

enter_window-same :
    (group : ℕ) (p : Peer) → p.incoming_unsequenced_group ≡ base group → enter_window group p ≡ p
unfolding enter_window
enter_window-same group p e = ground arith

is_stale_group-base : (group : ℕ) → is_stale_group (base group) group ≡ false
unfolding is_stale_group
is_stale_group-base group = ground arith

is_acceptable-Alike :
    (c : Protocol) (size : ℕ) (bytes : List ℕ) (s t : Session)
    → t.peer.state ≡ s.peer.state
    → t.peer.channel_count ≡ s.peer.channel_count
    → t.host.maximum_packet_size ≡ s.host.maximum_packet_size
    → is_acceptable c size bytes t ≡ is_acceptable c size bytes s
unfolding is_acceptable
is_acceptable-Alike c size bytes s t a b e = ground arith

module _ (c : Protocol) (group size : ℕ) (bytes : List ℕ) where
  passed_over :
      (s : Session)
      → is_acceptable c size bytes s ≡ true
      → get_or (enter_window group s.peer).unsequenced_window (group % 1024) false ≡ true
      → handle_send_unsequenced c group size bytes s ≡ (true, s)
  unfolding handle_send_unsequenced
  passed_over s a e = ground (arith, a, e)

  module _ (s : Session) (fits : length s.peer.unsequenced_window ≡ 1024) where
    abbrev entered : Session
    entered = record s { peer = enter_window group s.peer }

    abbrev queued : Session
    queued = (deliver c size 2 bytes entered).1

    abbrev marked : Session
    marked = record queued { peer = mark_group group queued.peer }

    outcomes :
        (handle_send_unsequenced c group size bytes s).0 ≡ true
        → (is_acceptable c size bytes s ≡ true)
          × (((handle_send_unsequenced c group size bytes s) ≡ (true, s))
              ⊎ ((handle_send_unsequenced c group size bytes s) ≡ (true, marked)))
    unfolding handle_send_unsequenced
    outcomes done = (ground arith, ground arith)

    marked-passed :
        is_acceptable c size bytes s ≡ true
        → handle_send_unsequenced c group size bytes marked ≡ (true, marked)
    unfolding mark_group
    marked-passed a =
        let q = queue-Alike c (some (take size bytes)) size 2 0 entered in
        let w = enter_window-lem group s.peer fits in
        let same = enter_window-same group marked.peer (q.group ∙ w.0) in
        let room : group % 1024 < length queued.peer.unsequenced_window =
          ground (arith, ap length q.window, w.1) in
        passed_over marked
          (is_acceptable-Alike c size bytes s marked (q.state ∙ w.2) (q.channel_count ∙ w.3) q.size
            ∙ a)
          (ap (λ (p : Peer). get_or p.unsequenced_window (group % 1024) false) same
            ∙ get_or-set_self queued.peer.unsequenced_window (group % 1024) true false room)

-- An unsequenced command whose handling has returned 0 and that comes again at once changes
-- nothing more: its group is passed over, be it that it was queued, that it was there already or
-- that it lay outside the windows. The peer's window has its 1024 bits.
pub handle_send_unsequenced-repeat :
    (c : Protocol) (group size : ℕ) (bytes : List ℕ) (s : Session)
    → length s.peer.unsequenced_window ≡ 1024
    → (handle_send_unsequenced c group size bytes s).0 ≡ true
    → handle_send_unsequenced c group size bytes (handle_send_unsequenced c group size bytes s).1
      ≡ (true, (handle_send_unsequenced c group size bytes s).1)
handle_send_unsequenced-repeat c group size bytes s fits done =
    let (a, o) = outcomes c group size bytes s fits done in
    elim o [
      | inl e ↦
          ap (λ q. handle_send_unsequenced c group size bytes q.1) e
          ∙ (e ∙ ap (λ q. (true, q.1)) (sym e))
      | inr e ↦
          ap (λ q. handle_send_unsequenced c group size bytes q.1) e
          ∙ (marked-passed c group size bytes s fits a ∙ ap (λ q. (true, q.1)) (sym e))
    ]
