-- ===== src/Hosting/Limits.antt =====
-- What `enet_host_bandwidth_throttle` (src/host.c) does to the throttles of the peers.
use enet.Base.{
  ℕ, zero, suc, ◌+◌, ◌*◌, ◌/◌, ◌<◌, ◌≤◌, ◌≡◌, inl, inr, Bool, true, false, not, ◌||◌, List, [], ◌∷◌,
  Option, some, none, ◌==◌, if◌then◌else◌, ltb, u32, sub32, length, arith, Bool-cases,
}
use enet.Wire.{Protocol, Body}
use enet.State.{Peer, Host, Session, is_live}
use enet.Outgoing.{
  queue_outgoing_command, setup_outgoing_command, assign_sequence, enqueue, control,
}
use enet.Hosting.Throttle.{
  Budget, throttle_for, needs_limit, own_limit, bandwidth_of, limit_peer, adjust_round, adjust,
  Share, is_modest, share_round, share, limit_others, tell_limits, recalculate_limits, start_budget,
  bandwidth_throttle,
}

-- A peer's throttle is within its limit, and that within the scale.
abbrev pub IsThrottled : Peer → Type 0
IsThrottled p = (p.packet_throttle ≤ p.packet_throttle_limit) × (p.packet_throttle_limit ≤ 32)

abbrev pub AllThrottled : List Peer → Type 0
AllThrottled [] = Unit {0}
AllThrottled (p ∷ ps) = IsThrottled p × AllThrottled ps

quotient-le : (a d : ℕ) → a < d → u32 (a * 32) / d ≤ 32
quotient-le a d h =
    let wrapped : u32 (a * 32) ≤ a * 32 = omega arith in
    let n = u32 (a * 32) / d in
    let low : n * d ≤ u32 (a * 32) = grind arith in grind (arith, low, wrapped)

throttle_for-le : (b : Budget) → throttle_for b ≤ 32
unfolding throttle_for
throttle_for-le b = ground (arith, quotient-le b.bandwidth b.data_total)

own_limit-le :
    (now elapsed throttle : ℕ) (p : Peer)
    → throttle ≤ 32
    → needs_limit now elapsed throttle p ≡ true
    → own_limit elapsed p ≤ 32
unfolding own_limit needs_limit
own_limit-le now elapsed throttle p h t =
    let amount = p.outgoing_data_total in
    let product : throttle * amount ≤ 32 * amount = grind (arith, h) in
    let wrapped : u32 (throttle * amount) ≤ throttle * amount = omega arith in
    let less : bandwidth_of elapsed p < amount = ground (arith, t, product, wrapped) in
    ground (arith, quotient-le (bandwidth_of elapsed p) amount less)

limit_peer-IsThrottled : (limit : ℕ) (p : Peer) → limit ≤ 32 → IsThrottled (limit_peer limit p)
unfolding limit_peer
limit_peer-IsThrottled limit p h = ground arith

adjust_round-AllThrottled :
    (now elapsed throttle : ℕ) (ps : List Peer) (b : Budget)
    → throttle ≤ 32
    → AllThrottled ps
    → AllThrottled (adjust_round now elapsed throttle ps b).0
unfolding adjust_round
adjust_round-AllThrottled now elapsed throttle [] b h v = tt
adjust_round-AllThrottled now elapsed throttle (p ∷ ps) b h v =
    let own = bandwidth_of elapsed p in
    let less : Budget = record {
      peers_remaining = sub32 b.peers_remaining 1;
      data_total = sub32 b.data_total own;
      bandwidth = sub32 b.bandwidth own;
    } in
    elim (Bool-cases (needs_limit now elapsed throttle p)) [
      | inl t ↦ rw t (
        limit_peer-IsThrottled (own_limit elapsed p) p (own_limit-le now elapsed throttle p h t),
        adjust_round-AllThrottled now elapsed throttle ps less h v.1,
      )
      | inr t ↦ rw t (v.0, adjust_round-AllThrottled now elapsed throttle ps b h v.1)
    ]

-- A loop that is over leaves the throttles right.
abbrev Leaves {ℓ} : {B : Type ℓ} → (B → List Peer) → Option B → Type 0
Leaves peers none = Unit {0}
Leaves peers (some r) = AllThrottled (peers r)

either-Leaves {ℓ} :
    {B : Type ℓ} (peers : B → List Peer) (b : Bool) (x y : Option B)
    → Leaves peers x
    → Leaves peers y
    → Leaves peers (if b then x else y)
either-Leaves peers true x y p q = p
either-Leaves peers false x y p q = q

adjust-Leaves :
    (fuel now elapsed : ℕ) (needs : Bool) (ps : List Peer) (b : Budget)
    → AllThrottled ps
    → Leaves (λ (r : List Peer × Budget). r.0) (adjust fuel now elapsed needs ps b)
unfolding adjust
adjust-Leaves zero now elapsed needs ps b v =
    either-Leaves (λ r. r.0) (b.peers_remaining == 0 || not needs) _ _ v tt
adjust-Leaves (suc fuel) now elapsed needs ps b v =
    let r = adjust_round now elapsed (throttle_for b) ps b in
    let kept = adjust_round-AllThrottled now elapsed (throttle_for b) ps b (throttle_for-le b) v in
    either-Leaves (λ r. r.0) (b.peers_remaining == 0 || not needs) _ _ v
      (adjust-Leaves fuel now elapsed r.2 r.0 r.1 kept)

share_round-AllThrottled :
    (now : ℕ) (ps : List Peer) (b : Share) → AllThrottled ps → AllThrottled (share_round now ps b).0
unfolding share_round
share_round-AllThrottled now [] b v = tt
share_round-AllThrottled now (p ∷ ps) b v =
    let less = record b {
      peers_remaining = sub32 b.peers_remaining 1;
      bandwidth = sub32 b.bandwidth p.outgoing_bandwidth;
    } in
    elim (Bool-cases (is_modest now b.limit p)) [
      | inl t ↦ rw t (v.0, share_round-AllThrottled now ps less v.1)
      | inr t ↦ rw t (v.0, share_round-AllThrottled now ps b v.1)
    ]

share-Leaves :
    (fuel now : ℕ) (needs : Bool) (ps : List Peer) (b : Share)
    → AllThrottled ps
    → Leaves (λ (r : List Peer × Share). r.0) (share fuel now needs ps b)
unfolding share
share-Leaves zero now needs ps b v =
    either-Leaves (λ r. r.0) (b.peers_remaining == 0 || not needs) _ _ v tt
share-Leaves (suc fuel) now needs ps b v =
    let divided = record b { limit = b.bandwidth / b.peers_remaining } in
    let r = share_round now ps divided in
    either-Leaves (λ r. r.0) (b.peers_remaining == 0 || not needs) _ _ v
      (share-Leaves fuel now r.2 r.0 r.1 (share_round-AllThrottled now ps divided v))

limit_others-AllThrottled :
    (now throttle : ℕ) (ps : List Peer)
    → throttle ≤ 32
    → AllThrottled ps
    → AllThrottled (limit_others now throttle ps)
unfolding limit_others
limit_others-AllThrottled now throttle [] h v = tt
limit_others-AllThrottled now throttle (p ∷ ps) h v = (
  ground (arith, limit_peer-IsThrottled throttle p, v.0),
  limit_others-AllThrottled now throttle ps h v.1,
)

queue-IsThrottled :
    (c : Protocol) (s : Session)
    → IsThrottled s.peer
    → IsThrottled (queue_outgoing_command c none 0 0 s).1.peer
unfolding queue_outgoing_command setup_outgoing_command assign_sequence enqueue
queue-IsThrottled c s v = ground arith

tell_limits-AllThrottled :
    (now limit : ℕ) (h : Host) (ps : List Peer)
    → AllThrottled ps
    → AllThrottled (tell_limits now limit h ps).1
unfolding tell_limits
tell_limits-AllThrottled now limit h [] v = tt
tell_limits-AllThrottled now limit h (p ∷ ps) v =
    let incoming =
      if p.incoming_bandwidth_throttle_epoch == now then p.outgoing_bandwidth else limit in
    let message = control (10 + 128) (Body.bandwidth_limit incoming h.outgoing_bandwidth) in
    let start : Session = record { host = h; peer = p } in
    let s = (queue_outgoing_command message none 0 0 start).1 in
    elim (Bool-cases (is_live p.state)) [
      | inl t ↦
          rw t
            (queue-IsThrottled message start v.0, tell_limits-AllThrottled now limit s.host ps v.1)
      | inr t ↦ rw t (v.0, tell_limits-AllThrottled now limit h ps v.1)
    ]

recalculate-Leaves :
    (now : ℕ) (h : Host) (ps : List Peer)
    → AllThrottled ps
    → Leaves (λ (r : Host × List Peer). r.1) (recalculate_limits now h ps)
unfolding recalculate_limits
recalculate-Leaves now h ps v =
    let whole : Share = record {
      peers_remaining = u32 h.connected_peers;
      bandwidth = h.incoming_bandwidth;
      limit = 0;
    } in
    let fuel = suc (length ps) in
    told _ (
      either-Leaves (λ r. r.0) (h.incoming_bandwidth == 0) (some (ps, whole)) _ v
        (share-Leaves fuel now true ps whole v))
  where
    told :
        (o : Option (List Peer × Share))
        → Leaves (λ (r : List Peer × Share). r.0) o
        → Leaves
            (λ (r : Host × List Peer). r.1)
            (elim o [
              | none ↦ none
              | some r ↦ some (
                  tell_limits now r.1.limit (record h { recalculate_bandwidth_limits = false }) r.0)
            ])
    told none w = tt
    told (some r) w =
        tell_limits-AllThrottled now r.1.limit (record h { recalculate_bandwidth_limits = false })
          r.0 w

abbrev ready : ℕ → List Peer × Budget → List Peer
ready now r = if r.1.peers_remaining == 0 then r.0 else limit_others now (throttle_for r.1) r.0

ready-AllThrottled :
    (now : ℕ) (r : List Peer × Budget) → AllThrottled r.0 → AllThrottled (ready now r)
ready-AllThrottled now r w = elim (Bool-cases (r.1.peers_remaining == 0)) [
  | inl t ↦ rw t w
  | inr t ↦ rw t (limit_others-AllThrottled now (throttle_for r.1) r.0 (throttle_for-le r.1) w)
]

bandwidth_throttle-Leaves :
    (now : ℕ) (h : Host) (ps : List Peer)
    → AllThrottled ps
    → Leaves (λ (r : Host × List Peer). r.1) (bandwidth_throttle now h ps)
unfolding bandwidth_throttle
bandwidth_throttle-Leaves now h ps v =
    let elapsed = sub32 now h.bandwidth_throttle_epoch in
    either-Leaves (λ r. r.1) (ltb elapsed 1000) _ _ v
      (either-Leaves (λ r. r.1) (u32 h.connected_peers == 0) _ _ v
        (limited _ (
          adjust-Leaves (suc (length ps)) now elapsed (ltb 0 h.bandwidth_limited_peers) ps
            (start_budget elapsed h ps) v)))
  where
    limited :
        (o : Option (List Peer × Budget))
        → Leaves (λ (r : List Peer × Budget). r.0) o
        → Leaves
            (λ (r : Host × List Peer). r.1)
            (elim o [
              | none ↦ none
              | some r ↦
                  if h.recalculate_bandwidth_limits
                  then recalculate_limits now
                      (record h { bandwidth_throttle_epoch = now })
                      (ready now r)
                  else some (record h { bandwidth_throttle_epoch = now }, ready now r)
            ])
    limited none w = tt
    limited (some r) w =
        either-Leaves (λ r. r.1) h.recalculate_bandwidth_limits _ _
          (recalculate-Leaves now (record h { bandwidth_throttle_epoch = now }) (ready now r)
            (ready-AllThrottled now r w))
          (ready-AllThrottled now r w)

-- `enet_host_bandwidth_throttle` keeps the throttles of all peers right, whatever the bandwidths and
-- the amounts of data, their overflow at 2 ^ 32 included: if every peer's throttle was within its
-- limit and every limit within the scale of 32, so it is afterwards.
pub bandwidth_throttle-AllThrottled :
    (now : ℕ) (h : Host) (ps : List Peer) (r : Host × List Peer)
    → AllThrottled ps
    → bandwidth_throttle now h ps ≡ some r
    → AllThrottled r.1
bandwidth_throttle-AllThrottled now h ps r v e = rw e at (bandwidth_throttle-Leaves now h ps v)
