-- ===== src/Hosting/Throttle.antt =====
-- `enet_host_bandwidth_throttle` of src/host.c. Its two loops that repeat a walk over the peers as
-- long as one changed something run on fuel; `none` is a loop that is not over.
use enet.Base.{
  ℕ, zero, suc, ◌+◌, ◌*◌, ◌/◌, Bool, true, false, not, ◌&&◌, ◌||◌, List, [], ◌∷◌, Option, none,
  some, ltb, leb, ◌==◌, if◌then◌else◌, u32, sub32, length,
}
use enet.Wire.{Body}
use enet.State.{Peer, Host, is_live, throttle_scale}
use enet.Outgoing.{queue_outgoing_command, control}

-- `peersRemaining`, `dataTotal` and `bandwidth`
pub record Budget : Type 0 where
  pub peers_remaining : ℕ
  pub data_total : ℕ
  pub bandwidth : ℕ

-- What the connected peers have sent.
unfoldable pub sum_data : List Peer → ℕ → ℕ
sum_data [] total = total
sum_data (p ∷ ps) total =
    sum_data ps (if is_live p.state then u32 (total + p.outgoing_data_total) else total)

-- The throttle that the budget allows.
unfoldable pub throttle_for : Budget → ℕ
throttle_for b =
    if leb b.data_total b.bandwidth
    then throttle_scale
    else u32 (b.bandwidth * throttle_scale) / b.data_total

-- `packetThrottle` held under a new limit, and the two totals reset.
unfoldable pub limit_peer : ℕ → Peer → Peer
limit_peer limit p = record p {
  packet_throttle_limit = limit;
  packet_throttle = if ltb limit p.packet_throttle then limit else p.packet_throttle;
  incoming_data_total = 0;
  outgoing_data_total = 0;
}

unfoldable pub bandwidth_of : ℕ → Peer → ℕ
bandwidth_of elapsed p = u32 (p.incoming_bandwidth * elapsed) / 1000

-- Whether a peer is to be held below the common throttle: it has a bandwidth of its own, was not
-- held before, and would send more than that.
unfoldable pub needs_limit : ℕ → ℕ → ℕ → Peer → Bool
needs_limit now elapsed throttle p =
    is_live p.state
    && not (p.incoming_bandwidth == 0)
    && not (p.outgoing_bandwidth_throttle_epoch == now)
    && ltb (bandwidth_of elapsed p) (u32 (throttle * p.outgoing_data_total) / throttle_scale)

-- The peer's own limit, 1 at least.
unfoldable pub own_limit : ℕ → Peer → ℕ
own_limit elapsed p =
    let limit = u32 (bandwidth_of elapsed p * throttle_scale) / p.outgoing_data_total in
    if limit == 0 then 1 else limit

-- One walk over the peers: the peers, the budget that is left and whether one was held.
unfoldable pub adjust_round : ℕ → ℕ → ℕ → List Peer → Budget → List Peer × Budget × Bool
adjust_round now elapsed throttle [] b = ([], b, false)
adjust_round now elapsed throttle (p ∷ ps) b =
    let own = bandwidth_of elapsed p in
    let held = record (limit_peer (own_limit elapsed p) p) {
      outgoing_bandwidth_throttle_epoch = now;
    } in
    let less : Budget = record {
      peers_remaining = sub32 b.peers_remaining 1;
      data_total = sub32 b.data_total own;
      bandwidth = sub32 b.bandwidth own;
    } in
    let (after, c, _) = adjust_round now elapsed throttle ps less in
    let (rest, d, needs) = adjust_round now elapsed throttle ps b in
    if needs_limit now elapsed throttle p then (held ∷ after, c, true) else (p ∷ rest, d, needs)

-- The first loop, which ends when no peer is left or a walk held none.
unfoldable pub adjust : ℕ → ℕ → ℕ → Bool → List Peer → Budget → Option (List Peer × Budget)
adjust zero now elapsed needs peers b =
    if b.peers_remaining == 0 || not needs then some (peers, b) else none
adjust (suc fuel) now elapsed needs peers b =
    let (peers', b', needs') = adjust_round now elapsed (throttle_for b) peers b in
    let rest = adjust fuel now elapsed needs' peers' b' in
    if b.peers_remaining == 0 || not needs then some (peers, b) else rest

-- The connected peers that were not held get the common throttle.
unfoldable pub limit_others : ℕ → ℕ → List Peer → List Peer
limit_others now throttle [] = []
limit_others now throttle (p ∷ ps) =
    (if is_live p.state && not (p.outgoing_bandwidth_throttle_epoch == now)
      then limit_peer throttle p
      else p)
    ∷ limit_others now throttle ps

-- `peersRemaining`, `bandwidth` and `bandwidthLimit` of the second part
pub record Share : Type 0 where
  pub peers_remaining : ℕ
  pub bandwidth : ℕ
  pub limit : ℕ

-- Whether a peer sends less than its share, so that the others get more.
unfoldable pub is_modest : ℕ → ℕ → Peer → Bool
is_modest now limit p =
    is_live p.state
    && not (p.incoming_bandwidth_throttle_epoch == now)
    && not (ltb 0 p.outgoing_bandwidth && leb limit p.outgoing_bandwidth)

unfoldable pub share_round : ℕ → List Peer → Share → List Peer × Share × Bool
share_round now [] b = ([], b, false)
share_round now (p ∷ ps) b =
    let marked = record p { incoming_bandwidth_throttle_epoch = now } in
    let less = record b {
      peers_remaining = sub32 b.peers_remaining 1;
      bandwidth = sub32 b.bandwidth p.outgoing_bandwidth;
    } in
    let (after, c, _) = share_round now ps less in
    let (rest, d, needs) = share_round now ps b in
    if is_modest now b.limit p then (marked ∷ after, c, true) else (p ∷ rest, d, needs)

-- The second loop; each walk begins with the share of each peer that is left.
unfoldable pub share : ℕ → ℕ → Bool → List Peer → Share → Option (List Peer × Share)
share zero now needs peers b = if b.peers_remaining == 0 || not needs then some (peers, b) else none
share (suc fuel) now needs peers b =
    let divided = record b { limit = b.bandwidth / b.peers_remaining } in
    let (peers', b', needs') = share_round now peers divided in
    let rest = share fuel now needs' peers' b' in
    if b.peers_remaining == 0 || not needs then some (peers, b) else rest

-- Every connected peer is told its limit.
unfoldable pub tell_limits : ℕ → ℕ → Host → List Peer → Host × List Peer
tell_limits now limit h [] = (h, [])
tell_limits now limit h (p ∷ ps) =
    let incoming =
      if p.incoming_bandwidth_throttle_epoch == now then p.outgoing_bandwidth else limit in
    let message = control (10 + 128) (Body.bandwidth_limit incoming h.outgoing_bandwidth) in
    let s = (queue_outgoing_command message none 0 0 (record { host = h; peer = p })).1 in
    let (h₁, told) = tell_limits now limit s.host ps in
    let (h₂, rest) = tell_limits now limit h ps in
    if is_live p.state then (h₁, s.peer ∷ told) else (h₂, p ∷ rest)

-- The part that is done if the bandwidth limits are to be computed again.
unfoldable pub recalculate_limits : ℕ → Host → List Peer → Option (Host × List Peer)
recalculate_limits now h peers =
    let h' = record h { recalculate_bandwidth_limits = false } in
    let whole : Share = record {
      peers_remaining = u32 h.connected_peers;
      bandwidth = h.incoming_bandwidth;
      limit = 0;
    } in
    let shared : Option (List Peer × Share) =
      if h.incoming_bandwidth == 0
      then some (peers, whole)
      else share (suc (length peers)) now true peers whole in
    elim shared [ none ↦ none | some r ↦ some (tell_limits now r.1.limit h' r.0) ]

-- The budget at the start of the first part.
unfoldable pub start_budget : ℕ → Host → List Peer → Budget
start_budget elapsed h peers =
    let limited = not (h.outgoing_bandwidth == 0) in
    record {
      peers_remaining = u32 h.connected_peers;
      data_total = if limited then sum_data peers 0 else 0xFFFFFFFF;
      bandwidth = if limited then u32 (h.outgoing_bandwidth * elapsed) / 1000 else 0xFFFFFFFF;
    }

-- `enet_host_bandwidth_throttle` at the time `now`
unfoldable pub bandwidth_throttle : ℕ → Host → List Peer → Option (Host × List Peer)
bandwidth_throttle now h peers =
    let elapsed = sub32 now h.bandwidth_throttle_epoch in
    let h' = record h { bandwidth_throttle_epoch = now } in
    let adjusted =
      adjust (suc (length peers)) now elapsed (ltb 0 h.bandwidth_limited_peers) peers
        (start_budget elapsed h peers) in
    let limited : Option (Host × List Peer) = elim adjusted [
      | none ↦ none
      | some r ↦
          let ready =
            if r.1.peers_remaining == 0 then r.0 else limit_others now (throttle_for r.1) r.0 in
          if h.recalculate_bandwidth_limits
          then recalculate_limits now h' ready
          else some (h', ready)
    ] in
    if ltb elapsed 1000
    then some (h, peers)
    else if u32 h.connected_peers == 0
    then some (h', peers)
    else limited
