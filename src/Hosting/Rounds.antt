-- ===== src/Hosting/Rounds.antt =====
-- The end of the two repeated walks of `enet_host_bandwidth_throttle` (src/host.c), by the peers that
-- do not bear the time of the run.
use enet.Base.{
  ℕ, zero, suc, ◌/◌, ◌<◌, ◌≤◌, ◌≡◌, refl, inl, inr, Bool, true, false, not, ◌||◌, List, [], ◌∷◌,
  Option, some, ◌==◌, if◌then◌else◌, ltb, u32, sub32, length, arith, Bool-cases,
}
use enet.State.{Peer, Host}
use enet.Hosting.Throttle.{
  Budget, throttle_for, needs_limit, adjust_round, adjust, Share, is_modest, share_round, share,
  start_budget, recalculate_limits, bandwidth_throttle, limit_peer, bandwidth_of,
}

-- The peers that do not bear the time of this run.
abbrev unmarked : ℕ → List Peer → ℕ
unmarked now [] = 0
unmarked now (p ∷ ps) =
    if p.outgoing_bandwidth_throttle_epoch == now then unmarked now ps else suc (unmarked now ps)

abbrev unshared : ℕ → List Peer → ℕ
unshared now [] = 0
unshared now (p ∷ ps) =
    if p.incoming_bandwidth_throttle_epoch == now then unshared now ps else suc (unshared now ps)

unmarked-le : (now : ℕ) (ps : List Peer) → unmarked now ps ≤ length ps
unmarked-le now [] = omega arith
unmarked-le now (p ∷ ps) = ground (arith, unmarked-le now ps)

unshared-le : (now : ℕ) (ps : List Peer) → unshared now ps ≤ length ps
unshared-le now [] = omega arith
unshared-le now (p ∷ ps) = ground (arith, unshared-le now ps)

-- What a walk leaves unmarked: less if it changed something.
abbrev Falls : ℕ → ℕ → Bool → Type 0
Falls before after true = after < before
Falls before after false = after ≤ before

Falls-le : (a b : ℕ) (needs : Bool) → Falls a b needs → b ≤ a
Falls-le a b true h = omega (arith, h)
Falls-le a b false h = h

Falls-suc : (a b : ℕ) (needs : Bool) → Falls a b needs → Falls (suc a) (suc b) needs
Falls-suc a b true h = omega (arith, h)
Falls-suc a b false h = omega (arith, h)

needs_limit-unmarked :
    (now elapsed throttle : ℕ) (p : Peer)
    → needs_limit now elapsed throttle p ≡ true
    → (p.outgoing_bandwidth_throttle_epoch == now) ≡ false
unfolding needs_limit
needs_limit-unmarked now elapsed throttle p t = ground (arith, t)

is_modest-unmarked :
    (now limit : ℕ) (p : Peer)
    → is_modest now limit p ≡ true
    → (p.incoming_bandwidth_throttle_epoch == now) ≡ false
unfolding is_modest
is_modest-unmarked now limit p t = ground (arith, t)

same_time : (now : ℕ) → (now == now) ≡ true
same_time now = ground arith

adjust_round-Falls :
    (now elapsed throttle : ℕ) (ps : List Peer) (b : Budget)
    → let (ps', _, needs) = adjust_round now elapsed throttle ps b in
      Falls (unmarked now ps) (unmarked now ps') needs
unfolding adjust_round limit_peer
adjust_round-Falls now elapsed throttle [] b = omega arith
adjust_round-Falls now elapsed throttle (p ∷ ps) b =
    let own = bandwidth_of elapsed p in
    let less : Budget = record {
      peers_remaining = sub32 b.peers_remaining 1;
      data_total = sub32 b.data_total own;
      bandwidth = sub32 b.bandwidth own;
    } in
    let after = adjust_round now elapsed throttle ps less in
    let rest = adjust_round now elapsed throttle ps b in
    elim (Bool-cases (needs_limit now elapsed throttle p)) [
      | inl t ↦ rw t (
          rw (same_time now) (
            rw (needs_limit-unmarked now elapsed throttle p t) (
              let fewer =
                Falls-le (unmarked now ps) (unmarked now after.0) after.2
                  (adjust_round-Falls now elapsed throttle ps less) in
              omega (arith, fewer))))
      | inr t ↦ rw t (
          let fewer = adjust_round-Falls now elapsed throttle ps b in
          elim (Bool-cases (p.outgoing_bandwidth_throttle_epoch == now)) [
            | inl q ↦ rw q fewer
            | inr q ↦ rw q (Falls-suc (unmarked now ps) (unmarked now rest.0) rest.2 fewer)
          ])
    ]

share_round-Falls :
    (now : ℕ) (ps : List Peer) (b : Share)
    → let (ps', _, needs) = share_round now ps b in Falls (unshared now ps) (unshared now ps') needs
unfolding share_round
share_round-Falls now [] b = omega arith
share_round-Falls now (p ∷ ps) b =
    let less = record b {
      peers_remaining = sub32 b.peers_remaining 1;
      bandwidth = sub32 b.bandwidth p.outgoing_bandwidth;
    } in
    let after = share_round now ps less in
    let rest = share_round now ps b in
    elim (Bool-cases (is_modest now b.limit p)) [
      | inl t ↦ rw t (
          rw (same_time now) (
            rw (is_modest-unmarked now b.limit p t) (
              let fewer =
                Falls-le (unshared now ps) (unshared now after.0) after.2
                  (share_round-Falls now ps less) in
              omega (arith, fewer))))
      | inr t ↦ rw t (
          let fewer = share_round-Falls now ps b in
          elim (Bool-cases (p.incoming_bandwidth_throttle_epoch == now)) [
            | inl q ↦ rw q fewer
            | inr q ↦ rw q (Falls-suc (unshared now ps) (unshared now rest.0) rest.2 fewer)
          ])
    ]

adjust-stop :
    (fuel now elapsed : ℕ) (ps : List Peer) (b : Budget)
    → adjust fuel now elapsed false ps b ≡ some (ps, b)
unfolding adjust
adjust-stop zero now elapsed ps b = ground arith
adjust-stop (suc fuel) now elapsed ps b = ground arith

share-stop : (fuel now : ℕ) (ps : List Peer) (b : Share) → share fuel now false ps b ≡ some (ps, b)
unfolding share
share-stop zero now ps b = ground arith
share-stop (suc fuel) now ps b = ground arith

adjust_total :
    (fuel now elapsed : ℕ) (needs : Bool) (ps : List Peer) (b : Budget)
    → unmarked now ps < fuel
    → (r : List Peer × Budget) × (adjust fuel now elapsed needs ps b ≡ some r)
unfolding adjust
adjust_total zero now elapsed needs ps b h = absurd (omega (arith, h))
adjust_total (suc fuel) now elapsed needs ps b h =
    let r = adjust_round now elapsed (throttle_for b) ps b in
    let fewer = adjust_round-Falls now elapsed (throttle_for b) ps b in
    elim (Bool-cases (b.peers_remaining == 0 || not needs)) [
      | inl t ↦ rw t ((ps, b), refl)
      | inr t ↦ rw t (elim (Bool-cases r.2) [
        | inl q ↦ rw q (
            adjust_total fuel now elapsed true r.0 r.1 (
              let less : unmarked now r.0 < unmarked now ps = rw q at fewer in
              omega (arith, h, less)))
        | inr q ↦ rw q ((r.0, r.1), adjust-stop fuel now elapsed r.0 r.1)
      ])
    ]

share_total :
    (fuel now : ℕ) (needs : Bool) (ps : List Peer) (b : Share)
    → unshared now ps < fuel
    → (r : List Peer × Share) × (share fuel now needs ps b ≡ some r)
unfolding share
share_total zero now needs ps b h = absurd (omega (arith, h))
share_total (suc fuel) now needs ps b h =
    let divided = record b { limit = b.bandwidth / b.peers_remaining } in
    let r = share_round now ps divided in
    let fewer = share_round-Falls now ps divided in
    elim (Bool-cases (b.peers_remaining == 0 || not needs)) [
      | inl t ↦ rw t ((ps, b), refl)
      | inr t ↦ rw t (elim (Bool-cases r.2) [
        | inl q ↦ rw q (
            share_total fuel now true r.0 r.1 (
              let less : unshared now r.0 < unshared now ps = rw q at fewer in
              omega (arith, h, less)))
        | inr q ↦ rw q ((r.0, r.1), share-stop fuel now r.0 r.1)
      ])
    ]

abbrev Ends {ℓ} : {A : Type ℓ} → Option A → Type ℓ
Ends {A = A} o = (r : A) × (o ≡ some r)

either-Ends {ℓ} :
    {A : Type ℓ} (b : Bool) (x y : Option A) → Ends x → Ends y → Ends (if b then x else y)
either-Ends true x y p q = p
either-Ends false x y p q = q

recalculate_total : (now : ℕ) (h : Host) (ps : List Peer) → Ends (recalculate_limits now h ps)
unfolding recalculate_limits
recalculate_total now h ps =
    let whole : Share = record {
      peers_remaining = u32 h.connected_peers;
      bandwidth = h.incoming_bandwidth;
      limit = 0;
    } in
    let fuel = suc (length ps) in
    let (r, e) =
      either-Ends (h.incoming_bandwidth == 0) (some (ps, whole)) (share fuel now true ps whole)
        ((ps, whole), refl)
        (share_total fuel now true ps whole (omega (arith, unshared-le now ps))) in
    rw (e, recalculate_limits) (_, refl)

-- `enet_host_bandwidth_throttle` comes to an end for every host and every list of peers, whatever
-- the clock, the counts and the bandwidths: each of its two loops is over after one walk more than
-- there are peers.
pub bandwidth_throttle_total :
    (now : ℕ) (h : Host) (ps : List Peer)
    → (r : Host × List Peer) × (bandwidth_throttle now h ps ≡ some r)
unfolding bandwidth_throttle
bandwidth_throttle_total now h ps =
    let elapsed = sub32 now h.bandwidth_throttle_epoch in
    let budget = start_budget elapsed h ps in
    let (r, e) =
      adjust_total (suc (length ps)) now elapsed (ltb 0 h.bandwidth_limited_peers) ps budget
        (omega (arith, unmarked-le now ps)) in
    let h' = record h { bandwidth_throttle_epoch = now } in
    rw e (
      either-Ends (ltb elapsed 1000) _ _ ((h, ps), refl)
        (either-Ends (u32 h.connected_peers == 0) _ _ ((h', ps), refl)
          (either-Ends h.recalculate_bandwidth_limits _ _ (recalculate_total now h' _) (_, refl))))
