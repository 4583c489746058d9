-- ===== src/Handlers/Assembly/Delivery.antt =====
-- A packet on its way: cut by `enet_peer_send` (src/peer.c) and put together by the handlers of
-- fragments (src/protocol.c).
use enet.Base.{
  ℕ, zero, suc, ◌+◌, ◌^◌, ◌<◌, ◌≤◌, ◌≡◌, true, List, [], ◌∷◌, some, ltb, length, get_or, arith, u16,
  Bool-cases, inl, inr, ltb→lt,
}
use enet.Wire.{SendFragment, Body, send_fragment}
use enet.State.{IncomingCommand, OutgoingCommand, Packet}
use enet.Outgoing.{new_outgoing}
use enet.Sending.{Plan, fragment, piece_length}
use enet.Sending.Cut.{Tiles}
use enet.Handlers.Assembly.{IsCutting, Awaits, AllBelow, member, arrive_all}
use enet.Handlers.Assembly.Complete.{arrive_all_complete}

abbrev fragment_body : Body → SendFragment
fragment_body (send_fragment f) = f
fragment_body _ = record {
  start_sequence_number = 0;
  data_length = 0;
  fragment_count = 0;
  fragment_number = 0;
  total_length = 0;
  fragment_offset = 0;
}

-- The fragment that the command at this place of a list carries.
abbrev pub carried_by : Plan → List OutgoingCommand → ℕ → SendFragment
carried_by plan l i = fragment_body (get_or l i (fragment plan 0 0 0)).command.body

module _ (plan : Plan) (limit : ℕ) (positive : 0 < limit) (narrow : limit < 2 ^ 16) where
  piece-number :
      (number offset : ℕ) (l : List OutgoingCommand) (i : ℕ)
      → Tiles plan limit number offset l
      → i < length l
      → (carried_by plan l i).fragment_number ≡ number + i
  unfolding fragment new_outgoing
  piece-number number offset [] i t h = absurd (omega (arith, h))
  piece-number number offset (o ∷ os) zero t h = rw t.1 (omega arith)
  piece-number number offset (o ∷ os) (suc i) t h =
      let size = piece_length plan.total_length offset limit in
      omega (arith, piece-number (number + 1) (offset + size) os i t.2 (omega (arith, h)))

  piece-inside :
      (number offset : ℕ) (l : List OutgoingCommand) (i : ℕ)
      → Tiles plan limit number offset l
      → i < length l
      → let f = carried_by plan l i in f.fragment_offset + f.data_length ≤ plan.total_length
  unfolding fragment new_outgoing
  piece-inside number offset [] i t h = absurd (omega (arith, h))
  piece-inside number offset (o ∷ os) zero t h = rw t.1 (ground (arith, t.0))
  piece-inside number offset (o ∷ os) (suc i) t h =
      let size = piece_length plan.total_length offset limit in
      piece-inside (number + 1) (offset + size) os i t.2 (omega (arith, h))

  piece-cover :
      (number offset : ℕ) (l : List OutgoingCommand) (j : ℕ)
      → Tiles plan limit number offset l
      → offset ≤ j
      → j < plan.total_length
      → (i : ℕ) × (i < length l)
        × ((carried_by plan l i).fragment_offset ≤ j)
        × (j < (carried_by plan l i).fragment_offset + (carried_by plan l i).data_length)
  unfolding fragment new_outgoing
  piece-cover number offset [] j t lo hi = absurd (omega (arith, t))
  piece-cover number offset (o ∷ os) j t lo hi =
      let size = piece_length plan.total_length offset limit in
      let exact : u16 size ≡ size = ground (arith, positive, narrow) in
      elim (Bool-cases (ltb j (offset + size))) [
        | inl here ↦ (0, omega arith, rw t.1 lo, rw t.1 (rw exact (ltb→lt j (offset + size) here)))
        | inr later ↦
            let (i, below, low, high) =
              piece-cover (number + 1) (offset + size) os j t.2 (ground (arith, later)) hi in
            (suc i, omega (arith, below), low, high)
      ]

-- The fragments of a packet satisfy what the assembly needs of them.
pub Tiles-IsCutting :
    (plan : Plan) (limit : ℕ) (l : List OutgoingCommand) (bytes : List ℕ)
    → 0 < limit
    → limit < 2 ^ 16
    → plan.total_length ≡ length bytes
    → Tiles plan limit 0 0 l
    → IsCutting bytes (length l) (carried_by plan l)
Tiles-IsCutting plan limit l bytes p n e t = record {
  number = λ i h. omega (arith, piece-number plan limit p n 0 0 l i t h);
  inside = λ i h. omega (arith, piece-inside plan limit p n 0 0 l i t h, e);
  cover = λ j h. piece-cover plan limit p n 0 0 l j t (omega arith) (omega (arith, h, e));
}

-- What `enet_peer_send` cuts, the handlers of fragments put together: the fragments of a packet
-- below 2 ^ 32 bytes, cut at a length below 2 ^ 16, arrive in any order, each at least once, for a
-- command that awaits so many and a packet of that length. Then none is missing any more, and the
-- packet has the bytes that were sent.
pub arrive_all-Tiles :
    (plan : Plan) (limit : ℕ) (l : List OutgoingCommand) (bytes is : List ℕ) (d : IncomingCommand)
    (k : Packet)
    → 0 < limit
    → limit < 2 ^ 16
    → plan.total_length ≡ length bytes
    → length bytes < 2 ^ 32
    → length l < 2 ^ 32
    → Tiles plan limit 0 0 l
    → Awaits (length bytes) (length l) d k
    → AllBelow (length l) is
    → ((i : ℕ) → i < length l → member i is ≡ true)
    → let (d', k') = arrive_all bytes (carried_by plan l) is d k in
      (d'.fragments_remaining ≡ 0) × (k'.bytes ≡ some bytes)
arrive_all-Tiles plan limit l bytes is d k p n e small few t w b all =
    arrive_all_complete bytes (length l) (carried_by plan l) is d k
      (Tiles-IsCutting plan limit l bytes p n e t) small few w b all
