-- ===== src/Sending/Cut.antt =====
-- The cut of `enet_peer_send` (src/peer.c): what the fragments of a packet are.
use enet.Base.{
  ℕ, zero, suc, ◌+◌, ◌-◌, ◌*◌, ◌^◌, ◌<◌, ◌≤◌, ◌≡◌, ◌⊎◌, inl, inr, refl, Bool, true, false, not,
  ◌||◌, List, [], ◌∷◌, ltb, u32, add64, sub64, ◌/◌, length, arith, Bool-cases,
}
use enet.Packet.{malloc, first_allocation, later_allocations}
use enet.State.{Host, OutgoingCommand}
use enet.Sending.{
  Plan, fragment, Cutting, no_memory, exhausted, fragments, add_fragment, cut, count_fragments,
  piece_length,
}

-- The fragments lie end to end from the offset up to the packet's length, are numbered one after
-- the other, and each but the last one has the full length.
abbrev pub Tiles : Plan → ℕ → ℕ → ℕ → List OutgoingCommand → Type 0
Tiles plan limit number offset [] = offset ≡ plan.total_length
Tiles plan limit number offset (o ∷ os) =
    let size = piece_length plan.total_length offset limit in
    (offset < plan.total_length)
    × (o ≡ fragment plan number offset size)
    × Tiles plan limit (number + 1) (offset + size) os

-- Whether an allocation that is still to come fails.
abbrev pub is_short : List Bool → Bool
is_short [] = false
is_short (b ∷ bs) = not b || is_short bs

-- What the loop has to give.
abbrev pub IsCut : Plan → ℕ → ℕ → ℕ → List Bool → Cutting → Type 0
IsCut plan limit number offset coming no_memory = is_short coming ≡ true
IsCut plan limit number offset coming exhausted = ⊥
IsCut plan limit number offset coming (fragments l) = Tiles plan limit number offset l

add-IsCut :
    (plan : Plan) (limit number offset : ℕ) (coming : List Bool) (rest : Cutting)
    → offset < plan.total_length
    → first_allocation coming ≡ true
    → let size = piece_length plan.total_length offset limit in
      IsCut plan limit (number + 1) (offset + size) (later_allocations coming) rest
      → IsCut plan limit number offset coming (add_fragment (fragment plan number offset size) rest)
add-IsCut plan limit number offset [] no_memory h e v = v
add-IsCut plan limit number offset (b ∷ bs) no_memory h e v = ground (arith, e, v)
add-IsCut plan limit number offset coming exhausted h e v = v
add-IsCut plan limit number offset coming (fragments l) h e v = (h, refl, v)

short-first : (l : List Bool) → first_allocation l ≡ false → is_short l ≡ true
short-first [] e = absurd (cc e)
short-first (b ∷ bs) e = ground (arith, e)

u32_small : (n : ℕ) → n < 2 ^ 32 → u32 n ≡ n
u32_small n h = omega arith

module _ (plan : Plan) (limit : ℕ) (small : plan.total_length < 2 ^ 32) (positive : 0 < limit) where
  -- With the length as the loop left it: it differs from the full length only at the end.
  cut-from :
      (fuel long number offset : ℕ) (h : Host)
      → (long ≡ limit) ⊎ (offset ≡ plan.total_length)
      → offset ≤ plan.total_length
      → plan.total_length ≤ offset + fuel
      → number ≤ offset
      → IsCut plan limit number offset h.allocations (cut fuel plan long number offset h).0
  unfolding cut malloc
  cut-from zero long number offset h d o f n = elim (Bool-cases (ltb offset plan.total_length)) [
    | inl t ↦ absurd (ground arith)
    | inr t ↦ rw t (omega arith)
  ]
  cut-from (suc fuel) long number offset h d o f n =
      elim (Bool-cases (ltb offset plan.total_length)) [
        | inr t ↦ rw t (ground arith)
        | inl t ↦ elim (Bool-cases (first_allocation h.allocations)) [
          | inr q ↦ rw t (rw q (short-first h.allocations q))
          | inl q ↦
              let size = piece_length plan.total_length offset limit in
              let same : piece_length plan.total_length offset long ≡ size = ground arith in
              let next : u32 (offset + size) ≡ offset + size = u32_small _ (ground arith) in
              let succ : u32 (number + 1) ≡ number + 1 = u32_small _ (ground arith) in
              rw t (
                rw q (
                  rw same (
                    rw next (
                      rw succ (
                        add-IsCut plan limit number offset h.allocations
                          (cut fuel plan size (number + 1) (offset + size) (malloc h).1).0
                          (ground arith) q
                          (cut-from fuel size (number + 1) (offset + size) (malloc h).1
                            (ground arith) (ground arith) (ground arith) (ground arith)))))))
        ]
      ]

-- The loop of `enet_peer_send` ends within as many rounds as the packet has bytes, for a packet
-- below 2 ^ 32 bytes and a positive length of a fragment: it gives the fragments, which lie end to
-- end over the whole packet, numbered from 0, all but the last one of the full length, or it ran
-- out of memory, and then a coming allocation does fail.
pub cut_lem :
    (plan : Plan) (limit : ℕ) (h : Host)
    → plan.total_length < 2 ^ 32
    → 0 < limit
    → IsCut plan limit 0 0 h.allocations (cut plan.total_length plan limit 0 0 h).0
cut_lem plan limit h small positive =
    cut-from plan limit small positive plan.total_length limit 0 0 h (omega arith) (omega arith)
      (omega arith) (omega arith)

-- Fragments from an offset on reach the end, and the last of them begins before it.
module _ (plan : Plan) (limit : ℕ) (positive : 0 < limit) where
  Tiles-end :
      (number offset : ℕ) (l : List OutgoingCommand)
      → Tiles plan limit number offset l
      → (plan.total_length ≤ offset + length l * limit)
        × (offset + length l * limit < plan.total_length + limit)
  Tiles-end number offset [] e = (omega (arith, e), omega (arith, e))
  Tiles-end number offset (o ∷ []) t = (grind (arith, t), grind (arith, t))
  Tiles-end number offset (o ∷ q ∷ os) t =
      let full : piece_length plan.total_length offset limit ≡ limit = grind (arith, t) in
      let rest = Tiles-end (number + 1) (offset + limit) (q ∷ os) (rw full at t.2) in
      (grind (arith, rest), grind (arith, rest))

-- The count that each fragment carries, computed by a rounded division before the loop, is the
-- number of fragments, for a packet and a length of a fragment below 2 ^ 31.
pub Tiles-count_fragments :
    (plan : Plan) (limit : ℕ) (l : List OutgoingCommand)
    → 0 < limit
    → limit < 2 ^ 31
    → plan.total_length < 2 ^ 31
    → Tiles plan limit 0 0 l
    → count_fragments plan.total_length limit ≡ length l
unfolding count_fragments
Tiles-count_fragments plan limit l p b c t =
    let (low, high) = Tiles-end plan limit p 0 0 l t in
    let sum : sub64 (add64 plan.total_length limit) 1 ≡ plan.total_length + limit - 1 =
      omega arith in
    let least : length l ≤ length l * limit = grind arith in
    let quotient : (plan.total_length + limit - 1) / limit ≡ length l = grind (arith, low, high) in
    rw sum (rw quotient (u32_small (length l) (omega (arith, least, high))))
