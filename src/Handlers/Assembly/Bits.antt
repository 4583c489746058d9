-- ===== src/Handlers/Assembly/Bits.antt =====
-- The two arrays that the handlers of fragments (src/protocol.c) write: the packet's bytes, in which
-- each fragment is copied to its offset, and the bit set of the fragments that have arrived.
use enet.Base.{
  ℕ, zero, suc, ◌+◌, ◌<◌, ◌≤◌, ◌≡◌, refl, ap, Bool, true, false, ◌&&◌, List, [], ◌∷◌, ltb, leb,
  if◌then◌else◌, take, skip, length, get_or, set, replicate, arith,
}
use enet.Handlers.Fragments.{overlay}

pub length-overlay : (old : List ℕ) (o : ℕ) (s : List ℕ) → length (overlay old o s) ≡ length old
length-overlay [] o s = refl
length-overlay (x ∷ xs) (suc o) s = ap suc (length-overlay xs o s)
length-overlay (x ∷ xs) zero [] = refl
length-overlay (x ∷ xs) zero (y ∷ ys) = ap suc (length-overlay xs zero ys)

-- The bytes of a packet from an offset on.
abbrev pub slice : ℕ → ℕ → List ℕ → List ℕ
slice o n bytes = take n (skip o bytes)

pub overlay-slice :
    (old bytes : List ℕ) (o n j : ℕ)
    → length old ≡ length bytes
    → o + n ≤ length bytes
    → get_or (overlay old o (slice o n bytes)) j 0
      ≡ (if leb o j && ltb j (o + n) then get_or bytes j 0 else get_or old j 0)
overlay-slice [] [] o n j e h = ground arith
overlay-slice [] (y ∷ ys) o n j e h = absurd (omega (arith, e))
overlay-slice (x ∷ xs) [] o n j e h = absurd (omega (arith, e))
overlay-slice (x ∷ xs) (y ∷ ys) (suc o) n zero e h = ground arith
overlay-slice (x ∷ xs) (y ∷ ys) (suc o) n (suc j) e h =
    ground (arith, overlay-slice xs ys o n j (omega (arith, e)) (omega (arith, h)))
overlay-slice (x ∷ xs) (y ∷ ys) zero zero j e h = ground arith
overlay-slice (x ∷ xs) (y ∷ ys) zero (suc n) zero e h = ground arith
overlay-slice (x ∷ xs) (y ∷ ys) zero (suc n) (suc j) e h =
    ground (arith, overlay-slice xs ys zero n j (omega (arith, e)) (omega (arith, h)))

pub same_bytes :
    (xs ys : List ℕ)
    → length xs ≡ length ys
    → ((j : ℕ) → j < length ys → get_or xs j 0 ≡ get_or ys j 0)
    → xs ≡ ys
same_bytes [] [] e h = refl
same_bytes [] (y ∷ ys) e h = absurd (omega (arith, e))
same_bytes (x ∷ xs) [] e h = absurd (omega (arith, e))
same_bytes (x ∷ xs) (y ∷ ys) e h =
    let first = h 0 (omega arith) in
    let rest = same_bytes xs ys (omega (arith, e)) (λ j q. h (suc j) (omega (arith, q))) in
    rw first (ap (λ l. y ∷ l) rest)

-- How many bits are set.
abbrev pub trues : List Bool → ℕ
trues [] = 0
trues (true ∷ l) = suc (trues l)
trues (false ∷ l) = trues l

pub trues-le : (l : List Bool) → trues l ≤ length l
trues-le [] = omega arith
trues-le (true ∷ l) = omega (arith, trues-le l)
trues-le (false ∷ l) = omega (arith, trues-le l)

pub trues-set :
    (l : List Bool) (i : ℕ)
    → i < length l
    → get_or l i false ≡ false
    → trues (set l i true) ≡ trues l + 1
trues-set [] i h e = absurd (omega (arith, h))
trues-set (b ∷ l) zero h e = ground (arith, e)
trues-set (true ∷ l) (suc i) h e = omega (arith, trues-set l i (omega (arith, h)) e)
trues-set (false ∷ l) (suc i) h e = trues-set l i (omega (arith, h)) e

pub trues-all :
    (l : List Bool) (i : ℕ) → length l ≤ trues l → i < length l → get_or l i false ≡ true
trues-all [] i t h = absurd (omega (arith, h))
trues-all (true ∷ l) zero t h = refl
trues-all (true ∷ l) (suc i) t h = trues-all l i (omega (arith, t)) (omega (arith, h))
trues-all (false ∷ l) i t h = absurd (omega (arith, t, trues-le l))

pub all-trues :
    (l : List Bool) → ((i : ℕ) → i < length l → get_or l i false ≡ true) → trues l ≡ length l
all-trues [] h = refl
all-trues (true ∷ l) h = ap suc (all-trues l (λ i q. h (suc i) (omega (arith, q))))
all-trues (false ∷ l) h = absurd (cc (h 0 (omega arith)))

pub trues-replicate : (n : ℕ) → trues (replicate n false) ≡ 0
trues-replicate zero = refl
trues-replicate (suc n) = trues-replicate n
