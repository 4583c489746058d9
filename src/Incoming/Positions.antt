-- ===== src/Incoming/Positions.antt =====
-- Ascending lists of positions in a sender's stream, in which the reliable queue of src/peer.c is
-- described.
use enet.Base.{
  ℕ, zero, suc, ◌+◌, ◌*◌, ◌<◌, sym, ◌≤◌, ◌≡◌, ◌⊎◌, inl, inr, refl, Bool, true, false, ◌||◌, List,
  [], ◌∷◌, ltb, leb, ◌==◌, if◌then◌else◌, arith, Bool-cases,
}

-- Lists of positions in the sender's stream.
abbrev pub Ascending : ℕ → List ℕ → Type 0
Ascending low [] = Unit {0}
Ascending low (i ∷ w) = (low < i) × Ascending i w

abbrev pub Below : ℕ → List ℕ → Type 0
Below bound [] = Unit {0}
Below bound (i ∷ w) = (i ≤ bound) × Below bound w

abbrev pub has : ℕ → List ℕ → Bool
has i [] = false
has i (k ∷ w) = k == i || has i w

abbrev pub put : ℕ → List ℕ → List ℕ
put i [] = i ∷ []
put i (k ∷ w) = if ltb k i then k ∷ put i w else i ∷ k ∷ w

-- The `n` positions from `i`.
abbrev pub range : ℕ → ℕ → List ℕ
range i zero = []
range i (suc n) = i ∷ range (suc i) n

-- How many positions follow `j` without a gap, and what remains.
abbrev pub run : ℕ → List ℕ → ℕ × List ℕ
run j [] = (0, [])
run j (k ∷ w) = let (n, rest) = run k w in if k == j + 1 then (suc n, rest) else (0, k ∷ w)

pub put-Ascending :
    (low i : ℕ) (w : List ℕ) → low < i → has i w ≡ false → Ascending low w → Ascending low (put i w)
put-Ascending low i [] h e a = ground arith
put-Ascending low i (k ∷ w) h e a = ground (arith, put-Ascending k i w)

pub put-Below : (bound i : ℕ) (w : List ℕ) → i ≤ bound → Below bound w → Below bound (put i w)
put-Below bound i [] h b = ground arith
put-Below bound i (k ∷ w) h b = ground (arith, put-Below bound i w)

pub Below-mono : (a b : ℕ) (w : List ℕ) → a ≤ b → Below a w → Below b w
Below-mono a b [] h v = tt
Below-mono a b (k ∷ w) h v = (omega arith, Below-mono a b w h v.1)

has-put_self : (i : ℕ) (w : List ℕ) → has i (put i w) ≡ true
has-put_self i [] = ground arith
has-put_self i (k ∷ w) = ground (arith, has-put_self i w)

has-put : (i k : ℕ) (w : List ℕ) → has k w ≡ true → has k (put i w) ≡ true
has-put i k [] e = cc
has-put i k (q ∷ w) e = ground (arith, has-put i k w)

-- What remains after the run lies past it, and does not go on where it ended.
pub record Stops (bound reached : ℕ) (rest : List ℕ) : Type 0 where
  pub ascending : Ascending reached rest
  pub below : Below bound rest
  pub gap : has (suc reached) rest ≡ false

has-Ascending : (k low : ℕ) (w : List ℕ) → k ≤ low → Ascending low w → has k w ≡ false
has-Ascending k low [] h a = refl
has-Ascending k low (q ∷ w) h a = ground (arith, has-Ascending k q w (omega arith) a.1)

Stops-shift : (bound m n : ℕ) (rest : List ℕ) → m ≡ n → Stops bound m rest → Stops bound n rest
Stops-shift bound m n rest e v = rw (sym e) v

Stops-mono : (a b reached : ℕ) (rest : List ℕ) → a ≤ b → Stops a reached rest → Stops b reached rest
Stops-mono a b reached rest h v = record {
  ascending = v.ascending;
  below = Below-mono a b rest h v.below;
  gap = v.gap;
}

run-Stops :
    (j bound : ℕ) (w : List ℕ)
    → Ascending j w
    → Below bound w
    → Stops bound (j + (run j w).0) (run j w).1
run-Stops j bound [] a b = record { ascending = tt; below = tt; gap = refl }
run-Stops j bound (k ∷ w) a b =
    let next = run-Stops k bound w a.1 b.1 in
    elim (Bool-cases (k == j + 1)) [
      | inl t ↦ rw t (Stops-shift bound (k + (run k w).0) _ (run k w).1 (ground arith) next)
      | inr t ↦ rw t (record {
        ascending = ground arith;
        below = b;
        gap = ground (arith, has-Ascending (suc (j + 0)) k w);
      })
    ]

run-has :
    (j k : ℕ) (w : List ℕ) → has k w ≡ true → (k ≤ j + (run j w).0) ⊎ (has k (run j w).1 ≡ true)
run-has j k [] e = cc
run-has j k (q ∷ w) e = ground (arith, run-has q k w)

-- One arrival at position `i`: how many positions are handed over, and which ones wait.
abbrev pub advance : ℕ → List ℕ → ℕ → ℕ × List ℕ
advance j w i = if leb i j || has i w then (0, w) else run j (put i w)

-- What the description of a channel has to say: the waiting positions lie ahead of the last one
-- handed over, and the next one is not among them.
pub advance-Stops :
    (j i : ℕ) (w : List ℕ)
    → i ≤ j + 6 * 4096
    → Stops (j + 6 * 4096) j w
    → let (n, rest) = advance j w i in Stops (j + n + 6 * 4096) (j + n) rest
advance-Stops j i w h v = elim (Bool-cases (leb i j || has i w)) [
  | inl t ↦ rw t (ground arith)
  | inr t ↦ rw t (
      Stops-mono (j + 6 * 4096) _ _ (run j (put i w)).1 (omega arith) (
        run-Stops j (j + 6 * 4096) (put i w)
          (put-Ascending j i w (ground arith) (ground arith) v.ascending)
          (put-Below (j + 6 * 4096) i w h v.below)))
]

pub advance-has :
    (j i k : ℕ) (w : List ℕ)
    → (k ≤ j) ⊎ ((has k w ≡ true) ⊎ (k ≡ i))
    → let (n, rest) = advance j w i in (k ≤ j + n) ⊎ (has k rest ≡ true)
advance-has j i k w h = ground (arith, run-has j k (put i w), has-put i k w, has-put_self i w)
