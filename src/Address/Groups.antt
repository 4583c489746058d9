-- ===== src/Address/Groups.antt =====
-- How `enet_address_get_host_ip` of src/address.c writes the groups of an IPv6 address: the words
-- before the longest run of zeros, two colons, and the words behind it.
use enet.Base.{
  ℕ, zero, suc, ◌+◌, ◌≤◌, ◌<◌, ◌≡◌, ◌∙◌, refl, ap, sym, Bool, true, false, ◌&&◌, List, [], ◌∷◌,
  ◌++◌, append_assoc, Option, none, some, ◌==◌, if◌then◌else◌, length, length-append, skip,
  replicate, arith, inl, inr, Bool-cases, ==_iff,
}
use enet.Address.Digits.{print_hex}
use enet.Address.Print.{zero_run, longest_run, starts_at, print_groups}

-- Words, a colon before each.
abbrev pub groups_text : List ℕ → List ℕ
groups_text [] = []
groups_text (w ∷ ws) = b':' ∷ (print_hex w ++ groups_text ws)

-- Words, colons between them.
abbrev pub plain_text : List ℕ → List ℕ
plain_text [] = []
plain_text (w ∷ ws) = print_hex w ++ groups_text ws

-- The run lies before the place.
abbrev IsPast : Option (ℕ × ℕ) → ℕ → Type 0
IsPast none i = Unit {0}
IsPast (some (f, n)) i = f < i

IsPast-suc : (run : Option (ℕ × ℕ)) (i : ℕ) → IsPast run i → IsPast run (suc i)
IsPast-suc none i h = tt
IsPast-suc (some (f, n)) i h = omega (arith, h)

starts_at-IsPast : (run : Option (ℕ × ℕ)) (i : ℕ) → IsPast run i → starts_at run i ≡ false
starts_at-IsPast none i h = refl
starts_at-IsPast (some (f, n)) i h = ground (arith, h)

print_groups_past :
    (k : ℕ) (run : Option (ℕ × ℕ)) (i : ℕ) (ws : List ℕ)
    → IsPast run (suc i)
    → length ws ≤ k
    → print_groups k run (suc i) ws ≡ groups_text ws
unfolding print_groups
print_groups_past zero run i [] h le = refl
print_groups_past zero run i (w ∷ ws) h le = absurd (omega (arith, le))
print_groups_past (suc k) run i [] h le = refl
print_groups_past (suc k) run i (w ∷ ws) h le = rw (starts_at-IsPast run (suc i) h) (
    rw (print_groups_past k run (suc i) ws (IsPast-suc run (suc i) h) (omega (arith, le)))
      (rw (never_first i) refl))
  where
    never_first : (i : ℕ) → (suc i == 0) ≡ false
    never_first i = ground arith

-- Without a run of zeros.
pub print_groups-none :
    (k w : ℕ) (ws : List ℕ)
    → length ws ≤ k
    → print_groups (suc k) none 0 (w ∷ ws) ≡ plain_text (w ∷ ws)
unfolding print_groups
print_groups-none k w ws le = ap (λ t. print_hex w ++ t) (print_groups_past k none 0 ws tt le)

same_place : (i f : ℕ) → f ≡ i → (i == f) ≡ true
same_place i f e = ground (arith, e)

other_place : (i f : ℕ) → i < f → (i == f) ≡ false
other_place i f h = ground arith

length-skip_le : (n : ℕ) (l : List ℕ) → length (skip n l) ≤ length l
length-skip_le zero l = omega arith
length-skip_le (suc n) [] = omega arith
length-skip_le (suc n) (x ∷ xs) = omega (arith, length-skip_le n xs)

-- What is written behind the run.
after_run :
    (k i f n : ℕ) (l : List ℕ)
    → f ≡ i
    → length l ≤ suc k
    → (elim l as (λ _. List ℕ) [
      | [] ↦ []
      | v ∷ vs ↦ print_hex v ++ print_groups k (some (f, n)) (suc (i + n)) vs
    ])
      ≡ plain_text l
after_run k i f n [] e le = refl
after_run k i f n (v ∷ vs) e le =
    ap (λ t. print_hex v ++ t)
      (print_groups_past k (some (f, n)) (i + n) vs (omega (arith, e)) (omega (arith, le)))

-- What is written from the run on.
at_run :
    (k i f n z : ℕ) (zs : List ℕ)
    → f ≡ i
    → length zs ≤ k
    → print_groups (suc k) (some (f, n)) i (z ∷ zs) ≡ b':' ∷ b':' ∷ plain_text (skip n (z ∷ zs))
unfolding print_groups
at_run k i f n z zs e le = rw (same_place i f e) (
    ap (λ t. b':' ∷ b':' ∷ t)
      (after_run k i f n (skip n (z ∷ zs)) e (omega (arith, le, length-skip_le n (z ∷ zs)))))

-- What is written from a place before the run on, be it not the first.
print_groups_before :
    (k i f n : ℕ) (pre : List ℕ) (z : ℕ) (zs : List ℕ)
    → length pre + length zs < k
    → f ≡ suc i + length pre
    → print_groups k (some (f, n)) (suc i) (pre ++ (z ∷ zs))
      ≡ groups_text pre ++ (b':' ∷ b':' ∷ plain_text (skip n (z ∷ zs)))
unfolding print_groups
print_groups_before zero i f n pre z zs le e = absurd (omega (arith, le))
print_groups_before (suc k) i f n [] z zs le e =
    at_run k (suc i) f n z zs (omega (arith, e)) (omega (arith, le))
print_groups_before (suc k) i f n (x ∷ pre) z zs le e =
    rw (other_place (suc i) f (omega (arith, e))) (
      rw (never_first i) (
        rw (print_groups_before k (suc i) f n pre z zs (omega (arith, le)) (omega (arith, e))) (
          rw
            (append_assoc (print_hex x) (groups_text pre)
              (b':' ∷ b':' ∷ plain_text (skip n (z ∷ zs))))
            refl)))
  where
    never_first : (i : ℕ) → (suc i == 0) ≡ false
    never_first i = ground arith

-- The whole address with a run of zeros left out.
pub print_groups-some :
    (k f n : ℕ) (pre : List ℕ) (z : ℕ) (zs : List ℕ)
    → length pre + length zs < k
    → f ≡ length pre
    → print_groups k (some (f, n)) 0 (pre ++ (z ∷ zs))
      ≡ plain_text pre ++ (b':' ∷ b':' ∷ plain_text (skip n (z ∷ zs)))
unfolding print_groups
print_groups-some zero f n pre z zs le e = absurd (omega (arith, le))
print_groups-some (suc k) f n [] z zs le e = at_run k 0 f n z zs e (omega (arith, le))
print_groups-some (suc k) f n (x ∷ pre) z zs le e = rw (other_place 0 f (omega (arith, e))) (
    rw (print_groups_before k 0 f n pre z zs (omega (arith, le)) (omega (arith, e))) (
      rw (append_assoc (print_hex x) (groups_text pre) (b':' ∷ b':' ∷ plain_text (skip n (z ∷ zs))))
        refl))

-- Words with a run of zeros at a place.
abbrev pub HasRun : List ℕ → Option (ℕ × ℕ) → Type 0
HasRun words none = Unit {0}
HasRun words (some (f, n)) =
    (pre : List ℕ) × (post : List ℕ) × (words ≡ pre ++ (replicate n 0 ++ post))
    × (f ≡ length pre)
    × (0 < n)

zero_run-replicate : (ws : List ℕ) → ws ≡ replicate (zero_run ws) 0 ++ skip (zero_run ws) ws
unfolding zero_run
zero_run-replicate [] = refl
zero_run-replicate (w ∷ ws) = elim (Bool-cases (w == 0)) [
  | inl t ↦ rw t (rw ((==_iff w 0).0 t) (ap (λ l. 0 ∷ l) (zero_run-replicate ws)))
  | inr t ↦ rw t refl
]

zero_run_pos : (w : ℕ) (ws : List ℕ) → (w == 0) ≡ true → 0 < zero_run (w ∷ ws)
unfolding zero_run
zero_run_pos w ws t = rw t (omega arith)

-- The run of zeros that starts here.
run_here :
    (words pre : List ℕ) (i w : ℕ) (ws : List ℕ)
    → words ≡ pre ++ (w ∷ ws)
    → i ≡ length pre
    → (w == 0) ≡ true
    → HasRun words (some (i, zero_run (w ∷ ws)))
run_here words pre i w ws e l t =
    let n = zero_run (w ∷ ws) in
    (
      pre,
      skip n (w ∷ ws),
      e ∙ ap (λ r. pre ++ r) (zero_run-replicate (w ∷ ws)),
      l,
      zero_run_pos w ws t,
    )

choose-HasRun :
    (words : List ℕ) (b longer : Bool) (run best : Option (ℕ × ℕ))
    → (b ≡ true → HasRun words run)
    → HasRun words best
    → HasRun words (if b && longer then run else best)
choose-HasRun words false longer run best h k = k
choose-HasRun words true false run best h k = k
choose-HasRun words true true run best h k = h refl

longest_run-HasRun :
    (words pre : List ℕ) (i : ℕ) (best : Option (ℕ × ℕ)) (ws : List ℕ)
    → words ≡ pre ++ ws
    → i ≡ length pre
    → HasRun words best
    → HasRun words (longest_run i best ws)
unfolding longest_run
longest_run-HasRun words pre i best [] e l h = h
longest_run-HasRun words pre i best (w ∷ ws) e l h =
    longest_run-HasRun words (pre ++ (w ∷ [])) (suc i) _ ws (e ∙ sym (append_assoc pre (w ∷ []) ws))
      (omega (arith, l, length-append {0} pre (w ∷ [])))
      (choose-HasRun words (w == 0) _ (some (i, zero_run (w ∷ ws))) best
        (run_here words pre i w ws e l) h)

-- What the search finds is a run of zeros.
pub longest_run_lem : (words : List ℕ) → HasRun words (longest_run 0 none words)
longest_run_lem words = longest_run-HasRun words [] 0 none words refl refl tt
