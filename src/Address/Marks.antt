-- ===== src/Address/Marks.antt =====
-- Which characters do not stand in the numbers of an address (src/address.c): those between them.
use enet.Base.{
  ℕ, zero, suc, ◌+◌, ◌/◌, ◌%◌, ◌≤◌, ◌<◌, ◌≡◌, refl, ap, true, false, List, [], ◌∷◌, ◌++◌, Option,
  none, some, ltb, ◌==◌, length, arith, inl, inr, Bool-cases,
}
use enet.Address.Digits.{digit, digits, print_decimal, print_hex}
use enet.Address.Parse.{index_of}
use enet.Address.Numerals.{digits_step}

-- The character does not stand in the text.
abbrev pub Lacks : ℕ → List ℕ → Type 0
Lacks c t = index_of c t ≡ none

abbrev later : Option ℕ → Option ℕ
later o = elim o [ none ↦ none | some i ↦ some (suc i) ]

found :
    (c x : ℕ) (t : List ℕ) → (x == c) ≡ true → Lacks c (x ∷ t) → ◌≡◌ {A = Option ℕ} (some 0) none
unfolding index_of
found c x t e h = rw e at h

later-eq-none : (o : Option ℕ) → later o ≡ none → o ≡ none
later-eq-none none h = refl
later-eq-none (some i) h = cc

Lacks-tail : (c x : ℕ) (t : List ℕ) → (x == c) ≡ false → Lacks c (x ∷ t) → Lacks c t
unfolding index_of
Lacks-tail c x t e h = later-eq-none (index_of c t) (rw e at h)

abbrev pub shift : ℕ → Option ℕ → Option ℕ
shift n none = none
shift n (some i) = some (n + i)

pub index_of-append :
    (c : ℕ) (t rest : List ℕ)
    → Lacks c t
    → index_of c (t ++ rest) ≡ shift (length t) (index_of c rest)
unfolding index_of
index_of-append c [] rest h = elim (index_of c rest) as (λ o. o ≡ shift 0 o) [
  | none ↦ refl
  | some i ↦ ap some (omega arith)
]
index_of-append c (x ∷ t) rest h = elim (Bool-cases (x == c)) [
  | inl e ↦ cc (found c x t e h)
  | inr e ↦
      rw e (rw (index_of-append c t rest (Lacks-tail c x t e h)) (once_more (index_of c rest)))
]
  where
    once_more : (o : Option ℕ) → later (shift (length t) o) ≡ shift (suc (length t)) o
    once_more none = refl
    once_more (some i) = ap some (omega arith)

pub Lacks-append : (c : ℕ) (t rest : List ℕ) → Lacks c t → Lacks c rest → Lacks c (t ++ rest)
Lacks-append c t rest h k = rw (index_of-append c t rest h) (rw k refl)

pub Lacks-cons : (c x : ℕ) (t : List ℕ) → (x == c) ≡ false → Lacks c t → Lacks c (x ∷ t)
unfolding index_of
Lacks-cons c x t e h = rw e (rw h refl)

-- A character between the numbers is no digit.
abbrev pub IsMark : ℕ → Type 0
IsMark c = (d : ℕ) → d < 16 → (digit d == c) ≡ false

digits-Lacks : (base fuel n c : ℕ) → 0 < base → base ≤ 16 → IsMark c → Lacks c (digits base fuel n)
unfolding index_of digits
digits-Lacks base zero n c p b m = refl
digits-Lacks base (suc fuel) n c p b m = elim (Bool-cases (ltb n base)) [
  | inl t ↦
      rw (digits_step base fuel n)
        (rw t (Lacks-cons c (digit n) [] (m n (ground (arith, t, b))) refl))
  | inr t ↦ rw (digits_step base fuel n) (
      rw t (
        Lacks-append c (digits base fuel (n / base)) (digit (n % base) ∷ [])
          (digits-Lacks base fuel (n / base) c p b m)
          (Lacks-cons c (digit (n % base)) [] (m (n % base) (grind (arith, p, b))) refl)))
]

pub print_decimal-Lacks : (n c : ℕ) → IsMark c → Lacks c (print_decimal n)
unfolding print_decimal
print_decimal-Lacks n c m = digits-Lacks 10 (suc n) n c (omega arith) (omega arith) m

pub print_hex-Lacks : (n c : ℕ) → IsMark c → Lacks c (print_hex n)
unfolding print_hex
print_hex-Lacks n c m = digits-Lacks 16 (suc n) n c (omega arith) (omega arith) m

pub dot-IsMark : IsMark b'.'
unfolding digit
dot-IsMark d h = ground arith

pub colon-IsMark : IsMark b':'
unfolding digit
colon-IsMark d h = ground arith

pub open-IsMark : IsMark b'['
unfolding digit
open-IsMark d h = ground arith

pub close-IsMark : IsMark b']'
unfolding digit
close-IsMark d h = ground arith
