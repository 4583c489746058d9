-- ===== src/Address/Words.antt =====
-- The text of an IPv6 address (src/address.c), of words or of an IPv4 one, is read back with its port.
use enet.Base.{
  ℕ, zero, suc, ◌+◌, ◌*◌, ◌/◌, ◌%◌, ◌^◌, ◌<◌, ◌≡◌, ◌∙◌, refl, ap, Bool, true, false, not, ◌||◌,
  List, [], ◌∷◌, ◌++◌, append-nil, Option, none, some, ◌==◌, length, replicate, take, skip, arith,
}
use enet.State.{Address, HostAddress}
use enet.Address.{same_iff}
use enet.Address.Digits.{peek, is_decimal, is_hex, print_hex, print_decimal}
use enet.Address.Parse.{index_of, is_before, is_found, is_ipv6_text, words_of, read_address}
use enet.Address.Print.{
  print_quad, print_port, in_brackets, longest_run, starts_at, print_words, is_mapped,
}
use enet.Address.Marks.{
  Lacks, Lacks-append, Lacks-cons, IsMark, print_decimal-Lacks, print_hex-Lacks, dot-IsMark,
  open-IsMark, close-IsMark,
}
use enet.Address.Groups.{groups_text, plain_text}
use enet.Address.Reading.{IsEnd, AllWords, bytes_of, print_quad-append}
use enet.Address.Zeros.{
  Shape, whole, short, print_words-Shape, print_words-Reads, words_of-bytes_of,
}
use enet.Address.Mapped.{quad_then-Lacks, print_mapped-Reads}
use enet.Address.Brackets.{IsBare, with_port, read_in_brackets}

-- The texts of words and of mapped addresses are bare.
groups_text-Lacks :
    (k : ℕ) (ws : List ℕ) → IsMark k → (b':' == k) ≡ false → Lacks k (groups_text ws)
unfolding index_of
groups_text-Lacks k [] m e = refl
groups_text-Lacks k (w ∷ ws) m e = Lacks-cons k b':' (print_hex w ++ groups_text ws) e (
    Lacks-append k (print_hex w) (groups_text ws) (print_hex-Lacks w k m)
      (groups_text-Lacks k ws m e))

plain_text-Lacks : (k : ℕ) (ws : List ℕ) → IsMark k → (b':' == k) ≡ false → Lacks k (plain_text ws)
unfolding index_of
plain_text-Lacks k [] m e = refl
plain_text-Lacks k (w ∷ ws) m e =
    Lacks-append k (print_hex w) (groups_text ws) (print_hex-Lacks w k m)
      (groups_text-Lacks k ws m e)

Shape-Lacks :
    (k : ℕ) (words text : List ℕ) → IsMark k → (b':' == k) ≡ false → Shape words text → Lacks k text
Shape-Lacks k words text m e (whole s) = rw s (plain_text-Lacks k words m e)
Shape-Lacks k words text m e (short pre post n w p f s) = rw s (
    Lacks-append k (plain_text pre) (b':' ∷ b':' ∷ plain_text post) (plain_text-Lacks k pre m e)
      (Lacks-cons k b':' _ e (Lacks-cons k b':' _ e (plain_text-Lacks k post m e))))

without_dot : (t : List ℕ) → Lacks b'.' t → is_ipv6_text t ≡ true
unfolding is_ipv6_text
without_dot t h = rw h (either (is_found (index_of b'[' t)) (is_before (index_of b':' t) none))
  where
    either : (b c : Bool) → (b || true || c) ≡ true
    either true c = refl
    either false c = refl

Shape-IsBare : (words text : List ℕ) → Shape words text → IsBare text
Shape-IsBare words text s = record {
  is_ipv6 = without_dot text (Shape-Lacks b'.' words text dot-IsMark (ground arith) s);
  no_opening = Shape-Lacks b'[' words text open-IsMark (ground arith) s;
  no_closing = Shape-Lacks b']' words text close-IsMark (ground arith) s;
}

abbrev later : Option ℕ → Option ℕ
later o = elim o [ none ↦ none | some i ↦ some (suc i) ]

one_of :
    (p o : Option ℕ)
    → (is_found (later p) || not (is_found (later o)) || is_before (some 0) (later o)) ≡ true
one_of none none = refl
one_of none (some i) = ground arith
one_of (some j) none = refl
one_of (some j) (some i) = refl

-- A text that starts with a colon is taken for one of an IPv6 address.
colon_first : (t : List ℕ) → is_ipv6_text (b':' ∷ t) ≡ true
unfolding is_ipv6_text index_of
colon_first t = one_of (index_of b'[' t) (index_of b'.' t)

print_quad-Lacks : (k a b c d : ℕ) → IsMark k → (b'.' == k) ≡ false → Lacks k (print_quad a b c d)
unfolding index_of
print_quad-Lacks k a b c d m e =
    let h : Lacks k (print_quad a b c d ++ []) =
      rw (print_quad-append a b c d []) (quad_then-Lacks k a b c d [] m e refl) in
    rw (append-nil (print_quad a b c d)) at h

abbrev pub mapped_text : ℕ → ℕ → ℕ → ℕ → List ℕ
mapped_text a b c d = b':' ∷ b':' ∷ b'f' ∷ b'f' ∷ b'f' ∷ b'f' ∷ b':' ∷ print_quad a b c d

mapped-Lacks :
    (k a b c d : ℕ)
    → IsMark k
    → (b':' == k) ≡ false
    → (b'.' == k) ≡ false
    → (b'f' == k) ≡ false
    → Lacks k (mapped_text a b c d)
mapped-Lacks k a b c d m e g h =
    let colon = Lacks-cons k b':' in
    let letter = Lacks-cons k b'f' in
    colon _ e (
      colon _ e (
        letter _ h
          (letter _ h (letter _ h (letter _ h (colon _ e (print_quad-Lacks k a b c d m g)))))))

mapped-IsBare : (a b c d : ℕ) → IsBare (mapped_text a b c d)
mapped-IsBare a b c d = record {
  is_ipv6 = colon_first (b':' ∷ b'f' ∷ b'f' ∷ b'f' ∷ b'f' ∷ b':' ∷ print_quad a b c d);
  no_opening = mapped-Lacks b'[' a b c d open-IsMark (ground arith) (ground arith) (ground arith);
  no_closing = mapped-Lacks b']' a b c d close-IsMark (ground arith) (ground arith) (ground arith);
}

take-skip : (n : ℕ) (l : List ℕ) → l ≡ take n l ++ skip n l
take-skip zero l = refl
take-skip (suc n) [] = refl
take-skip (suc n) (x ∷ xs) = ap (λ r. x ∷ r) (take-skip n xs)

two_words : (l : List ℕ) → length l ≡ 2 → (u : ℕ) × (v : ℕ) × (l ≡ u ∷ v ∷ [])
two_words [] h = absurd (omega (arith, h))
two_words (u ∷ []) h = absurd (omega (arith, h))
two_words (u ∷ v ∷ []) h = (u, v, refl)
two_words (u ∷ v ∷ w ∷ r) h = absurd (omega (arith, h))

pub mapped_words :
    (words : List ℕ)
    → length words ≡ 8
    → is_mapped words ≡ true
    → (u : ℕ) × (v : ℕ) × (words ≡ replicate 5 0 ++ (0xffff ∷ u ∷ v ∷ []))
unfolding is_mapped
mapped_words words l e =
    let front = (same_iff (take 6 words) (replicate 5 0 ++ (0xFFFF ∷ []))).0 e in
    let split = take-skip 6 words ∙ ap (λ t. t ++ skip 6 words) front in
    let size : length words ≡ 6 + length (skip 6 words) = ap length split ∙ omega arith in
    let (u, v, f) = two_words (skip 6 words) (omega (arith, size, l)) in
    (u, v, split ∙ ap (λ t. (replicate 5 0 ++ (0xFFFF ∷ [])) ++ t) f)

IsEnd-nothing : IsEnd []
unfolding is_hex
IsEnd-nothing = record { no_digit = refl; no_dot = refl; no_colon = refl }

IsEnd-closing : (t : List ℕ) → IsEnd (b']' ∷ t)
unfolding is_hex
IsEnd-closing t = record { no_digit = refl; no_dot = refl; no_colon = refl }

pub print_port-Lacks : (k port : ℕ) → IsMark k → (b':' == k) ≡ false → Lacks k (print_port port)
unfolding print_port
print_port-Lacks k port m e =
    Lacks-cons k b':' (print_decimal port) e (print_decimal-Lacks port k m)

-- An IPv6 address that is written in words.
pub read_words :
    (fresh words : List ℕ) (port : ℕ) (old : Address)
    → length words ≡ 8
    → AllWords words
    → starts_at (longest_run 0 none words) 7 ≡ false
    → port < 2 ^ 16
    → read_address fresh (in_brackets (print_words words) port) old
      ≡ some (with_port (HostAddress.ipv6 words) port old)
read_words fresh words port old l all free lt =
    let read = λ (t : List ℕ) (end : IsEnd t). print_words-Reads fresh words t l all free end in
    read_in_brackets fresh (print_words words) (bytes_of words) port old
      (Shape-IsBare words (print_words words) (print_words-Shape words l)) lt
      (read [] IsEnd-nothing) (read (b']' ∷ print_port port) (IsEnd-closing (print_port port)))
    ∙ ap (λ ws. some (with_port (HostAddress.ipv6 ws) port old)) (words_of-bytes_of words)

-- An IPv6 address that holds one of IPv4.
pub read_mapped :
    (fresh : List ℕ) (u v port : ℕ) (old : Address)
    → u < 2 ^ 16
    → v < 2 ^ 16
    → port < 2 ^ 16
    → read_address fresh
        (in_brackets (mapped_text (u / 256 % 256) (u % 256) (v / 256 % 256) (v % 256)) port)
        old
      ≡ some (with_port (HostAddress.ipv6 (replicate 5 0 ++ (0xffff ∷ u ∷ v ∷ []))) port old)
unfolding words_of is_decimal index_of
read_mapped fresh u v port old p q lt =
    let read = λ (t : List ℕ) (h : Lacks b'[' t) (e : is_decimal (peek t) ≡ false).
      print_mapped-Reads fresh (u / 256 % 256) (u % 256) (v / 256 % 256) (v % 256) t (omega arith)
        (omega arith) (omega arith) (omega arith) h e in
    let first : u / 256 % 256 * 256 + u % 256 ≡ u = omega (arith, p) in
    let second : v / 256 % 256 * 256 + v % 256 ≡ v = omega (arith, q) in
    read_in_brackets fresh _ _ port old
      (mapped-IsBare (u / 256 % 256) (u % 256) (v / 256 % 256) (v % 256)) lt (read [] refl refl)
      (read (b']' ∷ print_port port)
        (Lacks-cons b'[' b']' (print_port port) refl (print_port-Lacks b'[' port open-IsMark refl))
        refl)
    ∙ rw (first, second) refl
