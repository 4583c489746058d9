-- ===== src/Address/Mapped.antt =====
-- The text of an IPv4 address, alone or at the end of an IPv4-mapped IPv6 address, is told from one
-- of an IPv6 address and read back (src/address.c).
use enet.Base.{
  ℕ, ◌+◌, ◌≤◌, ◌≡◌, ◌∙◌, refl, ap, sym, true, false, List, [], ◌∷◌, ◌++◌, Option, none, some,
  length, replicate, arith, ◌==◌, suc,
}
use enet.Address.{same}
use enet.Address.Digits.{peek, is_decimal, is_hex, print_decimal, print_hex}
use enet.Address.Parse.{
  index_of, is_before, is_ipv6_text, Turn, quad_group, parse_group, spread_zeros,
}
use enet.Address.Print.{print_quad}
use enet.Address.Marks.{
  Lacks, Lacks-append, Lacks-cons, IsMark, index_of-append, shift, print_decimal-Lacks, dot-IsMark,
  open-IsMark, colon-IsMark,
}
use enet.Address.Numerals.{parse_hex-print_decimal, print_decimal-first_hex}
use enet.Address.Reading.{
  quad_then, print_quad-append, parse_quad-then, groups-next, groups-stop, parse_group-next,
  parse_groups-start,
}
use enet.Address.Zeros.{Reads}

pub quad_then-Lacks :
    (k a b c d : ℕ) (t : List ℕ)
    → IsMark k
    → (b'.' == k) ≡ false
    → Lacks k t
    → Lacks k (quad_then a b c d t)
quad_then-Lacks k a b c d t m e h =
    let number = λ (n : ℕ) (r : List ℕ) (l : Lacks k r).
      Lacks-append k (print_decimal n) r (print_decimal-Lacks n k m) l in
    number a _ (
      Lacks-cons k b'.' _ e
        (number b _ (Lacks-cons k b'.' _ e (number c _ (Lacks-cons k b'.' _ e (number d t h))))))

not_before :
    (n : ℕ) (o : Option ℕ)
    → is_before (shift n (elim o [ none ↦ none | some i ↦ some (suc i) ])) (some (n + 0)) ≡ false
not_before n none = refl
not_before n (some i) = ground arith

dot_is_no_hex : is_hex b'.' ≡ false
unfolding is_hex
dot_is_no_hex = refl

-- A dotted address is not taken for one of the other kind.
pub is_ipv6_text-quad :
    (a b c d : ℕ) (t : List ℕ) → Lacks b'[' t → is_ipv6_text (quad_then a b c d t) ≡ false
unfolding is_ipv6_text index_of
is_ipv6_text-quad a b c d t h =
    let text = quad_then a b c d t in
    let number = print_decimal a in
    let rest = print_decimal b ++ (b'.' ∷ (print_decimal c ++ (b'.' ∷ (print_decimal d ++ t)))) in
    let no_bracket : index_of b'[' text ≡ none =
      quad_then-Lacks b'[' a b c d t open-IsMark (ground arith) h in
    let dot : index_of b'.' text ≡ some (length number + 0) =
      index_of-append b'.' number (b'.' ∷ rest) (print_decimal-Lacks a b'.' dot-IsMark) in
    let colon : index_of b':' text ≡ shift (length number) (index_of b':' (b'.' ∷ rest)) =
      index_of-append b':' number (b'.' ∷ rest) (print_decimal-Lacks a b':' colon-IsMark) in
    rw no_bracket (rw dot (rw colon (not_before (length number) (index_of b':' rest))))

-- The four numbers at the end of an IPv6 address.
quad_group-then :
    (a b c d i : ℕ) (bytes : List ℕ) (zeros : Option ℕ) (t : List ℕ)
    → a ≤ 255
    → b ≤ 255
    → c ≤ 255
    → d ≤ 255
    → Lacks b'[' t
    → is_decimal (peek t) ≡ false
    → parse_group i bytes zeros (quad_then a b c d t)
      ≡ Turn.stop (record {
        bytes = bytes ++ (a ∷ b ∷ c ∷ d ∷ []);
        zeros = zeros;
        index = i + 1;
        text = t;
        has_quad = true;
      })
unfolding parse_group quad_group
quad_group-then a b c d i bytes zeros t p q r s h e =
    let rest = print_decimal b ++ (b'.' ∷ (print_decimal c ++ (b'.' ∷ (print_decimal d ++ t)))) in
    let (v, f) = parse_hex-print_decimal a (b'.' ∷ rest) dot_is_no_hex in
    rw f (
      rw (print_decimal-first_hex a (b'.' ∷ rest))
        (rw (is_ipv6_text-quad a b c d t h) (rw (parse_quad-then a b c d t p q r s e) refl)))

prefix_text : (t : List ℕ) → print_hex 0xffff ++ t ≡ b'f' ∷ b'f' ∷ b'f' ∷ b'f' ∷ t
unfolding print_hex
prefix_text t = refl

-- An IPv4-mapped address is read back.
pub print_mapped-Reads :
    (fresh : List ℕ) (a b c d : ℕ) (t : List ℕ)
    → a ≤ 255
    → b ≤ 255
    → c ≤ 255
    → d ≤ 255
    → Lacks b'[' t
    → is_decimal (peek t) ≡ false
    → Reads fresh
        (b':' ∷ b':' ∷ b'f' ∷ b'f' ∷ b'f' ∷ b'f' ∷ b':' ∷ print_quad a b c d)
        t
        (replicate 10 0 ++ (0xff ∷ 0xff ∷ a ∷ b ∷ c ∷ d ∷ []))
unfolding spread_zeros same
print_mapped-Reads fresh a b c d t p q r s h e = record {
  groups = record {
    bytes = 0xff ∷ 0xff ∷ a ∷ b ∷ c ∷ d ∷ [];
    zeros = some 0;
    index = 3;
    text = t;
    has_quad = true;
  };
  reached = rw (print_quad-append a b c d t) (
      parse_groups-start 7 _
      ∙ groups-next 6 1 [] (some 0) _ _ _ _ (
          ap (λ l. parse_group 1 [] (some 0) l) (sym (prefix_text (b':' ∷ quad_then a b c d t)))
          ∙ parse_group-next 1 0xffff [] (some 0) (quad_then a b c d t) (omega arith))
      ∙ groups-stop 5 2 (0xff ∷ 0xff ∷ []) (some 0) _ _
          (quad_group-then a b c d 2 (0xff ∷ 0xff ∷ []) (some 0) t p q r s h e));
  spread = refl;
  left = refl;
  plain = refl;
}
