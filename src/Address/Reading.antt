-- ===== src/Address/Reading.antt =====
-- How `ParseIPv4OrIPv6` of src/address.c reads what is printed: numbers with dots, the port, and the
-- groups of an IPv6 address before and behind the zeros that are left out.
use enet.Base.{
  ℕ, zero, suc, ◌+◌, ◌-◌, ◌/◌, ◌%◌, ◌^◌, ◌≤◌, ◌<◌, ◌≡◌, ◌∙◌, refl, ap, sym, true, false, List, [],
  ◌∷◌, ◌++◌, append_assoc, append-nil, Option, none, some, ltb, ◌==◌, length, arith,
}
use enet.Address.Digits.{peek, is_decimal, is_hex, print_decimal, print_hex}
use enet.Address.Parse.{
  parse_octet, parse_dotted, parse_quad, parse_port, Groups, Turn, empty_group, parse_group,
  parse_groups,
}
use enet.Address.Print.{print_quad, print_port}
use enet.Address.Numerals.{
  parse-print_decimal, parse-print_hex, print_decimal-first, print_hex-first,
}
use enet.Address.Groups.{groups_text, plain_text}

pub not_above : (a b : ℕ) → a ≤ b → ltb b a ≡ false
not_above a b h = ground (arith, h)

parse_octet-print :
    (n : ℕ) (rest : List ℕ)
    → n ≤ 255
    → is_decimal (peek rest) ≡ false
    → parse_octet (print_decimal n ++ rest) ≡ some (n, rest)
unfolding parse_octet
parse_octet-print n rest le h =
    rw (parse-print_decimal n rest (omega (arith, le)) h)
      (rw (not_above n 255 le) (rw (print_decimal-first n rest) refl))

pub dot_is_no_digit : is_decimal b'.' ≡ false
unfolding is_decimal
dot_is_no_digit = refl

parse_dotted-print :
    (n : ℕ) (rest : List ℕ)
    → n ≤ 255
    → parse_dotted (print_decimal n ++ (b'.' ∷ rest)) ≡ some (n, rest)
unfolding parse_dotted
parse_dotted-print n rest le =
    rw (parse_octet-print n (b'.' ∷ rest) le dot_is_no_digit, parse_dotted) refl

-- The four numbers with the text that follows them.
abbrev pub quad_then : ℕ → ℕ → ℕ → ℕ → List ℕ → List ℕ
quad_then a b c d rest =
    print_decimal a
    ++ (b'.'
        ∷ (print_decimal b ++ (b'.' ∷ (print_decimal c ++ (b'.' ∷ (print_decimal d ++ rest))))))

pub print_quad-append :
    (a b c d : ℕ) (rest : List ℕ) → print_quad a b c d ++ rest ≡ quad_then a b c d rest
unfolding print_quad
print_quad-append a b c d rest = simp append_assoc

pub parse_quad-then :
    (a b c d : ℕ) (rest : List ℕ)
    → a ≤ 255
    → b ≤ 255
    → c ≤ 255
    → d ≤ 255
    → is_decimal (peek rest) ≡ false
    → parse_quad (quad_then a b c d rest) ≡ some (a ∷ b ∷ c ∷ d ∷ [], rest)
unfolding parse_quad
parse_quad-then a b c d rest p q r s h = rw (parse_dotted-print a _ p) (
    rw (parse_dotted-print b _ q)
      (rw (parse_dotted-print c _ r) (rw (parse_octet-print d rest s h) refl)))

-- The port behind an address, or nothing.
pub parse_port-print : (port : ℕ) → port < 2 ^ 16 → parse_port (print_port port) ≡ some port
unfolding parse_port print_port is_decimal
parse_port-print port lt =
    let e =
      rw (append-nil (print_decimal port)) at
        (parse-print_decimal port [] (omega (arith, lt)) refl) in
    let f = rw (append-nil (print_decimal port)) at (print_decimal-first port []) in
    rw e (rw (not_above port 65535 (omega (arith, lt))) (rw f refl))

-- A word as the two bytes of the array.
abbrev pub bytes_of : List ℕ → List ℕ
bytes_of [] = []
bytes_of (w ∷ ws) = w / 256 ∷ w % 256 ∷ bytes_of ws

-- Words of sixteen bits.
abbrev pub AllWords : List ℕ → Type 0
AllWords [] = Unit {0}
AllWords (w ∷ ws) = (w < 2 ^ 16) × AllWords ws

colon_is_no_digit : is_hex b':' ≡ false
unfolding is_hex
colon_is_no_digit = refl

-- A group with a colon behind it.
pub parse_group-next :
    (i w : ℕ) (bytes : List ℕ) (zeros : Option ℕ) (t : List ℕ)
    → w < 2 ^ 16
    → parse_group i bytes zeros (print_hex w ++ (b':' ∷ t))
      ≡ Turn.next (bytes ++ (w / 256 ∷ w % 256 ∷ [])) zeros t
unfolding parse_group
parse_group-next i w bytes zeros t lt =
    rw (parse-print_hex w (b':' ∷ t) (omega (arith, lt)) colon_is_no_digit)
      (rw (print_hex-first w (b':' ∷ t)) (rw (not_above w 65535 (omega (arith, lt))) refl))

-- What may stand behind an address: no digit, dot or colon.
pub record IsEnd (t : List ℕ) : Type 0 where
  pub no_digit : is_hex (peek t) ≡ false
  pub no_dot : (peek t == b'.') ≡ false
  pub no_colon : (peek t == b':') ≡ false

-- The last group.
parse_group-stop :
    (i w : ℕ) (bytes : List ℕ) (zeros : Option ℕ) (t : List ℕ)
    → w < 2 ^ 16
    → IsEnd t
    → parse_group i bytes zeros (print_hex w ++ t)
      ≡ Turn.stop (record {
        bytes = bytes ++ (w / 256 ∷ w % 256 ∷ []);
        zeros = zeros;
        index = i;
        text = t;
        has_quad = false;
      })
unfolding parse_group
parse_group-stop i w bytes zeros t lt end =
    rw (parse-print_hex w t (omega (arith, lt)) (end.no_digit)) (
      rw (print_hex-first w t)
        (rw (not_above w 65535 (omega (arith, lt))) (rw (end.no_dot) (rw (end.no_colon) refl))))

bytes_of-append :
    (bytes : List ℕ) (w : ℕ) (ws : List ℕ)
    → (bytes ++ (w / 256 ∷ w % 256 ∷ [])) ++ bytes_of ws ≡ bytes ++ bytes_of (w ∷ ws)
bytes_of-append bytes w ws = append_assoc bytes (w / 256 ∷ w % 256 ∷ []) (bytes_of ws)

-- What is reached behind the last word of an address.
abbrev pub ended : List ℕ → Option ℕ → ℕ → List ℕ → Groups
ended bytes zeros i t = record {
  bytes = bytes;
  zeros = zeros;
  index = i;
  text = t;
  has_quad = false;
}

pub groups-next :
    (k i : ℕ) (bytes : List ℕ) (zeros : Option ℕ) (t : List ℕ) (bytes' : List ℕ) (zeros' : Option ℕ)
    (t' : List ℕ)
    → parse_group i bytes zeros t ≡ Turn.next bytes' zeros' t'
    → parse_groups (suc k) i bytes zeros t ≡ parse_groups k (i + 1) bytes' zeros' t'
unfolding parse_groups
groups-next k i bytes zeros t bytes' zeros' t' e = rw (e, parse_groups) refl

pub groups-stop :
    (k i : ℕ) (bytes : List ℕ) (zeros : Option ℕ) (t : List ℕ) (g : Groups)
    → parse_group i bytes zeros t ≡ Turn.stop g
    → parse_groups (suc k) i bytes zeros t ≡ some g
unfolding parse_groups
groups-stop k i bytes zeros t g e = rw (e, parse_groups) refl

-- The words up to the end.
pub parse_groups-plain :
    (k i w : ℕ) (bytes : List ℕ) (zeros : Option ℕ) (ws t : List ℕ)
    → AllWords (w ∷ ws)
    → IsEnd t
    → length ws < k
    → parse_groups k i bytes zeros (plain_text (w ∷ ws) ++ t)
      ≡ some (ended (bytes ++ bytes_of (w ∷ ws)) zeros (i + length ws) t)
parse_groups-plain zero i w bytes zeros ws t all end le = absurd (omega (arith, le))
parse_groups-plain (suc k) i w bytes zeros [] t all end le = rw (append-nil (print_hex w)) (
    groups-stop k i bytes zeros _ _ (parse_group-stop i w bytes zeros t (all.0) end)
    ∙ ap (λ n. some (ended (bytes ++ bytes_of (w ∷ [])) zeros n t)) (omega arith))
parse_groups-plain (suc k) i w bytes zeros (v ∷ ws) t all end le =
    rw (append_assoc (print_hex w) (groups_text (v ∷ ws)) t) (
      groups-next k i bytes zeros _ _ _ _
        (parse_group-next i w bytes zeros (plain_text (v ∷ ws) ++ t) (all.0))
      ∙ parse_groups-plain k (i + 1) v (bytes ++ bytes_of (w ∷ [])) zeros ws t (all.1) end
          (omega (arith, le))
      ∙ ap (λ l. some (ended l zeros (i + 1 + length ws) t)) (bytes_of-append bytes w (v ∷ ws))
      ∙ ap (λ n. some (ended (bytes ++ bytes_of (w ∷ v ∷ ws)) zeros n t)) (omega arith))

-- Zeros left out behind a group.
empty_group-next :
    (i : ℕ) (bytes t : List ℕ)
    → 0 < i
    → parse_group i bytes none (b':' ∷ t) ≡ Turn.next bytes (some (length bytes)) t
unfolding parse_group empty_group
empty_group-next i bytes t p = rw colon_is_no_digit (rw (later i p) refl)
  where
    later : (i : ℕ) → 0 < i → (i == 0) ≡ false
    later i p = ground (arith, p)

-- The rounds for these words and the zeros behind them, before `k` more; and the index after them.
abbrev pub rounds : List ℕ → ℕ → ℕ
rounds [] k = suc (suc k)
rounds (v ∷ ws) k = suc (rounds ws k)

abbrev pub index_after : List ℕ → ℕ → ℕ
index_after [] i = i + 1 + 1
index_after (v ∷ ws) i = index_after ws (i + 1)

-- The words before the zeros.
pub parse_groups-before :
    (k i w : ℕ) (bytes ws t : List ℕ)
    → AllWords (w ∷ ws)
    → parse_groups (rounds ws k) i bytes none (plain_text (w ∷ ws) ++ (b':' ∷ b':' ∷ t))
      ≡ parse_groups k
          (index_after ws i)
          (bytes ++ bytes_of (w ∷ ws))
          (some (length (bytes ++ bytes_of (w ∷ ws))))
          t
parse_groups-before k i w bytes [] t all = rw (append-nil (print_hex w)) (
    groups-next (suc k) i bytes none _ _ _ _ (parse_group-next i w bytes none (b':' ∷ t) (all.0))
    ∙ groups-next k (i + 1) (bytes ++ bytes_of (w ∷ [])) none _ _ _ _
        (empty_group-next (i + 1) (bytes ++ bytes_of (w ∷ [])) t (omega arith)))
parse_groups-before k i w bytes (v ∷ ws) t all =
    rw (append_assoc (print_hex w) (groups_text (v ∷ ws)) (b':' ∷ b':' ∷ t)) (
      groups-next (rounds ws k) i bytes none _ _ _ _
        (parse_group-next i w bytes none (plain_text (v ∷ ws) ++ (b':' ∷ b':' ∷ t)) (all.0))
      ∙ parse_groups-before k (i + 1) v (bytes ++ bytes_of (w ∷ [])) ws t (all.1)
      ∙ ap (λ l. parse_groups k (index_after ws (i + 1)) l (some (length l)) t)
          (bytes_of-append bytes w (v ∷ ws)))

empty_group-first : (t : List ℕ) → parse_group 0 [] none (b':' ∷ b':' ∷ t) ≡ Turn.next [] (some 0) t
unfolding parse_group empty_group
empty_group-first t = rw colon_is_no_digit refl

-- The zeros at the start.
pub parse_groups-start :
    (k : ℕ) (t : List ℕ)
    → parse_groups (suc k) 0 [] none (b':' ∷ b':' ∷ t) ≡ parse_groups k 1 [] (some 0) t
parse_groups-start k t = groups-next k 0 [] none _ _ _ _ (empty_group-first t)

-- The end right behind the zeros.
empty_group-stop :
    (i : ℕ) (bytes t : List ℕ)
    → IsEnd t
    → parse_group i bytes (some (length bytes)) t
      ≡ Turn.stop (ended bytes (some (length bytes)) (i - 1) t)
unfolding parse_group empty_group
empty_group-stop i bytes t end = rw (end.no_digit) (rw (same (length bytes)) refl)
  where
    same : (n : ℕ) → (n == n) ≡ true
    same n = ground arith

-- The words behind the zeros, of which there may be none.
pub parse_groups-after :
    (k i : ℕ) (bytes ws t : List ℕ)
    → AllWords ws
    → IsEnd t
    → length ws ≤ k
    → 0 < k
    → 0 < i
    → parse_groups k i bytes (some (length bytes)) (plain_text ws ++ t)
      ≡ some (ended (bytes ++ bytes_of ws) (some (length bytes)) (i + length ws - 1) t)
parse_groups-after zero i bytes ws t all end le p q = absurd (omega (arith, p))
parse_groups-after (suc k) i bytes [] t all end le p q =
    groups-stop k i bytes (some (length bytes)) _ _ (empty_group-stop i bytes t end)
    ∙ ap (λ l. some (ended l (some (length bytes)) (i - 1) t)) (sym (append-nil bytes))
    ∙ ap (λ n. some (ended (bytes ++ []) (some (length bytes)) n t)) (omega arith)
parse_groups-after (suc k) i bytes (w ∷ ws) t all end le p q =
    parse_groups-plain (suc k) i w bytes (some (length bytes)) ws t all end (omega (arith, le))
    ∙ ap (λ n. some (ended (bytes ++ bytes_of (w ∷ ws)) (some (length bytes)) n t)) (omega arith)
