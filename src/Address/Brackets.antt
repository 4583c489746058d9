-- ===== src/Address/Brackets.antt =====
-- The brackets and the port around the text of an IPv6 address (src/address.c).
use enet.Base.{
  ℕ, suc, ◌+◌, ◌^◌, ◌<◌, ◌≡◌, ◌∙◌, refl, ap, true, false, List, [], ◌∷◌, ◌++◌, append-nil, none,
  some, ltb, ◌==◌, if◌then◌else◌, length, arith, inl, inr, Bool-cases,
}
use enet.State.{Address, HostAddress}
use enet.Address.Parse.{index_of, is_ipv6_text, parse_port, parse_ipv6, words_of, read_address}
use enet.Address.Print.{print_port, in_brackets}
use enet.Address.Marks.{Lacks, index_of-append}
use enet.Address.Reading.{parse_port-print}
use enet.Address.Zeros.{Reads}

-- A text of an IPv6 address without brackets.
pub record IsBare (core : List ℕ) : Type 0 where
  pub is_ipv6 : is_ipv6_text core ≡ true
  pub no_opening : Lacks b'[' core
  pub no_closing : Lacks b']' core

parse_ipv6-bare :
    (fresh core bytes : List ℕ)
    → Reads fresh core [] bytes
    → parse_ipv6 fresh none core ≡ some (bytes, 0)
unfolding parse_ipv6 parse_port
parse_ipv6-bare fresh core bytes r =
    let e = rw (append-nil core) at (r.reached) in
    rw e (rw (r.spread) (rw (r.plain) (rw (r.left) refl)))

parse_ipv6-bracketed :
    (fresh core bytes : List ℕ) (port : ℕ)
    → port < 2 ^ 16
    → Reads fresh core (b']' ∷ print_port port) bytes
    → parse_ipv6 fresh (some 0) (b'[' ∷ (core ++ (b']' ∷ print_port port))) ≡ some (bytes, port)
unfolding parse_ipv6
parse_ipv6-bracketed fresh core bytes port lt r =
    rw (r.reached) (rw (r.spread) (rw (r.plain) (rw (r.left) (rw (parse_port-print port lt) refl))))

-- What is read of the port; without one the old port stays.
abbrev pub with_port : HostAddress → ℕ → Address → Address
with_port host port old = record { host = host; port = if port == 0 then old.port else port }

not_zero_first : (n : ℕ) → ltb (suc n) 0 ≡ false
not_zero_first n = ground arith

read_bare :
    (fresh core bytes : List ℕ) (port : ℕ) (old : Address)
    → IsBare core
    → port ≡ 0
    → Reads fresh core [] bytes
    → read_address fresh core old ≡ some (with_port (HostAddress.ipv6 (words_of bytes)) port old)
unfolding read_address
read_bare fresh core bytes port old b z r =
    rw (b.is_ipv6) (rw (b.no_opening) (rw (parse_ipv6-bare fresh core bytes r) (rw z refl)))

read_bracketed :
    (fresh core bytes : List ℕ) (port : ℕ) (old : Address)
    → IsBare core
    → port < 2 ^ 16
    → Reads fresh core (b']' ∷ print_port port) bytes
    → read_address fresh (b'[' ∷ (core ++ (b']' ∷ print_port port))) old
      ≡ some (with_port (HostAddress.ipv6 (words_of bytes)) port old)
unfolding read_address is_ipv6_text index_of
read_bracketed fresh core bytes port old b lt r =
    let closing : index_of b']' (core ++ (b']' ∷ print_port port)) ≡ some (length core + 0) =
      index_of-append b']' core (b']' ∷ print_port port) (b.no_closing) in
    rw closing (
      rw (not_zero_first (length core + 0))
        (rw (parse_ipv6-bracketed fresh core bytes port lt r) refl))

brackets_none : (core : List ℕ) (port : ℕ) → (port == 0) ≡ true → in_brackets core port ≡ core
unfolding in_brackets
brackets_none core port t = rw t refl

brackets_both :
    (core : List ℕ) (port : ℕ)
    → (port == 0) ≡ false
    → in_brackets core port ≡ b'[' ∷ (core ++ (b']' ∷ print_port port))
unfolding in_brackets
brackets_both core port t = rw t refl

pub read_in_brackets :
    (fresh core bytes : List ℕ) (port : ℕ) (old : Address)
    → IsBare core
    → port < 2 ^ 16
    → Reads fresh core [] bytes
    → Reads fresh core (b']' ∷ print_port port) bytes
    → read_address fresh (in_brackets core port) old
      ≡ some (with_port (HostAddress.ipv6 (words_of bytes)) port old)
read_in_brackets fresh core bytes port old b lt r q = elim (Bool-cases (port == 0)) [
  | inl t ↦
      ap (λ x. read_address fresh x old) (brackets_none core port t)
      ∙ read_bare fresh core bytes port old b (ground (arith, t)) r
  | inr t ↦
      ap (λ x. read_address fresh x old) (brackets_both core port t)
      ∙ read_bracketed fresh core bytes port old b lt q
]
