-- ===== src/Address/RoundTrip.antt =====
-- `enet_address_set_host_ip` reads what `enet_address_get_host_ip` has written (src/address.c).
use enet.Base.{
  ℕ, suc, ◌/◌, ◌%◌, ◌^◌, ◌≤◌, ◌<◌, ◌≡◌, ◌∙◌, refl, ap, sym, Bool, true, false, List, [], ◌∷◌, ◌++◌,
  append-nil, none, some, ltb, ◌==◌, if◌then◌else◌, length, replicate, arith, inl, inr, Bool-cases,
}
use enet.State.{Address, HostAddress}
use enet.Address.{same}
use enet.Address.Digits.{peek, is_decimal}
use enet.Address.Parse.{index_of, parse_port, parse_ipv4, read_address, set_host_ip}
use enet.Address.Print.{
  refused, written, print_quad, print_port, in_brackets, longest_run, starts_at, print_words,
  is_mapped, print_mapped, get_host_ip, ipv4_size, mapped_size,
}
use enet.Address.Marks.{Lacks, open-IsMark}
use enet.Address.Reading.{AllWords, quad_then, print_quad-append, parse_quad-then, parse_port-print}
use enet.Address.Mapped.{is_ipv6_text-quad}
use enet.Address.Brackets.{with_port}
use enet.Address.Words.{mapped_text, print_port-Lacks, read_words, read_mapped, mapped_words}

-- Four bytes for IPv4; for IPv6 eight words, of which not the last one alone is left out as a run of
-- zeros.
abbrev pub IsPrintable : HostAddress → Type 0
IsPrintable HostAddress.any = ⊥
IsPrintable (HostAddress.ipv4 bytes) =
    (a : ℕ) × (b : ℕ) × (c : ℕ) × (d : ℕ) × (bytes ≡ a ∷ b ∷ c ∷ d ∷ [])
    × (a ≤ 255)
    × (b ≤ 255)
    × (c ≤ 255)
    × (d ≤ 255)
IsPrintable (HostAddress.ipv6 words) =
    (length words ≡ 8) × AllWords words × (starts_at (longest_run 0 none words) 7 ≡ false)

written-inj : (b : Bool) (x t : List ℕ) → (if b then refused else written x) ≡ written t → x ≡ t
written-inj true x t h = cc
written-inj false x t h = cc

-- The port behind an IPv4 address, if there is one.
abbrev port_text : ℕ → List ℕ
port_text port = if port == 0 then [] else print_port port

nothing : (port : ℕ) → port ≡ 0 → parse_port [] ≡ some port
unfolding parse_port
nothing port z = rw z refl

parse_port_text : (port : ℕ) → port < 2 ^ 16 → parse_port (port_text port) ≡ some port
parse_port_text port lt = elim (Bool-cases (port == 0)) [
  | inl t ↦ rw t (nothing port (ground (arith, t)))
  | inr t ↦ rw t (parse_port-print port lt)
]

port_text-Lacks : (port : ℕ) → Lacks b'[' (port_text port)
unfolding index_of
port_text-Lacks port = elim (Bool-cases (port == 0)) [
  | inl t ↦ rw t refl
  | inr t ↦ rw t (print_port-Lacks b'[' port open-IsMark refl)
]

port_text_ends : (port : ℕ) → is_decimal (peek (port_text port)) ≡ false
unfolding is_decimal print_port
port_text_ends port = elim (Bool-cases (port == 0)) [ inl t ↦ rw t refl | inr t ↦ rw t refl ]

read_quad :
    (fresh : List ℕ) (a b c d port : ℕ) (old : Address)
    → a ≤ 255
    → b ≤ 255
    → c ≤ 255
    → d ≤ 255
    → port < 2 ^ 16
    → read_address fresh (quad_then a b c d (port_text port)) old
      ≡ some (with_port (HostAddress.ipv4 (a ∷ b ∷ c ∷ d ∷ [])) port old)
unfolding read_address parse_ipv4
read_quad fresh a b c d port old p q r s lt =
    rw (is_ipv6_text-quad a b c d (port_text port) (port_text-Lacks port)) (
      rw (parse_quad-then a b c d (port_text port) p q r s (port_text_ends port))
        (rw (parse_port_text port lt) refl))

print_ipv4 :
    (a b c d port : ℕ)
    → (if port == 0 then print_quad a b c d else print_quad a b c d ++ print_port port)
      ≡ quad_then a b c d (port_text port)
print_ipv4 a b c d port = elim (Bool-cases (port == 0)) [
  | inl t ↦ rw t (sym (append-nil (print_quad a b c d)) ∙ print_quad-append a b c d [])
  | inr t ↦ rw t (print_quad-append a b c d (print_port port))
]

written_ipv4 :
    (a b c d port size : ℕ) (t : List ℕ)
    → get_host_ip (record { host = HostAddress.ipv4 (a ∷ b ∷ c ∷ d ∷ []); port = port }) size
      ≡ written t
    → t ≡ quad_then a b c d (port_text port)
unfolding get_host_ip
written_ipv4 a b c d port size t e =
    sym (written-inj (ltb size (ipv4_size port)) _ t e) ∙ print_ipv4 a b c d port

written_words :
    (words : List ℕ) (port size : ℕ) (t : List ℕ)
    → is_mapped words ≡ false
    → get_host_ip (record { host = HostAddress.ipv6 words; port = port }) size ≡ written t
    → t ≡ in_brackets (print_words words) port
unfolding get_host_ip
written_words words port size t m e =
    let text = in_brackets (print_words words) port in
    sym (written-inj (ltb size (suc (length text))) text t (rw m at e))

written_mapped :
    (u v port size : ℕ) (t : List ℕ)
    → get_host_ip
        (record { host = HostAddress.ipv6 (replicate 5 0 ++ (0xffff ∷ u ∷ v ∷ [])); port = port })
        size
      ≡ written t
    → t ≡ in_brackets (mapped_text (u / 256 % 256) (u % 256) (v / 256 % 256) (v % 256)) port
unfolding get_host_ip is_mapped print_mapped same
written_mapped u v port size t e = sym (written-inj (ltb size (mapped_size port)) _ t e)

last_two :
    (u v : ℕ) → AllWords (replicate 5 0 ++ (0xffff ∷ u ∷ v ∷ [])) → (u < 2 ^ 16) × (v < 2 ^ 16)
last_two u v (_, (_, (_, (_, (_, (_, (p, (q, _)))))))) = (p, q)

-- What is written is read as the address.
read_address-get_host_ip :
    (fresh : List ℕ) (host : HostAddress) (port size : ℕ) (old : Address) (t : List ℕ)
    → IsPrintable host
    → port < 2 ^ 16
    → get_host_ip (record { host = host; port = port }) size ≡ written t
    → read_address fresh t old ≡ some (with_port host port old)
read_address-get_host_ip fresh HostAddress.any port size old t h lt e = absurd h
read_address-get_host_ip fresh (HostAddress.ipv4 bytes) port size old t (a, b, c, d, f, p, q, r, s)
      lt e =
    ap (λ x. read_address fresh x old) (written_ipv4 a b c d port size t (rw f at e))
    ∙ read_quad fresh a b c d port old p q r s lt
    ∙ ap (λ l. some (with_port (HostAddress.ipv4 l) port old)) (sym f)
read_address-get_host_ip fresh (HostAddress.ipv6 words) port size old t (l, all, free) lt e =
    elim (Bool-cases (is_mapped words)) [
      | inr m ↦
          ap (λ x. read_address fresh x old) (written_words words port size t m e)
          ∙ read_words fresh words port old l all free lt
      | inl m ↦
          let (u, v, f) = mapped_words words l m in
          let (p, q) = last_two u v (rw f at all) in
          ap (λ x. read_address fresh x old) (written_mapped u v port size t (rw f at e))
          ∙ read_mapped fresh u v port old p q lt
          ∙ ap (λ ws. some (with_port (HostAddress.ipv6 ws) port old)) (sym f)
    ]

-- What `enet_address_get_host_ip` writes, whatever the size of the buffer, `enet_address_set_host_ip`
-- reads as the same address, with the port, or with the old one if the port is 0. The address is an
-- IPv4 one, or an IPv6 one, mapped or not, in which the last word is not alone left out as zero; the
-- array that the reader fills may hold anything before.
pub set_host_ip-get_host_ip :
    (fresh : List ℕ) (a : Address) (size : ℕ) (old : Address) (t : List ℕ)
    → IsPrintable a.host
    → a.port < 2 ^ 16
    → get_host_ip a size ≡ written t
    → set_host_ip fresh t old ≡ (true, with_port a.host a.port old)
unfolding set_host_ip
set_host_ip-get_host_ip fresh a size old t h lt e =
    rw (read_address-get_host_ip fresh a.host a.port size old t h lt e, set_host_ip) refl
