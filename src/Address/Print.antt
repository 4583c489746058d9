-- ===== src/Address/Print.antt =====
-- `enet_address_get_host_ip` of src/address.c.
use enet.Base.{
  ℕ, zero, suc, ◌+◌, ◌/◌, ◌%◌, Bool, true, false, ◌&&◌, List, [], ◌∷◌, ◌++◌, Option, none, some,
  ltb, ◌==◌, if◌then◌else◌, length, get_or, skip, take, replicate,
}
use enet.State.{Address, HostAddress}
use enet.Address.{same}
use enet.Address.Digits.{print_decimal, print_hex}

-- What becomes of the caller's buffer: -1, or 0 with the buffer as it was or with a text in it.
pub data Printed : Type 0 where
  refused : Printed
  untouched : Printed
  written : List ℕ → Printed

-- "%u.%u.%u.%u"
unfoldable pub print_quad : ℕ → ℕ → ℕ → ℕ → List ℕ
print_quad a b c d =
    print_decimal a
    ++ (b'.' ∷ (print_decimal b ++ (b'.' ∷ (print_decimal c ++ (b'.' ∷ print_decimal d)))))

-- ":%u"
unfoldable pub print_port : ℕ → List ℕ
print_port port = b':' ∷ print_decimal port

-- The brackets and the port, if there is a port.
unfoldable pub in_brackets : List ℕ → ℕ → List ℕ
in_brackets t port = if port == 0 then t else b'[' ∷ (t ++ (b']' ∷ print_port port))

-- The sizes of the buffers, with the terminating 0: `MS_IPv4` and those after it
abbrev pub ipv4_size : ℕ → ℕ
ipv4_size port = if port == 0 then 16 else 21

abbrev pub mapped_size : ℕ → ℕ
mapped_size port = if port == 0 then 23 else 30

-- The length of the run of zeros at the front.
unfoldable pub zero_run : List ℕ → ℕ
zero_run [] = 0
zero_run (w ∷ ws) = let rest = zero_run ws in if w == 0 then suc rest else 0

-- `f0` and `l0` from the place `i` on: where the longest run of zeros starts, and how long it is.
unfoldable pub longest_run : ℕ → Option (ℕ × ℕ) → List ℕ → Option (ℕ × ℕ)
longest_run i best [] = best
longest_run i best (w ∷ ws) =
    let n = zero_run (w ∷ ws) in
    let longer : Bool = elim best [ none ↦ true | some (_, m) ↦ ltb m n ] in
    longest_run (suc i) (if w == 0 && longer then some (i, n) else best) ws

abbrev pub starts_at : Option (ℕ × ℕ) → ℕ → Bool
starts_at none i = false
starts_at (some (f, n)) i = i == f

abbrev pub run_length : Option (ℕ × ℕ) → ℕ
run_length none = 0
run_length (some (f, n)) = n

-- The loop that writes the groups from the place `i` on, whose words are given; eight rounds are
-- enough for eight words. Behind the run of zeros the next word has no colon of its own.
unfoldable pub print_groups : ℕ → Option (ℕ × ℕ) → ℕ → List ℕ → List ℕ
print_groups zero run i words = []
print_groups (suc k) run i [] = []
print_groups (suc k) run i (w ∷ ws) =
    let further : List ℕ = elim (skip (run_length run) (w ∷ ws)) [
      | [] ↦ []
      | v ∷ vs ↦ print_hex v ++ print_groups k run (suc (i + run_length run)) vs
    ] in
    let plain = print_hex w ++ print_groups k run (suc i) ws in
    if starts_at run i then b':' ∷ b':' ∷ further else if i == 0 then plain else b':' ∷ plain

-- An IPv6 address that is not an IPv4-mapped one.
unfoldable pub print_words : List ℕ → List ℕ
print_words words = print_groups 8 (longest_run 0 none words) 0 words

unfoldable pub is_mapped : List ℕ → Bool
is_mapped words = same (take 6 words) (replicate 5 0 ++ (0xFFFF ∷ []))

-- "::ffff:%u.%u.%u.%u"
unfoldable pub print_mapped : List ℕ → List ℕ
print_mapped words =
    let u = get_or words 6 0 in
    let v = get_or words 7 0 in
    b':'
    ∷ b':'
    ∷ b'f'
    ∷ b'f'
    ∷ b'f'
    ∷ b'f'
    ∷ b':'
    ∷ print_quad (u / 256 % 256) (u % 256) (v / 256 % 256) (v % 256)

-- `enet_address_get_host_ip` into a buffer of so many bytes
unfoldable pub get_host_ip : Address → ℕ → Printed
get_host_ip a size = elim a.host [
  | HostAddress.any ↦ Printed.untouched
  | HostAddress.ipv4 bytes ↦
      let quad =
        print_quad (get_or bytes 0 0) (get_or bytes 1 0) (get_or bytes 2 0) (get_or bytes 3 0) in
      if ltb size (ipv4_size a.port)
      then Printed.refused
      else Printed.written (if a.port == 0 then quad else quad ++ print_port a.port)
  | HostAddress.ipv6 words ↦
      let t = in_brackets (print_words words) a.port in
      if is_mapped words
      then if ltb size (mapped_size a.port)
        then Printed.refused
        else Printed.written (in_brackets (print_mapped words) a.port)
      else if ltb size (suc (length t))
      then Printed.refused
      else Printed.written t
]
