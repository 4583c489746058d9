-- ===== src/Tests/Text.antt =====
-- The theorem on the text of addresses at 2001:db8::1 with port 80.
use enet.Base.{◌≡◌, refl, true, [], ◌∷◌, List, ℕ, replicate, arith}
use enet.State.{HostAddress}
use enet.Address.Digits.{print_hex, print_decimal, digits, digit}
use enet.Address.Parse.{set_host_ip}
use enet.Address.Print.{
  written, get_host_ip, print_words, print_groups, longest_run, zero_run, in_brackets, is_mapped,
  print_port,
}
use enet.Address.Brackets.{with_port}
use enet.Address.RoundTrip.{IsPrintable, set_host_ip-get_host_ip}
use enet.Address.{same}
use enet.Tests.{localhost}

abbrev server : HostAddress
server = HostAddress.ipv6 (0x2001 ∷ 0xdb8 ∷ 0 ∷ 0 ∷ 0 ∷ 0 ∷ 0 ∷ 1 ∷ [])

-- [2001:db8::1]:80
abbrev text : List ℕ
text =
    b'[' ∷ b'2' ∷ b'0' ∷ b'0' ∷ b'1' ∷ b':' ∷ b'd' ∷ b'b' ∷ b'8' ∷ b':' ∷ b':' ∷ b'1' ∷ b']' ∷ b':'
    ∷ b'8' ∷ b'0' ∷ []

printed : get_host_ip (record { host = server; port = 80 }) 100 ≡ written text
unfolding get_host_ip print_words print_groups longest_run zero_run in_brackets is_mapped print_port
    print_hex print_decimal digits digit same
printed = refl

server-IsPrintable : IsPrintable server
unfolding longest_run zero_run
server-IsPrintable = (
  refl,
  (
    omega arith,
    (
      omega arith,
      (omega arith, (omega arith, (omega arith, (omega arith, (omega arith, (omega arith, tt)))))),
    ),
  ),
  refl,
)

set_host_ip-get_host_ip_example :
    set_host_ip (replicate 16 7) text localhost ≡ (true, with_port server 80 localhost)
set_host_ip-get_host_ip_example =
    set_host_ip-get_host_ip (replicate 16 7) (record { host = server; port = 80 }) 100 localhost
      text server-IsPrintable (omega arith) printed
