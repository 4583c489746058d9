-- ===== src/Address.antt =====
-- src/address.c: comparing, testing and building addresses. The text form is in the modules below.
pub mod Digits
pub mod Parse
pub mod Print
pub mod Numerals
pub mod Marks
pub mod Groups
pub mod Reading
pub mod Zeros
pub mod Mapped
pub mod Brackets
pub mod Words
pub mod RoundTrip
use enet.Base.{
  ℕ, ◌+◌, ◌*◌, ◌^◌, ◌≡◌, ◌≢◌, ◌↔◌, refl, Bool, true, false, not, ◌&&◌, List, [], ◌∷◌, ◌==◌,
  replicate, arith, get_or,
}
use enet.State.{Address, HostAddress}

-- `memcmp (a, b, …) == 0` of two arrays of one length
unfoldable pub same : List ℕ → List ℕ → Bool
same [] [] = true
same (x ∷ xs) (y ∷ ys) = x == y && same xs ys
same _ _ = false

-- The comparison of the types and of the arrays in `enet_address_equal_host`.
unfoldable pub same_host : HostAddress → HostAddress → Bool
unfolding same
same_host HostAddress.any HostAddress.any = true
same_host (HostAddress.ipv4 xs) (HostAddress.ipv4 ys) = same xs ys
same_host (HostAddress.ipv6 xs) (HostAddress.ipv6 ys) = same xs ys
same_host _ _ = false

-- `enet_address_equal_host`
unfoldable pub equal_host : Address → Address → Bool
unfolding same_host
equal_host a b = a.port == b.port && same_host a.host b.host

-- `enet_address_equal`
unfoldable pub equal : Address → Address → Bool
unfolding equal_host
equal a b = equal_host a b && a.port == b.port

-- `enet_address_is_any`
unfoldable pub is_any : Address → Bool
unfolding same
is_any a = elim a.host [
  | HostAddress.any ↦ false
  | HostAddress.ipv4 bytes ↦ not (same bytes (replicate 4 0))
  | HostAddress.ipv6 words ↦ not (same words (replicate 8 0))
]

-- `enet_address_is_broadcast`
unfoldable pub is_broadcast : Address → Bool
is_broadcast a = elim a.host [
  | HostAddress.ipv4 bytes ↦
      get_or bytes 0 0 == 0xFF
      && get_or bytes 1 0 == 0xFF
      && get_or bytes 2 0 == 0xFF
      && get_or bytes 3 0 == 0xFF
  | _ ↦ false
]

abbrev pub loopback_ipv6 : List ℕ
loopback_ipv6 = 0 ∷ 0 ∷ 0 ∷ 0 ∷ 0 ∷ 0 ∷ 0 ∷ 1 ∷ []

-- `enet_address_is_loopback`
unfoldable pub is_loopback : Address → Bool
unfolding same
is_loopback a = elim a.host [
  | HostAddress.any ↦ false
  | HostAddress.ipv4 bytes ↦ get_or bytes 0 0 == 127
  | HostAddress.ipv6 words ↦ not (same words loopback_ipv6)
]

-- The argument `type` of the builders.
pub data AddressType : Type 0 where
  any ipv4 ipv6 : AddressType

-- `enet_address_build_any`. Of type any, only the type is set: the port stays.
unfoldable pub build_any : AddressType → Address → Address
build_any AddressType.any a = record a { host = HostAddress.any }
build_any AddressType.ipv4 a = record { host = HostAddress.ipv4 (replicate 4 0); port = 0 }
build_any AddressType.ipv6 a = record { host = HostAddress.ipv6 (replicate 8 0); port = 0 }

-- `enet_address_build_loopback`
unfoldable pub build_loopback : AddressType → Address → Address
build_loopback AddressType.any a = record a { host = HostAddress.any }
build_loopback AddressType.ipv4 a = record {
  host = HostAddress.ipv4 (127 ∷ 0 ∷ 0 ∷ 1 ∷ []);
  port = 0;
}
build_loopback AddressType.ipv6 a = record { host = HostAddress.ipv6 loopback_ipv6; port = 0 }

-- The eight words of the IPv4-mapped address.
unfoldable pub mapped : List ℕ → List ℕ
mapped bytes =
    0
    ∷ 0
    ∷ 0
    ∷ 0
    ∷ 0
    ∷ 0xFFFF
    ∷ (get_or bytes 0 0 * 2 ^ 8 + get_or bytes 1 0)
    ∷ (get_or bytes 2 0 * 2 ^ 8 + get_or bytes 3 0)
    ∷ []

-- `enet_address_convert_ipv6`
unfoldable pub convert_ipv6 : Address → Address
unfolding mapped
convert_ipv6 a = elim a.host [
  | HostAddress.ipv4 bytes ↦ record a { host = HostAddress.ipv6 (mapped bytes) }
  | _ ↦ a
]

pub same_iff : (xs ys : List ℕ) → (same xs ys ≡ true) ↔ (xs ≡ ys)
unfolding same
same_iff [] [] = (λ _. refl, λ _. refl)
same_iff [] (y ∷ ys) = (λ e. cc, λ e. cc)
same_iff (x ∷ xs) [] = (λ e. cc, λ e. cc)
same_iff (x ∷ xs) (y ∷ ys) =
    (λ e. ground (arith, same_iff xs ys), λ e. ground (arith, same_iff xs ys))

same_host_iff : (a b : HostAddress) → (same_host a b ≡ true) ↔ (a ≡ b)
unfolding same_host
same_host_iff HostAddress.any HostAddress.any = (λ _. refl, λ _. refl)
same_host_iff (HostAddress.ipv4 xs) (HostAddress.ipv4 ys) =
    (λ e. ground (arith, same_iff xs ys), λ e. ground (arith, same_iff xs ys))
same_host_iff (HostAddress.ipv6 xs) (HostAddress.ipv6 ys) =
    (λ e. ground (arith, same_iff xs ys), λ e. ground (arith, same_iff xs ys))
same_host_iff _ _ = (λ e. cc, λ e. cc)

-- `enet_address_equal` decides equality of addresses, and so does `enet_address_equal_host`: it
-- compares the ports too.
pub equal_iff :
    (a b : Address) → ((equal a b ≡ true) ↔ (a ≡ b)) × ((equal_host a b ≡ true) ↔ (a ≡ b))
unfolding equal equal_host
equal_iff a b = (
  (
    λ e. ground (arith, same_host_iff a.host b.host),
    λ e. ground (arith, same_host_iff a.host b.host),
  ),
  (
    λ e. ground (arith, same_host_iff a.host b.host),
    λ e. ground (arith, same_host_iff a.host b.host),
  ),
)

-- Neither unspecified nor all zeros.
abbrev pub IsSpecific : HostAddress → Type 0
IsSpecific h =
    (h ≢ HostAddress.any)
    × ((h ≢ HostAddress.ipv4 (replicate 4 0)) × (h ≢ HostAddress.ipv6 (replicate 8 0)))

is_any_of :
    (h : HostAddress) (port : ℕ) → (is_any (record { host = h; port = port }) ≡ true) ↔ IsSpecific h
unfolding is_any
is_any_of HostAddress.any port = (λ e. cc, λ n. absurd (n.0 refl))
is_any_of (HostAddress.ipv4 bytes) port = (
  λ e. (λ q. cc, (λ q. ground (arith, same_iff bytes (replicate 4 0)), λ q. cc)),
  λ n. ground (arith, same_iff bytes (replicate 4 0), n.1.0),
)
is_any_of (HostAddress.ipv6 words) port = (
  λ e. (λ q. cc, (λ q. cc, λ q. ground (arith, same_iff words (replicate 8 0)))),
  λ n. ground (arith, same_iff words (replicate 8 0), n.1.1),
)

is_any-build_any : (a : Address) (t : AddressType) → is_any (build_any t a) ≡ false
unfolding is_any build_any
is_any-build_any a AddressType.any = refl
is_any-build_any a AddressType.ipv4 = refl
is_any-build_any a AddressType.ipv6 = refl

-- `enet_address_is_any` answers the opposite of its name: it holds exactly of the IPv4 and IPv6
-- addresses that are not all zeros, so never of what `enet_address_build_any` builds.
pub is_any_lem :
    (a : Address) (t : AddressType)
    → ((is_any a ≡ true) ↔ IsSpecific a.host) × (is_any (build_any t a) ≡ false)
is_any_lem a t = (is_any_of a.host a.port, is_any-build_any a t)

-- Of IPv6 addresses `enet_address_is_loopback` holds exactly of those that are not ::1, so it
-- denies the one that `enet_address_build_loopback` builds, and accepts the IPv4 one.
pub is_loopback_lem :
    (words : List ℕ) (port : ℕ) (a : Address)
    → ((is_loopback (record { host = HostAddress.ipv6 words; port = port }) ≡ true)
        ↔ (words ≢ loopback_ipv6))
      × (is_loopback (build_loopback AddressType.ipv6 a) ≡ false)
      × (is_loopback (build_loopback AddressType.ipv4 a) ≡ true)
unfolding is_loopback build_loopback
is_loopback_lem words port a = (
  (
    λ e q. ground (arith, same_iff words loopback_ipv6),
    λ n. ground (arith, same_iff words loopback_ipv6, n),
  ),
  refl,
  refl,
)
