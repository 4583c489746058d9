-- ===== src/Address/Parse.antt =====
-- `ParseIPv4OrIPv6` and `enet_address_set_host_ip` of src/address.c. The cursor into the text is the
-- text that is left; `none` is the result 0.
use enet.Base.{
  ℕ, zero, suc, ◌+◌, ◌-◌, ◌*◌, ◌/◌, ◌%◌, Bool, true, false, not, ◌&&◌, ◌||◌, List, [], ◌∷◌, ◌++◌,
  Option, none, some, ltb, ◌==◌, if◌then◌else◌, length, take, skip, replicate,
}
use enet.State.{Address, HostAddress}
use enet.Address.{same}
use enet.Address.Digits.{peek, is_decimal, parse_decimal, is_hex, parse_hex}

-- `strchr`, as an index
unfoldable pub index_of : ℕ → List ℕ → Option ℕ
index_of c [] = none
index_of c (x ∷ xs) =
    let later : Option ℕ = elim (index_of c xs) [ none ↦ none | some i ↦ some (suc i) ] in
    if x == c then some 0 else later

-- `a < b` of two results of `strchr` that are not NULL
abbrev pub is_before : Option ℕ → Option ℕ → Bool
is_before (some i) (some j) = ltb i j
is_before _ _ = false

abbrev pub is_found : Option ℕ → Bool
is_found none = false
is_found (some i) = true

-- `bIsIPv6local`
unfoldable pub is_ipv6_text : List ℕ → Bool
is_ipv6_text t =
    is_found (index_of b'[' t)
    || not (is_found (index_of b'.' t))
    || is_before (index_of b':' t) (index_of b'.' t)

-- One number of an IPv4 address, in range and not empty.
unfoldable pub parse_octet : List ℕ → Option (ℕ × List ℕ)
parse_octet t =
    let (value, rest) = parse_decimal 0 t in
    if ltb 255 value || not (is_decimal (peek t)) then none else some (value, rest)

-- One that a dot follows, which is passed over.
unfoldable pub parse_dotted : List ℕ → Option (ℕ × List ℕ)
parse_dotted t = elim (parse_octet t) [
  | none ↦ none
  | some (value, rest) ↦ if peek rest == b'.' then some (value, skip 1 rest) else none
]

infixl 5 ◌>>=◌
abbrev pub ◌>>=◌ {ℓ κ} : {A : Type ℓ} {B : Type κ} → Option A → (A → Option B) → Option B
none >>= f = none
some a >>= f = f a

-- The four numbers of an IPv4 address.
unfoldable pub parse_quad : List ℕ → Option (List ℕ × List ℕ)
parse_quad t = do
  (a, t₁) ← parse_dotted t
  (b, t₂) ← parse_dotted t₁
  (c, t₃) ← parse_dotted t₂
  (d, t₄) ← parse_octet t₃
  some (a ∷ b ∷ c ∷ d ∷ [], t₄)

-- The port behind an address, which is wanted; 0 if there is none.
unfoldable pub parse_port : List ℕ → Option ℕ
parse_port t =
    let (value, rest) = parse_decimal 0 (skip 1 t) in
    if not (peek t == b':')
    then some 0
    else if ltb 65535 value || not (is_decimal (peek (skip 1 t)))
    then none
    else some value

-- What the loop over the groups of an IPv6 address has reached: the bytes written, the place of the
-- compressed zeros, `nIdx`, the text that is left, and `bIPv4Detected`.
pub record Groups : Type 0 where
  pub bytes : List ℕ
  pub zeros : Option ℕ
  pub index : ℕ
  pub text : List ℕ
  pub has_quad : Bool

-- How a round of that loop ends: with the next one, with `break`, or with `return 0`.
pub data Turn : Type 0 where
  next : List ℕ → Option ℕ → List ℕ → Turn
  stop : Groups → Turn
  fail : Turn

-- An empty group, which stands for a run of zeros, or ends the address right behind that run.
unfoldable pub empty_group : ℕ → List ℕ → Option ℕ → List ℕ → Turn
empty_group i bytes (some z) t =
    if z == length bytes
    then Turn.stop
        (record { bytes = bytes; zeros = some z; index = i - 1; text = t; has_quad = false })
    else Turn.fail
empty_group i bytes none t =
    if not (peek t == b':')
    then Turn.fail
    else if not (i == 0)
    then Turn.next bytes (some (length bytes)) (skip 1 t)
    else if not (peek (skip 1 t) == b':')
    then Turn.fail
    else Turn.next bytes (some (length bytes)) (skip 2 t)

-- An IPv4 address in place of the last two groups. Read on its own, the text is one of an IPv4
-- address, or it is refused.
unfoldable pub quad_group : ℕ → List ℕ → Option ℕ → List ℕ → Turn
quad_group i bytes zeros t =
    let parsed : Turn = elim (parse_quad t) [
      | none ↦ Turn.fail
      | some (quad, rest) ↦ Turn.stop (record {
        bytes = bytes ++ quad;
        zeros = zeros;
        index = i + 1;
        text = rest;
        has_quad = true;
      })
    ] in
    if is_ipv6_text t then Turn.fail else parsed

-- A round of the loop: the group at the text.
unfoldable pub parse_group : ℕ → List ℕ → Option ℕ → List ℕ → Turn
parse_group i bytes zeros t =
    let (value, rest) = parse_hex 0 t in
    let bytes' = bytes ++ (value / 256 ∷ value % 256 ∷ []) in
    if not (is_hex (peek t))
    then empty_group i bytes zeros t
    else if peek rest == b'.'
    then quad_group i bytes zeros t
    else if ltb 65535 value
    then Turn.fail
    else if peek rest == b':'
    then Turn.next bytes' zeros (skip 1 rest)
    else Turn.stop
        (record { bytes = bytes'; zeros = zeros; index = i; text = rest; has_quad = false })

-- The loop, with so many rounds left.
unfoldable pub parse_groups : ℕ → ℕ → List ℕ → Option ℕ → List ℕ → Option Groups
parse_groups zero i bytes zeros t =
    some (record { bytes = bytes; zeros = zeros; index = i; text = t; has_quad = false })
parse_groups (suc k) i bytes zeros t = elim (parse_group i bytes zeros t) [
  | Turn.next bytes' zeros' t' ↦ parse_groups k (i + 1) bytes' zeros' t'
  | Turn.stop g ↦ some g
  | Turn.fail ↦ none
]

-- The 16 bytes of the array, which held `fresh`, when the compressed zeros have been spread out.
unfoldable pub spread_zeros : List ℕ → Groups → List ℕ
spread_zeros fresh g =
    let array = g.bytes ++ skip (length g.bytes) fresh in
    elim g.zeros [
      | none ↦ take 16 array
      | some z ↦
          let tail = g.index * 2 - z in
          take z array ++ replicate (16 - tail - z) 0 ++ take tail (skip z array)
    ]

-- `::ffff:`
abbrev pub mapped_prefix : List ℕ
mapped_prefix = replicate 10 0 ++ (0xff ∷ 0xff ∷ [])

unfoldable pub parse_ipv6 : List ℕ → Option ℕ → List ℕ → Option (List ℕ × ℕ)
parse_ipv6 fresh bracket t =
    let start : List ℕ = elim bracket [ none ↦ t | some i ↦ skip (i + 1) t ] in
    do
      g ← parse_groups 8 0 [] none start
      let bytes = spread_zeros fresh g
      rest ← if g.has_quad && not (same (take 12 bytes) mapped_prefix) then none else some g.text
      rest' ←
          if not (is_found bracket)
          then some rest
          else if peek rest == b']'
          then some (skip 1 rest)
          else none
      port ← parse_port rest'
      some (bytes, port)

unfoldable pub parse_ipv4 : List ℕ → Option (List ℕ × ℕ)
parse_ipv4 t = do (bytes, rest) ← parse_quad t; port ← parse_port rest; some (bytes, port)

-- `address->host.v6[i] = (result[i * 2] << 8) | result[i * 2 + 1]`
unfoldable pub words_of : List ℕ → List ℕ
words_of [] = []
words_of (a ∷ []) = []
words_of (a ∷ b ∷ bytes) = (a * 256 + b) ∷ words_of bytes

abbrev with_host : HostAddress → ℕ → Address → Address
with_host host port a = record { host = host; port = if port == 0 then a.port else port }

-- The address in a text; `fresh` is what the local array `result` holds at first.
unfoldable pub read_address : List ℕ → List ℕ → Address → Option Address
read_address fresh t a =
    let opening = index_of b'[' t in
    let closing = index_of b']' t in
    let ipv6 : Option Address = do
      (bytes, port) ← parse_ipv6 fresh opening t
      some (with_host (HostAddress.ipv6 (words_of bytes)) port a)
    in let ipv4 : Option Address = do
      (bytes, port) ← parse_ipv4 t
      some (with_host (HostAddress.ipv4 bytes) port a)
      in if not (is_ipv6_text t)
        then ipv4
        else if is_found opening && (not (is_found closing) || is_before closing opening)
        then none
        else ipv6

-- `enet_address_set_host_ip`: `true` is the result 0.
unfoldable pub set_host_ip : List ℕ → List ℕ → Address → Bool × Address
set_host_ip fresh t a = elim (read_address fresh t a) [ none ↦ (false, a) | some a' ↦ (true, a') ]
