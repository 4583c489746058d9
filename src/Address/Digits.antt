-- ===== src/Address/Digits.antt =====
-- The digits of src/address.c: `_parseDecimal` and `_parseHex`, and what `sprintf` writes for `%u`
-- and `%x`. A text is the list of its characters without the terminating 0.
use Prim.Native.Nat.{bit_and}
use enet.Base.{
  ℕ, zero, suc, ◌+◌, ◌-◌, ◌*◌, ◌/◌, ◌%◌, Bool, ◌&&◌, ◌||◌, List, [], ◌∷◌, ◌++◌, ltb, leb,
  if◌then◌else◌, u32,
}

-- `**pchCursor`
abbrev pub peek : List ℕ → ℕ
peek [] = 0
peek (c ∷ cs) = c

unfoldable pub is_decimal : ℕ → Bool
is_decimal c = leb b'0' c && leb c b'9'

-- `_parseDecimal` with the value so far: the value, of 32 bits, and the text that is left
unfoldable pub parse_decimal : ℕ → List ℕ → ℕ × List ℕ
parse_decimal n [] = (n, [])
parse_decimal n (c ∷ cs) =
    if is_decimal c then parse_decimal (u32 (n * 10 + (c - b'0'))) cs else (n, c ∷ cs)

-- The test of `_parseHex`, on the character without the bits 5 and 7.
unfoldable pub is_hex : ℕ → Bool
is_hex c = let d = bit_and c 0x5f in leb 0x10 d && leb d 0x19 || leb b'A' d && leb d b'F'

unfoldable pub nibble : ℕ → ℕ
nibble c = let d = bit_and c 0x5f - 0x10 in if ltb 9 d then d - 0x27 else d

-- `_parseHex` with the value so far
unfoldable pub parse_hex : ℕ → List ℕ → ℕ × List ℕ
parse_hex n [] = (n, [])
parse_hex n (c ∷ cs) = if is_hex c then parse_hex (u32 (n * 16 + nibble c)) cs else (n, c ∷ cs)

unfoldable pub digit : ℕ → ℕ
digit d = if ltb d 10 then b'0' + d else b'a' + (d - 10)

-- The digits of a number to a base; a number has fewer digits than its value and one.
unfoldable pub digits : ℕ → ℕ → ℕ → List ℕ
digits base zero n = []
digits base (suc fuel) n =
    let before = digits base fuel (n / base) in
    if ltb n base then digit n ∷ [] else before ++ (digit (n % base) ∷ [])

unfoldable pub print_decimal : ℕ → List ℕ
unfolding digits digit
print_decimal n = digits 10 (suc n) n

unfoldable pub print_hex : ℕ → List ℕ
unfolding digits digit
print_hex n = digits 16 (suc n) n
