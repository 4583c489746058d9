-- ===== src/Address/Numerals.antt =====
-- The numbers in the text of an address (src/address.c): what is printed is read back.
use enet.Base.{
  ℕ, zero, suc, ◌+◌, ◌-◌, ◌*◌, ◌/◌, ◌%◌, ◌^◌, ◌≤◌, ◌<◌, ◌≡◌, ◌∙◌, refl, ap, Bool, true, false, ◌&&◌,
  List, [], ◌∷◌, ◌++◌, append_assoc, ltb, ◌==◌, if◌then◌else◌, u32, arith, inl, inr, Bool-cases,
}
use enet.Address.Digits.{
  peek, is_decimal, parse_decimal, is_hex, nibble, parse_hex, digit, digits, print_decimal,
  print_hex,
}

-- A digit to the base 16 is recognised, with its value.
reads_back : ℕ → Bool
reads_back d = is_hex (digit d) && nibble (digit d) == d

-- So are the digits from 0 to the last of so many.
all_read_back : ℕ → Bool
all_read_back zero = true
all_read_back (suc d) = all_read_back d && reads_back d

all_read_back-reads_back :
    (d count : ℕ) → d < count → all_read_back count ≡ true → reads_back d ≡ true
unfolding all_read_back
all_read_back-reads_back d zero lt t = absurd (omega (arith, lt))
all_read_back-reads_back d (suc count) lt t = elim (Bool-cases (d == count)) [
  | inl e ↦ let here : d ≡ count = ground (arith, e) in rw here (ground (arith, t))
  | inr e ↦ all_read_back-reads_back d count (ground (arith, e, lt)) (ground (arith, t))
]

sixteen_digits : all_read_back 16 ≡ true
unfolding all_read_back reads_back is_hex nibble digit
sixteen_digits = refl

hex_digit : (d : ℕ) → d < 16 → (is_hex (digit d) ≡ true) × (nibble (digit d) ≡ d)
unfolding reads_back
hex_digit d h =
    let e = all_read_back-reads_back d 16 h sixteen_digits in (ground (arith, e), ground (arith, e))

decimal_digit : (d : ℕ) → d < 10 → (is_decimal (digit d) ≡ true) × (digit d - b'0' ≡ d)
unfolding is_decimal digit
decimal_digit d h = (ground arith, ground arith)

-- Printing unfolds from the last digit.
pub digits_step :
    (base fuel n : ℕ)
    → digits base (suc fuel) n ≡ (
        if ltb n base then digit n ∷ [] else digits base fuel (n / base) ++ (digit (n % base) ∷ []))
unfolding digits
digits_step base fuel n = refl

parse_decimal_step :
    (n d : ℕ) (rest : List ℕ)
    → d < 10
    → n * 10 + d < 2 ^ 32
    → parse_decimal n (digit d ∷ rest) ≡ parse_decimal (n * 10 + d) rest
unfolding parse_decimal
parse_decimal_step n d rest h lt =
    let k = decimal_digit d h in
    let e : u32 (n * 10 + (digit d - b'0')) ≡ n * 10 + d = rw (k.1) (omega (arith, lt)) in
    rw (k.0) (rw e refl)

parse_decimal-digits :
    (fuel n : ℕ) (rest : List ℕ)
    → n < fuel
    → n < 2 ^ 32
    → parse_decimal 0 (digits 10 fuel n ++ rest) ≡ parse_decimal n rest
parse_decimal-digits zero n rest h lt = absurd (omega (arith, h))
parse_decimal-digits (suc fuel) n rest h lt = elim (Bool-cases (ltb n 10)) [
  | inl t ↦ rw (digits_step 10 fuel n) (
      rw t (
        parse_decimal_step 0 n rest (ground (arith, t)) (omega (arith, lt))
        ∙ ap (λ k. parse_decimal k rest) (let z : 0 * 10 + n ≡ n = omega arith in z)))
  | inr t ↦
      let m = n / 10 in
      let d = n % 10 in
      let big : 10 ≤ n = ground (arith, t) in
      let e : m * 10 + d ≡ n = omega arith in
      rw (digits_step 10 fuel n) (
        rw t (
          rw (append_assoc (digits 10 fuel m) (digit d ∷ []) rest) (
            parse_decimal-digits fuel m (digit d ∷ rest) (omega (arith, h, big)) (omega (arith, lt))
            ∙ parse_decimal_step m d rest (omega arith) (omega (arith, e, lt))
            ∙ ap (λ k. parse_decimal k rest) e)))
]

parse_hex_step :
    (n d : ℕ) (rest : List ℕ)
    → d < 16
    → n * 16 + d < 2 ^ 32
    → parse_hex n (digit d ∷ rest) ≡ parse_hex (n * 16 + d) rest
unfolding parse_hex
parse_hex_step n d rest h lt =
    let k = hex_digit d h in
    let e : u32 (n * 16 + nibble (digit d)) ≡ n * 16 + d = rw (k.1) (omega (arith, lt)) in
    rw (k.0) (rw e refl)

parse_hex-digits :
    (fuel n : ℕ) (rest : List ℕ)
    → n < fuel
    → n < 2 ^ 32
    → parse_hex 0 (digits 16 fuel n ++ rest) ≡ parse_hex n rest
parse_hex-digits zero n rest h lt = absurd (omega (arith, h))
parse_hex-digits (suc fuel) n rest h lt = elim (Bool-cases (ltb n 16)) [
  | inl t ↦ rw (digits_step 16 fuel n) (
      rw t (
        parse_hex_step 0 n rest (ground (arith, t)) (omega (arith, lt))
        ∙ ap (λ k. parse_hex k rest) (let z : 0 * 16 + n ≡ n = omega arith in z)))
  | inr t ↦
      let m = n / 16 in
      let d = n % 16 in
      let big : 16 ≤ n = ground (arith, t) in
      let e : m * 16 + d ≡ n = omega arith in
      rw (digits_step 16 fuel n) (
        rw t (
          rw (append_assoc (digits 16 fuel m) (digit d ∷ []) rest) (
            parse_hex-digits fuel m (digit d ∷ rest) (omega (arith, h, big)) (omega (arith, lt))
            ∙ parse_hex_step m d rest (omega arith) (omega (arith, e, lt))
            ∙ ap (λ k. parse_hex k rest) e)))
]

parse_decimal_end :
    (n : ℕ) (rest : List ℕ) → is_decimal (peek rest) ≡ false → parse_decimal n rest ≡ (n, rest)
unfolding parse_decimal
parse_decimal_end n [] h = refl
parse_decimal_end n (c ∷ cs) h = rw h refl

parse_hex_end : (n : ℕ) (rest : List ℕ) → is_hex (peek rest) ≡ false → parse_hex n rest ≡ (n, rest)
unfolding parse_hex
parse_hex_end n [] h = refl
parse_hex_end n (c ∷ cs) h = rw h refl

-- A number as it is printed is read back, up to the character behind it.
pub parse-print_decimal :
    (n : ℕ) (rest : List ℕ)
    → n < 2 ^ 32
    → is_decimal (peek rest) ≡ false
    → parse_decimal 0 (print_decimal n ++ rest) ≡ (n, rest)
unfolding print_decimal
parse-print_decimal n rest lt h =
    parse_decimal-digits (suc n) n rest (omega arith) lt ∙ parse_decimal_end n rest h

pub parse-print_hex :
    (n : ℕ) (rest : List ℕ)
    → n < 2 ^ 32
    → is_hex (peek rest) ≡ false
    → parse_hex 0 (print_hex n ++ rest) ≡ (n, rest)
unfolding print_hex
parse-print_hex n rest lt h =
    parse_hex-digits (suc n) n rest (omega arith) lt ∙ parse_hex_end n rest h

-- A number starts with a digit.
digits-first :
    (good : ℕ → Bool) (base : ℕ)
    → ((d : ℕ) → d < base → good (digit d) ≡ true)
    → ((n : ℕ) → base ≤ n → n / base < n)
    → (fuel n : ℕ) (rest : List ℕ) → n < fuel
    → good (peek (digits base fuel n ++ rest)) ≡ true
digits-first good base all less zero n rest h = absurd (omega (arith, h))
digits-first good base all less (suc fuel) n rest h = elim (Bool-cases (ltb n base)) [
  | inl t ↦ rw (digits_step base fuel n) (rw t (all n (ground (arith, t))))
  | inr t ↦
      let shrinks : n / base < fuel = omega (arith, h, less n (ground (arith, t))) in
      rw (digits_step base fuel n) (
        rw t (
          rw (append_assoc (digits base fuel (n / base)) (digit (n % base) ∷ []) rest)
            (digits-first good base all less fuel (n / base) (digit (n % base) ∷ rest) shrinks)))
]

pub print_decimal-first :
    (n : ℕ) (rest : List ℕ) → is_decimal (peek (print_decimal n ++ rest)) ≡ true
unfolding print_decimal
print_decimal-first n rest =
    digits-first is_decimal 10 (λ d h. (decimal_digit d h).0) (λ n h. omega arith) (suc n) n rest
      (omega arith)

pub print_hex-first : (n : ℕ) (rest : List ℕ) → is_hex (peek (print_hex n ++ rest)) ≡ true
unfolding print_hex
print_hex-first n rest =
    digits-first is_hex 16 (λ d h. (hex_digit d h).0) (λ n h. omega arith) (suc n) n rest
      (omega arith)

parse_hex-skips :
    (m d : ℕ) (rest : List ℕ) → d < 10 → (v : ℕ) × (parse_hex m (digit d ∷ rest) ≡ parse_hex v rest)
unfolding parse_hex
parse_hex-skips m d rest h =
    (u32 (m * 16 + nibble (digit d)), rw ((hex_digit d (omega (arith, h))).0) refl)

parse_hex-digits10 :
    (fuel n m : ℕ) (rest : List ℕ)
    → (v : ℕ) × (parse_hex m (digits 10 fuel n ++ rest) ≡ parse_hex v rest)
unfolding digits
parse_hex-digits10 zero n m rest = (m, refl)
parse_hex-digits10 (suc fuel) n m rest = elim (Bool-cases (ltb n 10)) [
  | inl t ↦
      let (v, e) = parse_hex-skips m n rest (ground (arith, t)) in
      (v, rw (digits_step 10 fuel n) (rw t e))
  | inr t ↦
      let (v, e) = parse_hex-digits10 fuel (n / 10) m (digit (n % 10) ∷ rest) in
      let (v', e') = parse_hex-skips v (n % 10) rest (omega arith) in
      (
        v',
        rw (digits_step 10 fuel n) (
            rw t (rw (append_assoc (digits 10 fuel (n / 10)) (digit (n % 10) ∷ []) rest) (e ∙ e'))),
      )
]

-- Read as a hexadecimal one, a decimal number ends at the same place.
pub parse_hex-print_decimal :
    (n : ℕ) (rest : List ℕ)
    → is_hex (peek rest) ≡ false
    → (v : ℕ) × (parse_hex 0 (print_decimal n ++ rest) ≡ (v, rest))
unfolding print_decimal
parse_hex-print_decimal n rest h =
    let (v, e) = parse_hex-digits10 (suc n) n 0 rest in (v, e ∙ parse_hex_end v rest h)

pub print_decimal-first_hex :
    (n : ℕ) (rest : List ℕ) → is_hex (peek (print_decimal n ++ rest)) ≡ true
unfolding print_decimal
print_decimal-first_hex n rest =
    digits-first is_hex 10 (λ d h. (hex_digit d (omega (arith, h))).0) (λ n h. omega arith) (suc n)
      n rest (omega arith)
