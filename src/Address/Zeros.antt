-- ===== src/Address/Zeros.antt =====
-- The groups of a printed IPv6 address are read back (src/address.c), the zeros that were left out
-- spread again.
use enet.Base.{
  ℕ, zero, suc, ◌+◌, ◌-◌, ◌*◌, ◌/◌, ◌%◌, ◌≤◌, ◌<◌, ◌≡◌, ◌∙◌, refl, ap, sym, false, not, ◌&&◌, List,
  [], ◌∷◌, ◌++◌, append_assoc, Option, none, some, length, length-append, take, skip, replicate,
  length-replicate, arith,
}
use enet.Address.{same}
use enet.Address.Parse.{Groups, parse_groups, spread_zeros, words_of, mapped_prefix}
use enet.Address.Print.{longest_run, starts_at, print_groups, print_words}
use enet.Address.Groups.{plain_text, HasRun, longest_run_lem, print_groups-none, print_groups-some}
use enet.Address.Reading.{
  IsEnd, AllWords, bytes_of, ended, rounds, index_after, parse_groups-plain, parse_groups-before,
  parse_groups-start, parse_groups-after,
}

module _ {ℓ} {A : Type ℓ} where
  take-append : (xs ys : List A) → take (length xs) (xs ++ ys) ≡ xs
  take-append [] ys = refl
  take-append (x ∷ xs) ys = ap (λ l. x ∷ l) (take-append xs ys)

  skip-append : (xs ys : List A) → skip (length xs) (xs ++ ys) ≡ ys
  skip-append [] ys = refl
  skip-append (x ∷ xs) ys = skip-append xs ys

-- What a printed address looks like.
pub data Shape (words : List ℕ) (text : List ℕ) : Type 0 where
  whole : text ≡ plain_text words → Shape words text
  short :
      (pre post : List ℕ) (n : ℕ)
      → words ≡ pre ++ (replicate n 0 ++ post)
      → 0 < n
      → starts_at (some (length pre, n)) 7 ≡ starts_at (longest_run 0 none words) 7
      → text ≡ plain_text pre ++ (b':' ∷ b':' ∷ plain_text post)
      → Shape words text

length_split :
    (pre post : List ℕ) (n : ℕ) (words : List ℕ)
    → words ≡ pre ++ (replicate n 0 ++ post)
    → length words ≡ length pre + n + length post
length_split pre post n words e = rw e (
    omega (
      arith,
      length-append {0} pre (replicate n 0 ++ post),
      length-append {0} (replicate n 0) post,
      length-replicate {A = ℕ} n 0,
    ))

-- `print_words` with its search done.
print_run-Shape :
    (words : List ℕ) (run : Option (ℕ × ℕ))
    → length words ≡ 8
    → HasRun words run
    → longest_run 0 none words ≡ run
    → Shape words (print_groups 8 run 0 words)
print_run-Shape [] none l h e = absurd (omega (arith, l))
print_run-Shape (w ∷ ws) none l h e = whole (print_groups-none 7 w ws (omega (arith, l)))
print_run-Shape words (some (f, zero)) l (pre, post, e, le, p) found = absurd (omega (arith, p))
print_run-Shape words (some (f, suc n)) l (pre, post, e, le, p) found =
    let size = length_split pre post (suc n) words e in
    let parts = length-append {0} (replicate n 0) post in
    let zeros = length-replicate {A = ℕ} n 0 in
    short pre post (suc n) e p (rw (found, le) refl) (
      rw e (
        print_groups-some 8 f (suc n) pre 0 (replicate n 0 ++ post)
          (omega (arith, size, l, parts, zeros)) le
        ∙ ap (λ t. plain_text pre ++ (b':' ∷ b':' ∷ plain_text t)) (skip_zeros n post)))
  where
    skip_zeros : (n : ℕ) (post : List ℕ) → skip n (replicate n 0 ++ post) ≡ post
    skip_zeros zero post = refl
    skip_zeros (suc n) post = skip_zeros n post

pub print_words-Shape : (words : List ℕ) → length words ≡ 8 → Shape words (print_words words)
unfolding print_words
print_words-Shape words l =
    print_run-Shape words (longest_run 0 none words) l (longest_run_lem words) refl

pub words_of-bytes_of : (ws : List ℕ) → words_of (bytes_of ws) ≡ ws
unfolding words_of
words_of-bytes_of [] = refl
words_of-bytes_of (w ∷ ws) =
    let e : w / 256 * 256 + w % 256 ≡ w = omega arith in rw (e, words_of-bytes_of ws) refl

length-bytes_of : (ws : List ℕ) → length (bytes_of ws) ≡ length ws * 2
length-bytes_of [] = omega arith
length-bytes_of (w ∷ ws) = omega (arith, length-bytes_of ws)

bytes_of-append : (xs ys : List ℕ) → bytes_of (xs ++ ys) ≡ bytes_of xs ++ bytes_of ys
bytes_of-append [] ys = refl
bytes_of-append (x ∷ xs) ys = ap (λ l. x / 256 ∷ x % 256 ∷ l) (bytes_of-append xs ys)

bytes_of-zeros : (n : ℕ) → replicate (n * 2) 0 ≡ bytes_of (replicate n 0)
bytes_of-zeros zero = refl
bytes_of-zeros (suc n) =
    let e : suc n * 2 ≡ suc (suc (n * 2)) = omega arith in
    rw e (ap (λ l. 0 ∷ 0 ∷ l) (bytes_of-zeros n))

-- The array behind a whole address.
spread_whole :
    (fresh words t : List ℕ) (i : ℕ)
    → length words ≡ 8
    → spread_zeros fresh (ended (bytes_of words) none i t) ≡ bytes_of words
unfolding spread_zeros
spread_whole fresh words t i l =
    let bytes = bytes_of words in
    let e : 16 ≡ length bytes = omega (arith, l, length-bytes_of words) in
    ap (λ n. take n (bytes ++ skip (length bytes) fresh)) e
    ∙ take-append bytes (skip (length bytes) fresh)

-- The array when the zeros that were left out are in their place again.
spread_short :
    (fresh pre post t : List ℕ) (n : ℕ)
    → length pre + n + length post ≡ 8
    → spread_zeros fresh (
        ended
          (bytes_of pre ++ bytes_of post)
          (some (length (bytes_of pre)))
          (length pre + length post)
          t)
      ≡ bytes_of (pre ++ (replicate n 0 ++ post))
unfolding spread_zeros
spread_short fresh pre post t n l =
    let a = bytes_of pre in
    let b = bytes_of post in
    let c = skip (length (a ++ b)) fresh in
    let before = length-bytes_of pre in
    let behind = length-bytes_of post in
    let tail : (length pre + length post) * 2 - length a ≡ length b =
      omega (arith, before, behind) in
    let gap : 16 - length b - length a ≡ n * 2 = omega (arith, before, behind, l) in
    rw (append_assoc a b c) (
      rw (take-append a (b ++ c)) (
        rw (skip-append a (b ++ c)) (
          rw tail (
            rw gap (
              rw (take-append b c) (
                ap (λ r. (a ++ r) ++ b) (bytes_of-zeros n)
                ∙ append_assoc a (bytes_of (replicate n 0)) b
                ∙ ap (λ r. a ++ r) (sym (bytes_of-append (replicate n 0) post))
                ∙ sym (bytes_of-append pre (replicate n 0 ++ post))))))))

-- A text that the loop over the groups reads as these bytes, up to the text that follows.
pub record Reads (fresh core t bytes : List ℕ) : Type 0 where
  pub groups : Groups
  pub reached : parse_groups 8 0 [] none (core ++ t) ≡ some groups
  pub spread : spread_zeros fresh groups ≡ bytes
  pub left : groups.text ≡ t
  pub plain : (groups.has_quad && not (same (take 12 bytes) mapped_prefix)) ≡ false

rounds_lem : (ws : List ℕ) (k : ℕ) → rounds ws k ≡ length ws + 2 + k
rounds_lem [] k = omega arith
rounds_lem (v ∷ ws) k = omega (arith, rounds_lem ws k)

index_after_lem : (ws : List ℕ) (i : ℕ) → index_after ws i ≡ i + length ws + 2
index_after_lem [] i = omega arith
index_after_lem (v ∷ ws) i = omega (arith, index_after_lem ws (i + 1))

-- The words before and behind the zeros.
read_short :
    (pre post t : List ℕ) (n : ℕ)
    → AllWords pre
    → AllWords post
    → length pre + n + length post ≡ 8
    → 0 < n
    → length pre < 7
    → IsEnd t
    → parse_groups 8 0 [] none (plain_text pre ++ (b':' ∷ b':' ∷ (plain_text post ++ t)))
      ≡ some (
          ended
            (bytes_of pre ++ bytes_of post)
            (some (length (bytes_of pre)))
            (length pre + length post)
            t)
read_short [] post t n a b l p lt end =
    parse_groups-start 7 (plain_text post ++ t)
    ∙ parse_groups-after 7 1 [] post t b end (omega (arith, l)) (omega arith) (omega arith)
    ∙ ap (λ i. some (ended (bytes_of post) (some 0) i t)) (omega arith)
read_short (w ∷ ws) post t n a b l p lt end =
    let k = 6 - length ws in
    let bytes = bytes_of (w ∷ ws) in
    let e : 8 ≡ rounds ws k = omega (arith, rounds_lem ws k, lt) in
    let i = index_after_lem ws 0 in
    ap
      (λ r.
        parse_groups r 0 [] none (plain_text (w ∷ ws) ++ (b':' ∷ b':' ∷ (plain_text post ++ t))))
      e
    ∙ parse_groups-before k 0 w [] ws (plain_text post ++ t) a
    ∙ parse_groups-after k (index_after ws 0) bytes post t b end (omega (arith, l, p, lt))
        (omega (arith, lt)) (omega (arith, i))
    ∙ ap (λ j. some (ended (bytes ++ bytes_of post) (some (length bytes)) j t)) (omega (arith, i))

All-split : (xs ys : List ℕ) → AllWords (xs ++ ys) → AllWords xs × AllWords ys
All-split [] ys a = (tt, a)
All-split (x ∷ xs) ys a = let (b, c) = All-split xs ys (a.1) in ((a.0, b), c)

place_free : (i n : ℕ) → starts_at (some (i, n)) 7 ≡ false → 0 < n → i + n ≤ 8 → i < 7
place_free i n h p le = ground (arith, h, p, le)

-- A text of either shape is read as the words.
Shape-Reads :
    (fresh words text t : List ℕ)
    → length words ≡ 8
    → AllWords words
    → starts_at (longest_run 0 none words) 7 ≡ false
    → IsEnd t
    → Shape words text
    → Reads fresh text t (bytes_of words)
Shape-Reads fresh [] text t l all free end (whole e) = absurd (omega (arith, l))
Shape-Reads fresh (w ∷ ws) text t l all free end (whole e) = record {
  groups = ended (bytes_of (w ∷ ws)) none (0 + length ws) t;
  reached = rw e (parse_groups-plain 8 0 w [] none ws t all end (omega (arith, l)));
  spread = spread_whole fresh (w ∷ ws) t (0 + length ws) l;
  left = refl;
  plain = refl;
}
Shape-Reads fresh words text t l all free end (short pre post n e p f s) =
    let size : length pre + n + length post ≡ 8 =
      omega (arith, l, length_split pre post n words e) in
    let all' : AllWords (pre ++ (replicate n 0 ++ post)) = rw e at all in
    let (a, rest) = All-split pre (replicate n 0 ++ post) all' in
    let (_, b) = All-split (replicate n 0) post rest in
    record {
      groups =
          ended (bytes_of pre ++ bytes_of post) (some (length (bytes_of pre)))
            (length pre + length post) t;
      reached =
          rw (s, append_assoc)
            (read_short pre post t n a b size p
              (place_free (length pre) n (f ∙ free) p (omega (arith, size))) end);
      spread = spread_short fresh pre post t n size ∙ ap bytes_of (sym e);
      left = refl;
      plain = refl;
    }

-- The groups that are printed are read back, unless the last word alone was left out.
pub print_words-Reads :
    (fresh words t : List ℕ)
    → length words ≡ 8
    → AllWords words
    → starts_at (longest_run 0 none words) 7 ≡ false
    → IsEnd t
    → Reads fresh (print_words words) t (bytes_of words)
print_words-Reads fresh words t l all free end =
    Shape-Reads fresh words (print_words words) t l all free end (print_words-Shape words l)
