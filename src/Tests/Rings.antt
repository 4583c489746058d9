-- ===== src/Tests/Rings.antt =====
-- The theorems on linked lists at a ring of three nodes and one of a single node.
use enet.Base.{
  ℕ, ◌≡◌, ◌≢◌, ◌∙◌, sym, refl, Bool, true, false, not, ◌&&◌, List, [], ◌∷◌, ◌==◌, ◌||◌, arith, inl,
  inr,
}
use enet.State.{update}
use enet.Links.{Links, insert, move}
use enet.Links.Rings.{Holds, In, In-eq, Distinct}
use enet.Links.Refinement.{insert-Holds}
use enet.Links.Moving.{move-Holds}

abbrev is_in : ℕ → List ℕ → Bool
is_in q [] = false
is_in q (x ∷ xs) = q == x || is_in q xs

abbrev are_distinct : List ℕ → Bool
are_distinct [] = true
are_distinct (x ∷ xs) = not (is_in x xs) && are_distinct xs

abbrev are_apart : List ℕ → List ℕ → Bool
are_apart [] ys = true
are_apart (x ∷ xs) ys = not (is_in x ys) && are_apart xs ys

is_in-In : (q : ℕ) (xs : List ℕ) → In q xs → is_in q xs ≡ true
is_in-In q [] h = absurd h
is_in-In q (x ∷ xs) (inl e) = ground (arith, e)
is_in-In q (x ∷ xs) (inr h) = let e = is_in-In q xs h in ground (arith, e)

absent : (q : ℕ) (xs : List ℕ) → is_in q xs ≡ false → In q xs → ⊥
absent q xs f h = let e = is_in-In q xs h in cc

are_distinct-Distinct : (xs : List ℕ) → are_distinct xs ≡ true → Distinct xs
are_distinct-Distinct [] h = tt
are_distinct-Distinct (x ∷ xs) h =
    (absent x xs (ground (arith, h)), are_distinct-Distinct xs (ground (arith, h)))

are_apart-In : (xs ys : List ℕ) → are_apart xs ys ≡ true → (p q : ℕ) → In p xs → In q ys → p ≢ q
are_apart-In [] ys h p q i j e = absurd i
are_apart-In (x ∷ xs) ys h p q (inl f) j e =
    absent x ys (ground (arith, h)) (In-eq x q ys (sym f ∙ e) j)
are_apart-In (x ∷ xs) ys h p q (inr i) j e = are_apart-In xs ys (ground (arith, h)) p q i j e

-- The sentinels are at 100 and 200.
abbrev rings : Links
rings = record {
  next =
      update (update (update (update (update (update (λ q. 0) 100 1) 1 2) 2 3) 3 100) 200 4) 4 200;
  previous =
      update (update (update (update (update (update (λ q. 0) 1 100) 2 1) 3 2) 100 3) 4 200) 200 4;
}

first_ring : Holds rings 100 (1 ∷ 2 ∷ 3 ∷ [])
first_ring = record {
  ring = ((refl, refl), ((refl, refl), ((refl, refl), (refl, refl))));
  distinct = are_distinct-Distinct (100 ∷ 1 ∷ 2 ∷ 3 ∷ []) refl;
}

second_ring : Holds rings 200 (4 ∷ [])
second_ring = record {
  ring = ((refl, refl), (refl, refl));
  distinct = are_distinct-Distinct (200 ∷ 4 ∷ []) refl;
}

insert-Holds_example : Holds (insert 2 5 rings) 100 (1 ∷ 5 ∷ 2 ∷ 3 ∷ [])
insert-Holds_example =
    insert-Holds rings 100 5 (1 ∷ []) (2 ∷ 3 ∷ []) first_ring (absent 5 (100 ∷ 1 ∷ 2 ∷ 3 ∷ []) refl)

move-Holds_example :
    Holds (move 4 2 3 rings) 100 (1 ∷ []) × Holds (move 4 2 3 rings) 200 (2 ∷ 3 ∷ 4 ∷ [])
move-Holds_example =
    move-Holds rings 100 2 (1 ∷ []) (3 ∷ []) [] 200 [] (4 ∷ []) first_ring second_ring
      (are_apart-In (100 ∷ 1 ∷ 2 ∷ 3 ∷ []) (200 ∷ 4 ∷ []) refl)
