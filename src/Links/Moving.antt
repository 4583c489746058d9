-- ===== src/Links/Moving.antt =====
-- `enet_list_move` of src/list.c between two lists.
use enet.Base.{ℕ, ◌≡◌, ◌≢◌, ◌∙◌, inl, inr, refl, sym, List, [], ◌∷◌, ◌++◌, append-nil, arith}
use enet.Links.{Links, move}
use enet.Links.Rings.{
  Edge, Chain, In, Distinct, Holds, first_or, last_of, In-left, In-right, In-split, In-eq,
  Distinct-left, Distinct-right, Distinct-apart, Distinct-append, last-In, front-In, front-ne-last,
  last-Edge, Chain-split, Chain-carry, before_place, splice,
}
use enet.Links.Refinement.{place-Edge, last_In, first_In, Distinct-remove}

module _ (position first last : ℕ) (h : Links) (free : position ≢ h.next last) where
  move-next :
      (q : ℕ)
      → q ≢ h.previous first
      → q ≢ last
      → q ≢ h.previous position
      → (move position first last h).next q ≡ h.next q
  unfolding move
  move-next q a b c = ground arith

  move-previous :
      (q : ℕ)
      → q ≢ h.next last
      → q ≢ first
      → q ≢ position
      → (move position first last h).previous q ≡ h.previous q
  unfolding move
  move-previous q a b c = ground arith

  move-closes :
      h.previous first ≢ last
      → h.previous first ≢ h.previous position
      → h.next last ≢ first
      → Edge (move position first last h) (h.previous first) (h.next last)
  unfolding move
  move-closes a b c = (ground arith, ground arith)

  move-enters : first ≢ position → Edge (move position first last h) (h.previous position) first
  unfolding move
  move-enters a = (ground arith, ground arith)

  move-leaves : last ≢ h.previous position → Edge (move position first last h) last position
  unfolding move
  move-leaves a = (ground arith, ground arith)

-- Nodes `s ∷ ss` of one list and a place in another one, whose nodes are all others.
module _ (h : Links) (l s : ℕ) (xs ss ys : List ℕ) (k : ℕ) (us vs : List ℕ)
    (from : Holds h l (xs ++ ((s ∷ ss) ++ ys))) (into : Holds h k (us ++ vs))
    (apart : (p q : ℕ) → In p (l ∷ (xs ++ ((s ∷ ss) ++ ys))) → In q (k ∷ (us ++ vs)) → p ≢ q) where
  abbrev whole : List ℕ
  whole = l ∷ (xs ++ ((s ∷ ss) ++ ys))

  abbrev last : ℕ
  last = last_of s ss

  abbrev place : ℕ
  place = first_or vs k

  abbrev moved : Links
  moved = move place s last h

  abbrev tail_chain : Chain h s (ss ++ ys) l
  tail_chain = (Chain-split h l xs s (ss ++ ys) l from.ring).1

  inner_chain : Chain h s ss (first_or ys l)
  inner_chain = before_place h s ss ys l tail_chain

  s-edge : h.previous s ≡ last_of l xs
  s-edge = (place-Edge h l xs ((s ∷ ss) ++ ys) from.ring).1

  last-edge : h.next last ≡ first_or ys l
  last-edge = (last-Edge h s ss (first_or ys l) inner_chain).0

  place-edge : h.previous place ≡ last_of k us
  place-edge = (place-Edge h k us vs into.ring).1

  rest : Distinct (l ∷ (xs ++ ys))
  rest = Distinct-remove (l ∷ xs) (s ∷ ss) ys from.distinct

  -- Where the ends stand.
  p-In : In (last_of l xs) whole
  p-In = last_In l xs ((s ∷ ss) ++ ys)

  seg-In : (q : ℕ) → In q (s ∷ ss) → In q whole
  seg-In q i = In-right q (l ∷ xs) ((s ∷ ss) ++ ys) (In-left q (s ∷ ss) ys i)

  rest-In : (q : ℕ) → In q (l ∷ (xs ++ ys)) → In q whole
  rest-In q i = elim (In-split q (l ∷ xs) ys i) [
    | inl a ↦ In-left q (l ∷ xs) ((s ∷ ss) ++ ys) a
    | inr b ↦ In-right q (l ∷ xs) ((s ∷ ss) ++ ys) (In-right q (s ∷ ss) ys b)
  ]

  -- The nodes that stay are not those that move.
  stays : (q t : ℕ) → In q (l ∷ (xs ++ ys)) → In t (s ∷ ss) → q ≢ t
  stays q t i j w = elim (In-split q (l ∷ xs) ys i) [
    | inl a ↦
        Distinct-apart (l ∷ xs) ((s ∷ ss) ++ ys) q t from.distinct a (In-left t (s ∷ ss) ys j) w
    | inr b ↦
        Distinct-apart (s ∷ ss) ys t q (Distinct-right (l ∷ xs) ((s ∷ ss) ++ ys) from.distinct) j b
          (sym w)
  ]

  n-In : In (first_or ys l) (l ∷ (xs ++ ys))
  n-In = first_In l xs ys

  p-rest : In (last_of l xs) (l ∷ (xs ++ ys))
  p-rest = last_In l xs ys

  free : place ≢ h.next last
  free w =
      apart (first_or ys l) place (rest-In (first_or ys l) n-In) (first_In k us vs)
        (sym (w ∙ last-edge))

  cross : (p q : ℕ) → In p whole → In q (k ∷ (us ++ vs)) → q ≢ p
  cross p q i j w = apart p q i j (sym w)

  b-In : In (last_of k us) (k ∷ (us ++ vs))
  b-In = last_In k us vs

  closed : Edge moved (last_of l xs) (first_or ys l)
  closed =
      rw (s-edge, last-edge) at
        (move-closes place s last h free
          (λ w. stays (last_of l xs) last p-rest (last-In s ss) (sym s-edge ∙ w))
          (λ w. apart (last_of l xs) (last_of k us) p-In b-In (sym s-edge ∙ w ∙ place-edge))
          (λ w. stays (first_or ys l) s n-In (inl refl) (sym last-edge ∙ w)))

  left : Chain moved l (xs ++ ys) l
  left =
      splice h moved l xs (s ∷ ss) [] ys from.ring rest
        (λ q i n.
          move-next place s last h free q (λ w. n (w ∙ s-edge)) (stays q last i (last-In s ss))
            (λ w. apart q (last_of k us) (rest-In q i) b-In (w ∙ place-edge)))
        (λ q i n.
          move-previous place s last h free q (λ w. n (w ∙ last-edge)) (stays q s i (inl refl))
            (apart q place (rest-In q i) (first_In k us vs)))
        closed

  -- The nodes keep their chain, from the place's predecessor to the place.
  middle : Chain moved (last_of k us) (s ∷ ss) place
  middle = (
    rw place-edge at
        (move-enters place s last h free (apart s place (seg-In s (inl refl)) (first_In k us vs))),
    rw (append-nil ss) at (
        Chain-carry h moved s ss (first_or ys l) [] place inner_chain
          (λ q i.
            move-next place s last h free q
              (λ w. stays (last_of l xs) q p-rest (front-In q s ss i) (sym (w ∙ s-edge)))
              (front-ne-last q s ss seg-Distinct i)
              (λ w. apart q (last_of k us) (seg-In q (front-In q s ss i)) b-In (w ∙ place-edge)))
          (λ q i.
            move-previous place s last h free q
              (λ w. stays (first_or ys l) q n-In (inr i) (sym (w ∙ last-edge)))
              (λ w. seg-Distinct.0 (In-eq s q ss (sym w) i))
              (apart q place (seg-In q (inr i)) (first_In k us vs)))
          (move-leaves place s last h free
            (λ w. apart last (last_of k us) (seg-In last (last-In s ss)) b-In (w ∙ place-edge)))),
  )
    where
      seg-Distinct : Distinct (s ∷ ss)
      seg-Distinct =
          Distinct-left (s ∷ ss) ys (Distinct-right (l ∷ xs) ((s ∷ ss) ++ ys) from.distinct)

  entered : Chain moved k (us ++ ((s ∷ ss) ++ vs)) k
  entered =
      splice h moved k us [] (s ∷ ss) vs into.ring into.distinct
        (λ q i n.
          move-next place s last h free q (λ w. apart (last_of l xs) q p-In i (sym (w ∙ s-edge)))
            (cross last q (seg-In last (last-In s ss)) i) (λ w. n (w ∙ place-edge)))
        (λ q i n.
          move-previous place s last h free q
            (λ w. apart (first_or ys l) q (rest-In (first_or ys l) n-In) i (sym (w ∙ last-edge)))
            (cross s q (seg-In s (inl refl)) i) n)
        middle

  all-Distinct : Distinct (k ∷ (us ++ ((s ∷ ss) ++ vs)))
  all-Distinct =
      Distinct-append (k ∷ us) ((s ∷ ss) ++ vs) (Distinct-left (k ∷ us) vs into.distinct)
        (Distinct-append (s ∷ ss) vs seg-Distinct (Distinct-right (k ∷ us) vs into.distinct)
          (λ q i j. apart q q (seg-In q i) (In-right q (k ∷ us) vs j) refl))
        (λ q i j. elim (In-split q (s ∷ ss) vs j) [
          | inl a ↦ apart q q (seg-In q a) (In-left q (k ∷ us) vs i) refl
          | inr b ↦ Distinct-apart (k ∷ us) vs q q into.distinct i b refl
        ])
    where
      seg-Distinct : Distinct (s ∷ ss)
      seg-Distinct =
          Distinct-left (s ∷ ss) ys (Distinct-right (l ∷ xs) ((s ∷ ss) ++ ys) from.distinct)

  -- `enet_list_move` takes consecutive nodes, from the first to the last of them, out of a list and puts
  -- them, in their order, in front of a place in another list that has no node of the first: both lists
  -- hold what they should, forwards and backwards.
  pub move-Holds :
      Holds (move (first_or vs k) s (last_of s ss) h) l (xs ++ ys)
      × Holds (move (first_or vs k) s (last_of s ss) h) k (us ++ ((s ∷ ss) ++ vs))
  move-Holds =
      (record { ring = left; distinct = rest }, record { ring = entered; distinct = all-Distinct })
