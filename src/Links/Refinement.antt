-- ===== src/Links/Refinement.antt =====
-- The operations of src/list.c on rings do what they are named for on the lists of nodes.
use enet.Base.{
  ℕ, zero, suc, ◌+◌, ◌<◌, ◌≡◌, ◌≢◌, ◌∙◌, inl, inr, refl, sym, ap, true, false, List, [], ◌∷◌, ◌++◌,
  some, ◌==◌, length, arith,
}
use enet.Links.{Links, clear, insert, remove, size_from, list_size}
use enet.Links.Rings.{
  Edge, Chain, In, Distinct, Holds, first_or, last_of, In-left, In-right, In-split, In-eq,
  Distinct-left, Distinct-right, Distinct-apart, Distinct-append, last-In, last-Edge, Chain-split,
  before_place, first_edge, splice,
}

module _ (position node : ℕ) (h : Links) where
  insert-next :
      (q : ℕ) → q ≢ node → q ≢ h.previous position → (insert position node h).next q ≡ h.next q
  unfolding insert
  insert-next q a b = ground arith

  insert-previous :
      (q : ℕ) → q ≢ node → q ≢ position → (insert position node h).previous q ≡ h.previous q
  unfolding insert
  insert-previous q a b = ground arith

  insert-edges :
      node ≢ position
      → node ≢ h.previous position
      → Chain (insert position node h) (h.previous position) (node ∷ []) position
  unfolding insert
  insert-edges a b = ((ground arith, ground arith), (ground arith, ground arith))

module _ (node : ℕ) (h : Links) where
  remove-next : (q : ℕ) → q ≢ h.previous node → (remove node h).next q ≡ h.next q
  unfolding remove
  remove-next q a = ground arith

  remove-previous :
      (q : ℕ) → node ≢ h.previous node → q ≢ h.next node → (remove node h).previous q ≡ h.previous q
  unfolding remove
  remove-previous q a b = ground arith

  remove-Edge : node ≢ h.previous node → Edge (remove node h) (h.previous node) (h.next node)
  unfolding remove
  remove-Edge a = (ground arith, ground arith)

-- Behind the nodes before a place stands that place.
pub place-Edge :
    (h : Links) (l : ℕ) (xs ys : List ℕ)
    → Chain h l (xs ++ ys) l
    → Edge h (last_of l xs) (first_or ys l)
place-Edge h l xs ys c = last-Edge h l xs (first_or ys l) (before_place h l xs ys l c)

pub last_In : (l : ℕ) (xs ys : List ℕ) → In (last_of l xs) (l ∷ (xs ++ ys))
last_In l xs ys = In-left (last_of l xs) (l ∷ xs) ys (last-In l xs)

pub first_In : (l : ℕ) (xs ys : List ℕ) → In (first_or ys l) (l ∷ (xs ++ ys))
first_In l xs [] = inl refl
first_In l xs (y ∷ ys) = inr (In-right y xs (y ∷ ys) (inl refl))

outside : (p q : ℕ) (xs : List ℕ) → (In p xs → ⊥) → In q xs → q ≢ p
outside p q xs n i e = n (In-eq p q xs (sym e) i)

Distinct-insert :
    (n : ℕ) (xs ys : List ℕ)
    → Distinct (xs ++ ys)
    → (In n (xs ++ ys) → ⊥)
    → Distinct (xs ++ (n ∷ ys))
Distinct-insert n xs ys d f =
    Distinct-append xs (n ∷ ys) (Distinct-left xs ys d)
      (λ i. f (In-right n xs ys i), Distinct-right xs ys d)
      (λ q i j. elim j [
        | inl e ↦ f (In-left n xs ys (In-eq n q xs (sym e) i))
        | inr k ↦ Distinct-apart xs ys q q d i k refl
      ])

pub Distinct-remove : (xs seg ys : List ℕ) → Distinct (xs ++ (seg ++ ys)) → Distinct (xs ++ ys)
Distinct-remove xs seg ys d =
    Distinct-append xs ys (Distinct-left xs (seg ++ ys) d)
      (Distinct-right seg ys (Distinct-right xs (seg ++ ys) d))
      (λ q i j. Distinct-apart xs (seg ++ ys) q q d i (In-right q seg ys j) refl)

-- `enet_list_insert` puts a new node in front of a place: in front of `ys`, or of the sentinel.
pub insert-Holds :
    (h : Links) (l node : ℕ) (xs ys : List ℕ)
    → Holds h l (xs ++ ys)
    → (In node (l ∷ (xs ++ ys)) → ⊥)
    → Holds (insert (first_or ys l) node h) l (xs ++ (node ∷ ys))
insert-Holds h l node xs ys r fresh =
    let place = first_or ys l in
    let e = (place-Edge h l xs ys r.ring).1 in
    let at_place = outside node place (l ∷ (xs ++ ys)) fresh (first_In l xs ys) in
    let at_last = outside node (last_of l xs) (l ∷ (xs ++ ys)) fresh (last_In l xs ys) in
    record {
      ring =
          splice h (insert place node h) l xs [] (node ∷ []) ys (r.ring) (r.distinct)
            (λ q i n.
              insert-next place node h q (outside node q (l ∷ (xs ++ ys)) fresh i) (λ w. n (w ∙ e)))
            (λ q i n. insert-previous place node h q (outside node q (l ∷ (xs ++ ys)) fresh i) n)
            (rw e at
              (insert-edges place node h (λ w. at_place (sym w)) (λ w. at_last (sym (w ∙ e)))));
      distinct = (
        λ i. elim (In-split l xs (node ∷ ys) i) [
          | inl a ↦ r.distinct.0 (In-left l xs ys a)
          | inr b ↦ elim b [
            | inl w ↦ fresh (inl (sym w))
            | inr k ↦ r.distinct.0 (In-right l xs ys k)
          ]
        ],
        Distinct-insert node xs ys (r.distinct.1) (λ i. fresh (inr i)),
      );
    }

-- `enet_list_remove` takes a node out of its list.
pub remove-Holds :
    (h : Links) (l node : ℕ) (xs ys : List ℕ)
    → Holds h l (xs ++ (node ∷ ys))
    → Holds (remove node h) l (xs ++ ys)
remove-Holds h l node xs ys r =
    let e = (place-Edge h l xs (node ∷ ys) r.ring).1 in
    let after = (Chain-split h l xs node ys l r.ring).1 in
    let f = first_edge h node ys l after in
    let others = Distinct-remove (l ∷ xs) (node ∷ []) ys r.distinct in
    let apart : node ≢ h.previous node = λ w.
      Distinct-apart (l ∷ xs) (node ∷ ys) (last_of l xs) node r.distinct (last-In l xs) (inl refl)
        (sym (w ∙ e)) in
    record {
      ring =
          splice h (remove node h) l xs (node ∷ []) [] ys (r.ring) others
            (λ q i n. remove-next node h q (λ w. n (w ∙ e)))
            (λ q i n. remove-previous node h q apart (λ w. n (w ∙ f)))
            (rw (e, f) at (remove-Edge node h apart));
      distinct = others;
    }

-- `enet_list_clear` makes an empty list.
pub clear-Holds : (h : Links) (l : ℕ) → Holds (clear l h) l []
unfolding clear
clear-Holds h l = record { ring = (ground arith, ground arith); distinct = (λ i. i, tt) }

size_from_lem :
    (fuel a n : ℕ) (h : Links) (l : ℕ) (xs : List ℕ)
    → Chain h a xs l
    → (In l xs → ⊥)
    → length xs < fuel
    → size_from fuel l (h.next a) h n ≡ some (n + length xs)
unfolding size_from
size_from_lem zero a n h l xs c d lt = absurd (omega (arith, lt))
size_from_lem (suc fuel) a n h l [] c d lt =
    let here : (h.next a == l) ≡ true = ground (arith, c.0) in rw here (ap some (omega arith))
size_from_lem (suc fuel) a n h l (x ∷ xs) c d lt =
    let apart : x ≢ l = λ w. d (inl (sym w)) in
    let there : (h.next a == l) ≡ false = ground (arith, c.0.0, apart) in
    let rest : size_from fuel l (h.next x) h (n + 1) ≡ some (n + 1 + length xs) =
      size_from_lem fuel x (n + 1) h l xs (c.1) (λ i. d (inr i)) (omega (arith, lt)) in
    rw there (rw (c.0.0) (rest ∙ ap some (omega arith)))

-- `enet_list_size` ends within one round more than there are nodes, with their number.
pub list_size_lem :
    (fuel : ℕ) (h : Links) (l : ℕ) (xs : List ℕ)
    → Holds h l xs
    → length xs < fuel
    → list_size fuel l h ≡ some (length xs)
unfolding list_size
list_size_lem fuel h l xs r lt =
    size_from_lem fuel l 0 h l xs r.ring r.distinct.0 lt ∙ ap some (omega arith)
