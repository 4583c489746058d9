-- ===== src/Links/Rings.antt =====
-- Rings of nodes: which lists of addresses they stand for, and how a change of a few links carries a
-- chain over.
use enet.Base.{
  ℕ, ◌≡◌, ◌≢◌, ◌∙◌, ◌⊎◌, inl, inr, refl, sym, List, [], ◌∷◌, ◌++◌, append-nil, append_assoc,
}
use enet.Links.{Links}

-- The node `u` is in front of `v`.
abbrev pub Edge : Links → ℕ → ℕ → Type 0
Edge h u v = (h.next u ≡ v) × (h.previous v ≡ u)

-- From `a` the links lead through the nodes `xs` to `b`, and back.
abbrev pub Chain : Links → ℕ → List ℕ → ℕ → Type 0
Chain h a [] b = Edge h a b
Chain h a (x ∷ xs) b = Edge h a x × Chain h x xs b

abbrev pub In : ℕ → List ℕ → Type 0
In q [] = ⊥
In q (x ∷ xs) = (q ≡ x) ⊎ In q xs

abbrev pub Distinct : List ℕ → Type 0
Distinct [] = Unit {0}
Distinct (x ∷ xs) = (In x xs → ⊥) × Distinct xs

-- The list at `list` holds these nodes.
pub record Holds (h : Links) (list : ℕ) (xs : List ℕ) : Type 0 where
  pub ring : Chain h list xs list
  pub distinct : Distinct (list ∷ xs)

abbrev pub first_or : List ℕ → ℕ → ℕ
first_or [] b = b
first_or (y ∷ ys) b = y

abbrev pub last_of : ℕ → List ℕ → ℕ
last_of a [] = a
last_of a (x ∷ xs) = last_of x xs

-- All but the last.
abbrev pub front : ℕ → List ℕ → List ℕ
front a [] = []
front a (x ∷ xs) = a ∷ front x xs

pub In-left : (q : ℕ) (xs ys : List ℕ) → In q xs → In q (xs ++ ys)
In-left q [] ys h = absurd h
In-left q (x ∷ xs) ys (inl e) = inl e
In-left q (x ∷ xs) ys (inr h) = inr (In-left q xs ys h)

pub In-right : (q : ℕ) (xs ys : List ℕ) → In q ys → In q (xs ++ ys)
In-right q [] ys h = h
In-right q (x ∷ xs) ys h = inr (In-right q xs ys h)

pub In-split : (q : ℕ) (xs ys : List ℕ) → In q (xs ++ ys) → In q xs ⊎ In q ys
In-split q [] ys h = inr h
In-split q (x ∷ xs) ys (inl e) = inl (inl e)
In-split q (x ∷ xs) ys (inr h) = elim (In-split q xs ys h) [ inl l ↦ inl (inr l) | inr r ↦ inr r ]

pub In-eq : (p q : ℕ) (xs : List ℕ) → p ≡ q → In q xs → In p xs
In-eq p q [] e h = h
In-eq p q (x ∷ xs) e (inl f) = inl (e ∙ f)
In-eq p q (x ∷ xs) e (inr h) = inr (In-eq p q xs e h)

pub Distinct-left : (xs ys : List ℕ) → Distinct (xs ++ ys) → Distinct xs
Distinct-left [] ys d = tt
Distinct-left (x ∷ xs) ys d = (λ i. d.0 (In-left x xs ys i), Distinct-left xs ys (d.1))

pub Distinct-right : (xs ys : List ℕ) → Distinct (xs ++ ys) → Distinct ys
Distinct-right [] ys d = d
Distinct-right (x ∷ xs) ys d = Distinct-right xs ys (d.1)

-- No node on both sides.
pub Distinct-apart : (xs ys : List ℕ) (p q : ℕ) → Distinct (xs ++ ys) → In p xs → In q ys → p ≢ q
Distinct-apart [] ys p q d i j e = i
Distinct-apart (x ∷ xs) ys p q d (inl f) j e =
    d.0 (In-eq x q (xs ++ ys) (sym f ∙ e) (In-right q xs ys j))
Distinct-apart (x ∷ xs) ys p q d (inr i) j e = Distinct-apart xs ys p q (d.1) i j e

pub last-In : (a : ℕ) (xs : List ℕ) → In (last_of a xs) (a ∷ xs)
last-In a [] = inl refl
last-In a (x ∷ xs) = inr (last-In x xs)

pub front-In : (q a : ℕ) (xs : List ℕ) → In q (front a xs) → In q (a ∷ xs)
front-In q a [] h = absurd h
front-In q a (x ∷ xs) (inl e) = inl e
front-In q a (x ∷ xs) (inr h) = inr (front-In q x xs h)

pub front-ne-last :
    (q a : ℕ) (xs : List ℕ) → Distinct (a ∷ xs) → In q (front a xs) → q ≢ last_of a xs
front-ne-last q a [] d h e = h
front-ne-last q a (x ∷ xs) d (inl f) e =
    d.0 (In-eq a (last_of x xs) (x ∷ xs) (sym f ∙ e) (last-In x xs))
front-ne-last q a (x ∷ xs) d (inr h) e = front-ne-last q x xs (d.1) h e

pub last-Edge : (h : Links) (a : ℕ) (xs : List ℕ) (b : ℕ) → Chain h a xs b → Edge h (last_of a xs) b
last-Edge h a [] b c = c
last-Edge h a (x ∷ xs) b c = last-Edge h x xs b (c.1)

pub Chain-append :
    (h : Links) (a : ℕ) (xs : List ℕ) (m : ℕ) (ys : List ℕ) (b : ℕ)
    → Chain h a xs m
    → Chain h m ys b
    → Chain h a (xs ++ (m ∷ ys)) b
Chain-append h a [] m ys b c d = (c, d)
Chain-append h a (x ∷ xs) m ys b c d = (c.0, Chain-append h x xs m ys b (c.1) d)

pub Chain-split :
    (h : Links) (a : ℕ) (xs : List ℕ) (m : ℕ) (ys : List ℕ) (b : ℕ)
    → Chain h a (xs ++ (m ∷ ys)) b
    → Chain h a xs m × Chain h m ys b
Chain-split h a [] m ys b c = (c.0, c.1)
Chain-split h a (x ∷ xs) m ys b c = let (d, e) = Chain-split h x xs m ys b (c.1) in ((c.0, d), e)

pub Distinct-append :
    (xs ys : List ℕ)
    → Distinct xs
    → Distinct ys
    → ((q : ℕ) → In q xs → In q ys → ⊥)
    → Distinct (xs ++ ys)
Distinct-append [] ys d e f = e
Distinct-append (x ∷ xs) ys d e f = (
  λ i. elim (In-split x xs ys i) [ inl a ↦ d.0 a | inr b ↦ f x (inl refl) b ],
  Distinct-append xs ys (d.1) e (λ q a b. f q (inr a) b),
)

-- A chain is carried over by a change that spares its links, and goes on with another.
pub Chain-carry :
    (h h' : Links) (a : ℕ) (xs : List ℕ) (b : ℕ) (zs : List ℕ) (c : ℕ)
    → Chain h a xs b
    → ((q : ℕ) → In q (front a xs) → h'.next q ≡ h.next q)
    → ((q : ℕ) → In q xs → h'.previous q ≡ h.previous q)
    → Chain h' (last_of a xs) zs c
    → Chain h' a (xs ++ zs) c
Chain-carry h h' a [] b zs c k f g e = e
Chain-carry h h' a (x ∷ xs) b zs c k f g e = (
  (f a (inl refl) ∙ k.0.0, g x (inl refl) ∙ k.0.1),
  Chain-carry h h' x xs b zs c (k.1) (λ q i. f q (inr i)) (λ q i. g q (inr i)) e,
)

-- The part of a chain before a place leads to that place.
pub before_place :
    (h : Links) (a : ℕ) (xs ys : List ℕ) (b : ℕ)
    → Chain h a (xs ++ ys) b
    → Chain h a xs (first_or ys b)
before_place h a xs [] b c = rw (append-nil xs) at c
before_place h a xs (y ∷ ys) b c = (Chain-split h a xs y ys b c).0

pub first_edge :
    (h : Links) (a : ℕ) (xs : List ℕ) (b : ℕ) → Chain h a xs b → h.next a ≡ first_or xs b
first_edge h a [] b c = c.0
first_edge h a (x ∷ xs) b c = c.0.0

-- The links after a part of a ring that is cut out or put in.
join :
    (h h' : Links) (l p : ℕ) (xs mid ys : List ℕ)
    → Chain h l (xs ++ ys) l
    → ((q : ℕ) → In q ys → h'.next q ≡ h.next q)
    → ((q : ℕ) → In q (l ∷ ys) → q ≢ first_or ys l → h'.previous q ≡ h.previous q)
    → Distinct (l ∷ ys)
    → Chain h' p mid (first_or ys l)
    → Chain h' p (mid ++ ys) l
join h h' l p xs mid [] c f g d e = rw (append-nil mid) e
join h h' l p xs mid (y ∷ ys) c f g d e =
    let k = (Chain-split h l xs y ys l c).1 in
    let last = last-Edge h y ys l k in
    let kept : Chain h' y ys l = rw (append-nil ys) at (
      Chain-carry h h' y ys l [] l k (λ q i. f q (front-In q y ys i))
        (λ q i. g q (inr (inr i)) (λ w. d.1.0 (In-eq y q ys (sym w) i)))
        (f (last_of y ys) (last-In y ys) ∙ last.0, g l (inl refl) (λ w. d.0 (inl w)) ∙ last.1)) in
    Chain-append h' p mid y ys l e kept

-- Nodes of a ring are replaced by others, if the change spares the links on both sides.
pub splice :
    (h h' : Links) (l : ℕ) (xs seg mid ys : List ℕ)
    → Chain h l (xs ++ (seg ++ ys)) l
    → Distinct (l ∷ (xs ++ ys))
    → ((q : ℕ) → In q (l ∷ (xs ++ ys)) → q ≢ last_of l xs → h'.next q ≡ h.next q)
    → ((q : ℕ) → In q (l ∷ (xs ++ ys)) → q ≢ first_or ys l → h'.previous q ≡ h.previous q)
    → Chain h' (last_of l xs) mid (first_or ys l)
    → Chain h' l (xs ++ (mid ++ ys)) l
splice h h' l xs seg mid ys c d f g e =
    let in_front = λ (q : ℕ) (i : In q (l ∷ xs)). In-left q (l ∷ xs) ys i in
    Chain-carry h h' l xs (first_or (seg ++ ys) l) (mid ++ ys) l
      (before_place h l xs (seg ++ ys) l c)
      (λ q i.
        f q (in_front q (front-In q l xs i)) (front-ne-last q l xs (Distinct-left (l ∷ xs) ys d) i))
      (λ q i. g q (in_front q (inr i)) (first_apart l xs ys q d i))
      (join h h' l (last_of l xs) (xs ++ seg) mid ys (rw (append_assoc xs seg ys) c)
        (λ q i.
          f q (inr (In-right q xs ys i))
            (λ w. Distinct-apart (l ∷ xs) ys (last_of l xs) q d (last-In l xs) i (sym w)))
        (λ q i n. g q (tail_In l xs ys q i) n) (tail_Distinct l xs ys d) e)
  where
    first_apart :
        (l : ℕ) (xs ys : List ℕ) (q : ℕ) → Distinct (l ∷ (xs ++ ys)) → In q xs → q ≢ first_or ys l
    first_apart l xs [] q d i w = d.0 (In-eq l q (xs ++ []) (sym w) (In-left q xs [] i))
    first_apart l xs (y ∷ ys) q d i w = Distinct-apart xs (y ∷ ys) q y (d.1) i (inl refl) w

    tail_In : (l : ℕ) (xs ys : List ℕ) (q : ℕ) → In q (l ∷ ys) → In q (l ∷ (xs ++ ys))
    tail_In l xs ys q (inl e) = inl e
    tail_In l xs ys q (inr i) = inr (In-right q xs ys i)

    tail_Distinct : (l : ℕ) (xs ys : List ℕ) → Distinct (l ∷ (xs ++ ys)) → Distinct (l ∷ ys)
    tail_Distinct l xs ys d = (λ i. d.0 (In-right l xs ys i), Distinct-right xs ys (d.1))
