-- ===== src/LinkedList/Linked.antt =====
-- Nodes in a row: the two pointers of neighbours point at each other.
use tweaking_pintos.Prelude.{
  ℕ, ◌≡◌, refl, sym, ap, ◌∙◌, true, false, ◌||◌, List, [], ◌∷◌, ◌++◌, arith, elem, Distinct,
  elem-append, ◌==◌, Bool-cases, inl, inr, ==_iff,
}
use tweaking_pintos.LinkedList.{Links}

-- From `a` on, the nodes of the list follow each other.
abbrev pub Linked : Links → ℕ → List ℕ → Type 0
Linked s a [] = Unit
Linked s a (x ∷ xs) = (s.next a ≡ x) × (s.prev x ≡ a) × Linked s x xs

-- The last node, and the nodes that have a successor.
abbrev pub last : ℕ → List ℕ → ℕ
last a [] = a
last a (x ∷ xs) = last x xs

abbrev pub sources : ℕ → List ℕ → List ℕ
sources a [] = []
sources a (x ∷ xs) = a ∷ sources x xs

pub Linked-append :
    (s : Links) (a : ℕ) (xs ys : List ℕ)
    → Linked s a xs
    → Linked s (last a xs) ys
    → Linked s a (xs ++ ys)
Linked-append s a [] ys h k = k
Linked-append s a (x ∷ xs) ys (n, p, h) k = (n, p, Linked-append s x xs ys h k)

pub Linked-split :
    (s : Links) (a : ℕ) (xs ys : List ℕ)
    → Linked s a (xs ++ ys)
    → Linked s a xs × Linked s (last a xs) ys
Linked-split s a [] ys h = (tt, h)
Linked-split s a (x ∷ xs) ys (n, p, h) = let (l, r) = Linked-split s x xs ys h in ((n, p, l), r)

pub last-append : (a : ℕ) (xs : List ℕ) (y : ℕ) (ys : List ℕ) → last a (xs ++ (y ∷ ys)) ≡ last y ys
last-append a [] y ys = refl
last-append a (x ∷ xs) y ys = last-append x xs y ys

-- A row depends on the successors of its sources and the predecessors of the rest.
pub Linked-frame :
    (s s' : Links) (a : ℕ) (xs : List ℕ)
    → ((q : ℕ) → elem q (sources a xs) ≡ true → s'.next q ≡ s.next q)
    → ((q : ℕ) → elem q xs ≡ true → s'.prev q ≡ s.prev q)
    → Linked s a xs
    → Linked s' a xs
Linked-frame s s' a [] n p h = tt
Linked-frame s s' a (x ∷ xs) n p (hn, hp, h) = (
  n a (ground arith) ∙ hn,
  p x (ground arith) ∙ hp,
  Linked-frame s s' x xs (λ q e. n q (ground (arith, e))) (λ q e. p q (ground (arith, e))) h,
)

-- Sources are nodes, and in distinct nodes the last one is no source.
pub elem-sources : (q a : ℕ) (xs : List ℕ) → elem q (sources a xs) ≡ true → elem q (a ∷ xs) ≡ true
elem-sources q a [] h = absurd (ground (arith, h))
elem-sources q a (x ∷ xs) h = ground (arith, h, elem-sources q x xs)

pub elem-last : (a : ℕ) (xs : List ℕ) → elem (last a xs) (a ∷ xs) ≡ true
elem-last a [] = ground arith
elem-last a (x ∷ xs) = ground (arith, elem-last x xs)

elem-eq : (p q : ℕ) (l : List ℕ) → (p == q) ≡ true → elem p l ≡ elem q l
elem-eq p q l e = ap (λ a. elem a l) ((==_iff p q).0 e)

pub last-source :
    (a : ℕ) (xs : List ℕ) → Distinct (a ∷ xs) → elem (last a xs) (sources a xs) ≡ false
last-source a [] d = refl
last-source a (x ∷ xs) d = elim (Bool-cases (last x xs == a)) [
  | inl same ↦ absurd (ground (arith, elem-last x xs, elem-eq (last x xs) a (x ∷ xs) same, d.0))
  | inr other ↦ ground (arith, other, last-source x xs d.1)
]

-- Two parts of a row of distinct nodes.
pub record Apart (xs ys : List ℕ) : Type 0 where
  pub left : Distinct xs
  pub right : Distinct ys
  pub no_both : (q : ℕ) → elem q xs ≡ true → elem q ys ≡ false

pub Distinct-split : (xs ys : List ℕ) → Distinct (xs ++ ys) → Apart xs ys
Distinct-split [] ys d = record {
  left = tt;
  right = d;
  no_both = λ q h. absurd (ground (arith, h));
}
Distinct-split (x ∷ xs) ys d =
    let rest = Distinct-split xs ys d.1 in
    let out : (elem x xs || elem x ys) ≡ false = sym (elem-append x xs ys) ∙ d.0 in
    record {
      left = (ground (arith, out), rest.left);
      right = rest.right;
      no_both = λ q h. elim (Bool-cases (q == x)) [
        | inl same ↦ elem-eq q x ys same ∙ ground (arith, out)
        | inr other ↦ rest.no_both q (ground (arith, h, other))
      ];
    }

pub Distinct-join : (xs ys : List ℕ) → Apart xs ys → Distinct (xs ++ ys)
Distinct-join [] ys a = a.right
Distinct-join (x ∷ xs) ys a = (
  elem-append x xs ys ∙ ground (arith, a.left, a.no_both x (ground arith)),
  Distinct-join xs ys (record {
    left = a.left.1;
    right = a.right;
    no_both = λ q h. a.no_both q (ground (arith, h));
  }),
)
