-- ===== src/LinkedList/Order.antt =====
-- Walking along a list: its size, and insertion in order.
use tweaking_pintos.Prelude.{
  ℕ, zero, suc, ◌<◌, ◌≡◌, ◌≢◌, refl, sym, ap, ◌∙◌, subst, Bool, true, false, ◌||◌, some, List, [],
  ◌∷◌, ◌++◌, arith, elem, elem-append, ◌==◌, ◌!=◌, if◌then◌else◌, append_assoc, length, Bool-cases,
  inl, inr,
}
use tweaking_pintos.LinkedList.{
  Links, null, is_head, is_interior, list_tail, list_next, count_from, list_size,
}
use tweaking_pintos.LinkedList.Sort.{find_greater, list_insert_ordered}
use tweaking_pintos.LinkedList.Linked.{last, Linked-split, elem-last, Distinct-split}
use tweaking_pintos.LinkedList.Rows.{IsRow, KeepsOthers, node-ne_null}
use tweaking_pintos.LinkedList.Ends.{
  IsList, nodes, first, behind, first-behind, list_begin-first, list_insert-IsList,
}

-- From an element to the next, or to the end.
pub list_next-first :
    {s : Links} {list : ℕ} (ys : List ℕ) (x : ℕ) (zs : List ℕ)
    → IsList s list (ys ++ (x ∷ zs))
    → list_next x s ≡ some (first zs (list_tail list))
unfolding list_next
list_next-first {s} {list} ys x zs h =
    let t : ℕ = list_tail list in
    let same : (ys ++ (x ∷ zs)) ++ (t ∷ []) ≡ ys ++ (x ∷ (first zs t ∷ behind zs t)) =
      append_assoc ys (x ∷ zs) (t ∷ []) ∙ ap (λ l. ys ++ (x ∷ l)) (first-behind zs t) in
    let row : IsRow s list (ys ++ (x ∷ (first zs t ∷ behind zs t))) = subst (IsRow s list) same h in
    let (l, (n, p, (n', p', r))) =
      Linked-split s list ys (x ∷ (first zs t ∷ behind zs t)) row.linked in
    let here : (q : ℕ)
        → elem q (list ∷ (ys ++ (x ∷ (first zs t ∷ behind zs t)))) ≡ true
        → q ≢ null =
      λ q m. node-ne_null q (list ∷ (ys ++ (x ∷ (first zs t ∷ behind zs t)))) m row.present in
    let a : x ≢ null = here x (ground (arith, elem-append x ys (x ∷ (first zs t ∷ behind zs t)))) in
    let b : last list ys ≢ null = here (last list ys) (
      ground (
        arith,
        elem-last list ys,
        elem-append (last list ys) ys (x ∷ (first zs t ∷ behind zs t)),
      )) in
    let c : first zs t ≢ null =
      here (first zs t)
        (ground (arith, elem-append (first zs t) ys (x ∷ (first zs t ∷ behind zs t)))) in
    let inner : (is_head x s || is_interior x s) ≡ true = ground (arith, a, b, c, p, n') in
    rw (inner, n')

-- No element is the tail.
element-ne_tail :
    {s : Links} {list : ℕ} (ys : List ℕ) (x : ℕ) (zs : List ℕ)
    → IsList s list (ys ++ (x ∷ zs))
    → (x == list_tail list) ≡ false
element-ne_tail {list} ys x zs h =
    let parts = Distinct-split (list ∷ (ys ++ (x ∷ zs))) (list_tail list ∷ []) h.distinct in
    ground (arith, parts.no_both x (ground (arith, elem-append x ys (x ∷ zs))))

-- One element further.
further :
    {s : Links} {list : ℕ} (ys : List ℕ) (x : ℕ) (zs : List ℕ)
    → IsList s list (ys ++ (x ∷ zs))
    → IsList s list ((ys ++ (x ∷ [])) ++ zs)
further {s} {list} ys x zs h = subst (IsList s list) (sym (append_assoc ys (x ∷ []) zs)) h

count_from-length :
    {s : Links} {list : ℕ} (fuel : ℕ) (ys xs : List ℕ)
    → IsList s list (ys ++ xs)
    → length xs < fuel
    → count_from fuel (first xs (list_tail list)) (list_tail list) s ≡ some (length xs)
unfolding count_from
count_from-length zero ys xs h f = absurd (omega arith)
count_from-length (suc fuel) ys [] h f = ground arith
count_from-length (suc fuel) ys (x ∷ xs) h f =
    rw (element-ne_tail ys x xs h, list_next-first ys x xs h)
      (rw (count_from-length fuel (ys ++ (x ∷ [])) xs (further ys x xs h) (omega arith)))

-- With more fuel than elements, list_size() returns the number of elements.
pub list_size-length :
    (fuel : ℕ) {s : Links} {list : ℕ} (xs : List ℕ)
    → IsList s list xs
    → length xs < fuel
    → list_size fuel list s ≡ some (length xs)
unfolding list_size
list_size-length fuel {s} {list} xs h f =
    rw (list_begin-first s list xs h) (count_from-length fuel [] xs h f)

module _ (less : ℕ → ℕ → Bool) where
  -- The elements before the first one greater than `e`, and from it on.
  abbrev pub lesser : ℕ → List ℕ → List ℕ
  lesser e [] = []
  lesser e (x ∷ xs) = if less e x then [] else x ∷ lesser e xs

  abbrev pub greater : ℕ → List ℕ → List ℕ
  greater e [] = []
  greater e (x ∷ xs) = if less e x then x ∷ xs else greater e xs

  lesser-greater : (e : ℕ) (xs : List ℕ) → lesser e xs ++ greater e xs ≡ xs
  lesser-greater e [] = refl
  lesser-greater e (x ∷ xs) = elim (Bool-cases (less e x)) [
    | inl l ↦ rw l
    | inr g ↦ rw g (ap (λ l. x ∷ l) (lesser-greater e xs))
  ]

  -- No element is less than the one before it.
  abbrev pub SortedFrom : ℕ → List ℕ → Type 0
  SortedFrom a [] = Unit
  SortedFrom a (x ∷ xs) = (less x a ≡ false) × SortedFrom x xs

  abbrev pub IsSorted : List ℕ → Type 0
  IsSorted [] = Unit
  IsSorted (x ∷ xs) = SortedFrom x xs

  SortedFrom-insert :
      ((a b : ℕ) → less a b ≡ true → less b a ≡ false)
      → (e a : ℕ) (xs : List ℕ) → less e a ≡ false
      → SortedFrom a xs
      → SortedFrom a (lesser e xs ++ (e ∷ greater e xs))
  SortedFrom-insert asym e a [] h d = (h, tt)
  SortedFrom-insert asym e a (x ∷ xs) h (le, d) = elim (Bool-cases (less e x)) [
    | inl l ↦ rw l (h, (asym e x l, d))
    | inr g ↦ rw g (le, SortedFrom-insert asym e x xs g d)
  ]

  IsSorted-insert :
      ((a b : ℕ) → less a b ≡ true → less b a ≡ false)
      → (e : ℕ) (xs : List ℕ) → IsSorted xs
      → IsSorted (lesser e xs ++ (e ∷ greater e xs))
  IsSorted-insert asym e [] d = tt
  IsSorted-insert asym e (x ∷ xs) d = elim (Bool-cases (less e x)) [
    | inl l ↦ rw l (asym e x l, d)
    | inr g ↦ rw g (SortedFrom-insert asym e x xs g d)
  ]

  find_greater-first :
      {s : Links} {list : ℕ} (fuel : ℕ) (e : ℕ) (ys xs : List ℕ)
      → IsList s list (ys ++ xs)
      → length xs < fuel
      → find_greater less fuel (first xs (list_tail list)) (list_tail list) e s
        ≡ some (first (greater e xs) (list_tail list))
  unfolding find_greater
  find_greater-first zero e ys xs h f = absurd (omega arith)
  find_greater-first (suc fuel) e ys [] h f = ground arith
  find_greater-first (suc fuel) e ys (x ∷ xs) h f = elim (Bool-cases (less e x)) [
    | inl l ↦ rw (element-ne_tail ys x xs h, l)
    | inr g ↦
        rw (element-ne_tail ys x xs h, g, list_next-first ys x xs h)
          (find_greater-first fuel e (ys ++ (x ∷ [])) xs (further ys x xs h) (omega arith))
  ]

  -- For an address that is not in the list, and more fuel than elements, list_insert_ordered() puts
  -- it before the first element greater than it and keeps the rest of the list, and all addresses
  -- outside it, as they are; for an asymmetric order a sorted list stays sorted.
  pub list_insert_ordered-IsSorted :
      (fuel : ℕ) {s : Links} {list : ℕ} (xs : List ℕ) (e : ℕ)
      → IsList s list xs
      → e ≢ null
      → elem e (nodes list xs) ≡ false
      → length xs < fuel
      → (s' : Links) × (list_insert_ordered less fuel list e s ≡ some s')
        × IsList s' list (lesser e xs ++ (e ∷ greater e xs))
        × KeepsOthers s s' (nodes list xs) e
        × (((a b : ℕ) → less a b ≡ true → less b a ≡ false)
            → IsSorted xs
            → IsSorted (lesser e xs ++ (e ∷ greater e xs)))
  unfolding list_insert_ordered
  list_insert_ordered-IsSorted fuel {s} {list} xs e h ne new f =
      let whole : lesser e xs ++ greater e xs ≡ xs = lesser-greater e xs in
      let some_e : (e != null) ≡ true = ground (arith, ne) in
      let (s', r, l, k) =
        list_insert-IsList (lesser e xs) (greater e xs) e (subst (IsList s list) (sym whole) h) ne
          (subst (λ l. elem e (nodes list l) ≡ false) (sym whole) new) in
      (
        s',
        rw (some_e, list_begin-first s list xs h, find_greater-first fuel e [] xs h f) r,
        l,
        subst (λ l. KeepsOthers s s' (nodes list l) e) whole k,
        λ asym sorted. IsSorted-insert asym e xs sorted,
      )
