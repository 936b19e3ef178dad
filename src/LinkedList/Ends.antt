-- ===== src/LinkedList/Ends.antt =====
-- The operations on a list as a sequence of addresses.
use tweaking_pintos.Prelude.{
  ℕ, ◌≡◌, ◌≢◌, refl, sym, ap, ◌∙◌, subst, Bool, true, false, some, List, [], ◌∷◌, ◌++◌, arith, elem,
  elem-append, ◌==◌, ◌!=◌, append_assoc, append-nil,
}
use tweaking_pintos.LinkedList.{
  Links, null, upd, list_tail, list_init, list_begin, list_insert, list_remove, list_push_front,
  list_push_back, list_empty, list_front, list_back, list_pop_front, list_pop_back,
}
use tweaking_pintos.LinkedList.Linked.{last, last-append, Linked-split}
use tweaking_pintos.LinkedList.Rows.{IsRow, KeepsOthers, list_insert-IsRow, list_remove-IsRow}

-- The list at `list` has these elements, in this order.
abbrev pub IsList : Links → (list : ℕ) → List ℕ → Type 0
IsList s list xs = IsRow s list (xs ++ (list_tail list ∷ []))

-- The addresses that belong to the list.
abbrev pub nodes : (list : ℕ) → List ℕ → List ℕ
nodes list xs = list ∷ (xs ++ (list_tail list ∷ []))

-- list_init() makes an empty list, and changes no pointers but those of its two ends.
pub list_init-IsList :
    (list : ℕ) (s : Links)
    → list ≢ null
    → (s' : Links) × (list_init list s ≡ some s')
      × IsList s' list []
      × ((q : ℕ) → elem q (nodes list []) ≡ false → (s'.next q ≡ s.next q) × (s'.prev q ≡ s.prev q))
unfolding list_init
list_init-IsList list s ne =
    let valid : (list != null) ≡ true = ground (arith, ne) in
    let tail : (list == list_tail list) ≡ false = ground arith in
    let tail' : (list_tail list == list) ≡ false = ground arith in
    (
      record {
        prev = upd (upd s.prev list null) (list_tail list) list;
        next = upd (upd s.next list (list_tail list)) (list_tail list) null;
      },
      rw valid,
      record {
        linked = (ground arith, ground arith, tt);
        front = ground arith;
        back = ground arith;
        distinct = (ground arith, (refl, tt));
        present = ground (arith, ne);
      },
      λ q out. (ground (arith, out), ground (arith, out)),
    )

pub list-ne_null : (s : Links) (list : ℕ) (xs : List ℕ) → IsList s list xs → (list != null) ≡ true
list-ne_null s list xs h = ground (arith, h.present)

-- The element, or the end, that comes first.
abbrev pub first : List ℕ → ℕ → ℕ
first [] t = t
first (x ∷ xs) t = x

abbrev pub behind : List ℕ → ℕ → List ℕ
behind [] t = []
behind (x ∷ xs) t = xs ++ (t ∷ [])

pub first-behind : (zs : List ℕ) (t : ℕ) → zs ++ (t ∷ []) ≡ first zs t ∷ behind zs t
first-behind [] t = refl
first-behind (x ∷ xs) t = refl

-- list_insert() before any element of a list, or before its end, of an address that is not in the
-- list and not NULL, puts it there and keeps the order of the rest. The pointers of addresses
-- outside the list are unchanged but for those of the one inserted.
pub list_insert-IsList :
    {s : Links} {list : ℕ} (ys zs : List ℕ) (e : ℕ)
    → IsList s list (ys ++ zs)
    → e ≢ null
    → elem e (nodes list (ys ++ zs)) ≡ false
    → (s' : Links) × (list_insert (first zs (list_tail list)) e s ≡ some s')
      × IsList s' list (ys ++ (e ∷ zs))
      × KeepsOthers s s' (nodes list (ys ++ zs)) e
list_insert-IsList {s} {list} ys zs e h ne new =
    let t : ℕ = list_tail list in
    let same : (ys ++ zs) ++ (t ∷ []) ≡ ys ++ (first zs t ∷ behind zs t) =
      append_assoc ys zs (t ∷ []) ∙ ap (λ l. ys ++ l) (first-behind zs t) in
    let (s', r, row, keeps) =
      list_insert-IsRow ys (first zs t) (behind zs t) (subst (IsRow s list) same h) e ne
        (subst (λ l. elem e (list ∷ l) ≡ false) same new) in
    let back : ys ++ (e ∷ (first zs t ∷ behind zs t)) ≡ (ys ++ (e ∷ zs)) ++ (t ∷ []) =
      ap (λ l. ys ++ (e ∷ l)) (sym (first-behind zs t)) ∙ sym (append_assoc ys (e ∷ zs) (t ∷ [])) in
    (
      s',
      r,
      subst (IsRow s' list) back row,
      subst (λ l. KeepsOthers s s' (list ∷ l) e) (sym same) keeps,
    )

-- list_remove() of any element of a list keeps the others in order and returns the element, or the
-- end, that followed it. The pointers of addresses outside the list are unchanged but for those of
-- the one removed.
pub list_remove-IsList :
    {s : Links} {list : ℕ} (ys : List ℕ) (e : ℕ) (zs : List ℕ)
    → IsList s list (ys ++ (e ∷ zs))
    → (s' : Links) × (list_remove e s ≡ some (first zs (list_tail list), s'))
      × IsList s' list (ys ++ zs)
      × KeepsOthers s s' (nodes list (ys ++ zs)) e
list_remove-IsList {s} {list} ys e zs h =
    let t : ℕ = list_tail list in
    let same : (ys ++ (e ∷ zs)) ++ (t ∷ []) ≡ ys ++ (e ∷ (first zs t ∷ behind zs t)) =
      append_assoc ys (e ∷ zs) (t ∷ []) ∙ ap (λ l. ys ++ (e ∷ l)) (first-behind zs t) in
    let (s', r, row, keeps) =
      list_remove-IsRow ys e (first zs t) (behind zs t) (subst (IsRow s list) same h) in
    let back : ys ++ (first zs t ∷ behind zs t) ≡ (ys ++ zs) ++ (t ∷ []) =
      ap (λ l. ys ++ l) (sym (first-behind zs t)) ∙ sym (append_assoc ys zs (t ∷ [])) in
    (s', r, subst (IsRow s' list) back row, subst (λ l. KeepsOthers s s' (list ∷ l) e) back keeps)

-- What the head of a list points to.
pub head-first :
    (s : Links) (list : ℕ) (xs : List ℕ)
    → IsList s list xs
    → s.next list ≡ first xs (list_tail list)
head-first s list [] h = h.linked.0
head-first s list (x ∷ xs) h = h.linked.0

pub tail-last :
    (s : Links) (list : ℕ) (xs : List ℕ) → IsList s list xs → s.prev (list_tail list) ≡ last list xs
tail-last s list xs h =
    let (l, (n, p, r)) = Linked-split s list xs (list_tail list ∷ []) h.linked in p

pub list_begin-first :
    (s : Links) (list : ℕ) (xs : List ℕ)
    → IsList s list xs
    → list_begin list s ≡ some (first xs (list_tail list))
unfolding list_begin
list_begin-first s list xs h = rw (list-ne_null s list xs h, head-first s list xs h)

-- The first element of a list is no end.
pub first-ne_tail :
    (s : Links) (list x : ℕ) (xs : List ℕ) → IsList s list (x ∷ xs) → (x == list_tail list) ≡ false
first-ne_tail s list x xs h = ground (arith, h.distinct, elem-append x xs (list_tail list ∷ []))

abbrev pub is_nil : List ℕ → Bool
is_nil [] = true
is_nil (x ∷ xs) = false

pub list_empty-is_nil :
    (s : Links) (list : ℕ) (xs : List ℕ) → IsList s list xs → list_empty list s ≡ some (is_nil xs)
unfolding list_empty
list_empty-is_nil s list [] h = rw (list_begin-first s list [] h) (ground arith)
list_empty-is_nil s list (x ∷ xs) h =
    rw (list_begin-first s list (x ∷ xs) h, first-ne_tail s list x xs h)

-- Pushing at the front or at the back of a list an address that is not in it adds it there, and
-- changes the pointers of no address outside the list but the one pushed.
pub list_push_back-IsList :
    (s : Links) (list : ℕ) (xs : List ℕ) (e : ℕ)
    → IsList s list xs
    → e ≢ null
    → elem e (nodes list xs) ≡ false
    → ((s' : Links) × (list_push_front list e s ≡ some s')
        × IsList s' list (e ∷ xs)
        × KeepsOthers s s' (nodes list xs) e)
      × ((s' : Links) × (list_push_back list e s ≡ some s')
          × IsList s' list (xs ++ (e ∷ []))
          × KeepsOthers s s' (nodes list xs) e)
unfolding list_push_front list_push_back
list_push_back-IsList s list xs e h ne new = (
  let (s', r, l, k) = list_insert-IsList [] xs e h ne new in
      (s', rw (list_begin-first s list xs h) r, l, k),
  let whole : xs ++ [] ≡ xs = append-nil xs in
      let (s', r, l, k) =
        list_insert-IsList xs [] e (subst (IsList s list) (sym whole) h) ne
          (subst (λ l. elem e (nodes list l) ≡ false) (sym whole) new) in
      (
        s',
        rw (list-ne_null s list xs h) r,
        l,
        subst (λ l. KeepsOthers s s' (nodes list l) e) whole k,
      ),
)

-- Popping takes the first or the last element off a list that is not empty and returns it; it
-- changes the pointers of no address outside the remaining list but the one popped.
pub list_pop_back-IsList :
    (s : Links) (list x : ℕ) (xs : List ℕ)
    → (IsList s list (x ∷ xs)
        → (s' : Links) × (list_pop_front list s ≡ some (x, s'))
          × IsList s' list xs
          × KeepsOthers s s' (nodes list xs) x)
      × (IsList s list (xs ++ (x ∷ []))
          → (s' : Links) × (list_pop_back list s ≡ some (x, s'))
            × IsList s' list xs
            × KeepsOthers s s' (nodes list xs) x)
unfolding list_pop_front list_pop_back list_front list_back
list_pop_back-IsList s list x xs = (
  λ h.
      let (s', r, l, k) = list_remove-IsList [] x xs h in
      (s', rw (list_empty-is_nil s list (x ∷ xs) h, head-first s list (x ∷ xs) h, r), l, k),
  λ h.
      let whole : xs ++ [] ≡ xs = append-nil xs in
      let (s', r, l, k) = list_remove-IsList xs x [] h in
      let at_last : s.prev (list_tail list) ≡ x =
        tail-last s list (xs ++ (x ∷ [])) h ∙ last-append list xs x [] in
      let full : is_nil (xs ++ (x ∷ [])) ≡ false = not_nil xs x in
      (
        s',
        rw (list_empty-is_nil s list (xs ++ (x ∷ [])) h, full, at_last, r),
        subst (IsList s' list) whole l,
        subst (λ l. KeepsOthers s s' (nodes list l) x) whole k,
      ),
)
  where
    not_nil : (xs : List ℕ) (x : ℕ) → is_nil (xs ++ (x ∷ [])) ≡ false
    not_nil [] x = refl
    not_nil (y ∷ ys) x = refl
