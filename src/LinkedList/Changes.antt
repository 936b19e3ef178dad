-- ===== src/LinkedList/Changes.antt =====
-- list_insert() and list_remove() on a list anywhere.
use tweaking_pintos.Prelude.{
  ℕ, ◌≡◌, ◌≢◌, ap, true, false, ◌||◌, some, List, ◌∷◌, ◌++◌, arith, elem, Distinct, elem-append,
  ◌==◌, ◌!=◌, Bool-cases, inl, inr, ==_iff,
}
use tweaking_pintos.LinkedList.{Links, null, upd, is_interior, is_tail, list_insert}
use tweaking_pintos.LinkedList.Linked.{
  Linked, last, sources, Linked-append, Linked-split, Linked-frame, elem-sources, elem-last,
  last-source, Apart, Distinct-split,
}

pub differs : (p q : ℕ) (l : List ℕ) → elem p l ≡ true → elem q l ≡ false → (p == q) ≡ false
differs p q l h k = elim (Bool-cases (p == q)) [
  | inl same ↦ absurd (ground (arith, h, k, ap (λ a. elem a l) ((==_iff p q).0 same)))
  | inr other ↦ other
]

-- `e` between the last of `a ∷ ys` and `n`.
abbrev pub inserted : Links → (a : ℕ) (ys : List ℕ) (n e : ℕ) → Links
inserted s a ys n e = record {
  prev = upd (upd s.prev e (last a ys)) n e;
  next = upd (upd s.next e n) (last a ys) e;
}

module _ (s : Links) (a : ℕ) (ys : List ℕ) (n : ℕ) (rest : List ℕ)
    (d : Distinct (a ∷ (ys ++ (n ∷ rest)))) (row : Linked s a (ys ++ (n ∷ rest))) where
  apart : Apart (a ∷ ys) (n ∷ rest)
  apart = Distinct-split (a ∷ ys) (n ∷ rest) d

  left_row : Linked s a ys
  left_row = (Linked-split s a ys (n ∷ rest) row).0

  pub link : (s.next (last a ys) ≡ n) × (s.prev n ≡ last a ys)
  link = let (l, (x, y, r)) = Linked-split s a ys (n ∷ rest) row in (x, y)

  right_row : Linked s n rest
  right_row = let (l, (x, y, r)) = Linked-split s a ys (n ∷ rest) row in r

  last-left : elem (last a ys) (n ∷ rest) ≡ false
  last-left = apart.no_both (last a ys) (elem-last a ys)

  pub last-ne : (last a ys == n) ≡ false
  last-ne = ground (arith, last-left)

  module _ (e : ℕ) (new : elem e (a ∷ (ys ++ (n ∷ rest))) ≡ false) where
    new_left : elem e (a ∷ ys) ≡ false
    new_left = ground (arith, new, elem-append e ys (n ∷ rest))

    new_right : elem e (n ∷ rest) ≡ false
    new_right = ground (arith, new, elem-append e ys (n ∷ rest))

    new-last : (e == last a ys) ≡ false
    new-last = ground (arith, differs (last a ys) e (a ∷ ys) (elem-last a ys) new_left)

    pub Linked-inserted : Linked (inserted s a ys n e) a (ys ++ (e ∷ (n ∷ rest)))
    Linked-inserted =
        Linked-append (inserted s a ys n e) a ys (e ∷ (n ∷ rest))
          (Linked-frame s (inserted s a ys n e) a ys
            (λ q h. ground (
              arith,
              differs q (last a ys) (sources a ys) h (last-source a ys apart.left),
              differs q e (a ∷ ys) (elem-sources q a ys h) new_left,
            ))
            (λ q h. ground (
              arith,
              apart.no_both q (ground (arith, h)),
              differs q e (a ∷ ys) (ground (arith, h)) new_left,
            ))
            left_row)
          (
            ground arith,
            ground (arith, new_right),
            (
              ground (arith, new-last),
              ground arith,
              Linked-frame s (inserted s a ys n e) n rest
                  (λ q h. ground (
                    arith,
                    differs q (last a ys) (n ∷ rest) (elem-sources q n rest h) last-left,
                    differs q e (n ∷ rest) (elem-sources q n rest h) new_right,
                  ))
                  (λ q h. ground (
                    arith,
                    differs q n rest h apart.right.0,
                    differs q e (n ∷ rest) (ground (arith, h)) new_right,
                  ))
                  right_row,
            ),
          )

    pub list_insert-inserted :
        n ≢ null → last a ys ≢ null → e ≢ null → list_insert n e s ≡ some (inserted s a ys n e)
    unfolding list_insert
    list_insert-inserted nn np ne =
        let an : (n != null) ≡ true = ground (arith, nn) in
        let ap' : (last a ys != null) ≡ true = ground (arith, np) in
        let ae : (e != null) ≡ true = ground (arith, ne) in
        let en : (e == n) ≡ false = ground (arith, new_right) in
        let valid : (is_interior n s || is_tail n s) ≡ true = ground (arith, nn, np, link.1) in
        rw (valid, ae, en, link.1)
