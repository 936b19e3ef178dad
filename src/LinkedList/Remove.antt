-- ===== src/LinkedList/Remove.antt =====
-- list_remove() on a list anywhere.
use tweaking_pintos.Prelude.{
  ℕ, ◌≡◌, ◌≢◌, true, false, some, List, ◌∷◌, ◌++◌, arith, elem, Distinct, ◌==◌,
}
use tweaking_pintos.LinkedList.{Links, null, upd, is_interior, list_remove}
use tweaking_pintos.LinkedList.Linked.{
  Linked, last, sources, Linked-append, Linked-split, Linked-frame, elem-sources, elem-last,
  last-source, Apart, Distinct-split,
}
use tweaking_pintos.LinkedList.Changes.{differs}

-- Without the node between the last of `a ∷ ys` and `n`.
abbrev pub removed : Links → (a : ℕ) (ys : List ℕ) (n : ℕ) → Links
removed s a ys n = record { prev = upd s.prev n (last a ys); next = upd s.next (last a ys) n }

module _ (s : Links) (a : ℕ) (ys : List ℕ) (e n : ℕ) (rest : List ℕ)
    (d : Distinct (a ∷ (ys ++ (e ∷ (n ∷ rest))))) (row : Linked s a (ys ++ (e ∷ (n ∷ rest)))) where
  apart : Apart (a ∷ ys) (e ∷ (n ∷ rest))
  apart = Distinct-split (a ∷ ys) (e ∷ (n ∷ rest)) d

  last-right : elem (last a ys) (e ∷ (n ∷ rest)) ≡ false
  last-right = apart.no_both (last a ys) (elem-last a ys)

  pub Linked-removed : Linked (removed s a ys n) a (ys ++ (n ∷ rest))
  Linked-removed =
      let (l, (np, pe, (ne, pn, r))) = Linked-split s a ys (e ∷ (n ∷ rest)) row in
      Linked-append (removed s a ys n) a ys (n ∷ rest)
        (Linked-frame s (removed s a ys n) a ys
          (λ q h.
            ground (arith, differs q (last a ys) (sources a ys) h (last-source a ys apart.left)))
          (λ q h. ground (arith, apart.no_both q (ground (arith, h)))) l)
        (
          ground arith,
          ground arith,
          Linked-frame s (removed s a ys n) n rest
              (λ q h. ground (
                arith,
                differs q (last a ys) (n ∷ rest) (elem-sources q n rest h)
                    (ground (arith, last-right)),
              ))
              (λ q h. ground (arith, differs q n rest h apart.right.1.0)) r,
        )

  pub list_remove-removed :
      last a ys ≢ null → e ≢ null → n ≢ null → list_remove e s ≡ some (n, removed s a ys n)
  unfolding list_remove
  list_remove-removed np ne nn =
      let (l, (en, pe, (ne', pn, r))) = Linked-split s a ys (e ∷ (n ∷ rest)) row in
      let valid : is_interior e s ≡ true = ground (arith, ne, np, nn, pe, ne') in
      let pe' : (last a ys == e) ≡ false = ground (arith, last-right) in rw (valid, pe, ne', pe')
